-- ===== src/Numbering.antt =====
-- apps/api/services/number_series.py and apps/api/models/number_series.py: document numbers.
pub mod Date
pub mod Pattern
pub mod Store
pub mod Plan
pub mod Allocate
pub mod Preview
pub mod Seed
mod Samples
