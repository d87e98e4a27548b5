-- ===== src/Tax.antt =====
-- apps/api/billing/tax: what tax is proposed for a sale, and the vocabulary of its rules.
pub mod Json
pub mod Regions
pub mod Data
pub mod Rules
pub mod Rates
pub mod Overrides
pub mod Engine
pub mod Choice
pub mod Order
pub mod Origin
pub mod Safe
pub mod Precedence
pub mod Places
pub mod Vocabulary
pub mod Matching
pub mod Valid
mod Samples
