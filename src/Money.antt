-- ===== src/Money.antt =====
-- apps/api/core/money.py: money and quantities.
pub mod Decimal
pub mod Rounding
pub mod Format
pub mod Parse
pub mod Plain
pub mod Accepted
pub mod RoundTrip
mod Samples
