-- ===== src/Parties.antt =====
-- apps/api/billing/parties: what a document takes from a party and those above it.
pub mod Levels
pub mod Resolver
pub mod Buyer
mod Samples
