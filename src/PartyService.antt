-- ===== src/PartyService.antt =====
-- The parties of a company as rows, and what may be done with them
-- (apps/api/services/party_service.py, with the handlers of apps/api/routers/parties.py that write them).
pub mod Rows
pub mod Tree
pub mod Values
pub mod Sentences
pub mod Changes
pub mod Numbers
pub mod Writes
pub mod Hierarchy
pub mod Place
pub mod Parents
pub mod Requests
pub mod Unaudited
pub mod Policy
pub mod Evidence
pub mod Chain
mod Samples
