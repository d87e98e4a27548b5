-- ===== src/Companies.antt =====
-- Companies over HTTP (apps/api/middleware/company.py, apps/api/routers/companies.py and
-- apps/api/services/company_service.py): who may act in a company, its members and its accounts.
pub mod Access
pub mod Members
pub mod BankAccounts
mod Samples
