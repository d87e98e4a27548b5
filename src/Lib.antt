-- ===== src/Lib.antt =====
-- FilmBill, the core logic of the API (apps/api): document numbers, money, the tax that is
-- proposed for a sale, bank account numbers, the parties of an invoice, companies and their
-- members, accounts and their sessions, one-time codes, permissions and the audit trail.
--
-- Python is modelled by pure functions. A `str` is the list of its code points
-- (Base/Text.antt), of which `upper` and `lower` change the ASCII letters; a `datetime.date` is
-- a year, a month and a day; an instant, a UUID and a row key are numbers; `None` is `none`; a
-- `dict` is an association list in insertion order; a `set` is a list. An exception is the
-- constructor of its message in a result type. A table is the list of its rows, and a handler
-- is a function of the tables that it reads and writes, which returns them as they are left.
--
-- Base holds what the modules share: tests and case splits, `==` as an interface (HasEquality),
-- lists, the counting of rows, the methods of `str` that the program calls, decimal digits,
-- integers, the reading of a UUID. Http is what a handler answers: a value, an HTTPException,
-- or another exception, which is answered by a 500 and rolls the request back.
--
-- Numbering: apps/api/services/number_series.py and apps/api/models/number_series.py. Pattern
-- has validate_pattern, validate_padding and format_number; Store the tables and their queries;
-- plan_number and allocate_number have a module each, Plan and Allocate, and the latter returns
-- the store as it is left and a reply; Preview and Seed are preview_number and
-- seed_number_series. The lock on the series row is a call that runs alone, so a history is a
-- list of calls; a call that raises is rolled back by its transaction. The time zone of a
-- company is the argument `today`.
--
-- Money: apps/api/core/money.py. A decimal is a sign, digits and an exponent, or an infinity or
-- a NaN. Decimal has quantize_amount and quantize_qty, Parse is _to_decimal, Format is
-- _serialise.
--
-- Tax: apps/api/billing/tax. Regions, Vocabulary and Rules follow regions.py, vocabulary.py and
-- the choice of a rule in engine.py; Overrides and Engine are the rest of engine.py; Json has
-- the values that a rule is stored as. A sentence of a reason is the constructor of its
-- wording. The rates come from Money, and Rates is format_rate; its fuel is the number itself,
-- which is above the number of its zeros.
--
-- Iban: apps/api/core/iban.py. The fuel of the remainder and of the groups is the number of
-- characters.
--
-- Parties: apps/api/billing/parties/resolver.py. Levels has the data, Resolver is
-- resolve_recipient, Buyer what Tax takes from it (recipient_buyer_type, tax_inputs).
--
-- PartyService: apps/api/services/party_service.py, apps/api/services/tax_id_policy.py and the
-- handlers of apps/api/routers/parties.py that write parties. Rows has the row of a party; Tree
-- is validate_parent, whose walks run on two more than the number of rows, each row being seen
-- once; Changes, Writes and Sentences are the handlers and what they refuse with; Numbers is
-- allocate_party_number, which calls Numbering and puts its event into the audit table that the
-- handlers write; Policy is tax_id_policy.py; Evidence has the numbers of a party and their
-- checks; Chain is build_chain, which goes round four times at most, and hands its levels to
-- Parties.
--
-- TaxIds: the check digits of apps/api/billing/parties/tax_ids.py.
--
-- Permissions: apps/api/services/permissions.py with the roles and memberships of
-- apps/api/models/company.py. A query is its entities and filters, as scoped sees it.
--
-- Accounts: apps/api/models/user.py, apps/api/services/auth_service.py,
-- apps/api/services/invite_service.py, apps/api/middleware/auth.py and
-- apps/api/middleware/account_gate.py. A token is read by the JWT library, which is a
-- parameter: a function from texts to claims. Session and Identity have the current user, Gate
-- the account gate.
--
-- Companies: Access is apps/api/middleware/company.py; Members and BankAccounts are the
-- functions of apps/api/services/company_service.py and the handlers of
-- apps/api/routers/companies.py that write members and bank accounts. Members ends sessions by
-- Accounts, and both write events by Audit.
--
-- Redis: the one-time codes and the rate limits of apps/api/services/redis_service.py and
-- apps/api/middleware/global_rate_limit.py. Server is an interface of the Redis server: the
-- commands that are called, with their documented effect on the entry of a key as named laws;
-- moments are in milliseconds, and the time to live that it answers is rounded to seconds. The
-- tests have a server in memory that fulfils it. The code of the five pools is stated once,
-- over their constants.
--
-- Audit: apps/api/services/audit.py, the redaction and, in Trail, the difference of two states
-- and the writing of an event.
--
-- Not modelled: the handlers of sign-in and of settings, the request schemas beyond the fields
-- that the handlers read, and the web application; mail, files, PDFs and the task queue, which
-- are input and output; the registries that are asked for a VAT ID; the services for tax
-- tables; the case of a Redis server that is unavailable, for which the rate limits let every
-- request through.
pub mod Base
pub mod Http
pub mod Numbering
pub mod Money
pub mod Tax
pub mod Iban
pub mod Parties
pub mod TaxIds
pub mod Permissions
pub mod Audit
pub mod Accounts
pub mod Companies
pub mod Redis
pub mod PartyService
