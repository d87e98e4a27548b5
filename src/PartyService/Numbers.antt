-- ===== src/PartyService/Numbers.antt =====
-- The number of a party (`allocate_party_number` of apps/api/services/party_service.py), in the tables
-- that a request for a party writes. The audit events of the numbers and of the parties stand in one
-- table.
use film_bill.Base.{
  ℕ, Bool, false, not, Option, none, some, List, [], ◌∷◌, ◌++◌, map, length, if◌then◌else◌,
  ℕ_has_equality,
}
use film_bill.Base.Text.{Text, lit, is_empty}
use film_bill.Http.{Answer, ok, crashed}
use film_bill.Tax.Json.{text}
use film_bill.Audit.Trail.{AuditEvent, Values, diff}
use film_bill.Numbering.Date.{Date, iso_format}
use film_bill.Numbering.Store
use film_bill.Numbering.Allocate.{
  Reply, issued, series_missing, collision, Request, allocate_number,
}
use film_bill.PartyService.Rows.{Party}

pub record PartyStore : Type 0 where
  pub parties : List Party
  pub series : List Store.Series
  pub allocations : List Store.Allocation
  pub trail : List AuditEvent

-- What `allocate_number` works on: its events are the new ones.
abbrev pub numbers_of : PartyStore → Store.Store
numbers_of store = record {
  series = store.series;
  allocations = store.allocations;
  audit_events = [];
}

abbrev pub dated_number : Date × Text → Values
dated_number (date, number) =
    (lit "document_date", text (iso_format date)) ∷ (lit "number", text number) ∷ []

abbrev pub number_audited : List Text
number_audited = lit "document_date" ∷ lit "number" ∷ []

-- The row that `audit.record` adds for an event of `allocate_number`, which acts for the system.
unfoldable pub number_event : ℕ → Store.AuditEvent → AuditEvent
number_event allocation_id e = record {
  company_id = some e.company_id;
  user_id = e.actor;
  entity_type = lit "number_allocations";
  entity_id = some allocation_id;
  action = e.action;
  changes = diff (some (dated_number e.before)) (some (dated_number e.after)) number_audited;
  reason = some e.reason;
  ip = none;
  user_agent = none;
}

-- What `allocate_number` has written. No allocation is ever deleted, and the id of a new one is how many
-- there were.
abbrev pub with_numbers : Store.Store → PartyStore → PartyStore
with_numbers numbers store = record store {
  series = numbers.series;
  allocations = numbers.allocations;
  trail = store.trail ++ map (number_event (length store.allocations)) numbers.audit_events;
}

abbrev pub has_text : Option Text → Bool
has_text none = false
has_text (some s) = not (is_empty s)

unfoldable pub number_series_of : Party → Option Text
number_series_of p =
    if p.is_customer
    then some (lit "customer")
    else if p.is_supplier
    then some (lit "supplier")
    else none

-- What `allocate_number` leaves of the tables and of the party. A collision is caught by nobody.
abbrev pub numbered : Party → PartyStore → Store.Store × Reply → Answer (PartyStore × Party)
numbered p store (numbers, issued plan) =
    ok (with_numbers numbers store, record p { party_number = some plan.number })
numbered p store (numbers, series_missing document_type) = ok (with_numbers numbers store, p)
numbered p store (numbers, collision number) = crashed

abbrev pub party_request : Date → ℕ → Party → Text → Request
party_request today now p document_type = record {
  company_id = p.company_id;
  document_type = document_type;
  document_date = today;
  entity_type = some (lit "parties");
  entity_id = some p.id;
  actor = none;
  now = now;
}

abbrev pub allocate_from : Date → ℕ → PartyStore → Party → Option Text → Answer (PartyStore × Party)
allocate_from today now store p none = ok (store, p)
allocate_from today now store p (some document_type) =
    numbered p store (allocate_number (numbers_of store) (party_request today now p document_type))

unfoldable pub allocate_party_number : Date → ℕ → PartyStore → Party → Answer (PartyStore × Party)
allocate_party_number today now store p =
    if has_text p.party_number
    then ok (store, p)
    else allocate_from today now store p (number_series_of p)
