-- ===== src/Numbering/Store.antt =====
-- The tables `number_series` and `number_allocations`, the audit rows that this module writes, and
-- the reads that a decision depends on (apps/api/models/number_series.py and "Reading the series'
-- state" of apps/api/services/number_series.py). UUIDs are numbers. The newest row stands first in
-- each table.
use film_bill.Base.{
  ℕ, Bool, false, ◌&&◌, ◌||◌, Option, none, some, List, [], ◌∷◌, ltb, nat_eq, max, if◌then◌else◌,
  text_eq, find,
}
use film_bill.Base.Int.{ℤ}
use film_bill.Base.Text.{Text}
use film_bill.Numbering.Date.{Date, date_ltb}

pub record Series : Type 0 where
  pub id : ℕ
  pub company_id : ℕ
  pub document_type : Text
  pub name : Text
  pub pattern : Text
  pub reset : Text
  pub next_value : ℕ
  pub current_period : Option Text
  pub padding : ℤ
  pub is_active : Bool

pub record Allocation : Type 0 where
  pub company_id : ℕ
  pub series_id : ℕ
  pub period : Text
  pub value : ℕ
  pub number : Text
  pub document_date : Date
  pub allocated_at : ℕ
  pub entity_type : Option Text
  pub entity_id : Option ℕ

-- What `allocate_number` hands to `audit.record`. `actor` is the user, or `none` for the system.
pub record AuditEvent : Type 0 where
  pub company_id : ℕ
  pub actor : Option ℕ
  pub action : Text
  pub before : Date × Text
  pub after : Date × Text
  pub reason : Text

pub record Store : Type 0 where
  pub series : List Series
  pub allocations : List Allocation
  pub audit_events : List AuditEvent

-- The filter of `active_series`. The row lock has no counterpart: a call runs alone.
unfoldable pub serves : ℕ → Text → Series → Bool
serves company document_type s =
    nat_eq s.company_id company && text_eq s.document_type document_type && s.is_active

unfoldable pub active_series : Store → ℕ → Text → Option Series
unfolding serves
active_series db company document_type = find (serves company document_type) db.series

unfoldable pub in_period : ℕ → Text → Allocation → Bool
in_period sid period a = nat_eq a.series_id sid && text_eq a.period period

-- `coalesce(max(value), 0)` over the allocations of the series in the period.
unfoldable pub highest_in : ℕ → Text → List Allocation → ℕ
unfolding in_period
highest_in sid period [] = 0
highest_in sid period (a ∷ rows) =
    if in_period sid period a
    then max a.value (highest_in sid period rows)
    else highest_in sid period rows

unfoldable pub highest_value_in_period : Store → ℕ → Text → ℕ
unfolding highest_in
highest_value_in_period db sid period = highest_in sid period db.allocations

-- `ORDER BY document_date DESC, allocated_at DESC`: `a` stands behind `b`.
unfoldable pub ranks_below : Allocation → Allocation → Bool
unfolding date_ltb
ranks_below a b =
    let same =
      date_ltb a.document_date b.document_date || date_ltb b.document_date a.document_date in
    date_ltb a.document_date b.document_date
    || (if same then false else ltb a.allocated_at b.allocated_at)

abbrev better : Allocation → Option Allocation → Option Allocation
better a none = some a
better a (some b) = if ranks_below a b then some b else some a

unfoldable pub latest_in : ℕ → List Allocation → Option Allocation
unfolding ranks_below
latest_in sid [] = none
latest_in sid (a ∷ rows) =
    let rest = latest_in sid rows in if nat_eq a.series_id sid then better a rest else rest

unfoldable pub latest_allocation : Store → ℕ → Option Allocation
unfolding latest_in
latest_allocation db sid = latest_in sid db.allocations
