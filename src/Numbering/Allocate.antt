-- ===== src/Numbering/Allocate.antt =====
-- `allocate_number`: takes the next number in the caller's transaction. The store is what the
-- transaction sees; that a caller which rolls back keeps the store it began with is the database's.
pub mod Outcome
pub mod Runs
pub mod Sequential
pub mod Continuous
pub mod Gapless
pub mod Counters
pub mod OutOfOrder
pub mod Periods
pub mod Collisions
use film_bill.Base.{
  ℕ, ◌+◌, Bool, true, false, not, ◌&&◌, ◌||◌, Option, none, some, List, [], ◌∷◌, nat_eq,
  if◌then◌else◌, text_eq, map, any, find,
}
use film_bill.Base.Text.{Text, lit, text_ltb}
use film_bill.Numbering.Date.{Date}
use film_bill.Numbering.Pattern.{reset_never}
use film_bill.Numbering.Store.{Series, Allocation, AuditEvent, Store, active_series, in_period}
use film_bill.Numbering.Plan.{NumberWarning, NumberPlan, out_of_order, plan_number}

-- The arguments of a call. `now` is the database's `now()`, `actor` the acting user if there is one.
pub record Request : Type 0 where
  pub company_id : ℕ
  pub document_type : Text
  pub document_date : Date
  pub entity_type : Option Text
  pub entity_id : Option ℕ
  pub actor : Option ℕ
  pub now : ℕ

-- NumberSeriesMissing and NumberCollision are the exceptions that it raises.
pub data Reply : Type 0 where
  issued : NumberPlan → Reply
  series_missing : Text → Reply
  collision : Text → Reply

-- Whether the document's period is later than the series' current one.
abbrev pub is_later : Text → Option Text → Bool
is_later period none = true
is_later period (some current) = text_ltb current period

-- `current_period is None or period >= current_period`
abbrev pub is_not_earlier : Text → Option Text → Bool
is_not_earlier period none = true
is_not_earlier period (some current) = not (text_ltb period current)

-- The write to the series row. The counter moves for the current period only.
unfoldable pub advance : Series → NumberPlan → Series
advance s plan =
    if text_eq s.reset reset_never
    then record s {
      next_value = plan.value + 1;
      current_period =
          if is_later plan.period s.current_period then some plan.period else s.current_period;
    }
    else if is_not_earlier plan.period s.current_period
    then record s { current_period = some plan.period; next_value = plan.value + 1 }
    else s

-- The row of the series `s` in a table is replaced by `s`.
unfoldable pub write_row : Series → List Series → List Series
write_row s rows = map (λ r. if nat_eq r.id s.id then s else r) rows

-- A row breaks one of the two unique constraints of `number_allocations`.
unfoldable pub conflicts : Allocation → Allocation → Bool
unfolding in_period
conflicts a b =
    (nat_eq b.series_id a.series_id && text_eq b.number a.number)
    || (in_period a.series_id a.period b && nat_eq b.value a.value)

unfoldable pub allocation_of : Request → Series → NumberPlan → Allocation
allocation_of r s plan = record {
  company_id = r.company_id;
  series_id = s.id;
  period = plan.period;
  value = plan.value;
  number = plan.number;
  document_date = r.document_date;
  allocated_at = r.now;
  entity_type = r.entity_type;
  entity_id = r.entity_id;
}

abbrev pub is_out_of_order : NumberWarning → Bool
is_out_of_order w = text_eq w.code out_of_order

unfoldable pub audit_of : Request → NumberPlan → NumberWarning → AuditEvent
audit_of r plan w = record {
  company_id = r.company_id;
  actor = r.actor;
  action = lit "number.out_of_order";
  before = (w.latest_document_date, w.latest_number);
  after = (r.document_date, plan.number);
  reason = w.message;
}

unfoldable pub audit_for :
    Request → NumberPlan → Option NumberWarning → List AuditEvent → List AuditEvent
unfolding audit_of
audit_for r plan none events = events
audit_for r plan (some w) events = audit_of r plan w ∷ events

-- The event for an out-of-order date, if the plan warns of one.
unfoldable pub audit_events_of : Request → NumberPlan → List AuditEvent → List AuditEvent
unfolding audit_for
audit_events_of r plan events = audit_for r plan (find is_out_of_order plan.warnings) events

-- What is written once a series is found. The series row is flushed before the savepoint opens, so
-- a collision undoes the allocation alone.
unfoldable pub issue : Store → Request → Series → NumberPlan → Store × Reply
unfolding advance write_row conflicts allocation_of audit_events_of
issue db r s plan =
    let row = allocation_of r s plan in
    let flushed = record db { series = write_row (advance s plan) db.series } in
    if any (conflicts row) db.allocations then (flushed, collision plan.number) else (
      record flushed {
        allocations = row ∷ db.allocations;
        audit_events = audit_events_of r plan db.audit_events;
      },
      issued plan,
    )

unfoldable pub allocate_for : Store → Request → Option Series → Store × Reply
unfolding issue
allocate_for db r none = (db, series_missing r.document_type)
allocate_for db r (some s) = issue db r s (plan_number db s r.document_date none none none)

unfoldable pub allocate_number : Store → Request → Store × Reply
unfolding allocate_for active_series
allocate_number db r = allocate_for db r (active_series db r.company_id r.document_type)
