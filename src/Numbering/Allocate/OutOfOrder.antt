-- ===== src/Numbering/Allocate/OutOfOrder.antt =====
-- The warning for a date before the latest one, and its trace in the audit log.
use film_bill.Base.{
  ℕ, ◌≡◌, refl, ◌∙◌, ap, Bool, true, false, ◌&&◌, ◌||◌, Option, none, some, List, [], ◌∷◌, any,
  arith, nat_eq, if◌then◌else◌, text_eq_iff, Bool-cases, Option-cases, ◌⊎◌, inl, inr, find,
}
use film_bill.Numbering.Date.{Date, date_ltb}
use film_bill.Numbering.Store.{
  Series, Allocation, AuditEvent, Store, active_series, ranks_below, latest_in, latest_allocation,
}
use film_bill.Numbering.Plan.{NumberWarning, NumberPlan, out_of_order, order_warnings, plan_number}
use film_bill.Numbering.Allocate.{
  Request, issued, is_out_of_order, audit_of, audit_for, audit_events_of, allocate_number,
}
use film_bill.Numbering.Allocate.Outcome.{planned, allocate_number-issued}

-- Whether the series has numbered a document of a later date.
pub dated_later : ℕ → Date → List Allocation → Bool
dated_later sid date = any (λ a. nat_eq a.series_id sid && date_ltb date a.document_date)

abbrev later_than : Date → Option Allocation → Bool
later_than date none = false
later_than date (some a) = date_ltb date a.document_date

date_ltb_trans : (a b c : Date) → date_ltb a b ≡ true → date_ltb b c ≡ true → date_ltb a c ≡ true
unfolding date_ltb
date_ltb_trans a b c h k = ground arith

date_ltb-weak : (a b c : Date) → date_ltb a b ≡ true → date_ltb c b ≡ false → date_ltb a c ≡ true
unfolding date_ltb
date_ltb-weak a b c h k = ground arith

-- The better of a row and the best of the rest is dated later than `date` if one of the two is.
later-better :
    (date : Date) (a b : Allocation)
    → date_ltb date (if ranks_below a b then b else a).document_date
      ≡ (date_ltb date a.document_date || date_ltb date b.document_date)
unfolding ranks_below
later-better date a b = ground (
  arith,
  date_ltb_trans date a.document_date b.document_date,
  date_ltb-weak date b.document_date a.document_date,
  date_ltb-weak date a.document_date b.document_date,
)

latest_in-dated_later :
    (sid : ℕ) (date : Date) (rows : List Allocation)
    → later_than date (latest_in sid rows) ≡ dated_later sid date rows
unfolding latest_in dated_later
latest_in-dated_later sid date [] = refl
latest_in-dated_later sid date (a ∷ rows) = elim (Option-cases (latest_in sid rows)) [
  | inl nothing ↦ ground (arith, latest_in-dated_later sid date rows)
  | inr (b, found) ↦ ground (arith, latest_in-dated_later sid date rows, later-better date a b)
]

order_warnings-cases :
    (date : Date) (latest : Option Allocation)
    → ((later_than date latest ≡ false) × (order_warnings date latest ≡ []))
      ⊎ ((later_than date latest ≡ true)
          × ((w : NumberWarning) × (order_warnings date latest ≡ w ∷ []) × (w.code ≡ out_of_order)))
unfolding order_warnings
order_warnings-cases date none = inl (refl, refl)
order_warnings-cases date (some a) = elim (Bool-cases (date_ltb date a.document_date)) [
  | inl before ↦ inr (before, rw before (_, refl, refl))
  | inr after ↦ inl (after, rw after)
]

-- The audit log of a call that has issued `plan`.
abbrev pub Unwarned : NumberPlan → List AuditEvent → List AuditEvent → Type 0
Unwarned plan before after = (plan.warnings ≡ []) × (after ≡ before)

-- One warning, and one new event that names the document and repeats the warning.
abbrev pub Warned : Request → NumberPlan → List AuditEvent → List AuditEvent → Type 0
Warned r plan before after =
    (w : NumberWarning) × (plan.warnings ≡ w ∷ [])
    × (w.code ≡ out_of_order)
    × (after ≡ audit_of r plan w ∷ before)

find-warning : (w : NumberWarning) → w.code ≡ out_of_order → find is_out_of_order (w ∷ []) ≡ some w
find-warning w e = ground (arith, text_eq_iff w.code out_of_order)

events_for :
    (r : Request) (plan : NumberPlan) (events : List AuditEvent)
    → audit_events_of r plan events ≡ audit_for r plan (find is_out_of_order plan.warnings) events
unfolding audit_events_of
events_for r plan events = refl

events_found :
    (r : Request) (plan : NumberPlan) (events : List AuditEvent) {ws : List NumberWarning}
    → plan.warnings ≡ ws
    → audit_events_of r plan events ≡ audit_for r plan (find is_out_of_order ws) events
events_found r plan events {ws} p =
    events_for r plan events
    ∙ ap (λ (xs : List NumberWarning). audit_for r plan (find is_out_of_order xs) events) p

Warned-cases :
    (r : Request) (plan : NumberPlan) (events : List AuditEvent) (date : Date)
    (latest : Option Allocation)
    → plan.warnings ≡ order_warnings date latest
    → ((later_than date latest ≡ false) × Unwarned plan events (audit_events_of r plan events))
      ⊎ ((later_than date latest ≡ true) × Warned r plan events (audit_events_of r plan events))
unfolding audit_for
Warned-cases r plan events date latest e = elim (order_warnings-cases date latest) [
  | inl (fine, empty) ↦ inl (fine, (e ∙ empty, events_found r plan events (e ∙ empty)))
  | inr (late, (w, one, code)) ↦
      inr
        (late, (w, e ∙ one, code, events_found r plan events (e ∙ one) ∙ rw (find-warning w code)))
]

-- A number for a document that is dated before another of its series is issued with one warning
-- and adds one event, which repeats it, to the audit log; any other number is issued with no
-- warning and leaves the log alone.
pub allocate_number-audit :
    (db : Store) (r : Request) (s : Series) {plan : NumberPlan}
    → active_series db r.company_id r.document_type ≡ some s
    → (allocate_number db r).1 ≡ issued plan
    → let after = (allocate_number db r).0.audit_events in
      ((dated_later s.id r.document_date db.allocations ≡ false)
        × Unwarned plan db.audit_events after)
      ⊎ ((dated_later s.id r.document_date db.allocations ≡ true)
          × Warned r plan db.audit_events after)
unfolding plan_number latest_allocation
allocate_number-audit db r s found done =
    let (e, after) = allocate_number-issued db r s found done in
    rw (e, after, ← latest_in-dated_later)
      (Warned-cases r (planned db r s) db.audit_events r.document_date
        (latest_in s.id db.allocations) refl)
