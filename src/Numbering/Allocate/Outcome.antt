-- ===== src/Numbering/Allocate/Outcome.antt =====
-- What the store is after each outcome of `allocate_number`.
use film_bill.Base.{
  ◌≡◌, ◌⊎◌, inl, inr, ◌+◌, ◌≤◌, true, false, Option, none, some, ◌∷◌, any, find, length, arith,
  Bool-cases,
}
use film_bill.Numbering.Store.{Series, Allocation, Store, active_series}
use film_bill.Numbering.Plan.{NumberPlan, NumberWarning, plan_number}
use film_bill.Numbering.Allocate.{
  Request, Reply, issued, collision, advance, write_row, conflicts, allocation_of, audit_events_of,
  audit_for, is_out_of_order, allocate_for, issue, allocate_number,
}

issue-events :
    (db : Store) (r : Request) (s : Series) (plan : NumberPlan)
    → length (issue db r s plan).0.audit_events ≤ length db.audit_events + 1
unfolding issue audit_events_of audit_for
issue-events db r s plan =
    elim (Bool-cases (any (conflicts (allocation_of r s plan)) db.allocations)) [
      | inl clash ↦ rw clash (omega arith)
      | inr fresh ↦ rw fresh (added (find is_out_of_order plan.warnings))
    ]
  where
    added :
        (o : Option NumberWarning)
        → length (audit_for r plan o db.audit_events) ≤ length db.audit_events + 1
    added none = omega arith
    added (some w) = omega arith

-- A call adds one event at most.
pub allocate_number-events :
    (db : Store) (r : Request)
    → length (allocate_number db r).0.audit_events ≤ length db.audit_events + 1
unfolding allocate_number
allocate_number-events db r = found (active_series db r.company_id r.document_type)
  where
    found :
        (o : Option Series)
        → length (allocate_for db r o).0.audit_events ≤ length db.audit_events + 1
    found none = omega arith
    found (some s) = issue-events db r s (plan_number db s r.document_date none none none)

abbrev pub planned : Store → Request → Series → NumberPlan
planned db r s = plan_number db s r.document_date none none none

abbrev pub row_of : Store → Request → Series → Allocation
row_of db r s = allocation_of r s (planned db r s)

-- The store after the call has issued a number.
abbrev pub after_issue : Store → Request → Series → Store
after_issue db r s = record {
  series = write_row (advance s (planned db r s)) db.series;
  allocations = row_of db r s ∷ db.allocations;
  audit_events = audit_events_of r (planned db r s) db.audit_events;
}

-- The store after a collision: what is written of the series row stays.
abbrev pub after_collision : Store → Request → Series → Store
after_collision db r s = record db { series = write_row (advance s (planned db r s)) db.series }

module _ (db : Store) (r : Request) (s : Series)
    (found : active_series db r.company_id r.document_type ≡ some s) where
  pub allocate_number-found : allocate_number db r ≡ issue db r s (planned db r s)
  unfolding allocate_number
  allocate_number-found = rw found

  pub allocate_number-cases :
      ((any (conflicts (row_of db r s)) db.allocations ≡ false)
        × (allocate_number db r ≡ (after_issue db r s, issued (planned db r s))))
      ⊎ ((any (conflicts (row_of db r s)) db.allocations ≡ true)
          × (allocate_number db r ≡ (after_collision db r s, collision (planned db r s).number)))
  unfolding issue
  allocate_number-cases = elim (Bool-cases (any (conflicts (row_of db r s)) db.allocations)) [
    | inl clash ↦ inr (clash, rw allocate_number-found (rw clash))
    | inr fresh ↦ inl (fresh, rw allocate_number-found (rw fresh))
  ]

  pub allocate_number-issued :
      {plan : NumberPlan}
      → (allocate_number db r).1 ≡ issued plan
      → (plan ≡ planned db r s)
        × (allocate_number db r ≡ (after_issue db r s, issued (planned db r s)))
  allocate_number-issued {plan} e = elim allocate_number-cases [
    | inl (fresh, same) ↦ (cc (ap_reply same), same)
    | inr (clash, same) ↦ absurd (cc (ap_reply same))
  ]
    where
      ap_reply : {x : Store × Reply} → allocate_number db r ≡ x → x.1 ≡ issued plan
      ap_reply p = rw (← p) e
