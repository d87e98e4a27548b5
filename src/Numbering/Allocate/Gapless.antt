-- ===== src/Numbering/Allocate/Gapless.antt =====
-- The whole store stays gap-free under any calls of `allocate_number`, each of which is committed if
-- it returns and rolled back if it raises.
use film_bill.Base.{
  ◌≡◌, refl, Bool, false, inl, inr, none, some, List, [], ◌∷◌, any, arith, nat_eq, if◌then◌else◌,
  Bool-cases, Option-cases, All, find,
}
use mathlib.Core.Option.{some-injective}
use mathlib.Core.Path.{subst}
use film_bill.Numbering.Date.{period_key}
use film_bill.Numbering.Store.{
  Series, Allocation, Store, serves, highest_in, highest_value_in_period,
}
use film_bill.Numbering.Plan.{NumberPlan, plan_number}
use film_bill.Numbering.Allocate.{
  Request, Reply, issued, series_missing, collision, advance, write_row, conflicts, allocation_of,
  issue, allocate_number,
}
use film_bill.Numbering.Allocate.Runs.{
  times_issued, IsRun-other, highest_in-other, in_period-other_series,
}
use film_bill.Numbering.Allocate.Sequential.{
  IsYearly, IsSequential, advance-id, plan_value-next, advance-IsSequential,
}
use film_bill.Numbering.Allocate.Continuous.{
  times_in_series, IsNever, IsContinuous, plan_value-counter, advance-IsContinuous,
  IsContinuous-other,
}

-- What the allocations say of a series, by its mode.
pub record IsSound (rows : List Allocation) (s : Series) : Type 0 where
  pub yearly : IsYearly s → IsSequential rows s
  pub never : IsNever s → IsContinuous rows s

abbrev pub IsGapless : Store → Type 0
IsGapless db = All (IsSound db.allocations) db.series

All-find :
    (P : Series → Type 0) (p : Series → Bool) (rows : List Series) (s : Series)
    → All P rows
    → find p rows ≡ some s
    → P s
All-find P p [] s h e = cc
All-find P p (r ∷ rows) s (h, hs) e = elim (Bool-cases (p r)) [
  | inl hit ↦ subst P (some-injective _ _ (rw hit at e)) h
  | inr miss ↦ All-find P p rows s hs (rw miss at e)
]

reset-advance : (s : Series) (plan : NumberPlan) → (advance s plan).reset ≡ s.reset
unfolding advance
reset-advance s plan = ground arith

IsSound-other :
    (s : Series) (a : Allocation) (rows : List Allocation)
    → nat_eq a.series_id s.id ≡ false
    → IsSound rows s
    → IsSound (a ∷ rows) s
IsSound-other s a rows away sound = record {
  yearly = λ y.
      let seq = sound.yearly y in
      record {
        runs = λ p. IsRun-other s.id p a rows (in_period-other_series s.id p a away) (seq.runs p);
        counter = λ c e.
            rw (highest_in-other s.id c a rows (in_period-other_series s.id c a away))
              (seq.counter c e);
      };
  never = λ n. IsContinuous-other s a rows away (sound.never n);
}

module _ (db : Store) (r : Request) (s : Series) where
  abbrev the_plan : NumberPlan
  the_plan = plan_number db s r.document_date none none none

  abbrev the_row : Allocation
  the_row = allocation_of r s the_plan

  advance-IsSound :
      IsSound db.allocations s → IsSound (the_row ∷ db.allocations) (advance s the_plan)
  unfolding allocation_of plan_number
  advance-IsSound sound = record {
    yearly = λ y.
        let y' : IsYearly s = rw (reset-advance) at y in
        advance-IsSequential s the_plan the_row db.allocations y' (sound.yearly y') refl refl refl (
          unfold highest_value_in_period in
          plan_value-next db s (period_key r.document_date) y' (sound.yearly y'));
    never = λ n.
        let n' : IsNever s = rw (reset-advance) at n in
        advance-IsContinuous s the_plan the_row db.allocations n' (sound.never n') refl refl
          (plan_value-counter db s (period_key r.document_date) n');
  }

  row-IsSound :
      (t : Series)
      → IsSound db.allocations s
      → IsSound db.allocations t
      → IsSound
          (the_row ∷ db.allocations)
          (if nat_eq t.id (advance s the_plan).id then advance s the_plan else t)
  unfolding allocation_of
  row-IsSound t sound h = elim (Bool-cases (nat_eq t.id (advance s the_plan).id)) [
    | inl same ↦ rw same (advance-IsSound sound)
    | inr other ↦
        rw other (IsSound-other t the_row db.allocations (ground (arith, advance-id s the_plan)) h)
  ]

  write_row-IsSound :
      (rows : List Series)
      → IsSound db.allocations s
      → All (IsSound db.allocations) rows
      → All (IsSound (the_row ∷ db.allocations)) (write_row (advance s the_plan) rows)
  unfolding write_row allocation_of
  write_row-IsSound [] sound h = tt
  write_row-IsSound (t ∷ rows) sound (h, hs) =
      (row-IsSound t sound h, write_row-IsSound rows sound hs)

  clash_raises : (plan : NumberPlan) → collision the_plan.number ≡ issued plan → ⊥
  clash_raises plan e = cc

  -- The step of the invariant, once the series is found.
  issue-IsGapless :
      {plan : NumberPlan}
      → IsSound db.allocations s
      → IsGapless db
      → (issue db r s the_plan).1 ≡ issued plan
      → IsGapless (issue db r s the_plan).0
  unfolding issue
  issue-IsGapless {plan} sound h e = elim (Bool-cases (any (conflicts the_row) db.allocations)) [
    | inl clash ↦ absurd (clash_raises plan (rw clash at e))
    | inr fresh ↦ rw fresh (write_row-IsSound db.series sound h)
  ]

-- An allocation that returns a plan keeps the store gap-free.
pub allocate_number-IsGapless :
    (db : Store) (r : Request) {plan : NumberPlan}
    → IsGapless db
    → (allocate_number db r).1 ≡ issued plan
    → IsGapless (allocate_number db r).0
unfolding allocate_number
allocate_number-IsGapless db r {plan} h e =
    elim (Option-cases (find (serves r.company_id r.document_type) db.series)) [
      | inl nothing ↦ absurd (missing_raises (rw nothing at e))
      | inr (s, found) ↦
          rw found (issue-IsGapless db r s (All-find _ _ db.series s h found) h (rw found at e))
    ]
  where
    missing_raises : series_missing r.document_type ≡ issued plan → ⊥
    missing_raises x = cc

-- A series with nothing issued and its counter at 1.
pub IsSound-fresh : (s : Series) → s.next_value ≡ 1 → IsSound [] s
unfolding times_issued times_in_series highest_in
IsSound-fresh s e = record {
  yearly = λ y. record { runs = λ p v. ground arith; counter = λ c at. e };
  never = λ n. record { started = omega arith; issued = λ v. ground arith };
}

-- The transaction around a call: it commits what returns and rolls back what raises.
unfoldable pub transaction : Store → Store × Reply → Store
transaction db (after, issued plan) = after
transaction db (after, series_missing document_type) = db
transaction db (after, collision number) = db

-- Calls, one after the other.
unfoldable pub serve : List Request → Store → Store
unfolding transaction
serve [] db = db
serve (r ∷ requests) db = serve requests (transaction db (allocate_number db r))

transaction-IsGapless :
    (db : Store) (outcome : Store × Reply)
    → IsGapless db
    → ((plan : NumberPlan) → outcome.1 ≡ issued plan → IsGapless outcome.0)
    → IsGapless (transaction db outcome)
unfolding transaction
transaction-IsGapless db (after, issued plan) h k = k plan refl
transaction-IsGapless db (after, series_missing document_type) h k = h
transaction-IsGapless db (after, collision number) h k = h

-- From a gap-free store, whatever is requested, in whatever order of document dates, the store
-- stays gap-free: in every period of a series that restarts every year, and over the whole of a
-- series that does not, the values issued are 1, 2, … up to the highest, once each. A call that
-- raises is rolled back.
pub serve-IsGapless :
    (requests : List Request) (db : Store) → IsGapless db → IsGapless (serve requests db)
unfolding serve
serve-IsGapless [] db h = h
serve-IsGapless (r ∷ requests) db h =
    serve-IsGapless requests (transaction db (allocate_number db r)) (
      transaction-IsGapless db (allocate_number db r) h
        λ plan e. allocate_number-IsGapless db r h e)
