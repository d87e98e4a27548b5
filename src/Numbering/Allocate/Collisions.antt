-- ===== src/Numbering/Allocate/Collisions.antt =====
-- What a call that raises leaves behind.
use film_bill.Base.{
  ℕ, ◌+◌, ◌≡◌, refl, ◌∙◌, ◌⊎◌, inl, inr, Bool, true, false, ◌&&◌, ◌||◌, some, List, [], ◌∷◌, any,
  arith, Bool-cases, text_eq, nat_eq,
}
use film_bill.Base.Text.{Text}
use film_bill.Numbering.Date.{period_key}
use film_bill.Numbering.Store.{
  Series, Allocation, Store, active_series, in_period, highest_value_in_period,
}
use film_bill.Numbering.Plan.{NumberPlan, plan_number}
use film_bill.Numbering.Allocate.{
  Request, issued, collision, advance, is_not_earlier, conflicts, allocation_of, allocate_number,
}
use film_bill.Numbering.Allocate.Outcome.{planned, row_of, after_collision, allocate_number-cases}
use film_bill.Numbering.Allocate.Runs.{times_issued}
use film_bill.Numbering.Allocate.Sequential.{IsYearly, plan_value-next, yearly-never}
use film_bill.Numbering.Allocate.Continuous.{IsNever, times_in_series, plan_value-counter}
use film_bill.Numbering.Allocate.Gapless.{IsSound}

-- Whether the series has issued a number before.
pub has_issued : ℕ → Text → List Allocation → Bool
has_issued sid number = any (λ b. nat_eq b.series_id sid && text_eq b.number number)

-- Whether a value is taken, by `unique (series_id, period, value)`.
pub takes_value : ℕ → Text → ℕ → List Allocation → Bool
takes_value sid period v = any (λ b. in_period sid period b && nat_eq b.value v)

any-conflicts :
    (a : Allocation) (rows : List Allocation)
    → any (conflicts a) rows
      ≡ (has_issued a.series_id a.number rows || takes_value a.series_id a.period a.value rows)
unfolding conflicts has_issued takes_value
any-conflicts a [] = refl
any-conflicts a (b ∷ rows) = ground (arith, any-conflicts a rows)

takes_value-unissued :
    (sid : ℕ) (period : Text) (v : ℕ) (rows : List Allocation)
    → times_issued sid period v rows ≡ 0
    → takes_value sid period v rows ≡ false
unfolding takes_value times_issued
takes_value-unissued sid period v [] e = refl
takes_value-unissued sid period v (b ∷ rows) e =
    ground (arith, takes_value-unissued sid period v rows)

takes_value-unused :
    (sid : ℕ) (period : Text) (v : ℕ) (rows : List Allocation)
    → times_in_series sid v rows ≡ 0
    → takes_value sid period v rows ≡ false
unfolding takes_value times_in_series in_period
takes_value-unused sid period v [] e = refl
takes_value-unused sid period v (b ∷ rows) e = ground (arith, takes_value-unused sid period v rows)

or_false : (b : Bool) → (b || false) ≡ b
or_false true = refl
or_false false = refl

-- What is written of the series row: a continuous series counts past the planned value, and so does a
-- yearly one unless its current period is later, when the row stays as it is.
abbrev pub Advanced : Series → NumberPlan → Type 0
Advanced s plan =
    (IsNever s × ((advance s plan).next_value ≡ plan.value + 1))
    ⊎ (IsYearly s
        × (is_not_earlier plan.period s.current_period ≡ true)
        × ((advance s plan).next_value ≡ plan.value + 1)
        × ((advance s plan).current_period ≡ some plan.period))
    ⊎ (IsYearly s × (is_not_earlier plan.period s.current_period ≡ false) × (advance s plan ≡ s))

advance-Advanced : (s : Series) (plan : NumberPlan) → IsYearly s ⊎ IsNever s → Advanced s plan
unfolding advance
advance-Advanced s plan (inr never) = inl (never, rw never refl)
advance-Advanced s plan (inl yearly) =
    let moves = yearly-never s yearly in
    elim (Bool-cases (is_not_earlier plan.period s.current_period)) [
      | inl same ↦ inr (inl (yearly, same, rw (moves, same) refl, rw (moves, same) refl))
      | inr earlier ↦ inr (inr (yearly, earlier, rw (moves, earlier) refl))
    ]

module _ (db : Store) (r : Request) (s : Series) (sound : IsSound db.allocations s) where
  -- In a gap-free store the planned value is free.
  value_free :
      IsYearly s ⊎ IsNever s
      → takes_value s.id (period_key r.document_date) (planned db r s).value db.allocations ≡ false
  unfolding plan_number highest_value_in_period
  value_free (inl yearly) =
      let seq = sound.yearly yearly in
      let next = plan_value-next db s (period_key r.document_date) yearly seq in
      takes_value-unissued s.id _ _ db.allocations
        (rw (seq.runs (period_key r.document_date) (planned db r s).value) (ground (arith, next)))
  value_free (inr never) =
      let run = sound.never never in
      let next = plan_value-counter db s (period_key r.document_date) never in
      takes_value-unused s.id _ _ db.allocations
        (rw (run.issued (planned db r s).value) (ground (arith, next, run.started)))

  conflict-eq-has_issued :
      IsYearly s ⊎ IsNever s
      → any (conflicts (row_of db r s)) db.allocations
        ≡ has_issued s.id (planned db r s).number db.allocations
  unfolding allocation_of plan_number
  conflict-eq-has_issued mode =
      any-conflicts (row_of db r s) db.allocations ∙ rw (value_free mode) (or_false _)

  -- On a gap-free series, yearly or continuous, a call either issues the planned number, and
  -- the series has not issued it before, or raises the collision, and the series has issued it
  -- before. A collision leaves the allocations and the audit log alone, while the series row is
  -- written: it counts past the planned value, unless the series is yearly and its current period is
  -- later than the document's, when the row stays as it is.
  pub allocate_number-collision :
      active_series db r.company_id r.document_type ≡ some s
      → IsYearly s ⊎ IsNever s
      → let number = (planned db r s).number in
        ((has_issued s.id number db.allocations ≡ false)
          × ((allocate_number db r).1 ≡ issued (planned db r s)))
        ⊎ ((has_issued s.id number db.allocations ≡ true)
            × (allocate_number db r ≡ (after_collision db r s, collision number))
            × Advanced s (planned db r s))
  allocate_number-collision found mode = elim (allocate_number-cases db r s found) [
    | inl (fresh, e) ↦ inl (rw (← conflict-eq-has_issued mode) fresh, rw e)
    | inr (clash, e) ↦
        inr (rw (← conflict-eq-has_issued mode) clash, e, advance-Advanced s (planned db r s) mode)
  ]
