-- ===== src/Numbering/Allocate/Sequential.antt =====
-- The invariant of a series that restarts every year, and that the next allocation keeps it.
use film_bill.Base.{
  ℕ, ◌+◌, ◌≡◌, refl, sym, ap, ◌∙◌, true, false, inl, inr, Option, none, some, List, ◌∷◌, arith,
  text_eq, text_eq_iff, Bool-cases,
}
use film_bill.Base.Text.{Text, lit, text_ltb}
use film_bill.Base.Text.Order.{text_ltb_total, text_ltb_ne}
use film_bill.Numbering.Pattern.{reset_yearly, reset_never}
use film_bill.Numbering.Store.{
  Series, Allocation, Store, in_period, highest_in, highest_value_in_period,
}
use film_bill.Numbering.Plan.{NumberPlan, yearly_value, plan_value}
use film_bill.Numbering.Allocate.{advance}
use film_bill.Numbering.Allocate.Runs.{
  IsRun, IsRun-other, IsRun-next, highest_in-other, highest_in-next, in_period_self,
  in_period-other_period,
}

abbrev pub IsYearly : Series → Type 0
IsYearly s = text_eq s.reset reset_yearly ≡ true

-- Every period is a run, and the counter stands one behind the current period's highest value.
pub record IsSequential (rows : List Allocation) (s : Series) : Type 0 where
  pub runs : (period : Text) → IsRun s.id period rows
  pub counter :
      (current : Text)
      → s.current_period ≡ some current
      → s.next_value ≡ highest_in s.id current rows + 1

pub yearly_value-next :
    (period : Text) (current : Option Text) (next highest : ℕ)
    → ((c : Text) → current ≡ some c → text_eq period c ≡ true → next ≡ highest + 1)
    → (yearly_value period current next highest).0 ≡ highest + 1
unfolding yearly_value
yearly_value-next period none next highest h = refl
yearly_value-next period (some c) next highest h = ground (arith, h c refl, text_ltb_total period c)

-- The value that is planned is one more than the highest of the document's period, whether the
-- period is new, current or closed.
pub plan_value-next :
    (db : Store) (s : Series) (period : Text)
    → IsYearly s
    → IsSequential db.allocations s
    → (plan_value db s s.reset period).0 ≡ highest_value_in_period db s.id period + 1
unfolding plan_value highest_value_in_period
plan_value-next db s period yearly seq = rw yearly (
    yearly_value-next period s.current_period s.next_value (highest_in s.id period db.allocations)
      λ c at same.
        seq.counter c at
        ∙ ap (λ (p : Text). highest_in s.id p db.allocations + 1)
            (sym ((text_eq_iff period c).0 same)))

-- A series that restarts every year is not one that never does.
pub yearly-never : (s : Series) → IsYearly s → text_eq s.reset reset_never ≡ false
unfolding lit text_eq
yearly-never s yearly = rw ((text_eq_iff s.reset reset_yearly).0 yearly)

pub advance-id : (s : Series) (plan : NumberPlan) → (advance s plan).id ≡ s.id
unfolding advance
advance-id s plan = ground arith

module _ (s : Series) (plan : NumberPlan) (a : Allocation) (rows : List Allocation)
    (yearly : IsYearly s) (seq : IsSequential rows s) (own : a.series_id ≡ s.id)
    (at : a.period ≡ plan.period) (taken : a.value ≡ plan.value)
    (next : plan.value ≡ highest_in s.id plan.period rows + 1) where
  here : in_period s.id plan.period a ≡ true
  here = in_period_self s.id plan.period a own at

  here_next : a.value ≡ highest_in s.id plan.period rows + 1
  here_next = taken ∙ next

  runs_after : (period : Text) → IsRun s.id period (a ∷ rows)
  runs_after period = elim (Bool-cases (text_eq plan.period period)) [
    | inl same ↦
        rw (← (text_eq_iff plan.period period).0 same)
          (IsRun-next s.id plan.period a rows here here_next (seq.runs plan.period))
    | inr other ↦
        IsRun-other s.id period a rows (in_period-other_period s.id period a (rw at other))
          (seq.runs period)
  ]

  counter_moved : highest_in s.id plan.period (a ∷ rows) ≡ plan.value
  counter_moved = highest_in-next s.id plan.period a rows here here_next ∙ sym next

  -- The counter of a series whose current period is later than the document's.
  counter_kept :
      (current : Text)
      → s.current_period ≡ some current
      → text_ltb plan.period current ≡ true
      → s.next_value ≡ highest_in s.id current (a ∷ rows) + 1
  counter_kept current e earlier =
      rw
        (highest_in-other s.id current a rows
          (in_period-other_period s.id current a (rw at (text_ltb_ne plan.period current earlier))))
        (seq.counter current e)

  counter_after :
      (current : Text)
      → (advance s plan).current_period ≡ some current
      → (advance s plan).next_value ≡ highest_in s.id current (a ∷ rows) + 1
  unfolding advance
  counter_after current e =
      ground (arith, yearly-never s yearly, counter_moved, counter_kept current)

  pub advance-IsSequential : IsSequential (a ∷ rows) (advance s plan)
  advance-IsSequential = record {
    runs = λ period. rw advance-id (runs_after period);
    counter = λ current e. rw advance-id (counter_after current e);
  }
