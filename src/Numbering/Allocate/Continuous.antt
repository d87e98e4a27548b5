-- ===== src/Numbering/Allocate/Continuous.antt =====
-- The invariant of a series that never restarts, and that the next allocation keeps it.
use film_bill.Base.{
  ℕ, ◌+◌, ◌-◌, ◌≤◌, ◌≡◌, true, false, ◌&&◌, List, [], ◌∷◌, arith, nat_eq, if◌then◌else◌, text_eq,
  text_eq_iff,
}
use film_bill.Base.Text.{Text, lit}
use film_bill.Numbering.Pattern.{reset_yearly, reset_never}
use film_bill.Numbering.Store.{Series, Allocation, Store}
use film_bill.Numbering.Plan.{NumberPlan, plan_value}
use film_bill.Numbering.Allocate.{advance}
use film_bill.Numbering.Allocate.Runs.{once_up_to}

abbrev pub IsNever : Series → Type 0
IsNever s = text_eq s.reset reset_never ≡ true

-- How often a value has been issued by a series, in whatever period.
unfoldable pub times_in_series : ℕ → ℕ → List Allocation → ℕ
times_in_series sid v [] = 0
times_in_series sid v (a ∷ rows) =
    (if nat_eq a.series_id sid && nat_eq a.value v then 1 else 0) + times_in_series sid v rows

-- The values below the counter have been issued once each, and no others.
pub record IsContinuous (rows : List Allocation) (s : Series) : Type 0 where
  pub started : 1 ≤ s.next_value
  pub issued : (v : ℕ) → times_in_series s.id v rows ≡ once_up_to (s.next_value - 1) v

never-yearly : (s : Series) → IsNever s → text_eq s.reset reset_yearly ≡ false
unfolding lit text_eq
never-yearly s never = rw ((text_eq_iff s.reset reset_never).0 never)

pub plan_value-counter :
    (db : Store) (s : Series) (period : Text)
    → IsNever s
    → (plan_value db s s.reset period).0 ≡ s.next_value
unfolding plan_value
plan_value-counter db s period never = ground (arith, never-yearly s never)

module _ (s : Series) (plan : NumberPlan) (a : Allocation) (rows : List Allocation)
    (never : IsNever s) (run : IsContinuous rows s) (own : a.series_id ≡ s.id)
    (taken : a.value ≡ plan.value) (next : plan.value ≡ s.next_value) where
  pub advance-IsContinuous : IsContinuous (a ∷ rows) (advance s plan)
  unfolding advance times_in_series
  advance-IsContinuous = record {
    started = ground arith;
    issued = λ v. ground (arith, run.issued v, run.started);
  }

pub IsContinuous-other :
    (s : Series) (a : Allocation) (rows : List Allocation)
    → nat_eq a.series_id s.id ≡ false
    → IsContinuous rows s
    → IsContinuous (a ∷ rows) s
unfolding times_in_series
IsContinuous-other s a rows away run = record {
  started = run.started;
  issued = λ v. ground (arith, run.issued v);
}
