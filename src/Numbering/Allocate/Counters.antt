-- ===== src/Numbering/Allocate/Counters.antt =====
-- The specification of a series that restarts every year, a counter for each period, and that an
-- allocation implements it.
use film_bill.Base.{
  ℕ, ◌+◌, ◌≡◌, refl, ◌&&◌, some, List, ◌∷◌, arith, nat_eq, if◌then◌else◌, text_eq, text_eq_iff,
}
use film_bill.Base.Text.{Text}
use film_bill.Numbering.Date.{period_key}
use film_bill.Numbering.Store.{
  Series, Allocation, Store, active_series, in_period, highest_in, highest_value_in_period,
}
use film_bill.Numbering.Plan.{NumberPlan, plan_number}
use film_bill.Numbering.Allocate.{Request, issued, allocation_of, allocate_number}
use film_bill.Numbering.Allocate.Outcome.{planned, row_of, allocate_number-issued}
use film_bill.Numbering.Allocate.Runs.{times_issued}
use film_bill.Numbering.Allocate.Sequential.{IsYearly, IsSequential, plan_value-next}

-- How many documents each series has numbered in each period.
abbrev pub Counters : Type 0
Counters = ℕ → Text → ℕ

-- Taking a number: one counter goes up by one, and the others stay.
unfoldable pub count_up : ℕ → Text → Counters → Counters
count_up sid period c t p = if nat_eq t sid && text_eq p period then c t p + 1 else c t p

unfoldable pub counters_of : Store → Counters
unfolding highest_value_in_period
counters_of db sid period = highest_value_in_period db sid period

highest_in-count_up :
    (a : Allocation) (rows : List Allocation) (sid : ℕ) (period : Text)
    → a.value ≡ highest_in a.series_id a.period rows + 1
    → highest_in sid period (a ∷ rows) ≡ (
        if nat_eq sid a.series_id && text_eq period a.period
        then highest_in sid period rows + 1
        else highest_in sid period rows)
unfolding highest_in in_period
highest_in-count_up a rows sid period next =
    ground (arith, text_eq_iff period a.period, text_eq_iff a.period period)

module _ (db : Store) (r : Request) (s : Series) {plan : NumberPlan} (yearly : IsYearly s)
    (seq : IsSequential db.allocations s)
    (found : active_series db r.company_id r.document_type ≡ some s)
    (done : (allocate_number db r).1 ≡ issued plan) where
  next_value : (planned db r s).value ≡ counters_of db s.id (period_key r.document_date) + 1
  unfolding plan_number counters_of
  next_value = plan_value-next db s (period_key r.document_date) yearly seq

  unused : times_issued s.id (period_key r.document_date) (planned db r s).value db.allocations ≡ 0
  unfolding counters_of
  unused =
      rw (seq.runs (period_key r.document_date) (planned db r s).value) (ground (arith, next_value))

  moved :
      (sid : ℕ) (period : Text)
      → highest_in sid period (row_of db r s ∷ db.allocations)
        ≡ count_up s.id (period_key r.document_date) (counters_of db) sid period
  unfolding count_up counters_of allocation_of plan_number
  moved sid period = highest_in-count_up (row_of db r s) db.allocations sid period next_value

  -- A call that issues a number from a yearly series with sequential allocations implements
  -- the specification, a counter for each period: the plan is for the period of the document,
  -- holds one more than that period’s counter, a value the period has not issued, and moves
  -- this counter alone.
  pub allocate_number-refines :
      (plan.period ≡ period_key r.document_date)
      × (plan.value ≡ counters_of db s.id plan.period + 1)
      × (times_issued s.id plan.period plan.value db.allocations ≡ 0)
      × ((sid : ℕ) (period : Text)
          → counters_of (allocate_number db r).0 sid period
            ≡ count_up s.id plan.period (counters_of db) sid period)
  unfolding plan_number
  allocate_number-refines =
      let (e, after) = allocate_number-issued db r s found done in
      rw (e, after) (refl, next_value, unused, unfold counters_of in moved)
