-- ===== src/Numbering/Allocate/Runs.antt =====
-- A run: in one period of one series the values 1, 2, … up to the highest are issued once each.
use film_bill.Base.{
  ℕ, ◌+◌, ◌≡◌, true, false, ◌&&◌, List, [], ◌∷◌, arith, leb, nat_eq, if◌then◌else◌, text_eq,
  text_eq_iff,
}
use film_bill.Base.Text.{Text}
use film_bill.Numbering.Store.{Allocation, in_period, highest_in}

-- How often a value has been issued in a period of a series.
unfoldable pub times_issued : ℕ → Text → ℕ → List Allocation → ℕ
times_issued sid period v [] = 0
times_issued sid period v (a ∷ rows) =
    (if in_period sid period a && nat_eq a.value v then 1 else 0) + times_issued sid period v rows

-- 1 for the values from 1 to `top`, and 0 for all others.
abbrev pub once_up_to : ℕ → ℕ → ℕ
once_up_to top v = if leb 1 v && leb v top then 1 else 0

abbrev pub IsRun : ℕ → Text → List Allocation → Type 0
IsRun sid period rows =
    (v : ℕ) → times_issued sid period v rows ≡ once_up_to (highest_in sid period rows) v

module _ (sid : ℕ) (period : Text) (a : Allocation) (rows : List Allocation) where
  -- A row of another series, or of another period, changes nothing.
  pub IsRun-other :
      in_period sid period a ≡ false → IsRun sid period rows → IsRun sid period (a ∷ rows)
  unfolding times_issued highest_in
  IsRun-other away run v = ground (arith, run v)

  pub highest_in-other :
      in_period sid period a ≡ false → highest_in sid period (a ∷ rows) ≡ highest_in sid period rows
  unfolding highest_in
  highest_in-other away = ground arith

  -- The next value prolongs the run.
  pub IsRun-next :
      in_period sid period a ≡ true
      → a.value ≡ highest_in sid period rows + 1
      → IsRun sid period rows
      → IsRun sid period (a ∷ rows)
  unfolding times_issued highest_in
  IsRun-next here next run v = ground (arith, run v)

  pub highest_in-next :
      in_period sid period a ≡ true
      → a.value ≡ highest_in sid period rows + 1
      → highest_in sid period (a ∷ rows) ≡ highest_in sid period rows + 1
  unfolding highest_in
  highest_in-next here next = ground arith

pub in_period_self :
    (sid : ℕ) (period : Text) (a : Allocation)
    → a.series_id ≡ sid
    → a.period ≡ period
    → in_period sid period a ≡ true
unfolding in_period
in_period_self sid period a e p = ground (arith, text_eq_iff a.period period)

pub in_period-other_series :
    (sid : ℕ) (period : Text) (a : Allocation)
    → nat_eq a.series_id sid ≡ false
    → in_period sid period a ≡ false
unfolding in_period
in_period-other_series sid period a e = ground arith

pub in_period-other_period :
    (sid : ℕ) (period : Text) (a : Allocation)
    → text_eq a.period period ≡ false
    → in_period sid period a ≡ false
unfolding in_period
in_period-other_period sid period a e = ground arith
