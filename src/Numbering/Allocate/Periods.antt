-- ===== src/Numbering/Allocate/Periods.antt =====
-- The current period of a series never goes back, and a back-dated document does not move a counter
-- that restarts every year.
use film_bill.Base.{◌≡◌, true, false, ◌⊎◌, some, arith, text_eq, text_eq_iff}
use film_bill.Base.Text.{Text, text_ltb}
use film_bill.Base.Text.Order.{text_ltb_total, text_ltb_asymm}
use film_bill.Numbering.Pattern.{reset_never}
use film_bill.Numbering.Store.{Series}
use film_bill.Numbering.Plan.{NumberPlan}
use film_bill.Numbering.Allocate.{advance}

-- In either mode the row that is written is on the later of its current period and the period of
-- the plan.
pub advance-current_period :
    (s : Series) (plan : NumberPlan) (current : Text)
    → s.current_period ≡ some current
    → ((text_ltb current plan.period ≡ true) × ((advance s plan).current_period ≡ some plan.period))
      ⊎ ((text_ltb current plan.period ≡ false) × ((advance s plan).current_period ≡ some current))
unfolding advance
advance-current_period s plan current e = ground (
  arith,
  text_ltb_total plan.period current,
  text_ltb_asymm current plan.period,
  text_eq_iff plan.period current,
)

-- A document of an earlier period leaves the row of a series that is not continuous as it is.
pub advance-backdated :
    (s : Series) (plan : NumberPlan) (current : Text)
    → text_eq s.reset reset_never ≡ false
    → s.current_period ≡ some current
    → text_ltb plan.period current ≡ true
    → advance s plan ≡ s
unfolding advance
advance-backdated s plan current yearly e before = rw (yearly, e) (rw before)
