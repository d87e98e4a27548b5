-- ===== src/Numbering/Preview.antt =====
-- `preview_number`: the number that would be issued under settings that are not saved yet. `today`
-- is the current day in the company's time zone.
use film_bill.Base.{◌≡◌, false, Option, none, some, [], or_else}
use film_bill.Base.Int.{ℤ}
use film_bill.Base.Text.{Text}
use film_bill.Numbering.Date.{Date, period_key}
use film_bill.Numbering.Pattern.{
  Result, ok, ◌>>◌, validate_pattern, validate_padding, format_number,
}
use film_bill.Numbering.Store.{Series, Store, active_series}
use film_bill.Numbering.Plan.{NumberPlan, plan_number}
use film_bill.Numbering.Allocate.{Request, issued, allocate_number}
use film_bill.Numbering.Allocate.Outcome.{allocate_number-issued}

unfoldable pub preview_plan : Store → Option Series → Text → ℤ → Text → Date → NumberPlan
preview_plan db none pattern padding reset date = record {
  number = format_number pattern 1 date padding;
  value = 1;
  period = period_key date;
  warnings = [];
  starts_new_period = false;
}
preview_plan db (some s) pattern padding reset date =
    plan_number db s date (some pattern) (some padding) (some reset)

unfoldable pub preview_number :
    Store → Option Series → Text → ℤ → Text → Option Date → Date → Result NumberPlan
unfolding preview_plan
preview_number db series pattern padding reset document_date today = do
  validate_pattern (some pattern) reset
  validate_padding padding
  ok (preview_plan db series pattern padding reset (or_else document_date today))

-- For an active series with valid settings, previewed as they are saved, the preview is the plan
-- that an allocation for the same date issues.
pub preview_number-allocate :
    (db : Store) (r : Request) (s : Series) (today : Date) {candidate : Text} {plan : NumberPlan}
    → active_series db r.company_id r.document_type ≡ some s
    → validate_pattern (some s.pattern) s.reset ≡ ok candidate
    → validate_padding s.padding ≡ ok s.padding
    → (allocate_number db r).1 ≡ issued plan
    → preview_number db (some s) s.pattern s.padding s.reset (some r.document_date) today ≡ ok plan
unfolding preview_number plan_number
preview_number-allocate db r s today found valid fits done =
    rw (valid, fits, (allocate_number-issued db r s found done).0)
