-- ===== src/Numbering/Plan.antt =====
-- `plan_number`: what a series would issue for a date. It reads the store and returns a plan, so
-- that it writes nothing is its type.
use film_bill.Base.{
  ℕ, ◌+◌, Bool, false, Option, none, some, List, [], ◌∷◌, ◌++◌, nat_eq, if◌then◌else◌, or_else,
  text_eq,
}
use film_bill.Base.Int.{ℤ}
use film_bill.Base.Text.{Text, lit, text_ltb}
use film_bill.Numbering.Date.{Date, date_ltb, iso_format, period_key}
use film_bill.Numbering.Pattern.{reset_yearly, format_number}
use film_bill.Numbering.Store.{
  Series, Allocation, Store, highest_value_in_period, latest_allocation,
}

pub record NumberWarning : Type 0 where
  pub code : Text
  pub message : Text
  pub latest_document_date : Date
  pub latest_number : Text

pub record NumberPlan : Type 0 where
  pub number : Text
  pub value : ℕ
  pub period : Text
  pub warnings : List NumberWarning
  pub starts_new_period : Bool

abbrev pub out_of_order : Text
out_of_order = lit "document_date_before_latest"

out_of_order_message : Date → Allocation → Text
unfolding iso_format
out_of_order_message date latest =
    lit "This document is dated "
    ++ iso_format date
    ++ lit ", which is before "
    ++ iso_format latest.document_date
    ++ lit " — the date of "
    ++ latest.number
    ++ lit ", the most recent document in this series."

unfoldable pub order_warnings : Date → Option Allocation → List NumberWarning
unfolding out_of_order_message
order_warnings date none = []
order_warnings date (some latest) =
    if date_ltb date latest.document_date
    then record {
      code = out_of_order;
      message = out_of_order_message date latest;
      latest_document_date = latest.document_date;
      latest_number = latest.number;
    }
      ∷ []
    else []

-- The value, and whether it starts a new period, for a series that restarts every year. `next` is
-- the series' own counter, `highest` the highest value issued in the document's period.
unfoldable pub yearly_value : Text → Option Text → ℕ → ℕ → ℕ × Bool
yearly_value period none next highest = (highest + 1, false)
yearly_value period (some current) next highest =
    if text_ltb current period
    then (highest + 1, nat_eq (highest + 1) 1)
    else if text_ltb period current
    then (highest + 1, false)
    else (next, false)

unfoldable pub plan_value : Store → Series → Text → Text → ℕ × Bool
unfolding yearly_value
plan_value db series reset period =
    if text_eq reset reset_yearly
    then yearly_value period series.current_period series.next_value
        (highest_value_in_period db series.id period)
    else (series.next_value, false)

unfoldable pub plan_number :
    Store → Series → Date → Option Text → Option ℤ → Option Text → NumberPlan
unfolding plan_value order_warnings
plan_number db series date pattern padding reset =
    let period = period_key date in
    let value = plan_value db series (or_else reset series.reset) period in
    record {
      number =
          format_number (or_else pattern series.pattern) value.0 date
            (or_else padding series.padding);
      value = value.0;
      period = period;
      warnings = order_warnings date (latest_allocation db series.id);
      starts_new_period = value.1;
    }
