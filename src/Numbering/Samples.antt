-- ===== src/Numbering/Samples.antt =====
-- Runs of the document numbers, and the theorems at concrete inputs.
use film_bill.Base.{
  ℕ, ◌≡◌, refl, ◌⊎◌, inl, true, false, none, some, [], ◌∷◌, ◌+◌, length, text_eq, text_eq_refl,
  contains, text_has_equality,
}
use film_bill.Base.Int.{pos, negsuc}
use film_bill.Base.Text.{Text, lit, occurs, starts_with, strip, replace, text_ltb}
use film_bill.Base.Digits.{show, zfill}
use film_bill.Numbering.Date.{Date, period_key}
use film_bill.Numbering.Pattern.{
  ok, err, unknown_tokens, sequence_missing, year_missing, pattern_required, padding_out_of_range,
  unknown_reset, reset_yearly, reset_never, token_sequence, unknown_in, validate_pattern,
  validate_padding, format_number,
}
use film_bill.Numbering.Store.{
  Series, Store, active_series, latest_allocation, highest_value_in_period,
}
use film_bill.Numbering.Plan.{NumberPlan, plan_number}
use film_bill.Numbering.Allocate.{Request, Reply, issued, collision, allocate_number}
use film_bill.Numbering.Allocate.Outcome.{after_collision}
use film_bill.Numbering.Allocate.Runs.{times_issued}
use film_bill.Numbering.Allocate.Sequential.{IsYearly}
use film_bill.Numbering.Allocate.Gapless.{IsGapless, IsSound-fresh, serve, serve-IsGapless}
use film_bill.Numbering.Allocate.Counters.{counters_of, count_up, allocate_number-refines}
use film_bill.Numbering.Allocate.Collisions.{has_issued, Advanced, allocate_number-collision}
use film_bill.Numbering.Allocate.OutOfOrder.{dated_later, Unwarned, Warned, allocate_number-audit}
use film_bill.Numbering.Seed.{seed_number_series}
use film_bill.Numbering.Seed.Complete.{seeded_types}

abbrev on : ℕ → ℕ → ℕ → Date
on y m d = record { year = y; month = m; day = d }

abbrev request : Text → Date → Request
request t d = record {
  company_id = 1;
  document_type = t;
  document_date = d;
  entity_type = none;
  entity_id = none;
  actor = none;
  now = 0;
}

abbrev empty : Store
empty = record { series = []; allocations = []; audit_events = [] }

abbrev seeded : Store
seeded = (seed_number_series 1 100 empty).0

prints :
    (format_number (lit "AR-{YYYY}-{SEQ}") 7 (on 2026 3 9) (pos 4) ≡ lit "AR-2026-0007")
    × (format_number (lit "{MM}/{YY}/{SEQ}") 10000 (on 2026 3 9) (pos 4) ≡ lit "03/26/10000")
unfolding format_number lit replace starts_with show zfill
prints = (refl, refl)

accepts :
    (validate_pattern (some (lit " AR-{YYYY}-{SEQ} ")) (lit "yearly") ≡ ok (lit "AR-{YYYY}-{SEQ}"))
    × (validate_pattern (some (lit "AR-{SEQ}")) (lit "yearly") ≡ err year_missing)
    × (validate_pattern (some (lit "AR-{YYY}-{SEQ}")) (lit "never")
        ≡ err (unknown_tokens (lit "{YYY}" ∷ [])))
    × (validate_pattern (some (lit "AR-{YY}")) (lit "never") ≡ err sequence_missing)
    × (validate_pattern none (lit "never") ≡ err pattern_required)
    × (validate_pattern (some (lit "{SEQ}")) (lit "monthly") ≡ err (unknown_reset (lit "monthly")))
    × (validate_padding (negsuc 0) ≡ err (padding_out_of_range (negsuc 0)))
    × (validate_padding (pos 12) ≡ ok (pos 12))
unfolding validate_pattern unknown_in validate_padding lit strip text_eq occurs
accepts = (refl, refl, refl, refl, refl, refl, refl, refl)

abbrev number_of : Reply → Text
number_of (issued plan) = plan.number
number_of _ = []

-- Two invoices of 2026, one dated back to 2025, and one more of 2026.
abbrev first_run : Store × Reply
first_run = allocate_number seeded (request (lit "invoice") (on 2026 1 5))

abbrev second_run : Store × Reply
second_run = allocate_number first_run.0 (request (lit "invoice") (on 2026 2 1))

abbrev backdated_run : Store × Reply
backdated_run = allocate_number second_run.0 (request (lit "invoice") (on 2025 12 30))

abbrev last_run : Store × Reply
last_run = allocate_number backdated_run.0 (request (lit "invoice") (on 2026 2 2))

runs :
    (number_of first_run.1 ≡ lit "AR-2026-0001")
    × (number_of second_run.1 ≡ lit "AR-2026-0002")
    × (number_of backdated_run.1 ≡ lit "AR-2025-0001")
    × (number_of last_run.1 ≡ lit "AR-2026-0003")
    × (length last_run.0.audit_events ≡ 1)
unfolding allocate_number seed_number_series plan_number format_number period_key
    highest_value_in_period latest_allocation lit replace starts_with show zfill text_eq text_ltb
runs = (refl, refl, refl, refl, refl)

-- One yearly and one continuous series, and the invoices that the yearly one has numbered.
abbrev invoices : Series
invoices = record {
  id = 1;
  company_id = 1;
  document_type = lit "invoice";
  name = lit "Ausgangsrechnungen";
  pattern = lit "AR-{YYYY}-{SEQ}";
  reset = reset_yearly;
  next_value = 1;
  current_period = none;
  padding = pos 4;
  is_active = true;
}

abbrev customers : Series
customers = record invoices {
  id = 2;
  document_type = lit "customer";
  pattern = lit "K-{SEQ}";
  reset = reset_never;
}

abbrev office : Store
office = record { series = invoices ∷ customers ∷ []; allocations = []; audit_events = [] }

office-IsGapless : IsGapless office
office-IsGapless = (IsSound-fresh invoices refl, (IsSound-fresh customers refl, tt))

abbrev january : Request
january = request (lit "invoice") (on 2026 1 5)

abbrev december : Request
december = request (lit "invoice") (on 2025 12 30)

serve-IsGapless_example :
    IsGapless (serve (january ∷ december ∷ request (lit "customer") (on 2026 1 6) ∷ []) office)
serve-IsGapless_example =
    serve-IsGapless (january ∷ december ∷ request (lit "customer") (on 2026 1 6) ∷ []) office
      office-IsGapless

invoices_found : active_series office 1 (lit "invoice") ≡ some invoices
unfolding active_series
invoices_found = rw (text_eq_refl (lit "invoice"))

abbrev january_plan : NumberPlan
january_plan = plan_number office invoices (on 2026 1 5) none none none

january_issued : (allocate_number office january).1 ≡ issued january_plan
unfolding allocate_number
january_issued = rw invoices_found refl

invoices-IsYearly : IsYearly invoices
invoices-IsYearly = text_eq_refl reset_yearly

allocate_number-refines_example :
    (january_plan.period ≡ period_key (on 2026 1 5))
    × (january_plan.value ≡ counters_of office 1 january_plan.period + 1)
    × (times_issued 1 january_plan.period january_plan.value [] ≡ 0)
    × ((sid : ℕ) (period : Text)
        → counters_of (allocate_number office january).0 sid period
          ≡ count_up 1 january_plan.period (counters_of office) sid period)
allocate_number-refines_example =
    allocate_number-refines office january invoices invoices-IsYearly
      ((IsSound-fresh invoices refl).yearly invoices-IsYearly) invoices_found january_issued

allocate_number-collision_example :
    let number = january_plan.number in
    ((has_issued 1 number [] ≡ false) × ((allocate_number office january).1 ≡ issued january_plan))
    ⊎ ((has_issued 1 number [] ≡ true)
        × (allocate_number office january
            ≡ (after_collision office january invoices, collision number))
        × Advanced invoices january_plan)
allocate_number-collision_example =
    allocate_number-collision office january invoices (IsSound-fresh invoices refl) invoices_found
      (inl invoices-IsYearly)

allocate_number-audit_example :
    let after = (allocate_number office january).0.audit_events in
    ((dated_later 1 (on 2026 1 5) [] ≡ false) × Unwarned january_plan [] after)
    ⊎ ((dated_later 1 (on 2026 1 5) [] ≡ true) × Warned january january_plan [] after)
allocate_number-audit_example =
    allocate_number-audit office january invoices invoices_found january_issued

valid_invoices : validate_pattern (some invoices.pattern) invoices.reset ≡ ok invoices.pattern
unfolding validate_pattern unknown_in lit strip text_eq occurs
valid_invoices = refl

padded_invoices : validate_padding (pos 4) ≡ ok (pos 4)
unfolding validate_padding
padded_invoices = refl

sequence_occurs : occurs token_sequence (lit "AR-{YYYY}-{SEQ}") ≡ true
unfolding occurs lit
sequence_occurs = refl

invoice_is_seeded : contains seeded_types (lit "invoice") ≡ true
unfolding lit text_eq
invoice_is_seeded = refl
