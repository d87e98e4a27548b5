-- ===== src/Tax/Overrides.antt =====
-- Warnings, legal notes and overrides (`_note` and `_from_override` of
-- apps/api/billing/tax/engine.py).
use film_bill.Base.{
  Bool, true, false, not, ◌||◌, Option, none, some, List, [], ◌∷◌, text_eq, text_has_equality,
  or_else, lookup, if◌then◌else◌,
}
use film_bill.Base.Text.{Text, lit, is_empty}
use film_bill.Tax.Regions.{Region, same_country}
use film_bill.Tax.Data.{
  TaxCodeData, TaxClassData, Override, TaxInputs, Source, Failure, Reason, TaxWarning, Proposal,
  Outcome, by_override, override_code_not_in_company, override_kind_unknown, override_fixes_code,
  override_names_missing_code, override_uses_domestic_rate, override_of_unknown_kind,
}
use film_bill.Tax.Rules.{item_class_sentinel, target_code}

-- The treatments that this file names, of apps/api/billing/tax/treatments.py.
abbrev pub domestic : Text
domestic = lit "domestic"

abbrev pub custom : Text
custom = lit "custom"

abbrev pub override_fixed_code : Text
override_fixed_code = lit "code"

abbrev pub override_domestic_for_foreign_business : Text
override_domestic_for_foreign_business = lit "domestic_for_foreign_business"

abbrev pub business : Text
business = lit "business"

unfoldable pub warning_texts : List (Text × Text)
warning_texts =
    (
      lit "buyer_vat_id_not_verified",
      lit
          "The buyer's VAT ID has not been verified, so a reverse charge is not proposed — an unverified ID that turns out to be wrong leaves the tax owing from you. Verify it to propose a reverse charge.",
    )
    ∷ (
      lit "legal_note_not_reviewed",
      lit
          "The legal note on this code is the generic wording FilmBill ships and has not been reviewed by anybody in this company. Check it with your tax advisor and mark it reviewed.",
    )
    ∷ (
      lit "code_inactive",
      lit
          "The tax code this resolves to is inactive, so nothing can be proposed. Set its rate and activate it first.",
    )
    ∷ (
      lit "home_country_missing",
      lit
          "This company has no country, so no tax rule can be evaluated. Set the country in Settings → Company.",
    )
    ∷ (
      lit "buyer_country_missing",
      lit
          "The buyer has no country, so there is no way to tell a domestic sale from an export. Set the buyer's country.",
    )
    ∷ []

unfoldable pub warning_text : Text → Text
warning_text code = or_else (lookup code warning_texts) code

unfoldable pub warning : Text → TaxWarning
warning code = record { code = code; text = warning_text code }

unfoldable pub category_treatments : List (Text × Text)
category_treatments =
    (lit "S", domestic)
    ∷ (lit "AE", lit "eu_reverse_charge")
    ∷ (lit "K", lit "intra_community_supply")
    ∷ (lit "G", lit "export")
    ∷ (lit "O", lit "not_taxable_in_country")
    ∷ []

unfoldable pub category_treatment : Text → Text
category_treatment category = or_else (lookup category category_treatments) custom

abbrev pub blocked : List Reason → List TaxWarning → Proposal
blocked reasons warnings = record {
  treatment = none;
  code = none;
  rate = none;
  legal_note = none;
  applied_rule = none;
  applied_rule_position = none;
  reasons = reasons;
  warnings = warnings;
  blocking = true;
  would_have_applied = none;
}

abbrev pub not_blank : Option Text → Option Text
not_blank none = none
not_blank (some s) = if is_empty s then none else some s

-- `_note` of a code, and of none.
unfoldable pub note : Option TaxCodeData → Text → Option Text
note none lang = none
note (some code) lang = not_blank (lookup lang code.legal_notes)

abbrev pub overriding :
    Source → Option Text → Option TaxCodeData → Reason → Option Failure → Outcome
overriding source treatment code reason failure = record {
  treatment = treatment;
  code = code;
  applied_rule = some (by_override source);
  applied_rule_position = none;
  reason = reason;
  rule_warning = none;
  failure = failure;
}

abbrev pub fixed_code : Source → Option Text → Option TaxCodeData → Outcome
fixed_code source wanted none =
    overriding source (some custom) none (override_names_missing_code source wanted)
      (some (override_code_not_in_company source wanted))
fixed_code source wanted (some code) =
    overriding source (some (category_treatment code.category)) (some code)
      (override_fixes_code source code.code) none

abbrev pub is_same_country : Region → Bool
is_same_country same_country = true
is_same_country _ = false

abbrev pub domestic_rate : Source → Option TaxCodeData × Option Failure → Outcome
domestic_rate source (code, failure) =
    overriding source (some domestic) code (override_uses_domestic_rate source) failure

-- `_from_override`: `none` is an override that does not apply to the sale.
unfoldable pub from_override :
    Override
    → Source
    → TaxInputs
    → Region
    → List (Text × TaxCodeData)
    → List (Text × TaxClassData)
    → Option Outcome
from_override override source inputs region codes classes =
    if text_eq override.kind override_fixed_code
    then some (fixed_code source override.code (lookup (or_else override.code []) codes))
    else if text_eq override.kind override_domestic_for_foreign_business
    then (if is_same_country region || not (text_eq inputs.buyer_type business)
        then none
        else some (
            domestic_rate source (
              target_code ((lit "class", item_class_sentinel) ∷ []) inputs.item_class codes
                classes)))
    else some (
        overriding source (some custom) none (override_of_unknown_kind source)
          (some (override_kind_unknown source override.kind)))
