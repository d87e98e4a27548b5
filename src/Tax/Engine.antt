-- ===== src/Tax/Engine.antt =====
-- `propose_tax`, the overrides and the assembly of the proposal
-- (apps/api/billing/tax/engine.py).
use film_bill.Base.{
  is_nil, Bool, true, false, not, ◌&&◌, Option, none, some, List, [], ◌∷◌, ◌++◌, text_eq,
  text_has_equality, or_else, if◌then◌else◌,
}
use film_bill.Base.Text.{Text, lit, is_empty, strip}
use film_bill.Money.Decimal.{Decimal}
use film_bill.Tax.Regions.{Region, country_code, region_of}
use film_bill.Tax.Data.{
  TaxCodeData, TaxClassData, TaxRuleData, Override, TaxInputs, Source, Failure, Reason, TaxWarning,
  WouldHaveApplied, Proposal, Outcome, item, party, company_has_no_country, seller_is_in,
  buyer_has_no_country, buyer_is, vat_id_verified, vat_id_not_verified, supply_is, small_business,
  override_does_not_apply, failed, nothing_resolved, code_is_inactive, code_applies,
}
use film_bill.Tax.Rules.{by_code, by_class, context_of, from_rules}
use film_bill.Tax.Rates.{format_rate}
use film_bill.Tax.Overrides.{warning, blocked, note, from_override, business}

abbrev pub code_name : Option TaxCodeData → Option Text
code_name none = none
code_name (some code) = some code.code

abbrev pub code_rate : Option TaxCodeData → Option Decimal
code_rate none = none
code_rate (some code) = some code.rate

abbrev pub same_text : Option Text → Option Text → Bool
same_text none none = true
same_text (some s) (some t) = text_eq s t
same_text _ _ = false

abbrev pub what_rules_say : Outcome → Text → WouldHaveApplied
what_rules_say outcome lang = record {
  treatment = outcome.treatment;
  code = code_name outcome.code;
  rate = code_rate outcome.code;
  applied_rule = outcome.applied_rule;
  applied_rule_position = outcome.applied_rule_position;
  legal_note = note outcome.code lang;
}

-- What the rules alone would have produced, if the code or the treatment differs.
unfoldable pub would_have_applied :
    Option Outcome → Outcome → TaxCodeData → Text → Option WouldHaveApplied
would_have_applied none chosen code lang = none
would_have_applied (some outcome) chosen code lang =
    if same_text (code_name outcome.code) (some code.code)
      && same_text outcome.treatment chosen.treatment
    then none
    else some (what_rules_say outcome lang)

abbrev pub rule_warnings : Option Text → List TaxWarning
rule_warnings none = []
rule_warnings (some code) = if is_empty code then [] else warning code ∷ []

abbrev pub review_warnings : TaxCodeData → List TaxWarning
review_warnings code =
    if not (is_nil code.legal_notes) && not code.notes_reviewed
    then warning (lit "legal_note_not_reviewed") ∷ []
    else []

abbrev pub propose_code : Outcome → Option Outcome → List Reason → Text → TaxCodeData → Proposal
propose_code chosen rules_outcome reasons lang code =
    if not code.is_active
    then blocked (reasons ++ chosen.reason ∷ code_is_inactive code.code ∷ [])
        (rule_warnings chosen.rule_warning ++ warning (lit "code_inactive") ∷ [])
    else record {
      treatment = chosen.treatment;
      code = some code.code;
      rate = some code.rate;
      legal_note = note (some code) lang;
      applied_rule = chosen.applied_rule;
      applied_rule_position = chosen.applied_rule_position;
      reasons = reasons ++ chosen.reason ∷ code_applies code.code (format_rate code.rate) ∷ [];
      warnings = rule_warnings chosen.rule_warning ++ review_warnings code;
      blocking = false;
      would_have_applied = would_have_applied rules_outcome chosen code lang;
    }

abbrev pub combine_with :
    Option Failure → Option TaxCodeData → Outcome → Option Outcome → List Reason → Text → Proposal
combine_with (some failure) code chosen rules_outcome reasons lang =
    blocked (reasons ++ chosen.reason ∷ failed failure ∷ []) (rule_warnings chosen.rule_warning)
combine_with none none chosen rules_outcome reasons lang =
    blocked (reasons ++ chosen.reason ∷ nothing_resolved ∷ []) (rule_warnings chosen.rule_warning)
combine_with none (some code) chosen rules_outcome reasons lang =
    propose_code chosen rules_outcome reasons lang code

unfoldable pub combine : Outcome → Option Outcome → List Reason → Text → Proposal
combine chosen rules_outcome reasons lang =
    combine_with chosen.failure chosen.code chosen rules_outcome reasons lang

-- What `region_of` and the facts of the sale say, in the order of the sentences.
abbrev pub sale_reasons : TaxInputs → Region → List Reason
sale_reasons inputs region =
    seller_is_in (country_code (or_else inputs.seller_country []))
      ∷ buyer_is inputs.buyer_type (country_code (or_else inputs.buyer_country [])) region
      ∷ (if text_eq inputs.buyer_type business
          then (if inputs.buyer_vat_verified then vat_id_verified else vat_id_not_verified) ∷ []
          else [])
    ++ supply_is inputs.supply_kind
      ∷ (if inputs.seller_is_kleinunternehmer then small_business ∷ [] else [])

abbrev pub or_next : Option Outcome → Outcome → List Reason → Text → Proposal → Proposal
or_next none rules_outcome reasons lang next = next
or_next (some overridden) rules_outcome reasons lang next =
    combine overridden (some rules_outcome) reasons lang

-- The overrides in their order: the first that applies decides, else the rules.
unfoldable pub decide :
    List (Source × Option Override)
    → (Source → Override → Option Outcome)
    → Outcome
    → List Reason
    → Text
    → Proposal
decide [] apply rules_outcome reasons lang = combine rules_outcome none reasons lang
decide ((source, none) ∷ overrides) apply rules_outcome reasons lang =
    decide overrides apply rules_outcome reasons lang
decide ((source, some override) ∷ overrides) apply rules_outcome reasons lang =
    or_next (apply source override) rules_outcome reasons lang
      (decide overrides apply rules_outcome (reasons ++ override_does_not_apply source ∷ []) lang)

abbrev pub overrides_of : TaxInputs → List (Source × Option Override)
overrides_of inputs = (item, inputs.item_override) ∷ (party, inputs.party_override) ∷ []

unfoldable pub propose_in :
    TaxInputs → Region → List TaxCodeData → List TaxClassData → List TaxRuleData → Text → Proposal
propose_in inputs region codes classes rules lang =
    decide (overrides_of inputs)
      (λ source override.
        from_override override source inputs region (by_code codes) (by_class classes))
      (from_rules inputs (context_of inputs region) (by_code codes) (by_class classes) rules)
      (sale_reasons inputs region) lang

abbrev pub has_country : Option Text → Bool
has_country none = false
has_country (some s) = not (is_empty s) && not (is_empty (strip s))

abbrev pub propose_where :
    Option Region
    → TaxInputs
    → List TaxCodeData
    → List TaxClassData
    → List TaxRuleData
    → Text
    → Proposal
propose_where none inputs codes classes rules lang =
    blocked
      (seller_is_in (country_code (or_else inputs.seller_country [])) ∷ buyer_has_no_country ∷ [])
      (warning (lit "buyer_country_missing") ∷ [])
propose_where (some region) inputs codes classes rules lang =
    propose_in inputs region codes classes rules lang

unfoldable pub propose_tax :
    List Text
    → TaxInputs
    → List TaxCodeData
    → List TaxClassData
    → List TaxRuleData
    → Text
    → Proposal
propose_tax members inputs codes classes rules lang =
    if not (has_country inputs.seller_country)
    then blocked (company_has_no_country ∷ []) (warning (lit "home_country_missing") ∷ [])
    else propose_where (region_of members inputs.seller_country inputs.buyer_country) inputs codes
        classes rules lang
