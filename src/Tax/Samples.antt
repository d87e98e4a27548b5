-- ===== src/Tax/Samples.antt =====
-- Runs of the tax engine, and the theorems at concrete inputs.
use film_bill.Base.{
  ◌≡◌, refl, sym, ◌∙◌, ◌↔◌, inl, inr, true, false, none, some, Option, List, [], ◌∷◌, text_eq,
  arith, text_has_equality,
}
use film_bill.Base.Int.{pos, negsuc, ◌+ℤ◌}
use film_bill.Base.Text.{Text, lit, strip, upper, text_ltb}
use film_bill.Base.Digits.{show, zfill}
use film_bill.Money.Decimal.{finite}
use film_bill.Money.Format.{serialise, plain, pointed}
use film_bill.Tax.Json.{Json, boolean, text, object, field, no_fields, scalar_equal}
use film_bill.Tax.Regions.{eu_other, eu_member_states, country_code, region_of}
use film_bill.Tax.Data.{TaxCodeData, TaxClassData, TaxRuleData, Override, TaxInputs, item}
use film_bill.Tax.Rules.{
  condition_holds, matches, comes_before, chosen_rule, context_of, sort_rules, insert_rule,
  target_code, from_rules,
}
use film_bill.Tax.Rates.{drop_zeros, normalize, format_rate}
use film_bill.Tax.Overrides.{override_fixed_code, from_override}
use film_bill.Tax.Engine.{combine, decide, propose_in, propose_tax}
use film_bill.Tax.Choice.{IsChoice, chosen_rule-IsChoice}
use film_bill.Tax.Order.{HasNoTies, SameRules, chosen_rule_any_order}
use film_bill.Tax.Safe.{IsSafe, propose_tax-IsSafe}
use film_bill.Tax.Precedence.{Overrides, by_item, rules_alone, propose_tax-Overrides}
use film_bill.Tax.Vocabulary.{check_conditions, condition_keys}
use film_bill.Tax.Matching.{IsFactual, matches_iff}

abbrev twenty : TaxCodeData
twenty = record {
  code = lit "AT20";
  name = lit "20 %";
  rate = finite false 200000 (negsuc 3);
  category = lit "S";
  legal_notes = [];
  notes_reviewed = false;
  is_active = true;
}

abbrev reverse_charge : TaxCodeData
reverse_charge = record {
  code = lit "RC";
  name = lit "Reverse charge";
  rate = finite false 0 (pos 0);
  category = lit "AE";
  legal_notes = (lit "en", lit "Reverse charge") ∷ [];
  notes_reviewed = false;
  is_active = true;
}

abbrev codes : List TaxCodeData
codes = twenty ∷ reverse_charge ∷ []

abbrev classes : List TaxClassData
classes = record { key = lit "standard"; label = lit "Standard"; code = lit "AT20" } ∷ []

abbrev verified_elsewhere : TaxRuleData
verified_elsewhere = record {
  position = pos 10;
  name = lit "EU business";
  conditions =
      (lit "buyer_region", text (lit "eu_other")) ∷ (lit "buyer_vat_verified", boolean true) ∷ [];
  outcome = record {
    treatment = some (lit "eu_reverse_charge");
    code = (lit "code", lit "RC") ∷ [];
    warning = none;
  };
  is_active = true;
}

abbrev all_others : TaxRuleData
all_others = record {
  position = pos 20;
  name = lit "All others";
  conditions = [];
  outcome = record {
    treatment = some (lit "domestic");
    code = (lit "class", lit "@item") ∷ [];
    warning = none;
  };
  is_active = true;
}

abbrev rules : List TaxRuleData
rules = verified_elsewhere ∷ all_others ∷ []

abbrev always_twenty : Override
always_twenty = record { kind = override_fixed_code; code = some (lit "AT20") }

abbrev sale : Option Override → TaxInputs
sale override = record {
  seller_country = some (lit "at");
  buyer_country = some (lit " DE ");
  buyer_type = lit "business";
  buyer_vat_verified = true;
  supply_kind = lit "services";
  item_class = lit "standard";
  item_override = override;
  party_override = none;
  seller_is_kleinunternehmer = false;
}

proposes :
    ((propose_tax eu_member_states (sale none) codes classes rules (lit "en")).code
      ≡ some (lit "RC"))
    × ((propose_tax eu_member_states
          (sale (some always_twenty))
          codes
          classes
          rules
          (lit "en")).code
        ≡ some (lit "AT20"))
    × ((propose_tax eu_member_states (sale none) (twenty ∷ []) classes rules (lit "en")).blocking
        ≡ true)
unfolding propose_tax propose_in decide combine from_override from_rules chosen_rule sort_rules
    insert_rule comes_before matches condition_holds scalar_equal target_code region_of country_code
    strip upper lit text_eq
proposes = (refl, refl, refl)

prints_rates :
    (format_rate (finite false 200000 (negsuc 3)) ≡ lit "20")
    × (format_rate (finite false 81667 (negsuc 3)) ≡ lit "8.1667")
    × (format_rate (finite false 0 (negsuc 3)) ≡ lit "0")
unfolding format_rate normalize drop_zeros ◌+ℤ◌ serialise plain pointed show zfill lit
prints_rates = (refl, refl, refl)

propose_tax-IsSafe_example :
    IsSafe codes
      (lit "en")
      (propose_tax eu_member_states (sale none) codes classes rules (lit "en"))
propose_tax-IsSafe_example =
    propose_tax-IsSafe eu_member_states (sale none) codes classes rules (lit "en")

propose_tax-Overrides_example :
    Overrides item twenty
      (rules_alone (sale (some always_twenty)) eu_other codes classes rules (lit "en"))
      (lit "en")
      (propose_tax eu_member_states (sale (some always_twenty)) codes classes rules (lit "en"))
unfolding region_of country_code strip upper lit text_eq
propose_tax-Overrides_example =
    propose_tax-Overrides (sale (some always_twenty)) eu_other codes classes rules (lit "en")
      eu_member_states item twenty refl
      (by_item always_twenty refl (record { kind = refl; known = refl; is_active = refl }))

abbrev context : List (Text × Json)
context = context_of (sale none) eu_other

chosen_rule-IsChoice_example : IsChoice context rules (chosen_rule context rules)
chosen_rule-IsChoice_example = chosen_rule-IsChoice context rules

no_ties : HasNoTies rules
unfolding comes_before lit text_ltb
no_ties r s (inr (inr none_left)) m h k = absurd none_left
no_ties r s (inl e) (inr (inr none_left)) h k = absurd none_left
no_ties r s (inr (inl e)) (inr (inr none_left)) h k = absurd none_left
no_ties r s (inl e) (inl f) h k = e ∙ sym f
no_ties r s (inr (inl e)) (inr (inl f)) h k = e ∙ sym f
no_ties r s (inl e) (inr (inl f)) h k = let clash : true ≡ false = rw (e, f) at h in cc
no_ties r s (inr (inl e)) (inl f) h k = let clash : true ≡ false = rw (e, f) at k in cc

swapped : SameRules rules (all_others ∷ verified_elsewhere ∷ [])
swapped s = ground arith

chosen_rule_any_order_example :
    chosen_rule context rules ≡ chosen_rule context (all_others ∷ verified_elsewhere ∷ [])
chosen_rule_any_order_example =
    chosen_rule_any_order context rules (all_others ∷ verified_elsewhere ∷ []) swapped no_ties

matches_iff_example :
    (matches context verified_elsewhere ≡ true) ↔ IsFactual context verified_elsewhere.conditions
unfolding check_conditions condition_keys lit text_eq
matches_iff_example = matches_iff context verified_elsewhere refl

abbrev to_reverse_charge : Json
to_reverse_charge = object (
    field (lit "treatment") (text (lit "eu_reverse_charge"))
      (field (lit "code") (object (field (lit "code") (text (lit "RC")) no_fields)) no_fields))
