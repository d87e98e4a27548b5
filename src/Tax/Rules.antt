-- ===== src/Tax/Rules.antt =====
-- Which rule decides (`_matches`, `_from_rules` and `_target_code` of
-- apps/api/billing/tax/engine.py).
use film_bill.Base.{
  Bool, ◌&&◌, ◌||◌, Option, none, some, List, [], ◌∷◌, all, select, find, text_eq, lookup, insert,
  text_has_equality, if◌then◌else◌,
}
use film_bill.Base.Int.{ltb_ℤ}
use film_bill.Base.Text.{Text, lit, text_ltb}
use film_bill.Tax.Json.{Json, null, boolean, text, int_eq, scalar_equal, is_same}
use film_bill.Tax.Regions.{Region, region_text}
use film_bill.Tax.Data.{
  TaxCodeData, TaxClassData, TaxRuleData, TaxInputs, Outcome, Failure, no_rule_matched,
  code_not_in_company, class_not_in_company, class_code_not_in_company, rule_applies,
  no_rule_applies, by_rule,
}

-- `{key(x): x for x in xs}`: of two with one key the later stays.
module _ {ℓ} {A : Type ℓ} (key : A → Text) where
  abbrev pub index_from : List (Text × A) → List A → List (Text × A)
  index_from d [] = d
  index_from d (x ∷ xs) = index_from (insert (key x) x d) xs

  abbrev pub index : List A → List (Text × A)
  index xs = index_from [] xs

abbrev pub by_code : List TaxCodeData → List (Text × TaxCodeData)
by_code codes = index (λ entry. entry.code) codes

abbrev pub by_class : List TaxClassData → List (Text × TaxClassData)
by_class classes = index (λ entry. entry.key) classes

abbrev pub context_of : TaxInputs → Region → List (Text × Json)
context_of inputs region =
    (lit "seller_is_kleinunternehmer", boolean inputs.seller_is_kleinunternehmer)
    ∷ (lit "buyer_region", text (region_text region))
    ∷ (lit "buyer_type", text inputs.buyer_type)
    ∷ (lit "buyer_vat_verified", boolean inputs.buyer_vat_verified)
    ∷ (lit "supply_kind", text inputs.supply_kind)
    ∷ []

-- `context.get(key)`: `None` is a JSON null.
abbrev pub or_null : Option Json → Json
or_null none = null
or_null (some v) = v

unfoldable pub condition_holds : Json → Json → Bool
condition_holds (boolean b) actual = is_same actual b
condition_holds expected actual = scalar_equal actual expected

unfoldable pub matches : List (Text × Json) → TaxRuleData → Bool
matches context rule =
    all (λ (key, expected). condition_holds expected (or_null (lookup key context))) rule.conditions

-- `(rule.position, rule.name) < (other.position, other.name)`
unfoldable pub comes_before : TaxRuleData → TaxRuleData → Bool
comes_before rule other =
    ltb_ℤ rule.position other.position
    || (int_eq rule.position other.position && text_ltb rule.name other.name)

-- `sorted` by that key, which keeps the order of equals.
unfoldable pub insert_rule : TaxRuleData → List TaxRuleData → List TaxRuleData
insert_rule r [] = r ∷ []
insert_rule r (s ∷ rules) = if comes_before s r then s ∷ insert_rule r rules else r ∷ s ∷ rules

unfoldable pub sort_rules : List TaxRuleData → List TaxRuleData
sort_rules [] = []
sort_rules (r ∷ rules) = insert_rule r (sort_rules rules)

abbrev pub item_class_sentinel : Text
item_class_sentinel = lit "@item"

-- A code, or why there is none.
abbrev pub code_or : Failure → Option TaxCodeData → Option TaxCodeData × Option Failure
code_or failure none = (none, some failure)
code_or failure (some code) = (some code, none)

abbrev pub code_of_class :
    Option Text
    → Option TaxClassData
    → List (Text × TaxCodeData)
    → Option TaxCodeData × Option Failure
code_of_class wanted none codes = (none, some (class_not_in_company wanted))
code_of_class wanted (some tax_class) codes =
    code_or (class_code_not_in_company tax_class.key tax_class.code) (lookup tax_class.code codes)

-- The class that is meant: `@item` is that of the item.
abbrev pub wanted_class : Text → Option Text → Option Text
wanted_class item_class none = none
wanted_class item_class (some key) =
    some (if text_eq key item_class_sentinel then item_class else key)

abbrev pub find_class : Option Text → List (Text × TaxClassData) → Option TaxClassData
find_class none classes = none
find_class (some key) classes = lookup key classes

abbrev pub class_target :
    Option Text
    → List (Text × TaxCodeData)
    → List (Text × TaxClassData)
    → Option TaxCodeData × Option Failure
class_target wanted codes classes = code_of_class wanted (find_class wanted classes) codes

abbrev pub code_target :
    Option Text
    → Option Text
    → Text
    → List (Text × TaxCodeData)
    → List (Text × TaxClassData)
    → Option TaxCodeData × Option Failure
code_target (some wanted) key item_class codes classes =
    code_or (code_not_in_company wanted) (lookup wanted codes)
code_target none key item_class codes classes =
    class_target (wanted_class item_class key) codes classes

unfoldable pub target_code :
    List (Text × Text)
    → Text
    → List (Text × TaxCodeData)
    → List (Text × TaxClassData)
    → Option TaxCodeData × Option Failure
target_code target item_class codes classes =
    code_target (lookup (lit "code") target) (lookup (lit "class") target) item_class codes classes

abbrev pub outcome_of_rule :
    Text → List (Text × TaxCodeData) → List (Text × TaxClassData) → Option TaxRuleData → Outcome
outcome_of_rule item_class codes classes (some rule) =
    let resolved = target_code rule.outcome.code item_class codes classes in
    record {
      treatment = rule.outcome.treatment;
      code = resolved.0;
      applied_rule = some (by_rule rule.name);
      applied_rule_position = some rule.position;
      reason = rule_applies rule.position rule.name;
      rule_warning = rule.outcome.warning;
      failure = resolved.1;
    }
outcome_of_rule item_class codes classes none = record {
  treatment = none;
  code = none;
  applied_rule = none;
  applied_rule_position = none;
  reason = no_rule_applies;
  rule_warning = none;
  failure = some no_rule_matched;
}

unfoldable pub chosen_rule : List (Text × Json) → List TaxRuleData → Option TaxRuleData
chosen_rule context rules =
    find (matches context) (sort_rules (select (λ rule. rule.is_active) rules))

unfoldable pub from_rules :
    TaxInputs
    → List (Text × Json)
    → List (Text × TaxCodeData)
    → List (Text × TaxClassData)
    → List TaxRuleData
    → Outcome
from_rules inputs context codes classes rules =
    outcome_of_rule inputs.item_class codes classes (chosen_rule context rules)
