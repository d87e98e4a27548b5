-- ===== src/Tax/Vocabulary.antt =====
-- The closed vocabulary of the rules (apps/api/billing/tax/vocabulary.py). A PackError is the
-- constructor of its message, without the name of the rule in front.
use film_bill.Base.{
  is_nil, Bool, true, false, not, ◌&&◌, ◌||◌, Option, none, some, List, [], ◌∷◌, text_eq, contains,
  lookup, nat_eq, text_has_equality, select,
}
use film_bill.Base.Text.{sorted_set, Text, lit, is_empty}
use film_bill.Money.Decimal.{Decimal, finite, infinity}
use film_bill.Tax.Json.{Json, null, boolean, text, object, entries}

pub data PackError : Type 0 where
  category_unknown : Text → PackError
  rate_negative : Decimal → PackError
  rate_not_zero : Text → Decimal → PackError
  conditions_not_mapping : Json → PackError
  condition_unknown : Text → PackError
  condition_not_bool : Text → Json → PackError
  condition_not_allowed : Text → Json → List Text → PackError
  outcome_not_mapping : Json → PackError
  outcome_keys_unknown : List Text → PackError
  treatment_unknown : Json → PackError
  code_not_one : Json → PackError
  code_key_unknown : Text → PackError
  code_not_text : Text → Json → PackError
  warning_unknown : Json → PackError

pub data Checked : Type 0 where
  accepted : Checked
  refused : PackError → Checked

infixr 5 ◌then_check◌
abbrev pub ◌then_check◌ : Checked → Checked → Checked
accepted then_check next = next
refused e then_check next = refused e

abbrev pub refuse_if : Bool → PackError → Checked
refuse_if true e = refused e
refuse_if false e = accepted

abbrev pub buyer_regions : List Text
buyer_regions = lit "same_country" ∷ lit "eu_other" ∷ lit "non_eu" ∷ []

abbrev pub buyer_types : List Text
buyer_types = lit "business" ∷ lit "private" ∷ []

abbrev pub supply_kinds : List Text
supply_kinds = lit "goods" ∷ lit "services" ∷ []

-- `none` is a condition that takes a Boolean.
unfoldable pub condition_keys : List (Text × Option (List Text))
condition_keys =
    (lit "seller_is_kleinunternehmer", none)
    ∷ (lit "buyer_region", some buyer_regions)
    ∷ (lit "buyer_type", some buyer_types)
    ∷ (lit "buyer_vat_verified", none)
    ∷ (lit "supply_kind", some supply_kinds)
    ∷ []

unfoldable pub warning_codes : List Text
warning_codes =
    lit "buyer_vat_id_not_verified"
    ∷ lit "legal_note_not_reviewed"
    ∷ lit "code_inactive"
    ∷ lit "home_country_missing"
    ∷ lit "buyer_country_missing"
    ∷ []

unfoldable pub categories : List Text
categories =
    lit "S" ∷ lit "Z" ∷ lit "E" ∷ lit "AE" ∷ lit "K" ∷ lit "G" ∷ lit "O" ∷ lit "L" ∷ lit "M" ∷ []

unfoldable pub zero_rate_categories : List Text
zero_rate_categories = lit "Z" ∷ lit "E" ∷ lit "AE" ∷ lit "K" ∷ lit "G" ∷ lit "O" ∷ []

-- TREATMENTS of apps/api/billing/tax/treatments.py
unfoldable pub treatments : List Text
treatments =
    lit "domestic"
    ∷ lit "eu_reverse_charge"
    ∷ lit "intra_community_supply"
    ∷ lit "export"
    ∷ lit "not_taxable_in_country"
    ∷ lit "small_business_exemption"
    ∷ lit "internal_recharge"
    ∷ lit "custom"
    ∷ []

-- `rate < 0` and `rate != 0`, of a rate that is no NaN.
abbrev pub is_negative : Decimal → Bool
is_negative (finite sign c e) = sign && not (nat_eq c 0)
is_negative (infinity sign) = sign
is_negative _ = false

abbrev pub is_zero : Decimal → Bool
is_zero (finite sign c e) = nat_eq c 0
is_zero _ = false

unfoldable pub validate_rate_for_category : Text → Decimal → Checked
validate_rate_for_category category rate =
    refuse_if (not (contains categories category)) (category_unknown category)
    then_check refuse_if (is_negative rate) (rate_negative rate)
    then_check refuse_if (contains zero_rate_categories category && not (is_zero rate))
        (rate_not_zero category rate)

abbrev pub is_boolean : Json → Bool
is_boolean (boolean b) = true
is_boolean _ = false

-- `value in words`, for a tuple of texts.
abbrev pub is_among : List Text → Json → Bool
is_among words (text s) = contains words s
is_among words _ = false

abbrev pub check_condition : Text → Json → Option (Option (List Text)) → Checked
check_condition key value none = refused (condition_unknown key)
check_condition key value (some none) =
    refuse_if (not (is_boolean value)) (condition_not_bool key value)
check_condition key value (some (some allowed)) =
    refuse_if (not (is_among allowed value)) (condition_not_allowed key value allowed)

unfoldable pub check_conditions : List (Text × Json) → Checked
check_conditions [] = accepted
check_conditions ((key, value) ∷ conditions) =
    check_condition key value (lookup key condition_keys) then_check check_conditions conditions

unfoldable pub validate_conditions : Json → Checked
validate_conditions (object fields) = check_conditions (entries fields)
validate_conditions value = refused (conditions_not_mapping value)

abbrev pub keys_of : List (Text × Json) → List Text
keys_of [] = []
keys_of ((key, value) ∷ fields) = key ∷ keys_of fields

abbrev pub value_or_null : Option Json → Json
value_or_null none = null
value_or_null (some v) = v

abbrev pub outcome_keys : List Text
outcome_keys = lit "treatment" ∷ lit "code" ∷ lit "warning" ∷ []

abbrev pub is_word : Json → Bool
is_word (text s) = not (is_empty s)
is_word _ = false

abbrev pub check_target_entries : Json → List (Text × Json) → Checked
check_target_entries target ((kind, value) ∷ []) =
    refuse_if (not (text_eq kind (lit "class") || text_eq kind (lit "code")))
      (code_key_unknown kind)
    then_check refuse_if (not (is_word value)) (code_not_text kind value)
check_target_entries target _ = refused (code_not_one target)

abbrev pub check_target : Json → Checked
check_target (object fields) = check_target_entries (object fields) (entries fields)
check_target target = refused (code_not_one target)

abbrev pub check_warning : Json → Checked
check_warning null = accepted
check_warning warning = refuse_if (not (is_among warning_codes warning)) (warning_unknown warning)

unfoldable pub check_outcome : List (Text × Json) → Checked
check_outcome fields =
    let unknown = sorted_set (select (λ key. not (contains outcome_keys key)) (keys_of fields)) in
    let treatment = value_or_null (lookup (lit "treatment") fields) in
    refuse_if (not (is_nil unknown)) (outcome_keys_unknown unknown)
    then_check refuse_if (not (is_among treatments treatment)) (treatment_unknown treatment)
    then_check check_target (value_or_null (lookup (lit "code") fields))
    then_check check_warning (value_or_null (lookup (lit "warning") fields))

unfoldable pub validate_outcome : Json → Checked
validate_outcome (object fields) = check_outcome (entries fields)
validate_outcome value = refused (outcome_not_mapping value)
