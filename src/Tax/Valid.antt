-- ===== src/Tax/Valid.antt =====
-- What the vocabulary accepts.
use film_bill.Base.{
  ◌≡◌, refl, ◌⊎◌, inl, ◌↔◌, Bool, true, false, not, ◌||◌, Option, none, some, List, [], ◌∷◌, arith,
  text_eq, text_has_equality, contains, lookup,
}
use film_bill.Base.Text.{Text, lit, is_empty}
use film_bill.Money.Decimal.{Decimal}
use film_bill.Tax.Json.{
  Json, Fields, null, boolean, number, text, array, object, entries, no_fields, field,
}
use film_bill.Tax.Vocabulary.{
  Checked, PackError, accepted, refused, ◌then_check◌, refuse_if, categories, zero_rate_categories,
  is_negative, is_zero, validate_rate_for_category, is_boolean, is_among, check_condition,
  check_conditions, condition_keys, validate_conditions, value_or_null, check_target, check_warning,
  warning_codes, treatments, check_outcome, validate_outcome,
}

-- A rate is accepted for a category exactly if the category is known, the rate is not negative, and
-- it is zero where the category is one of the zero rates.
pub validate_rate_for_category_iff :
    (category : Text) (rate : Decimal)
    → (validate_rate_for_category category rate ≡ accepted) ↔ (
        (contains categories category ≡ true)
        × ((is_negative rate ≡ false)
            × ((contains zero_rate_categories category ≡ false) ⊎ (is_zero rate ≡ true))))
unfolding validate_rate_for_category
validate_rate_for_category_iff category rate = ground arith

-- A value that a condition takes: a Boolean, or one of the words of its key.
abbrev pub IsTaken : Option (Option (List Text)) → Json → Type 0
IsTaken none value = ⊥
IsTaken (some none) value = is_boolean value ≡ true
IsTaken (some (some allowed)) value = is_among allowed value ≡ true

check_condition_iff :
    (key : Text) (value : Json) (o : Option (Option (List Text)))
    → (check_condition key value o ≡ accepted) ↔ IsTaken o value
check_condition_iff key value none = ground arith
check_condition_iff key value (some none) = ground arith
check_condition_iff key value (some (some allowed)) = ground arith

abbrev pub AreTaken : List (Text × Json) → Type 0
AreTaken [] = Unit {0}
AreTaken ((key, value) ∷ conditions) =
    IsTaken (lookup key condition_keys) value × AreTaken conditions

check_conditions_iff :
    (conditions : List (Text × Json))
    → (check_conditions conditions ≡ accepted) ↔ AreTaken conditions
unfolding check_conditions
check_conditions_iff [] = (λ _. tt, λ _. refl)
check_conditions_iff ((key, value) ∷ conditions) = ground (
  arith,
  check_condition_iff key value (lookup key condition_keys),
  check_conditions_iff conditions,
)

then_check_iff : (a b : Checked) → (a then_check b ≡ accepted) ↔ ((a ≡ accepted) × (b ≡ accepted))
then_check_iff accepted b = ground arith
then_check_iff (refused e) b = ground arith

-- The target of an outcome: one class or one code, by a name.
pub record IsTarget (value : Json) : Type 0 where
  pub kind : Text
  pub name : Text
  pub shape : value ≡ object (field kind (text name) no_fields)
  pub is_known : (text_eq kind (lit "class") || text_eq kind (lit "code")) ≡ true
  pub is_named : is_empty name ≡ false

check_target-IsTarget : (value : Json) → check_target value ≡ accepted → IsTarget value
check_target-IsTarget null h = cc
check_target-IsTarget (boolean b) h = cc
check_target-IsTarget (number n) h = cc
check_target-IsTarget (text s) h = cc
check_target-IsTarget (array xs) h = cc
check_target-IsTarget (object no_fields) h = cc
check_target-IsTarget (object (field k v (field l w more))) h = cc
check_target-IsTarget (object (field k (text name) no_fields)) h = record {
  kind = k;
  name = name;
  shape = refl;
  is_known = ground arith;
  is_named = ground arith;
}
check_target-IsTarget (object (field k null no_fields)) h = absurd (ground arith)
check_target-IsTarget (object (field k (boolean b) no_fields)) h = absurd (ground arith)
check_target-IsTarget (object (field k (number n) no_fields)) h = absurd (ground arith)
check_target-IsTarget (object (field k (array xs) no_fields)) h = absurd (ground arith)
check_target-IsTarget (object (field k (object fs) no_fields)) h = absurd (ground arith)

check_warning_sound :
    (value : Json)
    → check_warning value ≡ accepted
    → (value ≡ null) ⊎ (is_among warning_codes value ≡ true)
check_warning_sound null h = inl refl
check_warning_sound value h = ground arith

-- What an accepted outcome has.
pub record IsOutcome (fields : List (Text × Json)) : Type 0 where
  pub treatment : is_among treatments (value_or_null (lookup (lit "treatment") fields)) ≡ true
  pub target : IsTarget (value_or_null (lookup (lit "code") fields))
  pub warning :
      (value_or_null (lookup (lit "warning") fields) ≡ null)
      ⊎ (is_among warning_codes (value_or_null (lookup (lit "warning") fields)) ≡ true)

refuse_sound : (b : Bool) (e : PackError) → refuse_if (not b) e ≡ accepted → b ≡ true
refuse_sound b e h = ground arith

check_outcome-IsOutcome :
    (fields : List (Text × Json)) → check_outcome fields ≡ accepted → IsOutcome fields
unfolding check_outcome
check_outcome-IsOutcome fields h =
    let (_, h1) = (then_check_iff _ _).0 h in
    let (t, h2) = (then_check_iff _ _).0 h1 in
    let (c, w) = (then_check_iff _ _).0 h2 in
    record {
      treatment = refuse_sound _ _ t;
      target = check_target-IsTarget _ c;
      warning = check_warning_sound _ w;
    }

-- An outcome that is accepted is a mapping whose treatment is one of the eight, whose target is one
-- class or one code with a name that is not empty, and whose warning, if it has one, is known.
pub validate_outcome_sound :
    (value : Json)
    → validate_outcome value ≡ accepted
    → (fields : Fields) × ((value ≡ object fields) × IsOutcome (entries fields))
unfolding validate_outcome
validate_outcome_sound (object fields) h =
    (fields, (refl, check_outcome-IsOutcome (entries fields) h))
validate_outcome_sound null h = cc
validate_outcome_sound (boolean b) h = cc
validate_outcome_sound (number n) h = cc
validate_outcome_sound (text s) h = cc
validate_outcome_sound (array xs) h = cc

-- Conditions are accepted exactly if they are a mapping in which each key is known and has a value
-- that it takes.
pub validate_conditions_iff :
    (fields : Fields) → (validate_conditions (object fields) ≡ accepted) ↔ AreTaken (entries fields)
unfolding validate_conditions
validate_conditions_iff fields = check_conditions_iff (entries fields)
