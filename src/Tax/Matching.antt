-- ===== src/Tax/Matching.antt =====
-- What it means that a rule matches, for conditions that the vocabulary accepts and for others.
use mathlib.Core.Path.{subst}
use film_bill.Base.{
  ◌≡◌, refl, sym, ◌⊎◌, ◌↔◌, Bool, true, false, Option, none, some, List, [], ◌∷◌, all, arith,
  text_eq_iff, text_has_equality, lookup,
}
use film_bill.Base.Int.{ℤ, pos}
use film_bill.Base.Text.{Text}
use film_bill.Tax.Json.{Json, null, boolean, number, text, bool_eq, scalar_equal}
use film_bill.Tax.Data.{TaxRuleData}
use film_bill.Tax.Rules.{or_null, condition_holds, matches}
use film_bill.Tax.Vocabulary.{accepted, check_condition, check_conditions, condition_keys}

-- The values that the vocabulary has.
abbrev IsPlain : Json → Type 0
IsPlain (boolean b) = Unit {0}
IsPlain (text s) = Unit {0}
IsPlain _ = ⊥

bool_eq_iff : (a b : Bool) → (bool_eq a b ≡ true) ↔ (a ≡ b)
bool_eq_iff a b = ground arith

condition_holds_iff :
    (expected actual : Json)
    → IsPlain expected
    → (condition_holds expected actual ≡ true) ↔ (actual ≡ expected)
unfolding condition_holds scalar_equal
condition_holds_iff (boolean b) (boolean a) h = ground (arith, bool_eq_iff a b)
condition_holds_iff (text t) (text s) h = ground (arith, text_eq_iff s t)
condition_holds_iff expected actual h = ground arith

check_condition-IsPlain :
    (key : Text) (value : Json) (o : Option (Option (List Text)))
    → check_condition key value o ≡ accepted
    → IsPlain value
check_condition-IsPlain key value none h = cc
check_condition-IsPlain key value (some none) h = ground arith
check_condition-IsPlain key value (some (some allowed)) h = ground arith

held_iff :
    (expected : Json) (o : Option Json)
    → IsPlain expected
    → (condition_holds expected (or_null o) ≡ true) ↔ (o ≡ some expected)
held_iff expected none h =
    (λ e. absurd (subst IsPlain (sym ((condition_holds_iff expected null h).0 e)) h), λ e. cc)
held_iff expected (some actual) h = ground (arith, condition_holds_iff expected actual h)

-- The facts of the sale are those that the conditions name.
abbrev pub IsFactual : List (Text × Json) → List (Text × Json) → Type 0
IsFactual context [] = Unit {0}
IsFactual context ((key, value) ∷ conditions) =
    (lookup key context ≡ some value) × IsFactual context conditions

abbrev all_hold : List (Text × Json) → List (Text × Json) → Bool
all_hold context conditions =
    all (λ (key, expected). condition_holds expected (or_null (lookup key context))) conditions

all_hold_iff :
    (context conditions : List (Text × Json))
    → check_conditions conditions ≡ accepted
    → (all_hold context conditions ≡ true) ↔ IsFactual context conditions
unfolding check_conditions
all_hold_iff context [] h = (λ _. tt, λ _. refl)
all_hold_iff context ((key, value) ∷ conditions) h = ground (
  arith,
  check_condition-IsPlain key value (lookup key condition_keys),
  held_iff value (lookup key context),
  all_hold_iff context conditions,
)

-- A rule whose conditions the vocabulary accepts matches exactly if each names a fact of the sale and
-- the value that the fact has.
pub matches_iff :
    (context : List (Text × Json)) (rule : TaxRuleData)
    → check_conditions rule.conditions ≡ accepted
    → (matches context rule ≡ true) ↔ IsFactual context rule.conditions
unfolding matches
matches_iff context rule h = all_hold_iff context rule.conditions h

-- A condition that is stored as a number holds of a Boolean exactly if the number is 1 and the
-- Boolean is true, or it is 0 and the Boolean is false.
pub condition_number_iff :
    (n : ℤ) (b : Bool)
    → (condition_holds (number n) (boolean b) ≡ true)
      ↔ (((n ≡ pos 1) × (b ≡ true)) ⊎ ((n ≡ pos 0) × (b ≡ false)))
unfolding condition_holds scalar_equal
condition_number_iff n b = ground arith
