-- ===== src/Tax/Origin.antt =====
-- Every code that the rules or an override resolve to is one of the company’s.
use film_bill.Base.{
  ◌≡◌, ◌⊎◌, inl, inr, Option, none, some, List, [], ◌∷◌, arith, Option-cases, Member, lookup,
  insert, lookup-insert, text_has_equality, or_else,
}
use film_bill.Base.Text.{Text, lit}
use film_bill.Tax.Regions.{Region}
use film_bill.Tax.Data.{
  TaxCodeData, TaxClassData, TaxRuleData, Override, TaxInputs, Source, Failure, Outcome,
}
use film_bill.Tax.Rules.{
  index_from, by_code, target_code, code_or, code_of_class, code_target, outcome_of_rule,
  item_class_sentinel,
}
use film_bill.Tax.Overrides.{from_override, fixed_code}

pub index_from-Member :
    {A : Type 0} (key : A → Text) (k : Text) (xs : List A) (d : List (Text × A)) (a : A)
    → lookup k (index_from key d xs) ≡ some a
    → Member a xs ⊎ (lookup k d ≡ some a)
index_from-Member key k [] d a h = inr h
index_from-Member key k (x ∷ xs) d a h =
    ground (arith, index_from-Member key k xs (insert (key x) x d) a, lookup-insert (key x) k x d)

-- A code, if there is one, is among the company’s.
abbrev pub IsFrom : List TaxCodeData → Option TaxCodeData → Type 0
IsFrom codes none = Unit {0}
IsFrom codes (some c) = Member c codes

pub lookup-IsFrom : (codes : List TaxCodeData) (k : Text) → IsFrom codes (lookup k (by_code codes))
lookup-IsFrom codes k = elim (Option-cases (lookup k (by_code codes))) [
  | inl e ↦ rw e tt
  | inr (c, e) ↦ rw e (elim (index_from-Member (λ entry. entry.code) k codes [] c e) [
    | inl m ↦ m
    | inr absent ↦ absurd (ground arith)
  ])
]

code_or-IsFrom :
    (codes : List TaxCodeData) (f : Failure) (o : Option TaxCodeData)
    → IsFrom codes o
    → IsFrom codes (code_or f o).0
code_or-IsFrom codes f none h = tt
code_or-IsFrom codes f (some c) h = h

code_of_class-IsFrom :
    (codes : List TaxCodeData) (wanted : Option Text) (o : Option TaxClassData)
    → IsFrom codes (code_of_class wanted o (by_code codes)).0
code_of_class-IsFrom codes wanted none = tt
code_of_class-IsFrom codes wanted (some c) = code_or-IsFrom codes _ _ (lookup-IsFrom codes c.code)

code_target-IsFrom :
    (codes : List TaxCodeData) (classes : List (Text × TaxClassData)) (name key : Option Text)
    (item_class : Text)
    → IsFrom codes (code_target name key item_class (by_code codes) classes).0
code_target-IsFrom codes classes none key item_class = code_of_class-IsFrom codes _ _
code_target-IsFrom codes classes (some name) key item_class =
    code_or-IsFrom codes _ _ (lookup-IsFrom codes name)

target_code-IsFrom :
    (codes : List TaxCodeData) (classes : List (Text × TaxClassData)) (target : List (Text × Text))
    (item_class : Text)
    → IsFrom codes (target_code target item_class (by_code codes) classes).0
unfolding target_code
target_code-IsFrom codes classes target item_class = code_target-IsFrom codes classes _ _ item_class

pub outcome_of_rule-IsFrom :
    (codes : List TaxCodeData) (classes : List (Text × TaxClassData)) (item_class : Text)
    (o : Option TaxRuleData)
    → IsFrom codes (outcome_of_rule item_class (by_code codes) classes o).code
outcome_of_rule-IsFrom codes classes item_class none = tt
outcome_of_rule-IsFrom codes classes item_class (some rule) =
    target_code-IsFrom codes classes rule.outcome.code item_class

-- The same of an override that applies.
abbrev pub IsFromAny : List TaxCodeData → Option Outcome → Type 0
IsFromAny codes none = Unit {0}
IsFromAny codes (some o) = IsFrom codes o.code

fixed_code-IsFrom :
    (codes : List TaxCodeData) (source : Source) (wanted : Option Text) (o : Option TaxCodeData)
    → IsFrom codes o
    → IsFrom codes (fixed_code source wanted o).code
fixed_code-IsFrom codes source wanted none h = tt
fixed_code-IsFrom codes source wanted (some c) h = h

pub from_override-IsFrom :
    (codes : List TaxCodeData) (classes : List (Text × TaxClassData)) (override : Override)
    (source : Source) (inputs : TaxInputs) (region : Region)
    → IsFromAny codes (from_override override source inputs region (by_code codes) classes)
unfolding from_override
from_override-IsFrom codes classes override source inputs region = ground (
  arith,
  fixed_code-IsFrom codes source override.code (lookup (or_else override.code []) (by_code codes)),
  lookup-IsFrom codes (or_else override.code []),
  target_code-IsFrom codes classes ((lit "class", item_class_sentinel) ∷ []) inputs.item_class,
)
