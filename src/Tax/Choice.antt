-- ===== src/Tax/Choice.antt =====
-- Which rule `_from_rules` chooses: the first of the active ones that match, by position and name.
use film_bill.Base.{
  ◌≡◌, refl, sym, inl, inr, ◌↔◌, Bool, true, false, Option, none, some, List, [], ◌∷◌, arith,
  Bool-cases, select, find, All, All-map_of, Member, All-Member, find-Member, select-Member,
}
use mathlib.Core.Option.{some-injective}
use film_bill.Base.Text.{Text}
use film_bill.Base.Text.Order.{text_ltb_irrefl, text_ltb_asymm, text_nlt_trans}
use film_bill.Tax.Json.{Json}
use film_bill.Tax.Data.{TaxRuleData}
use film_bill.Tax.Rules.{matches, comes_before, insert_rule, sort_rules, chosen_rule}

-- Not after `s`, for all of a list.
abbrev NoneBefore : TaxRuleData → List TaxRuleData → Type 0
NoneBefore r rules = All (λ s. comes_before s r ≡ false) rules

abbrev IsSorted : List TaxRuleData → Type 0
IsSorted [] = Unit {0}
IsSorted (r ∷ rules) = NoneBefore r rules × IsSorted rules

comes_before_asymm : (r s : TaxRuleData) → comes_before r s ≡ true → comes_before s r ≡ false
unfolding comes_before
comes_before_asymm r s h = ground (arith, text_ltb_asymm r.name s.name)

-- What is not before is so transitively.
not_before_trans :
    (r s t : TaxRuleData)
    → comes_before s r ≡ false
    → comes_before t s ≡ false
    → comes_before t r ≡ false
unfolding comes_before
not_before_trans r s t h k = ground (arith, text_nlt_trans r.name s.name t.name)

insert_rule-Member :
    (r : TaxRuleData) (rules : List TaxRuleData) (s : TaxRuleData)
    → Member s (insert_rule r rules) ↔ Member s (r ∷ rules)
unfolding insert_rule
insert_rule-Member r [] s = (λ m. m, λ m. m)
insert_rule-Member r (t ∷ rules) s = ground (arith, insert_rule-Member r rules s)

sort_rules-Member :
    (rules : List TaxRuleData) (s : TaxRuleData) → Member s (sort_rules rules) ↔ Member s rules
unfolding sort_rules
sort_rules-Member [] s = (λ m. m, λ m. m)
sort_rules-Member (r ∷ rules) s =
    ground (arith, sort_rules-Member rules s, insert_rule-Member r (sort_rules rules) s)

NoneBefore-insert :
    (q r : TaxRuleData) (rules : List TaxRuleData)
    → comes_before r q ≡ false
    → NoneBefore q rules
    → NoneBefore q (insert_rule r rules)
unfolding insert_rule
NoneBefore-insert q r [] h least = (h, tt)
NoneBefore-insert q r (t ∷ rules) h least = ground (arith, NoneBefore-insert q r rules)

NoneBefore-trans :
    (q r : TaxRuleData) (rules : List TaxRuleData)
    → comes_before r q ≡ false
    → NoneBefore r rules
    → NoneBefore q rules
NoneBefore-trans q r rules h least = All-map_of (λ s k. not_before_trans q r s h k) rules least

insert_rule-IsSorted :
    (r : TaxRuleData) (rules : List TaxRuleData) → IsSorted rules → IsSorted (insert_rule r rules)
unfolding insert_rule
insert_rule-IsSorted r [] sorted = (tt, tt)
insert_rule-IsSorted r (t ∷ rules) (least, sorted) = elim (Bool-cases (comes_before t r)) [
  | inl e ↦ rw e (
    NoneBefore-insert t r rules (comes_before_asymm t r e) least,
    insert_rule-IsSorted r rules sorted,
  )
  | inr e ↦ rw e ((e, NoneBefore-trans r t rules e least), (least, sorted))
]

sort_rules-IsSorted : (rules : List TaxRuleData) → IsSorted (sort_rules rules)
unfolding sort_rules
sort_rules-IsSorted [] = tt
sort_rules-IsSorted (r ∷ rules) =
    insert_rule-IsSorted r (sort_rules rules) (sort_rules-IsSorted rules)

comes_before_irrefl : (r : TaxRuleData) → comes_before r r ≡ false
unfolding comes_before
comes_before_irrefl r = ground (arith, text_ltb_irrefl r.name)

-- The first that passes a test in a sorted list has no other that passes before it.
find-least :
    (p : TaxRuleData → Bool) (rules : List TaxRuleData) {r : TaxRuleData}
    → IsSorted rules
    → find p rules ≡ some r
    → All (λ s. p s ≡ true → comes_before s r ≡ false) rules
find-least p [] sorted h = tt
find-least p (t ∷ rules) {r} (least, sorted) h = elim (Bool-cases (p t)) [
  | inl e ↦
      let same : t ≡ r = some-injective _ _ (rw e at h) in
      (
        rw (sym same) (λ _. comes_before_irrefl t),
        All-map_of (λ s k _. rw (sym same) k) rules least,
      )
  | inr e ↦ (λ k. absurd (ground arith), find-least p rules sorted (rw e at h))
]

find-none :
    (p : TaxRuleData → Bool) (rules : List TaxRuleData)
    → find p rules ≡ none
    → All (λ s. p s ≡ false) rules
find-none p [] h = tt
find-none p (t ∷ rules) h = ground (arith, find-none p rules)

-- A rule that is active and matches.
abbrev pub IsCandidate : List (Text × Json) → TaxRuleData → Type 0
IsCandidate context r = (r.is_active ≡ true) × (matches context r ≡ true)

-- What makes a rule the one to apply, and what having none means.
abbrev pub IsChoice : List (Text × Json) → List TaxRuleData → Option TaxRuleData → Type 0
IsChoice context rules none = (s : TaxRuleData) → Member s rules → IsCandidate context s → ⊥
IsChoice context rules (some r) =
    Member r rules
    × (IsCandidate context r
        × ((s : TaxRuleData) → Member s rules → IsCandidate context s → comes_before s r ≡ false))

listed :
    (rules : List TaxRuleData) (s : TaxRuleData)
    → Member s rules
    → s.is_active ≡ true
    → Member s (sort_rules (select (λ rule. rule.is_active) rules))
listed rules s m active =
    (sort_rules-Member _ s).1 ((select-Member (λ rule. rule.is_active) rules).1 (m, active))

chosen-IsChoice :
    (context : List (Text × Json)) (rules : List TaxRuleData) (o : Option TaxRuleData)
    → chosen_rule context rules ≡ o
    → IsChoice context rules o
unfolding chosen_rule
chosen-IsChoice context rules none h = λ s m (active, hit).
    let missed = All-Member _ _ (find-none (matches context) _ h) (listed rules s m active) in
    absurd (ground (arith, missed, hit))
chosen-IsChoice context rules (some r) h =
    let (m, hit) = find-Member (matches context) _ h in
    let (n, active) =
      (select-Member (λ rule. rule.is_active) rules).0 ((sort_rules-Member _ r).0 m) in
    let least =
      find-least (matches context) _ (sort_rules-IsSorted (select (λ rule. rule.is_active) rules))
        h in
    (n, ((active, hit), λ s o (still, fits). All-Member _ _ least (listed rules s o still) fits))

-- The chosen rule is one of the company’s, active and matching, and no other active, matching rule
-- comes before it by position and then by name. If none is chosen, no active rule matches.
pub chosen_rule-IsChoice :
    (context : List (Text × Json)) (rules : List TaxRuleData)
    → IsChoice context rules (chosen_rule context rules)
chosen_rule-IsChoice context rules = chosen-IsChoice context rules (chosen_rule context rules) refl
