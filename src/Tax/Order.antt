-- ===== src/Tax/Order.antt =====
-- The order in which the rules are read from the database decides nothing.
use film_bill.Base.{◌≡◌, refl, ap, ◌↔◌, false, Option, none, some, List, Member}
use film_bill.Base.Text.{Text}
use film_bill.Tax.Json.{Json}
use film_bill.Tax.Data.{TaxRuleData}
use film_bill.Tax.Rules.{comes_before, chosen_rule}
use film_bill.Tax.Choice.{IsChoice, chosen_rule-IsChoice}

-- The same rules, in whatever order.
abbrev pub SameRules : List TaxRuleData → List TaxRuleData → Type 0
SameRules rules others = (s : TaxRuleData) → Member s rules ↔ Member s others

-- No two rules share a position and a name.
abbrev pub HasNoTies : List TaxRuleData → Type 0
HasNoTies rules =
    (r s : TaxRuleData)
    → Member r rules
    → Member s rules
    → comes_before r s ≡ false
    → comes_before s r ≡ false
    → r ≡ s

choice_unique :
    (context : List (Text × Json)) (rules others : List TaxRuleData)
    → SameRules rules others
    → HasNoTies rules
    → (o p : Option TaxRuleData) → IsChoice context rules o
    → IsChoice context others p
    → o ≡ p
choice_unique context rules others same ties none none h k = refl
choice_unique context rules others same ties none (some s) h (m, (fits, _)) =
    absurd (h s ((same s).1 m) fits)
choice_unique context rules others same ties (some r) none (m, (fits, _)) k =
    absurd (k r ((same r).0 m) fits)
choice_unique context rules others same ties (some r) (some s) (m, (fits, least))
      (n, (suits, first)) =
    let back = (same s).1 n in
    ap some (ties r s m back (first r ((same r).0 m) fits) (least s back suits))

-- The rules in any other order give the same choice, if no two share a position and a name.
pub chosen_rule_any_order :
    (context : List (Text × Json)) (rules others : List TaxRuleData)
    → SameRules rules others
    → HasNoTies rules
    → chosen_rule context rules ≡ chosen_rule context others
chosen_rule_any_order context rules others same ties =
    choice_unique context rules others same ties _ _ (chosen_rule-IsChoice context rules)
      (chosen_rule-IsChoice context others)
