-- ===== src/Tax/Safe.antt =====
-- `propose_tax` never guesses: it proposes an active code of the company, or nothing.
use film_bill.Base.{
  ◌≡◌, refl, ◌⊎◌, inl, inr, true, false, Option, none, some, List, [], ◌∷◌, ◌++◌, Bool-cases,
  Member,
}
use film_bill.Base.Text.{Text}
use film_bill.Tax.Regions.{Region, region_of}
use film_bill.Tax.Data.{
  TaxCodeData, TaxClassData, TaxRuleData, Override, TaxInputs, Source, Failure, Reason, TaxWarning,
  Proposal, Outcome, override_does_not_apply,
}
use film_bill.Tax.Rules.{by_class, context_of, chosen_rule, from_rules}
use film_bill.Tax.Origin.{IsFrom, IsFromAny, outcome_of_rule-IsFrom, from_override-IsFrom}
use film_bill.Tax.Overrides.{blocked, note}
use film_bill.Tax.Engine.{
  combine, combine_with, propose_code, or_next, decide, overrides_of, sale_reasons, propose_in,
  propose_where, propose_tax, has_country,
}

-- A blocked proposal proposes nothing.
pub record ProposesNothing (p : Proposal) : Type 0 where
  pub blocking : p.blocking ≡ true
  pub treatment : p.treatment ≡ none
  pub code : p.code ≡ none
  pub rate : p.rate ≡ none
  pub legal_note : p.legal_note ≡ none
  pub applied_rule : p.applied_rule ≡ none
  pub would_have_applied : p.would_have_applied ≡ none

-- Else the code, the rate and the note are those of an active code.
pub record ProposesCode (lang : Text) (c : TaxCodeData) (p : Proposal) : Type 0 where
  pub is_active : c.is_active ≡ true
  pub blocking : p.blocking ≡ false
  pub code : p.code ≡ some c.code
  pub rate : p.rate ≡ some c.rate
  pub legal_note : p.legal_note ≡ note (some c) lang

abbrev pub IsSafe : List TaxCodeData → Text → Proposal → Type 0
IsSafe codes lang p =
    ProposesNothing p ⊎ ((c : TaxCodeData) × (Member c codes × ProposesCode lang c p))

blocked-IsSafe :
    (codes : List TaxCodeData) (lang : Text) (reasons : List Reason) (warnings : List TaxWarning)
    → IsSafe codes lang (blocked reasons warnings)
blocked-IsSafe codes lang reasons warnings = inl (record {
  blocking = refl;
  treatment = refl;
  code = refl;
  rate = refl;
  legal_note = refl;
  applied_rule = refl;
  would_have_applied = refl;
})

module _ (codes : List TaxCodeData) (lang : Text) where
  propose_code-IsSafe :
      (chosen : Outcome) (rules_outcome : Option Outcome) (reasons : List Reason) (c : TaxCodeData)
      → Member c codes
      → IsSafe codes lang (propose_code chosen rules_outcome reasons lang c)
  unfolding note
  propose_code-IsSafe chosen rules_outcome reasons c m = elim (Bool-cases c.is_active) [
    | inl e ↦ rw e (
        inr (
          c,
          (
            m,
            record { is_active = e; blocking = refl; code = refl; rate = refl; legal_note = refl },
          ),
        ))
    | inr e ↦ rw e (blocked-IsSafe codes lang _ _)
  ]

  combine_with-IsSafe :
      (failure : Option Failure) (o : Option TaxCodeData) (chosen : Outcome)
      (rules_outcome : Option Outcome) (reasons : List Reason)
      → IsFrom codes o
      → IsSafe codes lang (combine_with failure o chosen rules_outcome reasons lang)
  combine_with-IsSafe (some f) o chosen rules_outcome reasons h = blocked-IsSafe codes lang _ _
  combine_with-IsSafe none none chosen rules_outcome reasons h = blocked-IsSafe codes lang _ _
  combine_with-IsSafe none (some c) chosen rules_outcome reasons h =
      propose_code-IsSafe chosen rules_outcome reasons c h

  or_next-IsSafe :
      (o : Option Outcome) (rules_outcome : Outcome) (reasons : List Reason) (next : Proposal)
      → IsFromAny codes o
      → IsSafe codes lang next
      → IsSafe codes lang (or_next o rules_outcome reasons lang next)
  unfolding combine
  or_next-IsSafe none rules_outcome reasons next h safe = safe
  or_next-IsSafe (some o) rules_outcome reasons next h safe =
      combine_with-IsSafe o.failure o.code o (some rules_outcome) reasons h

  decide-IsSafe :
      (overrides : List (Source × Option Override)) (apply : Source → Override → Option Outcome)
      (rules_outcome : Outcome) (reasons : List Reason)
      → ((source : Source) (override : Override) → IsFromAny codes (apply source override))
      → IsFrom codes rules_outcome.code
      → IsSafe codes lang (decide overrides apply rules_outcome reasons lang)
  unfolding decide combine
  decide-IsSafe [] apply rules_outcome reasons h k =
      combine_with-IsSafe rules_outcome.failure rules_outcome.code rules_outcome none reasons k
  decide-IsSafe ((source, none) ∷ overrides) apply rules_outcome reasons h k =
      decide-IsSafe overrides apply rules_outcome reasons h k
  decide-IsSafe ((source, some override) ∷ overrides) apply rules_outcome reasons h k =
      or_next-IsSafe (apply source override) rules_outcome reasons _ (h source override) (
        decide-IsSafe overrides apply rules_outcome (reasons ++ override_does_not_apply source ∷ [])
          h k)

  propose_where-IsSafe :
      (o : Option Region) (inputs : TaxInputs) (classes : List TaxClassData)
      (rules : List TaxRuleData)
      → IsSafe codes lang (propose_where o inputs codes classes rules lang)
  unfolding propose_in from_rules
  propose_where-IsSafe none inputs classes rules = blocked-IsSafe codes lang _ _
  propose_where-IsSafe (some region) inputs classes rules =
      decide-IsSafe (overrides_of inputs) _ _ (sale_reasons inputs region)
        (λ source override.
          from_override-IsFrom codes (by_class classes) override source inputs region)
        (outcome_of_rule-IsFrom codes (by_class classes) inputs.item_class
          (chosen_rule (context_of inputs region) rules))

-- Whatever the tables, the rules, the overrides and the sale: either the proposal is blocked, with no
-- treatment, code, rate or note, or it is the code, the rate and the note of an active tax code of
-- the company.
pub propose_tax-IsSafe :
    (members : List Text) (inputs : TaxInputs) (codes : List TaxCodeData)
    (classes : List TaxClassData) (rules : List TaxRuleData) (lang : Text)
    → IsSafe codes lang (propose_tax members inputs codes classes rules lang)
unfolding propose_tax
propose_tax-IsSafe members inputs codes classes rules lang =
    elim (Bool-cases (has_country inputs.seller_country)) [
      | inl e ↦ rw e (
          propose_where-IsSafe codes lang
            (region_of members inputs.seller_country inputs.buyer_country) inputs classes rules)
      | inr e ↦ rw e (blocked-IsSafe codes lang _ _)
    ]
