-- ===== src/Tax/Precedence.antt =====
-- An override wins over the rules, that of the item over that of the party, and the proposal says
-- what it replaced.
use film_bill.Base.{
  ◌≡◌, refl, ◌↔◌, true, false, Option, none, some, List, [], arith, lookup, text_eq_iff,
  text_eq_refl, text_has_equality, or_else,
}
use mathlib.Core.Option.{some-injective}
use film_bill.Base.Text.{Text}
use film_bill.Tax.Regions.{Region, region_of}
use film_bill.Tax.Data.{
  TaxCodeData, TaxClassData, TaxRuleData, Override, TaxInputs, Source, Reason, Proposal, Outcome,
  WouldHaveApplied, item, party, by_override,
}
use film_bill.Tax.Rules.{by_code, by_class, context_of, from_rules}
use film_bill.Tax.Overrides.{
  note, not_blank, from_override, fixed_code, category_treatment, override_fixed_code,
}
use film_bill.Tax.Engine.{
  combine, code_name, same_text, would_have_applied, what_rules_say, decide, sale_reasons,
  propose_in, propose_tax,
}
use film_bill.Tax.Places.{region_of-has_country}

same_text_iff : (s t : Option Text) → (same_text s t ≡ true) ↔ (s ≡ t)
same_text_iff none none = (λ h. refl, λ h. refl)
same_text_iff none (some t) = ground arith
same_text_iff (some s) none = ground arith
same_text_iff (some s) (some t) = ground (arith, text_eq_iff s t)

-- Nothing is replaced exactly if the rules alone give the same code and the same treatment.
would_have_applied-none :
    (rules_outcome chosen : Outcome) (c : TaxCodeData) (lang : Text)
    → (would_have_applied (some rules_outcome) chosen c lang ≡ none) ↔ (
        (code_name rules_outcome.code ≡ some c.code) × (rules_outcome.treatment ≡ chosen.treatment))
unfolding would_have_applied
would_have_applied-none rules_outcome chosen c lang = ground (
  arith,
  same_text_iff (code_name rules_outcome.code) (some c.code),
  same_text_iff rules_outcome.treatment chosen.treatment,
)

-- What the rules alone say of the code that they find, or that they find none.
abbrev pub SaysOf : Option TaxCodeData → Text → WouldHaveApplied → Type 0
SaysOf none lang w = (w.code ≡ none) × (w.rate ≡ none) × (w.legal_note ≡ none)
SaysOf (some c) lang w =
    (w.code ≡ some c.code)
    × (w.rate ≡ some c.rate)
    × (w.legal_note ≡ not_blank (lookup lang c.legal_notes))

-- What the rules alone say: their treatment, their rule and its position, and the code.
pub record Says (outcome : Outcome) (lang : Text) (w : WouldHaveApplied) : Type 0 where
  pub treatment : w.treatment ≡ outcome.treatment
  pub applied_rule : w.applied_rule ≡ outcome.applied_rule
  pub applied_rule_position : w.applied_rule_position ≡ outcome.applied_rule_position
  pub of_code : SaysOf outcome.code lang w

what_rules_say-Says :
    (outcome : Outcome) (lang : Text) → Says outcome lang (what_rules_say outcome lang)
unfolding note
what_rules_say-Says outcome lang = record {
  treatment = refl;
  applied_rule = refl;
  applied_rule_position = refl;
  of_code = of outcome.code;
}
  where
    of :
        (o : Option TaxCodeData) → SaysOf o lang (what_rules_say (record outcome { code = o }) lang)
    of none = (refl, refl, refl)
    of (some c) = (refl, refl, refl)

would_have_applied-Says :
    (outcome chosen : Outcome) (c : TaxCodeData) (lang : Text) (w : WouldHaveApplied)
    → would_have_applied (some outcome) chosen c lang ≡ some w
    → Says outcome lang w
unfolding would_have_applied
would_have_applied-Says outcome chosen c lang w h =
    let said : some (what_rules_say outcome lang) ≡ some w = ground arith in
    rw (← some-injective _ _ said) (what_rules_say-Says outcome lang)

-- What a proposal that an override decides says: its code and rate, the override, and, exactly if
-- the rules differ from it, what they say.
pub record Overrides (source : Source) (c : TaxCodeData) (rules_outcome : Outcome) (lang : Text)
    (p : Proposal) : Type 0 where
  pub blocking : p.blocking ≡ false
  pub code : p.code ≡ some c.code
  pub rate : p.rate ≡ some c.rate
  pub treatment : p.treatment ≡ some (category_treatment c.category)
  pub applied_rule : p.applied_rule ≡ some (by_override source)
  pub replaces : (p.would_have_applied ≡ none) ↔ (
      (code_name rules_outcome.code ≡ some c.code)
      × (rules_outcome.treatment ≡ some (category_treatment c.category)))
  pub says : (w : WouldHaveApplied) → p.would_have_applied ≡ some w → Says rules_outcome lang w

combine-Overrides :
    (source : Source) (wanted : Option Text) (c : TaxCodeData) (rules_outcome : Outcome)
    (reasons : List Reason) (lang : Text)
    → c.is_active ≡ true
    → Overrides source c rules_outcome lang
        (combine (fixed_code source wanted (some c)) (some rules_outcome) reasons lang)
unfolding combine note would_have_applied
combine-Overrides source wanted c rules_outcome reasons lang active = rw active record {
  blocking = refl;
  code = refl;
  rate = refl;
  treatment = refl;
  applied_rule = refl;
  replaces = would_have_applied-none rules_outcome (fixed_code source wanted (some c)) c lang;
  says = would_have_applied-Says rules_outcome (fixed_code source wanted (some c)) c lang;
}

-- An override that fixes an active code of the company.
pub record FixesCode (codes : List TaxCodeData) (o : Override) (c : TaxCodeData) : Type 0 where
  pub kind : o.kind ≡ override_fixed_code
  pub known : lookup (or_else o.code []) (by_code codes) ≡ some c
  pub is_active : c.is_active ≡ true

-- The override that counts: that of the item, else that of the party.
pub data Decides (inputs : TaxInputs) (codes : List TaxCodeData) (c : TaxCodeData)
    : Source → Type 0 where
  by_item :
      (o : Override)
      → inputs.item_override ≡ some o
      → FixesCode codes o c
      → Decides inputs codes c item
  by_party :
      (o : Override)
      → inputs.item_override ≡ none
      → inputs.party_override ≡ some o
      → FixesCode codes o c
      → Decides inputs codes c party

fixed_override :
    (codes : List TaxCodeData) (classes : List TaxClassData) (o : Override) (source : Source)
    (inputs : TaxInputs) (region : Region) (c : TaxCodeData)
    → FixesCode codes o c
    → from_override o source inputs region (by_code codes) (by_class classes)
      ≡ some (fixed_code source o.code (some c))
unfolding from_override
fixed_override codes classes o source inputs region c fixes =
    simp (fixes.kind, fixes.known, text_eq_refl override_fixed_code) refl

module _ (inputs : TaxInputs) (region : Region) (codes : List TaxCodeData)
    (classes : List TaxClassData) (rules : List TaxRuleData) (lang : Text) where
  abbrev pub rules_alone : Outcome
  rules_alone =
      from_rules inputs (context_of inputs region) (by_code codes) (by_class classes) rules

  propose_in-Overrides :
      (source : Source) (c : TaxCodeData)
      → Decides inputs codes c source
      → Overrides source c rules_alone lang (propose_in inputs region codes classes rules lang)
  unfolding propose_in decide
  propose_in-Overrides source c (by_item o given fixes) =
      simp (given, fixed_override codes classes o item inputs region c fixes)
        (combine-Overrides item o.code c rules_alone (sale_reasons inputs region) lang
          fixes.is_active)
  propose_in-Overrides source c (by_party o without given fixes) =
      simp (without, given, fixed_override codes classes o party inputs region c fixes)
        (combine-Overrides party o.code c rules_alone (sale_reasons inputs region) lang
          fixes.is_active)

  -- Between two known countries, an override that fixes an active code of the company, the item’s or,
  -- where the item has none, the party’s, decides the code, the rate and the treatment whatever the
  -- rules say. The proposal says what the rules alone give exactly if their code or treatment differs:
  -- their treatment, code, rate, rule, its position and the legal note.
  pub propose_tax-Overrides :
      (members : List Text) (source : Source) (c : TaxCodeData)
      → region_of members inputs.seller_country inputs.buyer_country ≡ some region
      → Decides inputs codes c source
      → Overrides source c rules_alone lang (propose_tax members inputs codes classes rules lang)
  unfolding propose_tax
  propose_tax-Overrides members source c known decides =
      let there = region_of-has_country members inputs.seller_country inputs.buyer_country known in
      rw (there, known) (propose_in-Overrides source c decides)
