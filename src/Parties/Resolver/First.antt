-- ===== src/Parties/Resolver/First.antt =====
-- The first level that has a value gives it, and a level with nothing filled in changes nothing.
use film_bill.Base.{
  ◌≡◌, refl, ap₂, inl, inr, true, false, Option, List, [], ◌∷◌, ◌++◌, Bool-cases, All,
}
use film_bill.Parties.Levels.{
  PartyLevel, HasPresence, text_has_presence, dict_has_presence, int_has_presence,
  address_has_presence, is_present,
}
use film_bill.Parties.Resolver.{
  ResolvedField, ResolvedRecipient, unresolved, from_level, first, says, business_status_from,
  tax_country_of, explicit_or, billing_country, resolve_recipient,
}

module _ {A : Type 0} ⦃p : HasPresence A⦄ (attribute : PartyLevel → Option A) where
  abbrev pub IsAbsent : PartyLevel → Type 0
  IsAbsent level = is_present (attribute level) ≡ false

  -- The value of the first level that has one, and that level; or nothing.
  pub data IsFirst : List PartyLevel → ResolvedField A → Type 0 where
    nowhere : (chain : List PartyLevel) → All IsAbsent chain → IsFirst chain unresolved
    at_level :
        (before after : List PartyLevel) (level : PartyLevel)
        → All IsAbsent before
        → is_present (attribute level) ≡ true
        → IsFirst (before ++ level ∷ after) (from_level level (attribute level))

  IsFirst-cons :
      (level : PartyLevel) (chain : List PartyLevel) (f : ResolvedField A)
      → IsAbsent level
      → IsFirst chain f
      → IsFirst (level ∷ chain) f
  IsFirst-cons level _ _ h (nowhere chain all_absent) = nowhere (level ∷ chain) (h, all_absent)
  IsFirst-cons level _ _ h (at_level before after found all_absent has) =
      at_level (level ∷ before) after found (h, all_absent) has

  -- A field that is inherited is that of the first level that has it filled in.
  pub first-IsFirst : (chain : List PartyLevel) → IsFirst chain (first attribute chain)
  unfolding first
  first-IsFirst [] = nowhere [] tt
  first-IsFirst (level ∷ chain) = elim (Bool-cases (is_present (attribute level))) [
    | inl e ↦ rw e (at_level [] chain level tt e)
    | inr e ↦ rw e (IsFirst-cons level chain (first attribute chain) e (first-IsFirst chain))
  ]

  first_skips :
      (before after : List PartyLevel) (level : PartyLevel)
      → IsAbsent level
      → first attribute (before ++ level ∷ after) ≡ first attribute (before ++ after)
  unfolding first
  first_skips [] after level h = rw h refl
  first_skips (l ∷ before) after level h = rw (first_skips before after level h) refl

status_skips :
    (own : PartyLevel) (before after : List PartyLevel) (level : PartyLevel)
    → says level ≡ false
    → business_status_from own (before ++ level ∷ after)
      ≡ business_status_from own (before ++ after)
unfolding business_status_from
status_skips own [] after level h = rw h refl
status_skips own (l ∷ before) after level h = rw (status_skips own before after level h) refl

-- Nothing is filled in at a level but its name and the level itself.
pub record IsBlank (level : PartyLevel) : Type 0 where
  pub billing_address : is_present level.billing_address ≡ false
  pub vat_id : is_present level.vat_id ≡ false
  pub tax_status_note : is_present level.tax_status_note ≡ false
  pub tax_country : is_present level.tax_country ≡ false
  pub business_status : says level ≡ false
  pub tax_override : is_present level.tax_override ≡ false
  pub language : is_present level.language ≡ false
  pub default_currency : is_present level.default_currency ≡ false
  pub payment_terms_days : is_present level.payment_terms_days ≡ false
  pub payment_terms_text : is_present level.payment_terms_text ≡ false
  pub po_reference : is_present level.po_reference ≡ false
  pub email : is_present level.email ≡ false
  pub phone : is_present level.phone ≡ false
  pub einvoice_routing : is_present level.einvoice_routing ≡ false

-- Two recipients inherit the same.
pub record SameInherited (r s : ResolvedRecipient) : Type 0 where
  pub billing_address : r.billing_address ≡ s.billing_address
  pub vat_id : r.vat_id ≡ s.vat_id
  pub tax_status_note : r.tax_status_note ≡ s.tax_status_note
  pub tax_country : r.tax_country ≡ s.tax_country
  pub business_status : r.business_status ≡ s.business_status
  pub tax_override : r.tax_override ≡ s.tax_override
  pub language : r.language ≡ s.language
  pub default_currency : r.default_currency ≡ s.default_currency
  pub payment_terms_days : r.payment_terms_days ≡ s.payment_terms_days
  pub payment_terms_text : r.payment_terms_text ≡ s.payment_terms_text
  pub po_reference : r.po_reference ≡ s.po_reference
  pub email : r.email ≡ s.email
  pub phone : r.phone ≡ s.phone
  pub einvoice_routing : r.einvoice_routing ≡ s.einvoice_routing

-- A level of the chain with nothing filled in, a blank text and an address with no street and no city
-- being nothing, changes no inherited field: it does not shadow the levels above it.
pub resolve_recipient_skips :
    (own : PartyLevel) (before after : List PartyLevel) (level : PartyLevel)
    → IsBlank level
    → SameInherited
        (resolve_recipient own (before ++ level ∷ after))
        (resolve_recipient own (before ++ after))
unfolding resolve_recipient tax_country_of
resolve_recipient_skips own before after level blank =
    let billing =
      first_skips (λ l. l.billing_address) (own ∷ before) after level blank.billing_address in
    record {
      billing_address = billing;
      vat_id = first_skips (λ l. l.vat_id) (own ∷ before) after level blank.vat_id;
      tax_status_note =
          first_skips (λ l. l.tax_status_note) (own ∷ before) after level blank.tax_status_note;
      tax_country =
          ap₂ (λ e b. explicit_or e.source e (billing_country b.value b.source))
            (first_skips (λ l. l.tax_country) (own ∷ before) after level blank.tax_country) billing;
      business_status = status_skips own (own ∷ before) after level blank.business_status;
      tax_override =
          first_skips (λ l. l.tax_override) (own ∷ before) after level blank.tax_override;
      language = first_skips (λ l. l.language) (own ∷ before) after level blank.language;
      default_currency =
          first_skips (λ l. l.default_currency) (own ∷ before) after level blank.default_currency;
      payment_terms_days =
          first_skips (λ l. l.payment_terms_days) (own ∷ before) after level
            blank.payment_terms_days;
      payment_terms_text =
          first_skips (λ l. l.payment_terms_text) (own ∷ before) after level
            blank.payment_terms_text;
      po_reference =
          first_skips (λ l. l.po_reference) (own ∷ before) after level blank.po_reference;
      email = first_skips (λ l. l.email) (own ∷ before) after level blank.email;
      phone = first_skips (λ l. l.phone) (own ∷ before) after level blank.phone;
      einvoice_routing =
          first_skips (λ l. l.einvoice_routing) (own ∷ before) after level blank.einvoice_routing;
    }
