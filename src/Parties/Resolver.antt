-- ===== src/Parties/Resolver.antt =====
-- `resolve_recipient` of apps/api/billing/parties/resolver.py.
pub mod First
pub mod SameLevel
use film_bill.Base.{
  ℕ, Bool, true, false, not, ◌&&◌, ◌||◌, Option, none, some, List, [], ◌∷◌, lookup, insert, text_eq,
  if◌then◌else◌,
}
use film_bill.Base.Int.{ℤ}
use film_bill.Base.Text.{Text, lit, strip, is_empty}
use film_bill.Parties.Levels.{
  Level, level_has_equality, Dict, PartyAddressValue, PartyLevel, HasPresence, text_has_presence,
  dict_has_presence, int_has_presence, address_has_presence, is_present, dict_filled,
}

pub record ResolvedField (A : Type 0) : Type 0 where
  pub value : Option A
  pub source : Option Level

abbrev pub unresolved : {A : Type 0} → ResolvedField A
unresolved = record { value = none; source = none }

abbrev pub from_level : {A : Type 0} → PartyLevel → Option A → ResolvedField A
from_level level value = record { value = value; source = some level.level }

module _ {A : Type 0} ⦃p : HasPresence A⦄ where
  -- `_first` and `_first_address`
  unfoldable pub first : (PartyLevel → Option A) → List PartyLevel → ResolvedField A
  first attribute [] = unresolved
  first attribute (level ∷ chain) =
      let rest = first attribute chain in
      if is_present (attribute level) then from_level level (attribute level) else rest

  abbrev pub own_field : PartyLevel → Option A → ResolvedField A
  own_field level value = if is_present value then from_level level value else unresolved

pub record ResolvedRecipient : Type 0 where
  pub own_level : Level
  pub ids : List (Level × ℕ)
  pub names : List (Level × Option Text)
  pub contact_name : ResolvedField Text
  pub invoice_name : ResolvedField Text
  pub billing_address : ResolvedField PartyAddressValue
  pub vat_id : ResolvedField Text
  pub vat_verified : ResolvedField Bool
  pub tax_id_kind : ResolvedField Text
  pub tax_status_note : ResolvedField Text
  pub tax_id_evidence : ResolvedField Dict
  pub tax_country : ResolvedField Text
  pub business_status : ResolvedField Text
  pub tax_override : ResolvedField Dict
  pub language : ResolvedField Text
  pub default_currency : ResolvedField Text
  pub payment_terms_days : ResolvedField ℤ
  pub payment_terms_text : ResolvedField Text
  pub po_reference : ResolvedField Text
  pub email : ResolvedField Text
  pub phone : ResolvedField Text
  pub einvoice_routing : ResolvedField Dict

-- `{level.level: f(level) for level in chain}`
abbrev pub by_level_from :
    {A : Type 0} → (PartyLevel → A) → List (Level × A) → List PartyLevel → List (Level × A)
by_level_from f d [] = d
by_level_from f d (level ∷ chain) = by_level_from f (insert level.level (f level) d) chain

abbrev pub by_level : {A : Type 0} → (PartyLevel → A) → List PartyLevel → List (Level × A)
by_level f chain = by_level_from f [] chain

abbrev pub last_of : PartyLevel → List PartyLevel → PartyLevel
last_of level [] = level
last_of level (next ∷ chain) = last_of next chain

abbrev pub auto : Text
auto = lit "auto"

abbrev pub or_auto : Text → Text
or_auto s = if is_empty s then auto else s

abbrev pub says : PartyLevel → Bool
says level =
    let status = strip (or_auto level.business_status) in
    not (is_empty status) && not (text_eq status auto)

-- `_business_status`, of a chain that starts at `own`.
unfoldable pub business_status_from : PartyLevel → List PartyLevel → ResolvedField Text
business_status_from own [] = record { value = some auto; source = some own.level }
business_status_from own (level ∷ chain) =
    let rest = business_status_from own chain in
    if says level
    then record { value = some (strip (or_auto level.business_status)); source = some level.level }
    else rest

abbrev pub billing_country : Option PartyAddressValue → Option Level → ResolvedField Text
billing_country none source = unresolved
billing_country (some address) source =
    if is_present address.country
    then record { value = address.country; source = source }
    else unresolved

abbrev pub explicit_or : Option Level → ResolvedField Text → ResolvedField Text → ResolvedField Text
explicit_or none explicit other = other
explicit_or (some source) explicit other = explicit

-- `_tax_country`
unfoldable pub tax_country_of :
    List PartyLevel → ResolvedField PartyAddressValue → ResolvedField Text
tax_country_of chain billing =
    let explicit = first (λ level. level.tax_country) chain in
    explicit_or explicit.source explicit (billing_country billing.value billing.source)

-- The level that the VAT ID comes from.
abbrev pub source_level : List PartyLevel → Option Level → Option PartyLevel
source_level chain none = none
source_level chain (some source) = lookup source (by_level (λ level. level) chain)

abbrev pub verified_of : Option PartyLevel → Bool
verified_of none = false
verified_of (some level) = level.vat_verified

abbrev pub kind_of : Option PartyLevel → Option Text
kind_of none = none
kind_of (some level) = level.tax_id_kind

abbrev pub filled_dict : Option Dict → Option Dict
filled_dict none = none
filled_dict (some d) = if dict_filled d then some d else none

abbrev pub evidence_of : Option PartyLevel → Option Dict
evidence_of none = none
evidence_of (some level) = filled_dict level.tax_id_evidence

-- The chain `own ∷ above`, which is not empty.
unfoldable pub resolve_recipient : PartyLevel → List PartyLevel → ResolvedRecipient
resolve_recipient own above =
    let chain = own ∷ above in
    let outermost = last_of own above in
    let billing = first (λ level. level.billing_address) chain in
    let vat = first (λ level. level.vat_id) chain in
    let verified_source = source_level chain vat.source in
    record {
      own_level = own.level;
      ids = by_level (λ level. level.id) chain;
      names = by_level (λ level. level.name) chain;
      contact_name = own_field own own.name;
      invoice_name = own_field outermost outermost.name;
      billing_address = billing;
      vat_id = vat;
      vat_verified = record { value = some (verified_of verified_source); source = vat.source };
      tax_id_kind = record { value = kind_of verified_source; source = vat.source };
      tax_id_evidence = record { value = evidence_of verified_source; source = vat.source };
      tax_status_note = first (λ level. level.tax_status_note) chain;
      tax_country = tax_country_of chain billing;
      business_status = business_status_from own chain;
      tax_override = first (λ level. level.tax_override) chain;
      language = first (λ level. level.language) chain;
      default_currency = first (λ level. level.default_currency) chain;
      payment_terms_days = first (λ level. level.payment_terms_days) chain;
      payment_terms_text = first (λ level. level.payment_terms_text) chain;
      po_reference = first (λ level. level.po_reference) chain;
      email = first (λ level. level.email) chain;
      phone = first (λ level. level.phone) chain;
      einvoice_routing = first (λ level. level.einvoice_routing) chain;
    }
