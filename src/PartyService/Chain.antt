-- ===== src/PartyService/Chain.antt =====
-- The chain of a party and what a document addressed to it would use: `build_chain` and `resolve` of
-- apps/api/services/party_service.py.
pub mod Climbs
pub mod Backed
use film_bill.Base.{
  ℕ, zero, suc, Bool, true, false, not, ◌&&◌, ◌||◌, Option, none, some, List, [], ◌∷◌, map, ltb,
  nat_eq, if◌then◌else◌, text_eq, select, contains, ℕ_has_equality,
}
use film_bill.Base.Text.{Text, lit, text_ltb}
use film_bill.Parties.Levels.{PartyAddressValue, PartyLevel}
use film_bill.Parties.Resolver.{ResolvedRecipient, filled_dict, resolve_recipient}
use film_bill.PartyService.Rows.{Party, parent_row}
use film_bill.PartyService.Tree.{max_depth}
use film_bill.PartyService.Evidence.{
  PartyTaxId, Evidence, sort_rows, first_of, primary_tax_id, tax_id_evidence, vat_is_verified,
}

pub record PartyAddress : Type 0 where
  pub party_id : ℕ
  pub kind : Text
  pub value : PartyAddressValue
  pub is_default : Bool
  pub created_at : ℕ

pub record PartyContactPoint : Type 0 where
  pub party_id : ℕ
  pub kind : Text
  pub purpose : Text
  pub value : Text
  pub is_primary : Bool
  pub created_at : ℕ

-- The tables that a chain is read from.
pub record PartyBook : Type 0 where
  pub parties : List Party
  pub addresses : List PartyAddress
  pub contact_points : List PartyContactPoint
  pub evidence : Evidence

-- True sorts before false, and equals are told apart by a second test.
abbrev first_true : Bool → Bool → Bool → Bool
first_true a b otherwise = (a && not b) || (not (b && not a) && otherwise)

abbrev address_before : PartyAddress → PartyAddress → Bool
address_before a b = first_true a.is_default b.is_default (ltb a.created_at b.created_at)

abbrev contact_before : PartyContactPoint → PartyContactPoint → Bool
contact_before a b =
    first_true a.is_primary b.is_primary (
      text_ltb a.purpose b.purpose
      || (text_eq a.purpose b.purpose && ltb a.created_at b.created_at))

unfoldable pub default_address : PartyBook → ℕ → Text → Option PartyAddress
default_address book party_id kind = first_of (
    sort_rows address_before
      (select (λ a. nat_eq a.party_id party_id && text_eq a.kind kind) book.addresses))

abbrev pub address_value : Option PartyAddress → Option PartyAddressValue
address_value none = none
address_value (some a) = some a.value

abbrev contact_value : Option PartyContactPoint → Option Text
contact_value none = none
contact_value (some c) = some c.value

unfoldable pub primary_contact : PartyBook → ℕ → Text → Option Text
primary_contact book party_id kind = contact_value (
    first_of (
      sort_rows contact_before
        (select (λ c. nat_eq c.party_id party_id && text_eq c.kind kind) book.contact_points)))

abbrev pub number_value : Option PartyTaxId → Option Text
number_value none = none
number_value (some t) = some t.value

abbrev pub number_kind : Option PartyTaxId → Option Text
number_kind none = none
number_kind (some t) = some t.kind

-- `_level_of`
unfoldable pub level_of : PartyBook → ℕ → Party → PartyLevel
level_of book now p =
    let primary = primary_tax_id book.evidence p in
    record {
      level = p.kind;
      id = p.id;
      name = some p.name;
      trading_name = p.trading_name;
      billing_address = address_value (default_address book p.id (lit "billing"));
      postal_address = address_value (default_address book p.id (lit "postal"));
      vat_id = number_value primary;
      tax_country = p.tax_country;
      business_status = p.business_status;
      tax_override = filled_dict p.tax_override;
      language = p.language;
      default_currency = p.default_currency;
      payment_terms_days = p.payment_terms_days;
      payment_terms_text = p.payment_terms_text;
      po_reference = p.po_reference;
      email = primary_contact book p.id (lit "email");
      phone = primary_contact book p.id (lit "phone");
      einvoice_routing = filled_dict p.einvoice_routing;
      vat_verified = vat_is_verified book.evidence p now;
      tax_id_kind = number_kind primary;
      tax_status_note = p.tax_status_note;
      tax_id_evidence = tax_id_evidence book.evidence p now;
    }

-- The loop of `build_chain`, which goes round `fuel` times more at most.
unfoldable pub ancestors : ℕ → ℕ → List Party → List ℕ → Option Party → List Party
ancestors zero company_id rows seen walker = []
ancestors (suc fuel) company_id rows seen none = []
ancestors (suc fuel) company_id rows seen (some p) =
    let rest =
      ancestors fuel company_id rows (p.id ∷ seen) (parent_row company_id p.parent_id rows) in
    if contains seen p.id then [] else p ∷ rest

-- The rows of the chain; `len(chain) <= MAX_DEPTH` holds once more than there are levels.
unfoldable pub chain_of : PartyBook → Party → List Party
chain_of book p = ancestors (suc max_depth) p.company_id book.parties [] (some p)

unfoldable pub build_chain : PartyBook → ℕ → Party → List PartyLevel
build_chain book now p = map (level_of book now) (chain_of book p)

abbrev pub resolve_chain : List PartyLevel → Option ResolvedRecipient
resolve_chain [] = none
resolve_chain (own ∷ above) = some (resolve_recipient own above)

-- `resolve_recipient` takes a chain that is not empty.
unfoldable pub resolve : PartyBook → ℕ → Party → Option ResolvedRecipient
resolve book now p = resolve_chain (build_chain book now p)
