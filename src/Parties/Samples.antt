-- ===== src/Parties/Samples.antt =====
-- A recipient of three levels, and the theorems at concrete inputs.
use film_bill.Base.{◌≡◌, refl, true, false, none, some, List, [], ◌∷◌, text_eq, Member}
use film_bill.Base.Text.{lit, strip, is_space}
use film_bill.Parties.Levels.{
  Level, person, department, organisation, PartyLevel, is_empty_address, address_has_presence,
  text_has_presence,
}
use film_bill.Parties.Resolver.{first, business_status_from, tax_country_of, resolve_recipient}
use film_bill.Parties.Resolver.First.{IsBlank}
use film_bill.Parties.Resolver.SameLevel.{IsConsistent, resolve_recipient-IsConsistent}
use film_bill.Parties.Buyer.{recipient_buyer_type, tax_inputs}
use film_bill.Parties.Buyer.Verified.{Relies, tax_inputs-Relies}

abbrev nobody : Level → PartyLevel
nobody level = record {
  level = level;
  id = 0;
  name = none;
  trading_name = none;
  billing_address = none;
  postal_address = none;
  vat_id = none;
  tax_country = none;
  business_status = lit "auto";
  tax_override = none;
  language = none;
  default_currency = none;
  payment_terms_days = none;
  payment_terms_text = none;
  po_reference = none;
  email = none;
  phone = none;
  einvoice_routing = none;
  vat_verified = false;
  tax_id_kind = none;
  tax_status_note = none;
  tax_id_evidence = none;
}

abbrev maria : PartyLevel
maria = record (nobody person) { id = 1; name = some (lit "Maria Huber") }

-- Only a postcode and a blank VAT ID.
abbrev editors : PartyLevel
editors = record (nobody department) {
  id = 2;
  name = some (lit "Redaktion Kultur");
  vat_id = some (lit " ");
  billing_address = some (record {
    street = none;
    street2 = none;
    zip = some (lit "1136");
    city = some (lit "");
    country = none;
  });
}

abbrev broadcaster : PartyLevel
broadcaster = record (nobody organisation) {
  id = 3;
  name = some (lit "ORF");
  vat_id = some (lit "ATU16263102");
  vat_verified = true;
  tax_id_kind = some (lit "vat");
  billing_address = some (record {
    street = some (lit "Hugo-Portisch-Gasse 1");
    street2 = none;
    zip = some (lit "1136");
    city = some (lit "Wien");
    country = some (lit "AT");
  });
}

abbrev above : List PartyLevel
above = editors ∷ broadcaster ∷ []

resolves :
    ((resolve_recipient maria above).vat_id.value ≡ some (lit "ATU16263102"))
    × ((resolve_recipient maria above).contact_name.value ≡ some (lit "Maria Huber"))
    × ((resolve_recipient maria above).invoice_name.value ≡ some (lit "ORF"))
    × ((resolve_recipient maria above).billing_address.source ≡ some organisation)
    × ((tax_inputs (resolve_recipient maria above)).buyer_country ≡ some (lit "AT"))
    × ((tax_inputs (resolve_recipient maria above)).buyer_type ≡ lit "business")
    × ((tax_inputs (resolve_recipient maria [])).buyer_type ≡ lit "private")
unfolding resolve_recipient first tax_country_of business_status_from is_empty_address tax_inputs
    recipient_buyer_type strip is_space lit text_eq
resolves = (refl, refl, refl, refl, refl, refl, refl)

IsBlank-editors : IsBlank editors
unfolding is_empty_address strip is_space lit text_eq
IsBlank-editors = record {
  billing_address = refl;
  vat_id = refl;
  tax_status_note = refl;
  tax_country = refl;
  business_status = refl;
  tax_override = refl;
  language = refl;
  default_currency = refl;
  payment_terms_days = refl;
  payment_terms_text = refl;
  po_reference = refl;
  email = refl;
  phone = refl;
  einvoice_routing = refl;
}

resolve_recipient-IsConsistent_example :
    IsConsistent (maria ∷ above) (resolve_recipient maria above)
resolve_recipient-IsConsistent_example =
    resolve_recipient-IsConsistent maria above ((refl, (refl, tt)), ((refl, tt), (tt, tt)))

tax_inputs-Relies_example :
    (level : PartyLevel) × (Member level (maria ∷ above)
      × Relies level (resolve_recipient maria above) (tax_inputs (resolve_recipient maria above)))
unfolding tax_inputs resolve_recipient first is_empty_address strip is_space lit
tax_inputs-Relies_example =
    tax_inputs-Relies maria above ((refl, (refl, tt)), ((refl, tt), (tt, tt))) refl
