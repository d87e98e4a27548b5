-- ===== src/PartyService/Values.antt =====
-- What is audited of a party (PARTY_AUDITED of apps/api/routers/parties.py).
use film_bill.Base.{ℕ, Option, none, some, List, [], ◌∷◌}
use film_bill.Base.Int.{pos}
use film_bill.Base.Text.{Text, lit}
use film_bill.Parties.Levels.{Level, person, department, organisation, Dict}
use film_bill.Tax.Json.{
  Json, null, boolean, number, text, array, object, Items, no_items, item, Fields, no_fields, field,
}
use film_bill.Audit.Trail.{Values}
use film_bill.PartyService.Rows.{Party}

abbrev pub level_name : Level → Text
level_name organisation = lit "organisation"
level_name department = lit "department"
level_name person = lit "person"

abbrev optional : {A : Type 0} → (A → Json) → Option A → Json
optional f none = null
optional f (some a) = f a

-- A UUID is its number.
abbrev key : ℕ → Json
key id = number (pos id)

abbrev pub parent_value : Option ℕ → Json
parent_value parent_id = optional key parent_id

abbrev items_of : List Text → Items
items_of [] = no_items
items_of (s ∷ ss) = item (text s) (items_of ss)

abbrev text_array : List Text → Json
text_array ss = array (items_of ss)

abbrev fields_of : Dict → Fields
fields_of [] = no_fields
fields_of ((k, v) ∷ d) = field k v (fields_of d)

abbrev json_object : Dict → Json
json_object d = object (fields_of d)

unfoldable pub party_values : Party → Values
party_values p =
    (lit "name", text p.name)
    ∷ (lit "trading_name", optional text p.trading_name)
    ∷ (lit "tax_country", optional text p.tax_country)
    ∷ (lit "tax_status_note", optional text p.tax_status_note)
    ∷ (lit "recheck_interval_days", optional number p.recheck_interval_days)
    ∷ (lit "business_status", text p.business_status)
    ∷ (lit "tax_override", optional json_object p.tax_override)
    ∷ (lit "is_customer", boolean p.is_customer)
    ∷ (lit "is_supplier", boolean p.is_supplier)
    ∷ (lit "is_partner", boolean p.is_partner)
    ∷ (lit "party_number", optional text p.party_number)
    ∷ (lit "parent_id", parent_value p.parent_id)
    ∷ (lit "language", optional text p.language)
    ∷ (lit "default_currency", optional text p.default_currency)
    ∷ (lit "payment_terms_days", optional number p.payment_terms_days)
    ∷ (lit "payment_terms_text", optional text p.payment_terms_text)
    ∷ (lit "po_reference", optional text p.po_reference)
    ∷ (lit "legal_form", optional text p.legal_form)
    ∷ (lit "register_number", optional text p.register_number)
    ∷ (lit "register_court", optional text p.register_court)
    ∷ (lit "title", optional text p.title)
    ∷ (lit "position", optional text p.position)
    ∷ (lit "tags", text_array p.tags)
    ∷ (lit "einvoice_routing", optional json_object p.einvoice_routing)
    ∷ (lit "notes", optional text p.notes)
    ∷ (lit "is_active", boolean p.is_active)
    ∷ (lit "type", text (level_name p.kind))
    ∷ []

unfoldable pub party_audited : List Text
party_audited =
    lit "name"
    ∷ lit "trading_name"
    ∷ lit "tax_country"
    ∷ lit "tax_status_note"
    ∷ lit "recheck_interval_days"
    ∷ lit "business_status"
    ∷ lit "tax_override"
    ∷ lit "is_customer"
    ∷ lit "is_supplier"
    ∷ lit "is_partner"
    ∷ lit "party_number"
    ∷ lit "parent_id"
    ∷ lit "language"
    ∷ lit "default_currency"
    ∷ lit "payment_terms_days"
    ∷ lit "payment_terms_text"
    ∷ lit "po_reference"
    ∷ lit "legal_form"
    ∷ lit "register_number"
    ∷ lit "register_court"
    ∷ lit "title"
    ∷ lit "position"
    ∷ lit "tags"
    ∷ lit "einvoice_routing"
    ∷ lit "notes"
    ∷ lit "is_active"
    ∷ []
