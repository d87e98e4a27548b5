-- ===== src/PartyService/Changes.antt =====
-- The columns that a request writes of a party (`PartyCreate` and `PartyWrite` of
-- apps/api/schemas/party.py, `_apply` of apps/api/routers/parties.py).
use film_bill.Base.{ℕ, Bool, true, false, Option, none, some, List, [], or_else, ℕ_has_equality}
use film_bill.Base.Int.{ℤ}
use film_bill.Base.Text.{Text, lit}
use film_bill.Http.{Answer, ok, crashed, ◌>>=◌}
use film_bill.Parties.Levels.{Level, Dict}
use film_bill.PartyService.Rows.{Party}

-- A field that the request does not have is `none`, one that is null `some none`.
pub record PartyWrite : Type 0 where
  pub parent_id : Option (Option ℕ)
  pub name : Option (Option Text)
  pub trading_name : Option (Option Text)
  pub legal_form : Option (Option Text)
  pub register_number : Option (Option Text)
  pub register_court : Option (Option Text)
  pub title : Option (Option Text)
  pub position : Option (Option Text)
  pub is_customer : Option (Option Bool)
  pub is_supplier : Option (Option Bool)
  pub is_partner : Option (Option Bool)
  pub tags : Option (Option (List Text))
  pub party_number : Option (Option Text)
  pub language : Option (Option Text)
  pub default_currency : Option (Option Text)
  pub payment_terms_days : Option (Option ℤ)
  pub payment_terms_text : Option (Option Text)
  pub po_reference : Option (Option Text)
  pub notes : Option (Option Text)
  pub business_status : Option (Option Text)
  pub tax_country : Option (Option Text)
  pub tax_status_note : Option (Option Text)
  pub recheck_interval_days : Option (Option ℤ)
  pub tax_override : Option (Option Dict)
  pub einvoice_routing : Option (Option Dict)

pub record PartyCreate : Type 0 where
  pub kind : Level
  pub name : Text
  pub rest : PartyWrite

-- A column that must not be null: a null in an update is refused by the database, and one in an insert
-- leaves the column to its default.
abbrev pub not_null : {A : Type 0} → Option (Option A) → A → Answer A
not_null none old = ok old
not_null (some none) old = crashed
not_null (some (some a)) old = ok a

abbrev or_default : {A : Type 0} → Option (Option A) → A → A
or_default (some (some a)) default = a
or_default _ default = default

-- `_apply` to a row.
unfoldable pub apply_changes : PartyWrite → Party → Answer Party
apply_changes body p = do
  name ← not_null body.name p.name
  is_customer ← not_null body.is_customer p.is_customer
  is_supplier ← not_null body.is_supplier p.is_supplier
  is_partner ← not_null body.is_partner p.is_partner
  tags ← not_null body.tags p.tags
  business_status ← not_null body.business_status p.business_status
  ok (record p {
    name = name;
    trading_name = or_else body.trading_name p.trading_name;
    legal_form = or_else body.legal_form p.legal_form;
    register_number = or_else body.register_number p.register_number;
    register_court = or_else body.register_court p.register_court;
    title = or_else body.title p.title;
    position = or_else body.position p.position;
    is_customer = is_customer;
    is_supplier = is_supplier;
    is_partner = is_partner;
    tags = tags;
    party_number = or_else body.party_number p.party_number;
    language = or_else body.language p.language;
    default_currency = or_else body.default_currency p.default_currency;
    payment_terms_days = or_else body.payment_terms_days p.payment_terms_days;
    payment_terms_text = or_else body.payment_terms_text p.payment_terms_text;
    po_reference = or_else body.po_reference p.po_reference;
    notes = or_else body.notes p.notes;
    business_status = business_status;
    tax_country = or_else body.tax_country p.tax_country;
    tax_status_note = or_else body.tax_status_note p.tax_status_note;
    recheck_interval_days = or_else body.recheck_interval_days p.recheck_interval_days;
    tax_override = or_else body.tax_override p.tax_override;
    einvoice_routing = or_else body.einvoice_routing p.einvoice_routing;
  })

-- The row of a new party, after `_apply`.
unfoldable pub new_party : ℕ → PartyCreate → ℕ → Party
new_party company_id body id =
    let changes = body.rest in
    record {
      id = id;
      company_id = company_id;
      kind = body.kind;
      parent_id = or_else changes.parent_id none;
      name = body.name;
      trading_name = or_else changes.trading_name none;
      legal_form = or_else changes.legal_form none;
      register_number = or_else changes.register_number none;
      register_court = or_else changes.register_court none;
      title = or_else changes.title none;
      position = or_else changes.position none;
      is_customer = or_default changes.is_customer false;
      is_supplier = or_default changes.is_supplier false;
      is_partner = or_default changes.is_partner false;
      tags = or_default changes.tags [];
      party_number = or_else changes.party_number none;
      language = or_else changes.language none;
      default_currency = or_else changes.default_currency none;
      payment_terms_days = or_else changes.payment_terms_days none;
      payment_terms_text = or_else changes.payment_terms_text none;
      po_reference = or_else changes.po_reference none;
      notes = or_else changes.notes none;
      business_status = or_default changes.business_status (lit "auto");
      tax_country = or_else changes.tax_country none;
      tax_status_note = or_else changes.tax_status_note none;
      recheck_interval_days = or_else changes.recheck_interval_days none;
      tax_override = or_else changes.tax_override none;
      einvoice_routing = or_else changes.einvoice_routing (some []);
      is_active = true;
    }
