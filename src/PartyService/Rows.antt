-- ===== src/PartyService/Rows.antt =====
-- The row of a party (`Party` of apps/api/models/party.py) and its lookup. Its `type` is its `kind`
-- here, and the times at which it was written are left out. A null in a JSON column is `none`.
use film_bill.Base.{
  ◌≡◌, ℕ, Bool, ◌&&◌, Option, none, some, List, nat_eq, arith, find, Member, find-Member,
}
use film_bill.Base.Int.{ℤ}
use film_bill.Base.Text.{Text}
use film_bill.Parties.Levels.{Level, Dict}

pub record Party : Type 0 where
  pub id : ℕ
  pub company_id : ℕ
  pub kind : Level
  pub parent_id : Option ℕ
  pub name : Text
  pub trading_name : Option Text
  pub legal_form : Option Text
  pub register_number : Option Text
  pub register_court : Option Text
  pub title : Option Text
  pub position : Option Text
  pub is_customer : Bool
  pub is_supplier : Bool
  pub is_partner : Bool
  pub tags : List Text
  pub party_number : Option Text
  pub language : Option Text
  pub default_currency : Option Text
  pub payment_terms_days : Option ℤ
  pub payment_terms_text : Option Text
  pub po_reference : Option Text
  pub notes : Option Text
  pub business_status : Text
  pub tax_country : Option Text
  pub tax_status_note : Option Text
  pub recheck_interval_days : Option ℤ
  pub tax_override : Option Dict
  pub einvoice_routing : Option Dict
  pub is_active : Bool

abbrev pub is_party : ℕ → ℕ → Party → Bool
is_party company_id id p = nat_eq p.company_id company_id && nat_eq p.id id

-- `db.query(Party).filter(Party.company_id == …, Party.id == …).first()`
abbrev pub find_party : ℕ → ℕ → List Party → Option Party
find_party company_id id rows = find (is_party company_id id) rows

abbrev pub parent_row : ℕ → Option ℕ → List Party → Option Party
parent_row company_id none rows = none
parent_row company_id (some id) rows = find_party company_id id rows

pub found-Member :
    (company_id id : ℕ) (rows : List Party) {p : Party}
    → find_party company_id id rows ≡ some p
    → Member p rows × (p.company_id ≡ company_id) × (p.id ≡ id)
found-Member company_id id rows h =
    let (m, same) = find-Member (is_party company_id id) rows h in (m, ground arith, ground arith)
