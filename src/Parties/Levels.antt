-- ===== src/Parties/Levels.antt =====
-- The parties of a chain, and what counts as filled in (`PartyLevel`, `PartyAddressValue`, `_present`
-- of apps/api/billing/parties/resolver.py).
use film_bill.Base.{
  ◌≡◌, ◌↔◌, ℕ, Bool, true, false, not, ◌&&◌, Option, none, some, List, [], ◌∷◌, HasEquality, arith,
}
use film_bill.Base.Int.{ℤ}
use film_bill.Base.Text.{Text, strip, is_empty}
use film_bill.Tax.Json.{Json}

pub data Level : Type 0 where
  person : Level
  department : Level
  organisation : Level

abbrev pub level_eq : Level → Level → Bool
level_eq person person = true
level_eq department department = true
level_eq organisation organisation = true
level_eq _ _ = false

pub level_eq_iff : (a b : Level) → (level_eq a b ≡ true) ↔ (a ≡ b)
level_eq_iff a b = ground arith

instance abbrev pub level_has_equality : HasEquality Level
level_has_equality = record { equal = level_eq; equal_iff = level_eq_iff }

abbrev pub Dict : Type 0
Dict = List (Text × Json)

pub record PartyAddressValue : Type 0 where
  pub street : Option Text
  pub street2 : Option Text
  pub zip : Option Text
  pub city : Option Text
  pub country : Option Text

pub record PartyLevel : Type 0 where
  pub level : Level
  pub id : ℕ
  pub name : Option Text
  pub trading_name : Option Text
  pub billing_address : Option PartyAddressValue
  pub postal_address : Option PartyAddressValue
  pub vat_id : Option Text
  pub tax_country : Option Text
  pub business_status : Text
  pub tax_override : Option Dict
  pub language : Option Text
  pub default_currency : Option Text
  pub payment_terms_days : Option ℤ
  pub payment_terms_text : Option Text
  pub po_reference : Option Text
  pub email : Option Text
  pub phone : Option Text
  pub einvoice_routing : Option Dict
  pub vat_verified : Bool
  pub tax_id_kind : Option Text
  pub tax_status_note : Option Text
  pub tax_id_evidence : Option Dict

-- `_present`, by the type of the value, which is not `None`.
pub record HasPresence (A : Type 0) : Type 0 where
  pub filled : A → Bool

instance abbrev pub text_has_presence : HasPresence Text
text_has_presence = record { filled = λ s. not (is_empty (strip s)) }

abbrev pub dict_filled : Dict → Bool
dict_filled [] = false
dict_filled (e ∷ d) = true

instance abbrev pub dict_has_presence : HasPresence Dict
dict_has_presence = record { filled = dict_filled }

instance abbrev pub int_has_presence : HasPresence ℤ
int_has_presence = record { filled = λ _. true }

module _ {A : Type 0} ⦃p : HasPresence A⦄ where
  abbrev pub is_present : Option A → Bool
  is_present none = false
  is_present (some a) = p.filled a

-- `is_empty` of an address: no street and no city.
unfoldable pub is_empty_address : PartyAddressValue → Bool
is_empty_address a = not (is_present a.street) && not (is_present a.city)

instance abbrev pub address_has_presence : HasPresence PartyAddressValue
address_has_presence = record { filled = λ a. not (is_empty_address a) }
