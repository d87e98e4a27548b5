-- ===== src/Audit.antt =====
-- What may be stored in the audit trail (`redact`, `mask_iban` and `_jsonable` of
-- apps/api/services/audit.py). A decimal, a date or a UUID is the text that it is stored as.
pub mod Clean
pub mod Trail
mod Samples
use film_bill.Base.{
  ℕ, zero, suc, ◌+◌, ◌-◌, Bool, true, false, not, ◌&&◌, ◌||◌, Option, none, some, List, [], ◌∷◌,
  ◌++◌, ltb, leb, nat_eq, if◌then◌else◌, length, take, drop, select, any, text_eq, contains,
  text_has_equality,
}
use film_bill.Base.Text.{Text, lit, lower, upper}
use film_bill.Tax.Json.{
  Json, Items, Fields, null, boolean, number, text, array, object, no_items, item, no_fields, field,
}

abbrev pub redacted : Json
redacted = text (lit "[redacted]")

unfoldable pub secret_fields : List Text
secret_fields =
    lit "password"
    ∷ lit "password_hash"
    ∷ lit "new_password"
    ∷ lit "current_password"
    ∷ lit "totp_secret"
    ∷ lit "totp_secret_encrypted"
    ∷ lit "backup_codes"
    ∷ lit "backup_codes_hashed"
    ∷ lit "invite_token"
    ∷ lit "refresh_token"
    ∷ lit "access_token"
    ∷ lit "magic_code"
    ∷ lit "verification_code"
    ∷ lit "recovery_code"
    ∷ lit "one_time_code"
    ∷ lit "otp_code"
    ∷ lit "reset_code"
    ∷ lit "jwt_secret"
    ∷ lit "smtp_password"
    ∷ lit "secret_key"
    ∷ lit "s3_secret_key"
    ∷ lit "api_key"
    ∷ []

unfoldable pub secret_suffixes : List Text
secret_suffixes =
    lit "_password"
    ∷ lit "_secret"
    ∷ lit "_secret_encrypted"
    ∷ lit "_token"
    ∷ lit "_codes"
    ∷ lit "_codes_hashed"
    ∷ lit "_api_key"
    ∷ []

unfoldable pub masked_fields : List Text
masked_fields = lit "iban" ∷ []

-- `s.endswith(t)`
unfoldable pub ends_with : Text → Text → Bool
ends_with s t = leb (length t) (length s) && text_eq (drop (length s - length t) s) t

unfoldable pub is_secret_field : Text → Bool
is_secret_field name =
    contains secret_fields (lower name) || any (ends_with (lower name)) secret_suffixes

abbrev pub is_masked_field : Text → Bool
is_masked_field name = contains masked_fields (lower name)

abbrev pub mask_compact : Text → Json
mask_compact compact =
    if ltb (length compact) 8
    then redacted
    else text (take 2 compact ++ 0x2026 ∷ drop (length compact - 4) compact)

unfoldable pub mask_iban : Json → Json
mask_iban null = null
mask_iban (text value) = mask_compact (upper (select (λ c. not (nat_eq c b' ')) value))
mask_iban _ = redacted

-- What a field may hold, of its value and of what `_jsonable` makes of the value.
abbrev pub stored : Text → Json → Json → Json
stored name value cleaned =
    if is_secret_field name
    then redacted
    else if is_masked_field name
    then mask_iban value
    else cleaned

unfoldable mutual
  pub jsonable : Json → Json
  jsonable null = null
  jsonable (boolean b) = boolean b
  jsonable (number n) = number n
  jsonable (text s) = text s
  jsonable (array items) = array (jsonable_items items)
  jsonable (object fields) = object (jsonable_fields fields)

  pub jsonable_items : Items → Items
  jsonable_items no_items = no_items
  jsonable_items (item value items) = item (jsonable value) (jsonable_items items)

  pub jsonable_fields : Fields → Fields
  jsonable_fields no_fields = no_fields
  jsonable_fields (field name value fields) =
      field name (stored name value (jsonable value)) (jsonable_fields fields)

unfoldable pub redact : Text → Json → Json
redact name value = stored name value (jsonable value)
