-- ===== src/Audit/Samples.antt =====
-- Runs of the redaction, and the theorem at a concrete input.
use film_bill.Base.{◌≡◌, refl, text_eq, [], ◌∷◌, text_has_equality}
use film_bill.Base.Text.{lit, lower, upper}
use film_bill.Tax.Json.{Json, text, array, object, no_items, item, no_fields, field}
use film_bill.Audit.{
  redacted, secret_fields, secret_suffixes, masked_fields, ends_with, is_secret_field, mask_iban,
  jsonable, jsonable_items, jsonable_fields, redact,
}
use film_bill.Audit.Trail.{Values}
use film_bill.Audit.Clean.{IsStored, IsClean, redact-IsClean}

redacts :
    (redact (lit "iban") (text (lit "at61 1904 3002 3457 3201")) ≡ text (lit "AT…3201"))
    × (redact (lit "Webhook_Token") (text (lit "abc")) ≡ redacted)
    × (redact (lit "iban") (text (lit "AT61")) ≡ redacted)
    × (redact (lit "country_code") (text (lit "AT")) ≡ text (lit "AT"))
unfolding redact jsonable jsonable_items jsonable_fields mask_iban is_secret_field secret_fields
    secret_suffixes masked_fields ends_with lower upper lit text_eq
redacts = (refl, refl, refl, refl)

-- A password inside a list inside a change.
abbrev settings : Json
settings =
    array (item (object (field (lit "smtp_password") (text (lit "hunter2")) no_fields)) no_items)

redact-IsClean_example :
    IsStored (lit "settings") (redact (lit "settings") settings)
    × IsClean (redact (lit "settings") settings)
redact-IsClean_example = redact-IsClean (lit "settings") settings

abbrev old_values : Values
old_values = (lit "role", text (lit "admin")) ∷ []

abbrev new_values : Values
new_values = (lit "role", text (lit "owner")) ∷ []
