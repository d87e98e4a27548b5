-- ===== src/Audit/Clean.antt =====
-- Nothing secret is stored, at any depth.
use film_bill.Base.{
  ◌≡◌, refl, ap, ◌⊎◌, inl, inr, ◌-◌, ◌≤◌, Bool, true, false, ◌∷◌, ◌++◌, arith, ltb, if◌then◌else◌,
  Bool-cases, length, take, drop, length-append, take-append-drop, length-drop,
}
use film_bill.Base.Text.{Text}
use film_bill.Tax.Json.{
  Json, Items, Fields, null, boolean, number, text, array, object, no_items, item, no_fields, field,
}
use film_bill.Audit.{
  redacted, is_secret_field, is_masked_field, mask_compact, mask_iban, stored, jsonable,
  jsonable_items, jsonable_fields, redact,
}

-- Nothing, the marker, or seven characters of an account number.
abbrev pub IsMasked : Json → Type 0
IsMasked value =
    (value ≡ null) ⊎ ((value ≡ redacted) ⊎ ((s : Text) × ((value ≡ text s) × (length s ≡ 7))))

-- What a field of this name may hold.
abbrev pub IsStored : Text → Json → Type 0
IsStored name value =
    ((is_secret_field name ≡ false) ⊎ (value ≡ redacted))
    × ((is_masked_field name ≡ false) ⊎ IsMasked value)

abbrev mutual
  -- Every field in the value, at any depth, may hold what it holds.
  pub IsClean : Json → Type 0
  IsClean (array items) = AreClean items
  IsClean (object fields) = HasClean fields
  IsClean _ = Unit {0}

  pub AreClean : Items → Type 0
  AreClean no_items = Unit {0}
  AreClean (item value items) = IsClean value × AreClean items

  pub HasClean : Fields → Type 0
  HasClean no_fields = Unit {0}
  HasClean (field name value fields) = (IsStored name value × IsClean value) × HasClean fields

seven : (s : Text) → 8 ≤ length s → length (take 2 s ++ 0x2026 ∷ drop (length s - 4) s) ≡ 7
seven s h = omega (
  arith,
  length-append (take 2 s) (0x2026 ∷ drop (length s - 4) s),
  length-append (take 2 s) (drop 2 s),
  ap length (take-append-drop 2 s),
  length-drop 2 s,
  length-drop (length s - 4) s,
  h,
)

mask_compact-IsMasked : (s : Text) → IsMasked (mask_compact s)
mask_compact-IsMasked s = elim (Bool-cases (ltb (length s) 8)) [
  | inl e ↦ rw e (inr (inl refl))
  | inr e ↦ rw e (inr (inr (_, (refl, seven s (ground arith)))))
]

mask_iban-IsMasked : (value : Json) → IsMasked (mask_iban value)
unfolding mask_iban
mask_iban-IsMasked null = inl refl
mask_iban-IsMasked (text s) = mask_compact-IsMasked _
mask_iban-IsMasked _ = inr (inl refl)

mask_compact-IsClean : (s : Text) → IsClean (mask_compact s)
mask_compact-IsClean s = ground arith

mask_iban-IsClean : (value : Json) → IsClean (mask_iban value)
unfolding mask_iban
mask_iban-IsClean null = tt
mask_iban-IsClean (text s) = mask_compact-IsClean _
mask_iban-IsClean _ = tt

stored-IsStored : (name : Text) (value cleaned : Json) → IsStored name (stored name value cleaned)
stored-IsStored name value cleaned = ground (arith, mask_iban-IsMasked value)

one_of-IsClean :
    (secret is_masked : Bool) (mask cleaned : Json)
    → IsClean mask
    → IsClean cleaned
    → IsClean (if secret then redacted else if is_masked then mask else cleaned)
one_of-IsClean true is_masked mask cleaned h k = tt
one_of-IsClean false true mask cleaned h k = h
one_of-IsClean false false mask cleaned h k = k

stored-IsClean :
    (name : Text) (value cleaned : Json) → IsClean cleaned → IsClean (stored name value cleaned)
stored-IsClean name value cleaned h =
    one_of-IsClean (is_secret_field name) (is_masked_field name) (mask_iban value) cleaned
      (mask_iban-IsClean value) h

mutual
  unfolding jsonable jsonable_items jsonable_fields

  jsonable-IsClean : (value : Json) → IsClean (jsonable value)
  jsonable-IsClean null = tt
  jsonable-IsClean (boolean b) = tt
  jsonable-IsClean (number n) = tt
  jsonable-IsClean (text s) = tt
  jsonable-IsClean (array items) = jsonable_items-AreClean items
  jsonable-IsClean (object fields) = jsonable_fields-HasClean fields

  jsonable_items-AreClean : (items : Items) → AreClean (jsonable_items items)
  jsonable_items-AreClean no_items = tt
  jsonable_items-AreClean (item value items) =
      (jsonable-IsClean value, jsonable_items-AreClean items)

  jsonable_fields-HasClean : (fields : Fields) → HasClean (jsonable_fields fields)
  jsonable_fields-HasClean no_fields = tt
  jsonable_fields-HasClean (field name value fields) = (
    (
      stored-IsStored name value (jsonable value),
      stored-IsClean name value (jsonable value) (jsonable-IsClean value),
    ),
    jsonable_fields-HasClean fields,
  )

-- What is stored for a field, and for every field inside its value at any depth: the marker if the
-- name is secret, and nothing, the marker or seven characters if it is that of an account number.
pub redact-IsClean :
    (name : Text) (value : Json) → IsStored name (redact name value) × IsClean (redact name value)
unfolding redact
redact-IsClean name value = (
  stored-IsStored name value (jsonable value),
  stored-IsClean name value (jsonable value) (jsonable-IsClean value),
)
