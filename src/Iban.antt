-- ===== src/Iban.antt =====
-- Bank account numbers (apps/api/core/iban.py). InvalidIBAN is the constructor of its message.
pub mod Whole
pub mod Accepted
pub mod Grouped
pub mod Mistyped
mod Samples
use film_bill.Base.{
  ℕ, zero, suc, ◌+◌, ◌-◌, ◌%◌, Bool, true, false, not, ◌&&◌, ◌||◌, Option, none, some, List, [],
  ◌∷◌, ◌++◌, ltb, leb, nat_eq, if◌then◌else◌, length, take, drop, all, select, lookup, text_eq,
  text_has_equality,
}
use film_bill.Base.Text.{Text, lit, is_space, upper, is_empty}
use film_bill.Base.Digits.{is_digit, show, read}

pub data IbanError : Type 0 where
  required : IbanError
  not_an_iban : IbanError
  wrong_length : Text → ℕ → ℕ → IbanError
  check_digits_differ : IbanError

pub data Validated : Type 0 where
  ok : Text → Validated
  invalid : IbanError → Validated

unfoldable pub iban_lengths : List (Text × ℕ)
iban_lengths =
    (lit "AD", 24)
    ∷ (lit "AE", 23)
    ∷ (lit "AL", 28)
    ∷ (lit "AT", 20)
    ∷ (lit "AZ", 28)
    ∷ (lit "BA", 20)
    ∷ (lit "BE", 16)
    ∷ (lit "BG", 22)
    ∷ (lit "BH", 22)
    ∷ (lit "BR", 29)
    ∷ (lit "BY", 28)
    ∷ (lit "CH", 21)
    ∷ (lit "CR", 22)
    ∷ (lit "CY", 28)
    ∷ (lit "CZ", 24)
    ∷ (lit "DE", 22)
    ∷ (lit "DK", 18)
    ∷ (lit "DO", 28)
    ∷ (lit "EE", 20)
    ∷ (lit "EG", 29)
    ∷ (lit "ES", 24)
    ∷ (lit "FI", 18)
    ∷ (lit "FO", 18)
    ∷ (lit "FR", 27)
    ∷ (lit "GB", 22)
    ∷ (lit "GE", 22)
    ∷ (lit "GI", 23)
    ∷ (lit "GL", 18)
    ∷ (lit "GR", 27)
    ∷ (lit "GT", 28)
    ∷ (lit "HR", 21)
    ∷ (lit "HU", 28)
    ∷ (lit "IE", 22)
    ∷ (lit "IL", 23)
    ∷ (lit "IS", 26)
    ∷ (lit "IT", 27)
    ∷ (lit "JO", 30)
    ∷ (lit "KW", 30)
    ∷ (lit "KZ", 20)
    ∷ (lit "LB", 28)
    ∷ (lit "LC", 32)
    ∷ (lit "LI", 21)
    ∷ (lit "LT", 20)
    ∷ (lit "LU", 20)
    ∷ (lit "LV", 21)
    ∷ (lit "MC", 27)
    ∷ (lit "MD", 24)
    ∷ (lit "ME", 22)
    ∷ (lit "MK", 19)
    ∷ (lit "MR", 27)
    ∷ (lit "MT", 31)
    ∷ (lit "MU", 30)
    ∷ (lit "NL", 18)
    ∷ (lit "NO", 15)
    ∷ (lit "PK", 24)
    ∷ (lit "PL", 28)
    ∷ (lit "PS", 29)
    ∷ (lit "PT", 25)
    ∷ (lit "QA", 29)
    ∷ (lit "RO", 24)
    ∷ (lit "RS", 22)
    ∷ (lit "SA", 24)
    ∷ (lit "SE", 24)
    ∷ (lit "SI", 19)
    ∷ (lit "SK", 24)
    ∷ (lit "SM", 27)
    ∷ (lit "ST", 25)
    ∷ (lit "SV", 28)
    ∷ (lit "TL", 23)
    ∷ (lit "TN", 24)
    ∷ (lit "TR", 26)
    ∷ (lit "UA", 29)
    ∷ (lit "VA", 22)
    ∷ (lit "VG", 24)
    ∷ (lit "XK", 20)
    ∷ []

-- `re.sub(r"\s+", "", value).upper()`
unfoldable pub normalise_iban : Text → Text
normalise_iban value = upper (select (λ c. not (is_space c)) value)

abbrev pub is_capital : ℕ → Bool
is_capital c = leb b'A' c && leb c b'Z'

-- `_IBAN_SHAPE.match`
unfoldable pub has_shape : Text → Bool
has_shape (a ∷ b ∷ c ∷ d ∷ account) =
    is_capital a
    && is_capital b
    && is_digit c
    && is_digit d
    && all (λ x. is_capital x || is_digit x) account
    && leb 1 (length account)
    && leb (length account) 30
has_shape _ = false

-- `_LETTER_VALUES.get(char, char)`
unfoldable pub letter_value : ℕ → Text
letter_value c = if is_capital c then show (c - b'A' + 10) else c ∷ []

unfoldable pub expand : Text → Text
expand [] = []
expand (c ∷ s) = letter_value c ++ expand s

abbrev pub rearranged : Text → Text
rearranged iban = drop 4 iban ++ take 4 iban

-- Nine digits at a time. The fuel is the number of digits.
unfoldable pub remainder_from : ℕ → ℕ → Text → ℕ
remainder_from zero remainder s = remainder
remainder_from (suc f) remainder [] = remainder
remainder_from (suc f) remainder (c ∷ s) =
    remainder_from f (read (show remainder ++ take 9 (c ∷ s)) % 97) (drop 9 (c ∷ s))

unfoldable pub mod_97 : Text → ℕ
mod_97 iban = let expanded = expand (rearranged iban) in remainder_from (length expanded) 0 expanded

abbrev pub length_differs : Option ℕ → ℕ → Bool
length_differs none n = false
length_differs (some expected) n = not (nat_eq n expected)

abbrev pub expected_or_zero : Option ℕ → ℕ
expected_or_zero none = 0
expected_or_zero (some n) = n

unfoldable pub check_iban : Text → Validated
check_iban iban =
    let expected = lookup (take 2 iban) iban_lengths in
    if is_empty iban
    then invalid required
    else if not (has_shape iban)
    then invalid not_an_iban
    else if length_differs expected (length iban)
    then invalid (wrong_length (take 2 iban) (expected_or_zero expected) (length iban))
    else if not (nat_eq (mod_97 iban) 1)
    then invalid check_digits_differ
    else ok iban

unfoldable pub validate_iban : Text → Validated
validate_iban value = check_iban (normalise_iban value)

-- The groups of four, a space between them. The fuel is the number of characters.
unfoldable pub grouped : ℕ → Text → Text
grouped zero s = s
grouped (suc f) s = if leb (length s) 4 then s else take 4 s ++ b' ' ∷ grouped f (drop 4 s)

unfoldable pub format_iban : Text → Text
format_iban value = let iban = normalise_iban value in grouped (length iban) iban
