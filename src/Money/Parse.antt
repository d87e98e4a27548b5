-- ===== src/Money/Parse.antt =====
-- `_to_decimal` of apps/api/core/money.py, and the texts that `Decimal(text)` reads: ASCII digits,
-- any exponent, and a NaN without its payload.
use film_bill.Base.{
  ℕ, suc, Bool, true, false, not, ◌&&◌, ◌||◌, Option, none, some, [], ◌∷◌, ◌++◌, if◌then◌else◌,
  nat_eq, text_eq, length, select, all, drop,
}
use film_bill.Base.Int.{ℤ, pos, negsuc, minus, ◌+ℤ◌}
use film_bill.Base.Text.{Text, lit, strip, lower, is_empty, starts_with}
use film_bill.Base.Digits.{is_digit, read}
use film_bill.Money.Decimal.{Decimal, finite, infinity, quiet_nan, signaling_nan, is_finite}

-- The values that reach the validator, by their Python type. A float is the text of its value.
pub data PyValue : Type 0 where
  decimal : Decimal → PyValue
  boolean : Bool → PyValue
  integer : ℤ → PyValue
  string : Text → PyValue
  float : Text → PyValue
  other : Text → PyValue

-- DecimalParseError, by its message.
pub data ParseError : Type 0 where
  is_boolean : ParseError
  must_not_be_empty : ParseError
  not_a_number : Text → ParseError
  is_float : Text → ParseError
  wrong_type : Text → ParseError
  not_finite : Decimal → ParseError

pub data Parsed : Type 0 where
  ok : Decimal → Parsed
  refused : ParseError → Parsed

-- The digits that a text starts with, and the rest.
unfoldable pub split_digits : Text → Text × Text
split_digits [] = ([], [])
split_digits (c ∷ s) =
    let rest = split_digits s in if is_digit c then (c ∷ rest.0, rest.1) else ([], c ∷ s)

-- `[-+]?`: whether the sign is a minus, and the rest.
unfoldable pub split_sign : Text → Bool × Text
split_sign [] = (false, [])
split_sign (c ∷ s) =
    if nat_eq c b'-' then (true, s) else if nat_eq c b'+' then (false, s) else (false, c ∷ s)

-- `(\.\d*)?`
unfoldable pub split_fraction : Text → Text × Text
split_fraction [] = ([], [])
split_fraction (c ∷ s) = if nat_eq c b'.' then split_digits s else ([], c ∷ s)

abbrev pub signed : Bool → ℕ → ℤ
signed true n = minus n
signed false n = pos n

abbrev pub exponent_digits : Bool × Text → Text × Text → Option ℤ
exponent_digits (sign, t) (digits, rest) =
    if not (is_empty digits) && is_empty rest then some (signed sign (read digits)) else none

-- `(E[-+]?\d+)?\Z`
unfoldable pub exponent : Text → Option ℤ
exponent [] = some (pos 0)
exponent (c ∷ s) =
    let sign = split_sign s in
    if nat_eq c b'e' || nat_eq c b'E' then exponent_digits sign (split_digits sign.1) else none

-- `Inf(inity)?|s?NaN\d*`, in any case.
unfoldable pub special : Bool → Text → Option Decimal
special sign t =
    if text_eq (lower t) (lit "inf") || text_eq (lower t) (lit "infinity")
    then some (infinity sign)
    else if starts_with (lower t) (lit "nan") && all is_digit (drop 3 t)
    then some quiet_nan
    else if starts_with (lower t) (lit "snan") && all is_digit (drop 4 t)
    then some signaling_nan
    else none

abbrev pub scaled : Bool → Text → Text → Option ℤ → Option Decimal
scaled sign whole fraction none = none
scaled sign whole fraction (some e) =
    some (finite sign (read (whole ++ fraction)) (e +ℤ minus (length fraction)))

abbrev pub number_of : Bool → Text → Text × Text → Text × Text → Option Decimal
number_of sign t (whole, after) (fraction, rest) =
    if is_empty (whole ++ fraction)
    then special sign t
    else scaled sign whole fraction (exponent rest)

unfoldable pub unsigned : Bool × Text → Option Decimal
unsigned (sign, t) = let whole = split_digits t in number_of sign t whole (split_fraction whole.1)

-- `Decimal(text)`: `none` is InvalidOperation.
unfoldable pub parse_decimal : Text → Option Decimal
parse_decimal s = unsigned (split_sign (select (λ c. not (nat_eq c b'_')) (strip s)))

abbrev pub integer_decimal : ℤ → Decimal
integer_decimal (pos n) = finite false n (pos 0)
integer_decimal (negsuc n) = finite true (suc n) (pos 0)

abbrev pub number_or_refused : Text → Option Decimal → Parsed
number_or_refused s none = refused (not_a_number s)
number_or_refused s (some d) = if is_finite d then ok d else refused (not_finite d)

unfoldable pub to_decimal : PyValue → Parsed
unfolding is_finite
to_decimal (decimal d) = if is_finite d then ok d else refused (not_finite d)
to_decimal (boolean b) = refused is_boolean
to_decimal (integer n) =
    if is_finite (integer_decimal n)
    then ok (integer_decimal n)
    else refused (not_finite (integer_decimal n))
to_decimal (string s) =
    if is_empty (strip s)
    then refused must_not_be_empty
    else number_or_refused s (parse_decimal (strip s))
to_decimal (float value) = refused (is_float value)
to_decimal (other type_name) = refused (wrong_type type_name)
