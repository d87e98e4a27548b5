-- ===== src/Money/Accepted.antt =====
-- Which values `_to_decimal` accepts.
use film_bill.Base.{◌≡◌, ◌↔◌, true, Option, none, some, [], ◌∷◌, arith, if◌then◌else◌}
use film_bill.Base.Text.{Text, strip, is_empty}
use film_bill.Money.Decimal.{Decimal, is_finite}
use film_bill.Money.Parse.{
  PyValue, decimal, boolean, integer, string, float, other, ok, refused, not_finite,
  must_not_be_empty, parse_decimal, integer_decimal, to_decimal, number_or_refused,
}
use film_bill.Money.RoundTrip.{parse_decimal-nil}

-- The number that a value stands for. A boolean and a float stand for none.
abbrev pub denotes : PyValue → Option Decimal
denotes (decimal d) = some d
denotes (integer n) = some (integer_decimal n)
denotes (string s) = parse_decimal (strip s)
denotes _ = none

guarded :
    (c d : Decimal)
    → ((if is_finite c then ok c else refused (not_finite c)) ≡ ok d)
      ↔ ((some c ≡ some d) × (is_finite d ≡ true))
guarded c d = ground arith

number :
    (s : Text) (o : Option Decimal) (d : Decimal)
    → (number_or_refused s o ≡ ok d) ↔ ((o ≡ some d) × (is_finite d ≡ true))
number s none d = ground arith
number s (some c) d = guarded c d

stripped :
    (s t : Text) (d : Decimal)
    → ((if is_empty t then refused must_not_be_empty else number_or_refused s (parse_decimal t))
        ≡ ok d)
      ↔ ((parse_decimal t ≡ some d) × (is_finite d ≡ true))
stripped s [] d = rw parse_decimal-nil (ground arith)
stripped s (c ∷ t) d = number s (parse_decimal (c ∷ t)) d

-- A value is accepted as a decimal exactly if it is a decimal, an integer or a text that stands for
-- that decimal, and the decimal is finite.
pub to_decimal_iff :
    (v : PyValue) (d : Decimal)
    → (to_decimal v ≡ ok d) ↔ ((denotes v ≡ some d) × (is_finite d ≡ true))
unfolding to_decimal
to_decimal_iff (decimal c) d = guarded c d
to_decimal_iff (integer n) d = guarded (integer_decimal n) d
to_decimal_iff (boolean b) d = ground arith
to_decimal_iff (float t) d = ground arith
to_decimal_iff (other t) d = ground arith
to_decimal_iff (string s) d = stripped s (strip s) d
