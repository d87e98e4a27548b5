-- ===== src/Money/Samples.antt =====
-- Runs of the money functions, and the theorems at concrete inputs.
use film_bill.Base.{◌≡◌, refl, true, false, none, some, text_eq}
use film_bill.Base.Int.{pos, negsuc, minus, ◌+ℤ◌}
use film_bill.Base.Text.{lit, strip, lower, starts_with}
use film_bill.Base.Digits.{show, zfill}
use film_bill.Money.Decimal.{
  finite, infinity, is_finite, rescale, quantize, quantize_amount, quantize_qty,
}
use film_bill.Money.Rounding.{IsRounded, IsKept, quantize_nearest}
use film_bill.Money.Format.{plain, pointed, serialise}
use film_bill.Money.Parse.{
  string, float, boolean, ok, refused, is_float, is_boolean, not_a_number, not_finite,
  must_not_be_empty, split_digits, split_sign, split_fraction, exponent, special, unsigned,
  parse_decimal, to_decimal,
}
use film_bill.Money.RoundTrip.{to_decimal-serialise}

rounds :
    (quantize_amount (finite false 5 (negsuc 2)) ≡ some (finite false 1 (negsuc 1)))
    × (quantize_amount (finite true 12345 (negsuc 2)) ≡ some (finite true 1235 (negsuc 1)))
    × (quantize_qty (finite false 7 (pos 1)) ≡ some (finite false 700000 (negsuc 3)))
    × (quantize_amount (finite false 1 (pos 40)) ≡ none)
unfolding quantize_amount quantize_qty quantize rescale
rounds = (refl, refl, refl, refl)

prints :
    (serialise (finite false 1230 (negsuc 1)) ≡ lit "12.30")
    × (serialise (finite true 5 (negsuc 3)) ≡ lit "-0.0005")
    × (serialise (finite false 1 (pos 2)) ≡ lit "100")
    × (serialise (finite false 0 (pos 2)) ≡ lit "0")
unfolding serialise plain pointed lit show zfill
prints = (refl, refl, refl, refl)

reads :
    (to_decimal (string (lit " 12.30 ")) ≡ ok (finite false 1230 (negsuc 1)))
    × (to_decimal (string (lit "-.5e3")) ≡ ok (finite true 5 (pos 2)))
    × (to_decimal (string (lit "1_000")) ≡ ok (finite false 1000 (pos 0)))
    × (to_decimal (string (lit "-Inf")) ≡ refused (not_finite (infinity true)))
    × (to_decimal (string (lit "12,30")) ≡ refused (not_a_number (lit "12,30")))
    × (to_decimal (string (lit "  ")) ≡ refused must_not_be_empty)
    × (to_decimal (float (lit "12.3")) ≡ refused (is_float (lit "12.3")))
    × (to_decimal (boolean true) ≡ refused is_boolean)
unfolding to_decimal parse_decimal unsigned split_sign split_digits split_fraction exponent special
    lower lit strip starts_with text_eq ◌+ℤ◌ is_finite
reads = (refl, refl, refl, refl, refl, refl, refl, refl)

quantize_nearest_example :
    (r : _) × (IsRounded 12345 (negsuc 2 +ℤ pos 2) r
      × IsKept r (finite true r (minus 2)) (quantize 2 (finite true 12345 (negsuc 2))))
quantize_nearest_example = quantize_nearest 2 true 12345 (negsuc 2)

to_decimal-serialise_example :
    to_decimal (string (serialise (finite true 1230 (minus 2)))) ≡ ok (finite true 1230 (minus 2))
to_decimal-serialise_example = to_decimal-serialise true 1230 2
