-- ===== src/Iban/Samples.antt =====
-- Runs of the account numbers, and the theorems at concrete inputs.
use film_bill.Base.{◌≡◌, ◌≢◌, ◌↔◌, refl, arith, text_eq}
use film_bill.Base.Text.{Text, lit, is_space, upper}
use film_bill.Base.Digits.{show}
use film_bill.Iban.{
  ok, invalid, required, not_an_iban, wrong_length, check_digits_differ, iban_lengths,
  normalise_iban, has_shape, letter_value, expand, remainder_from, mod_97, check_iban,
  validate_iban, grouped, format_iban,
}
use film_bill.Iban.Accepted.{IsIban, validate_iban_iff}
use film_bill.Iban.Mistyped.{Mistypes, here, there, digits, validate_iban_notices}

abbrev austrian : Text
austrian = lit "AT611904300234573201"

validates :
    (validate_iban (lit "at61 1904 3002 3457 3201") ≡ ok austrian)
    × (validate_iban (lit "AT61 1904 3002 3457 3202") ≡ invalid check_digits_differ)
    × (validate_iban (lit "AT61 1904 3002 3457 320") ≡ invalid (wrong_length (lit "AT") 20 19))
    × (validate_iban (lit "6119043002") ≡ invalid not_an_iban)
    × (validate_iban (lit "  ") ≡ invalid required)
unfolding validate_iban check_iban normalise_iban has_shape iban_lengths mod_97 remainder_from
    expand letter_value show is_space upper lit text_eq
validates = (refl, refl, refl, refl, refl)

prints : format_iban austrian ≡ lit "AT61 1904 3002 3457 3201"
unfolding format_iban grouped normalise_iban is_space upper lit
prints = refl

validate_iban_iff_example : (validate_iban (lit "at61 1904") ≡ ok (lit "AT611904")) ↔ (
    (lit "AT611904" ≡ normalise_iban (lit "at61 1904")) × IsIban (normalise_iban (lit "at61 1904")))
validate_iban_iff_example = validate_iban_iff (lit "at61 1904") (lit "AT611904")

-- The second check digit is 2 in place of 1.
wrong_digit : Mistypes (lit "AT611904300234573201") (lit "AT621904300234573201")
unfolding lit
wrong_digit = there b'A' (
    there b'T' (
      there b'6'
        (here (lit "1904300234573201") (λ e. absurd (omega (arith, e))) (digits refl refl))))

validate_iban_notices_example :
    validate_iban (lit "AT621904300234573201") ≢ ok (lit "AT621904300234573201")
unfolding validate_iban check_iban normalise_iban has_shape iban_lengths mod_97 remainder_from
    expand letter_value show is_space upper lit text_eq
validate_iban_notices_example =
    validate_iban_notices (lit "AT611904300234573201") (lit "AT621904300234573201")
      {s = lit "AT611904300234573201"} wrong_digit refl
