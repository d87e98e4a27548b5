-- ===== src/Iban/Accepted.antt =====
-- Which texts `validate_iban` accepts.
use film_bill.Base.{
  ◌≡◌, ◌↔◌, ◌%◌, true, false, [], ◌∷◌, arith, length, take, lookup, text_has_equality,
}
use film_bill.Base.Text.{Text}
use film_bill.Base.Digits.{read}
use film_bill.Iban.{
  ok, iban_lengths, normalise_iban, has_shape, expand, rearranged, length_differs, check_iban,
  validate_iban,
}
use film_bill.Iban.Whole.{mod_97_whole}

-- An account number: its shape, the length of its country if that is known, and its check digits.
abbrev pub IsIban : Text → Type 0
IsIban s =
    (has_shape s ≡ true)
    × ((length_differs (lookup (take 2 s) iban_lengths) (length s) ≡ false)
        × (read (expand (rearranged s)) % 97 ≡ 1))

check_iban_iff : (s t : Text) → (check_iban s ≡ ok t) ↔ ((t ≡ s) × IsIban s)
unfolding check_iban has_shape
check_iban_iff [] t = ground arith
check_iban_iff (c ∷ s) t = ground (arith, mod_97_whole (c ∷ s))

-- A text is accepted exactly if, without white space and in upper case, it has the shape of an
-- account number, the length of its country if that is known, and a rearranged number of remainder
-- 1 modulo 97; what is returned is that text.
pub validate_iban_iff :
    (value iban : Text)
    → (validate_iban value ≡ ok iban)
      ↔ ((iban ≡ normalise_iban value) × IsIban (normalise_iban value))
unfolding validate_iban
validate_iban_iff value iban = check_iban_iff (normalise_iban value) iban
