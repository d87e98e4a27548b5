-- ===== src/Iban/Grouped.antt =====
-- The text that is shown is accepted again: `validate_iban` after `format_iban`.
use film_bill.Base.{
  ◌≡◌, refl, sym, ◌∙◌, ap, inl, inr, ℕ, zero, suc, true, not, [], ◌∷◌, ◌++◌, leb, arith, Bool-cases,
  length, take, drop, select, text_has_equality, take-append-drop,
}
use film_bill.Base.Text.{Text, is_space, upper}
use film_bill.Base.Text.Strip.{upper_code-is_space, upper_idem}
use film_bill.Iban.{normalise_iban, check_iban, validate_iban, grouped, format_iban}

abbrev squeeze : Text → Text
squeeze s = select (λ c. not (is_space c)) s

squeeze-append : (s t : Text) → squeeze (s ++ t) ≡ squeeze s ++ squeeze t
squeeze-append [] t = refl
squeeze-append (c ∷ s) t = ground (arith, squeeze-append s t)

squeeze_idem : (s : Text) → squeeze (squeeze s) ≡ squeeze s
squeeze_idem [] = refl
squeeze_idem (c ∷ s) = ground (arith, squeeze_idem s)

squeeze-upper : (s : Text) → squeeze (upper s) ≡ upper (squeeze s)
unfolding upper
squeeze-upper [] = refl
squeeze-upper (c ∷ s) = ground (arith, upper_code-is_space c, squeeze-upper s)

normalise_iban_idem : (v : Text) → normalise_iban (normalise_iban v) ≡ normalise_iban v
unfolding normalise_iban
normalise_iban_idem v = rw (squeeze-upper (squeeze v), squeeze_idem v) (upper_idem (squeeze v))

blank : is_space b' ' ≡ true
unfolding is_space
blank = refl

squeeze-grouped : (f : ℕ) (s : Text) → squeeze (grouped f s) ≡ squeeze s
unfolding grouped
squeeze-grouped zero s = refl
squeeze-grouped (suc f) s = elim (Bool-cases (leb (length s) 4)) [
  | inl e ↦ rw e refl
  | inr e ↦ rw e (
      squeeze-append (take 4 s) (b' ' ∷ grouped f (drop 4 s))
      ∙ rw (blank, squeeze-grouped f (drop 4 s))
          (sym (squeeze-append (take 4 s) (drop 4 s)) ∙ ap squeeze (take-append-drop 4 s)))
]

normalise-grouped : (f : ℕ) (s : Text) → normalise_iban (grouped f s) ≡ normalise_iban s
unfolding normalise_iban
normalise-grouped f s = ap upper (squeeze-grouped f s)

normalise-format_iban : (v : Text) → normalise_iban (format_iban v) ≡ normalise_iban v
unfolding format_iban
normalise-format_iban v =
    normalise-grouped (length (normalise_iban v)) (normalise_iban v) ∙ normalise_iban_idem v

-- An account number prints in groups as a text that is accepted, or refused, like the number itself,
-- and for the same number.
pub validate-format_iban : (v : Text) → validate_iban (format_iban v) ≡ validate_iban v
unfolding validate_iban
validate-format_iban v = ap check_iban (normalise-format_iban v)
