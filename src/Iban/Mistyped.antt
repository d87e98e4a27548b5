-- ===== src/Iban/Mistyped.antt =====
-- A single wrong character of the same kind is always noticed.
use film_bill.Base.{
  ◌≡◌, ◌≢◌, sym, ◌∙◌, ℕ, zero, suc, ◌+◌, ◌-◌, ◌*◌, ◌/◌, ◌%◌, ◌≤◌, ◌<◌, true, [], ◌∷◌, ◌++◌, arith,
  take, drop, text_has_equality,
}
use film_bill.Base.Text.{Text}
use film_bill.Base.Digits.{is_digit, digits_from, show, read_from}
use film_bill.Iban.{
  ok, normalise_iban, check_iban, validate_iban, is_capital, letter_value, expand, rearranged,
  mod_97,
}
use film_bill.Iban.Whole.{read_from-append, mod_97_whole}

-- Ten has an inverse modulo 97, so what follows does not hide a difference.
read_from-cancel : (s : Text) (m n : ℕ) → read_from m s % 97 ≡ read_from n s % 97 → m % 97 ≡ n % 97
read_from-cancel [] m n h = h
read_from-cancel (c ∷ s) m n h =
    let step = read_from-cancel s (m * 10 + (c - b'0')) (n * 10 + (c - b'0')) h in
    omega (arith, step)

-- Two different digits, or two different letters.
pub data SameKind (c d : ℕ) : Type 0 where
  digits : is_digit c ≡ true → is_digit d ≡ true → SameKind c d
  letters : is_capital c ≡ true → is_capital d ≡ true → SameKind c d

-- `t` is `s` with one character mistyped.
pub data Mistypes : Text → Text → Type 0 where
  here : {c d : ℕ} (s : Text) → c ≢ d → SameKind c d → Mistypes (c ∷ s) (d ∷ s)
  there : {s t : Text} (c : ℕ) → Mistypes s t → Mistypes (c ∷ s) (c ∷ t)

Mistypes-append : {s t : Text} (u : Text) → Mistypes s t → Mistypes (s ++ u) (t ++ u)
Mistypes-append u (here s differ kind) = here (s ++ u) differ kind
Mistypes-append u (there c m) = there c (Mistypes-append u m)

append-Mistypes : {s t : Text} (u : Text) → Mistypes s t → Mistypes (u ++ s) (u ++ t)
append-Mistypes [] m = m
append-Mistypes (c ∷ u) m = there c (append-Mistypes u m)

rearranged-Mistypes : (s t : Text) → Mistypes s t → Mistypes (rearranged s) (rearranged t)
rearranged-Mistypes _ _ (here s differ kind) =
    append-Mistypes (drop 3 s) (here (take 3 s) differ kind)
rearranged-Mistypes _ _ (there a (here s differ kind)) =
    append-Mistypes (drop 2 s) (there a (here (take 2 s) differ kind))
rearranged-Mistypes _ _ (there a (there b (here s differ kind))) =
    append-Mistypes (drop 1 s) (there a (there b (here (take 1 s) differ kind)))
rearranged-Mistypes _ _ (there a (there b (there c (here s differ kind)))) =
    append-Mistypes s (there a (there b (there c (here [] differ kind))))
rearranged-Mistypes _ _ (there a (there b (there c (there d m)))) =
    Mistypes-append (a ∷ b ∷ c ∷ d ∷ []) m

show_two : (n : ℕ) → 10 ≤ n → n < 100 → show n ≡ (b'0' + n / 10) ∷ (b'0' + n % 10) ∷ []
unfolding show digits_from
show_two zero h k = absurd (omega (arith, h))
show_two (suc zero) h k = absurd (omega (arith, h))
show_two (suc (suc n)) h k = ground arith

read-letter :
    (acc c : ℕ) → is_capital c ≡ true → read_from acc (letter_value c) ≡ acc * 100 + (c - b'A' + 10)
unfolding letter_value
read-letter acc c h =
    let value = c - b'A' + 10 in
    let low : 10 ≤ value = omega arith in
    let high : value < 100 = ground arith in rw (h, show_two value low high) (omega arith)

value_injective :
    (acc c d : ℕ)
    → SameKind c d
    → read_from acc (letter_value c) % 97 ≡ read_from acc (letter_value d) % 97
    → c ≡ d
unfolding letter_value
value_injective acc c d (digits h k) e = ground arith
value_injective acc c d (letters h k) e =
    let same : (acc * 100 + (c - b'A' + 10)) % 97 ≡ (acc * 100 + (d - b'A' + 10)) % 97 =
      rw (read-letter acc c h, read-letter acc d k) at e in
    ground arith

remainder_differs :
    {s t : Text}
    → Mistypes s t
    → (acc : ℕ) → read_from acc (expand s) % 97 ≡ read_from acc (expand t) % 97
    → ⊥
unfolding expand
remainder_differs (here {c} {d} s differ kind) acc e =
    let cut =
      rw
        (
          read_from-append acc (letter_value c) (expand s),
          read_from-append acc (letter_value d) (expand s),
        )
        at e in
    differ (value_injective acc c d kind (read_from-cancel (expand s) _ _ cut))
remainder_differs (there {s} {t} c m) acc e = remainder_differs m (read_from acc (letter_value c)) (
    rw
      (
        read_from-append acc (letter_value c) (expand s),
        read_from-append acc (letter_value c) (expand t),
      )
      at e)

check_iban-mod_97 : (s : Text) {t : Text} → check_iban s ≡ ok t → mod_97 s ≡ 1
unfolding check_iban
check_iban-mod_97 s h = ground arith

-- If two texts differ, without their white space and in upper case, in one character, a digit for
-- another digit or a letter for another letter, they are not both accepted.
pub validate_iban_notices :
    (v w : Text) {s t : Text}
    → Mistypes (normalise_iban v) (normalise_iban w)
    → validate_iban v ≡ ok s
    → validate_iban w ≢ ok t
unfolding validate_iban
validate_iban_notices v w m h k =
    let one = check_iban-mod_97 (normalise_iban v) h in
    let other = check_iban-mod_97 (normalise_iban w) k in
    remainder_differs (rearranged-Mistypes _ _ m) 0
      (sym (mod_97_whole (normalise_iban v)) ∙ one ∙ sym other ∙ mod_97_whole (normalise_iban w))
