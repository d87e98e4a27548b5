-- ===== src/Numbering/Pattern/Printing.antt =====
-- Filling in the date keeps the sequence token, so a usable pattern prints different values as
-- different numbers.
use film_bill.Base.{
  ℕ, zero, suc, ◌-◌, ◌≡◌, refl, sym, ap, ◌∙◌, inl, inr, Bool, true, false, not, ◌&&◌, [], ◌∷◌, ◌++◌,
  arith, Bool-cases, all, nat_eq, length, max,
}
use film_bill.Base.Int.{ℤ, pos_part}
use film_bill.Base.Text.{Text, lit, starts_with, occurs, replace_from, replace}
use film_bill.Base.Text.Replace.{replace-inj}
use film_bill.Base.Digits.{show, read}
use film_bill.Base.Digits.Reading.{read-zfill, length-zfill}
use film_bill.Numbering.Date.{Date}
use film_bill.Numbering.Pattern.{token_sequence, fill_dates, sequence_text, format_number}

abbrev no_brace : Text → Bool
no_brace = all (λ c. not (nat_eq c b'{'))

occurs-append : (keep new s : Text) → occurs keep s ≡ true → occurs keep (new ++ s) ≡ true
unfolding occurs
occurs-append keep [] s h = h
occurs-append keep (c ∷ new) s h = ground (arith, occurs-append keep new s h)

-- The first `k` characters of a text are no opening braces.
abbrev Braceless : ℕ → Text → Type 0
Braceless zero s = Unit {0}
Braceless (suc k) [] = Unit {0}
Braceless (suc k) (c ∷ s) = (nat_eq c b'{' ≡ false) × Braceless k s

starts_with-Braceless :
    (s body : Text) → no_brace body ≡ true → starts_with s body ≡ true → Braceless (length body) s
unfolding starts_with
starts_with-Braceless s [] b h = tt
starts_with-Braceless [] (d ∷ body) b h = tt
starts_with-Braceless (c ∷ s) (d ∷ body) b h = ground (arith, starts_with-Braceless s body)

-- A token `{body}` that is replaced, and a token `{rest}` that is another one.
module _ (body rest new : Text) (plain_body : no_brace body ≡ true)
    (plain_rest : no_brace rest ≡ true)
    (apart : (s : Text) → starts_with s rest ≡ true → starts_with s body ≡ false) where
  abbrev token : Text
  token = b'{' ∷ body

  abbrev keep : Text
  keep = b'{' ∷ rest

  starts_with-replace :
      (s r : Text)
      → no_brace r ≡ true
      → starts_with s r ≡ true
      → starts_with (replace_from token new 0 s) r ≡ true
  unfolding starts_with replace_from
  starts_with-replace s [] b h = refl
  starts_with-replace [] (d ∷ r) b h = cc
  starts_with-replace (c ∷ s) (d ∷ r) b h = ground (arith, starts_with-replace s r)

  occurs-replace_from :
      (skip : ℕ) (s : Text)
      → Braceless skip s
      → occurs keep s ≡ true
      → occurs keep (replace_from token new skip s) ≡ true
  unfolding occurs starts_with replace_from
  occurs-replace_from skip [] b h = cc
  occurs-replace_from (suc skip) (c ∷ s) b h = ground (arith, occurs-replace_from skip s)
  occurs-replace_from zero (c ∷ s) b h =
      let one_less : suc (length body) - 1 ≡ length body = omega arith in
      elim (Bool-cases (nat_eq c b'{' && starts_with s body)) [
        | inl hit ↦
            rw (hit, one_less)
              (occurs-append keep new (replace_from token new (length body) s) (
                occurs-replace_from (length body) s
                  (starts_with-Braceless s body plain_body (ground arith))
                  (ground (arith, apart s))))
        | inr miss ↦
            rw miss
              (ground (arith, occurs-replace_from zero s tt, starts_with-replace s rest plain_rest))
      ]

  pub occurs-replace : (s : Text) → occurs keep s ≡ true → occurs keep (replace token new s) ≡ true
  unfolding replace
  occurs-replace s h = occurs-replace_from 0 s tt h

-- Texts that differ in a character are not both the beginning of a text.
starts_with-apart :
    (d e : ℕ) (t u : Text)
    → nat_eq d e ≡ false
    → (s : Text) → starts_with s (d ∷ t) ≡ true
    → starts_with s (e ∷ u) ≡ false
unfolding starts_with
starts_with-apart d e t u ne [] h = refl
starts_with-apart d e t u ne (c ∷ s) h = ground arith

-- The sequence token survives the replacement of the others.
fill_dates-sequence :
    (pattern : Text) (date : Date)
    → occurs token_sequence pattern ≡ true
    → occurs token_sequence (fill_dates pattern date) ≡ true
unfolding fill_dates lit
fill_dates-sequence pattern date h = keeps b'M' (b'M' ∷ b'}' ∷ []) _ _ refl refl (
    keeps b'Y' (b'Y' ∷ b'}' ∷ []) _ _ refl refl
      (keeps b'Y' (b'Y' ∷ b'Y' ∷ b'Y' ∷ b'}' ∷ []) _ _ refl refl h))
  where
    keeps :
        (d : ℕ) (body new s : Text)
        → no_brace (d ∷ body) ≡ true
        → nat_eq b'S' d ≡ false
        → occurs token_sequence s ≡ true
        → occurs token_sequence (replace (b'{' ∷ d ∷ body) new s) ≡ true
    keeps d body new s plain ne o =
        occurs-replace (d ∷ body) (b'S' ∷ b'E' ∷ b'Q' ∷ b'}' ∷ []) new plain refl
          (starts_with-apart b'S' d (b'E' ∷ b'Q' ∷ b'}' ∷ []) body ne) s o

-- The printed sequence is at least as long as the padding, and reads as the value.
pub sequence_text_lem :
    (value : ℕ) (padding : ℤ)
    → (read (sequence_text value padding) ≡ value)
      × (length (sequence_text value padding) ≡ max (length (show value)) (pos_part padding))
unfolding sequence_text
sequence_text_lem value padding = (
  read-zfill (pos_part padding) value,
  omega (arith, length-zfill (pos_part padding) (show value)),
)

-- Under one pattern with the sequence token, one padding and one date, two values that print as
-- the same number are the same.
pub format_number-inj :
    (pattern : Text) (date : Date) (padding : ℤ) (v w : ℕ)
    → occurs token_sequence pattern ≡ true
    → format_number pattern v date padding ≡ format_number pattern w date padding
    → v ≡ w
unfolding format_number lit
format_number-inj pattern date padding v w h e =
    sym (sequence_text_lem v padding).0
    ∙ ap read (
        replace-inj token_sequence (sequence_text v padding) (sequence_text w padding)
          (fill_dates pattern date) (λ x. cc) (fill_dates-sequence pattern date h) e)
    ∙ (sequence_text_lem w padding).0
