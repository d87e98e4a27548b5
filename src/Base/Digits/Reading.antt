-- ===== src/Base/Digits/Reading.antt =====
-- `int(str(n))` is `n`, with or without leading zeros.
use film_bill.Base.{
  ℕ, zero, suc, ◌+◌, ◌-◌, ◌/◌, ◌%◌, ◌<◌, ◌≤◌, ◌≡◌, refl, ap, ◌∙◌, inl, inr, true, [], ◌∷◌, ◌++◌,
  arith, Bool-cases, ltb, length, replicate, all, length-append, length-replicate,
}
use film_bill.Base.Text.{Text}
use film_bill.Base.Digits.{is_digit, digits_from, show, read_from, read, zfill}

read_from-zeros : (k : ℕ) (s : Text) → read (replicate k b'0' ++ s) ≡ read s
read_from-zeros zero s = refl
read_from-zeros (suc k) s = read_from-zeros k s

-- Reading the digits of `n` and then `out` is reading `out` on from `n`.
read-digits_from : (f n : ℕ) (out : Text) → n < f → read (digits_from f n out) ≡ read_from n out
unfolding digits_from
read-digits_from zero n out h = absurd (omega arith)
read-digits_from (suc f) n out h = elim (Bool-cases (ltb n 10)) [
  | inl small ↦ rw small (ap (λ k. read_from k out) (omega arith))
  | inr large ↦ rw large (
      read-digits_from f (n / 10) ((b'0' + n % 10) ∷ out) (ground arith)
      ∙ ap (λ k. read_from k out) (omega arith))
]

pub read-show : (n : ℕ) → read (show n) ≡ n
unfolding show
read-show n = read-digits_from (suc n) n [] (omega arith)

-- Padding does not change the number that is read.
pub read-zfill : (w n : ℕ) → read (zfill w (show n)) ≡ n
unfolding zfill
read-zfill w n = read_from-zeros (w - length (show n)) (show n) ∙ read-show n

pub length-zfill : (w : ℕ) (s : Text) → length (zfill w s) ≡ length s + (w - length s)
unfolding zfill
length-zfill w s = omega (
  arith,
  length-append (replicate (w - length s) b'0') s,
  length-replicate {A = ℕ} (w - length s) b'0',
)

digits_from-all :
    (f n : ℕ) (out : Text) → all is_digit out ≡ true → all is_digit (digits_from f n out) ≡ true
unfolding digits_from
digits_from-all zero n out h = h
digits_from-all (suc f) n out h = ground (arith, digits_from-all f (n / 10) ((b'0' + n % 10) ∷ out))

-- Only digits are printed.
pub show-digits : (n : ℕ) → all is_digit (show n) ≡ true
unfolding show
show-digits n = digits_from-all (suc n) n [] refl

digits_from-longer : (f n : ℕ) (out : Text) → length out ≤ length (digits_from f n out)
unfolding digits_from
digits_from-longer zero n out = omega arith
digits_from-longer (suc f) n out =
    ground (arith, digits_from-longer f (n / 10) ((b'0' + n % 10) ∷ out))

pub show_nonempty : (n : ℕ) → 0 < length (show n)
unfolding show digits_from
show_nonempty n = ground (arith, digits_from-longer n (n / 10) ((b'0' + n % 10) ∷ []))
