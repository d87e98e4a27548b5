-- ===== src/TaxIds/Mistyped.antt =====
-- One wrong digit is noticed by the check of an ABN, and what its check says of a leading zero.
use film_bill.Base.{
  ◌≡◌, ◌≢◌, ◌↔◌, ℕ, ◌+◌, ◌-◌, ◌*◌, ◌%◌, ◌≤◌, true, List, [], ◌∷◌, arith, length, all, All,
}
use film_bill.Base.Int.{sub_ℕ}
use film_bill.Base.Text.{Text}
use film_bill.Base.Digits.{is_digit}
use film_bill.TaxIds.{abn_weights, weighted, is_multiple, abn_is_valid}

-- `t` is `s` with one digit replaced by another.
pub data WrongDigit : Text → Text → Type 0 where
  here :
      {c d : ℕ} (s : Text)
      → c ≢ d
      → is_digit c ≡ true
      → is_digit d ≡ true
      → WrongDigit (c ∷ s) (d ∷ s)
  there : {s t : Text} (c : ℕ) → WrongDigit s t → WrongDigit (c ∷ s) (c ∷ t)

-- A weight by which two digits have different remainders, whatever is added to both.
abbrev Separates : ℕ → Type 0
Separates w =
    (c d x : ℕ)
    → is_digit c ≡ true
    → is_digit d ≡ true
    → (w * (c - b'0') + x) % 89 ≡ (w * (d - b'0') + x) % 89
    → c ≡ d

abn_weights-Separates : All Separates abn_weights
abn_weights-Separates = (
  λ c d x h k e. ground arith,
  (
    λ c d x h k e. ground arith,
    (
      λ c d x h k e. ground arith,
      (
        λ c d x h k e. ground arith,
        (
          λ c d x h k e. ground arith,
          (
            λ c d x h k e. ground arith,
            (
              λ c d x h k e. ground arith,
              (
                λ c d x h k e. ground arith,
                (
                  λ c d x h k e. ground arith,
                  (λ c d x h k e. ground arith, (λ c d x h k e. ground arith, tt)),
                ),
              ),
            ),
          ),
        ),
      ),
    ),
  ),
)

weighted-WrongDigit :
    (weights : List ℕ) (y : ℕ) {s t : Text}
    → All Separates weights
    → WrongDigit s t
    → length s ≤ length weights
    → (y + weighted weights s) % 89 ≡ (y + weighted weights t) % 89
    → ⊥
unfolding weighted
weighted-WrongDigit [] y separates (here s differ h k) short e = omega (arith, short)
weighted-WrongDigit [] y separates (there c m) short e = omega (arith, short)
weighted-WrongDigit (w ∷ weights) y (first, others) (here {c} {d} s differ h k) short e =
    differ (first c d (y + weighted weights s) h k (omega (arith, e)))
weighted-WrongDigit (w ∷ weights) y (first, others) (there {s} {t} c m) short e =
    weighted-WrongDigit weights (y + w * (c - b'0')) others m (omega (arith, short))
      (omega (arith, e))

multiple_iff : (n : ℕ) → (is_multiple 89 (sub_ℕ n 10) ≡ true) ↔ (n % 89 ≡ 10)
multiple_iff n = ground arith

abn_is_valid_iff :
    (s : Text)
    → (abn_is_valid s ≡ true)
      ↔ ((length s ≡ 11) × ((all is_digit s ≡ true) × (weighted abn_weights s % 89 ≡ 10)))
unfolding abn_is_valid
abn_is_valid_iff s = ground (arith, multiple_iff (weighted abn_weights s))

-- If one digit of a valid ABN is replaced by another, the result is not valid.
pub abn_is_valid_notices :
    {s t : Text} → WrongDigit s t → abn_is_valid s ≡ true → abn_is_valid t ≢ true
abn_is_valid_notices {s} {t} m h k =
    let (long, (_, r)) = (abn_is_valid_iff s).0 h in
    let (_, (_, q)) = (abn_is_valid_iff t).0 k in
    weighted-WrongDigit abn_weights 0 abn_weights-Separates m (omega (arith, long))
      (omega (arith, r, q))

-- A number with a leading zero is a valid ABN exactly if ten more digits follow and their sum, by
-- the weights 1, 3, … 19, has the remainder 10 modulo 89.
pub abn_leading_zero_iff :
    (s : Text)
    → (abn_is_valid (b'0' ∷ s) ≡ true) ↔ (
        (length s ≡ 10)
        × ((all is_digit s ≡ true)
            × (weighted (1 ∷ 3 ∷ 5 ∷ 7 ∷ 9 ∷ 11 ∷ 13 ∷ 15 ∷ 17 ∷ 19 ∷ []) s % 89 ≡ 10)))
unfolding weighted
abn_leading_zero_iff s = ground (arith, abn_is_valid_iff (b'0' ∷ s))
