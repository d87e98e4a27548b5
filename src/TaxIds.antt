-- ===== src/TaxIds.antt =====
-- The check digits of tax identifiers (apps/api/billing/parties/tax_ids.py), with the weights of
-- apps/api/region_packs/tax_id_formats.yaml.
pub mod Mistyped
mod Samples
use film_bill.Base.{
  ℕ, suc, ◌+◌, ◌-◌, ◌*◌, ◌%◌, Bool, true, false, not, ◌&&◌, ◌||◌, Option, none, some, List, [], ◌∷◌,
  nat_eq, if◌then◌else◌, length, all, take, drop,
}
use film_bill.Base.Int.{ℤ, pos, negsuc, sub_ℕ}
use film_bill.Base.Text.{Text}
use film_bill.Base.Digits.{is_digit, read}

abbrev pub uid_weights : List ℕ
uid_weights = 5 ∷ 4 ∷ 3 ∷ 2 ∷ 7 ∷ 6 ∷ 5 ∷ 4 ∷ []

abbrev pub abn_weights : List ℕ
abn_weights = 10 ∷ 1 ∷ 3 ∷ 5 ∷ 7 ∷ 9 ∷ 11 ∷ 13 ∷ 15 ∷ 17 ∷ 19 ∷ []

-- `sum(int(d) * w for d, w in zip(digits, weights))`
unfoldable pub weighted : List ℕ → Text → ℕ
weighted [] s = 0
weighted (w ∷ weights) [] = 0
weighted (w ∷ weights) (c ∷ s) = w * (c - b'0') + weighted weights s

abbrev pub digit_for : ℕ → Option ℕ
digit_for remainder =
    if nat_eq remainder 0
    then some 0
    else if nat_eq (11 - remainder) 10
    then none
    else some (11 - remainder)

unfoldable pub ch_uid_check_digit : Text → Option ℕ
ch_uid_check_digit payload = digit_for (weighted uid_weights payload % 11)

abbrev pub is_digit_of : Option ℕ → Text → Bool
is_digit_of none s = false
is_digit_of (some digit) s = nat_eq digit (read s)

-- The test of the ninth digit of a UID by the eight before it.
unfoldable pub uid_is_valid : Text → Bool
uid_is_valid digits = is_digit_of (ch_uid_check_digit (take 8 digits)) (take 1 (drop 8 digits))

-- `total % 89 == 0`, of an integer.
abbrev pub is_multiple : ℕ → ℤ → Bool
is_multiple m (pos n) = nat_eq (n % m) 0
is_multiple m (negsuc n) = nat_eq (suc n % m) 0

-- One is taken from the first digit, whose weight is 10, so 10 from the sum.
unfoldable pub abn_is_valid : Text → Bool
abn_is_valid value =
    if not (nat_eq (length value) 11) || not (all is_digit value)
    then false
    else is_multiple 89 (sub_ℕ (weighted abn_weights value) 10)
