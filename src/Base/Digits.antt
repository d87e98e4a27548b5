-- ===== src/Base/Digits.antt =====
-- `str(n)`, `int(s)` and `zfill`: decimal digits as ASCII codes.
pub mod Reading
use film_bill.Base.{
  ℕ, zero, suc, ◌+◌, ◌-◌, ◌*◌, ◌/◌, ◌%◌, ◌^◌, ◌≤◌, ◌<◌, ◌≡◌, refl, Bool, true, false, ◌&&◌, List,
  [], ◌∷◌, ◌++◌, arith, ltb, leb, nat_eq, if◌then◌else◌, length, replicate, All,
}
use film_bill.Base.Text.{Text}

abbrev pub is_digit : ℕ → Bool
is_digit c = leb b'0' c && leb c b'9'

-- The digits of `n` in front of `out`. The fuel is above the number of digits.
unfoldable pub digits_from : ℕ → ℕ → Text → Text
digits_from zero n out = out
digits_from (suc f) n out =
    let more = digits_from f (n / 10) ((b'0' + n % 10) ∷ out) in
    if ltb n 10 then (b'0' + n) ∷ out else more

-- `str(n)`
unfoldable pub show : ℕ → Text
unfolding digits_from
show n = digits_from (suc n) n []

-- The number that a run of digits stands for, read on from `acc`: `int(s)`.
abbrev pub read_from : ℕ → Text → ℕ
read_from acc [] = acc
read_from acc (c ∷ s) = read_from (acc * 10 + (c - b'0')) s

-- `int(s)`
abbrev pub read : Text → ℕ
read s = read_from 0 s

-- `s.zfill(width)` for a text with no sign, and `f"{n:0{width}d}"`
unfoldable pub zfill : ℕ → Text → Text
zfill width s = replicate (width - length s) b'0' ++ s
