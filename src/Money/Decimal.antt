-- ===== src/Money/Decimal.antt =====
-- Python's `decimal.Decimal`, and the rounding of apps/api/core/money.py: `quantize` under the
-- context of 34 digits that rounds half up and traps invalid operations.
use film_bill.Base.{
  ℕ, suc, ◌+◌, ◌*◌, ◌/◌, ◌%◌, ◌^◌, Bool, true, false, Option, none, some, ltb, if◌then◌else◌,
}
use film_bill.Base.Int.{ℤ, pos, negsuc, minus, ◌+ℤ◌}

-- `finite sign c e` is ±c·10^e, negative if `sign`.
pub data Decimal : Type 0 where
  finite : Bool → ℕ → ℤ → Decimal
  infinity : Bool → Decimal
  quiet_nan : Decimal
  signaling_nan : Decimal

unfoldable pub is_finite : Decimal → Bool
is_finite (finite sign c e) = true
is_finite _ = false

abbrev pub amount_places : ℕ
amount_places = 2

abbrev pub qty_places : ℕ
qty_places = 4

-- The precision of `_CONTEXT`.
abbrev pub precision : ℕ
precision = 34

-- c / m to the nearest whole number, and a half is rounded up.
unfoldable pub half_up : ℕ → ℕ → ℕ
half_up c m = if ltb (2 * (c % m)) m then c / m else c / m + 1

-- c·10^shift, rounded to a whole number.
unfoldable pub rescale : ℕ → ℤ → ℕ
unfolding half_up
rescale c (pos k) = c * 10 ^ k
rescale c (negsuc k) = half_up c (10 ^ suc k)

-- `none` is the trapped InvalidOperation: an infinity, a signaling NaN, or more digits than the
-- context has.
unfoldable pub quantize : ℕ → Decimal → Option Decimal
unfolding rescale ◌+ℤ◌
quantize places (finite sign c e) =
    let r = rescale c (e +ℤ pos places) in
    if ltb r (10 ^ precision) then some (finite sign r (minus places)) else none
quantize places (infinity sign) = none
quantize places quiet_nan = some quiet_nan
quantize places signaling_nan = none

unfoldable pub quantize_amount : Decimal → Option Decimal
unfolding quantize
quantize_amount d = quantize amount_places d

unfoldable pub quantize_qty : Decimal → Option Decimal
unfolding quantize
quantize_qty d = quantize qty_places d
