-- ===== src/Tax/Rates.antt =====
-- A rate as a human writes it (`format_rate` of apps/api/billing/tax/engine.py): `normalize`, of a
-- rate of at most 28 digits, which that leaves unrounded, and then `format(…, "f")`.
pub mod Scale
use film_bill.Base.{ℕ, zero, suc, ◌+◌, ◌/◌, ◌%◌, Bool, true, false, nat_eq, if◌then◌else◌}
use film_bill.Base.Int.{ℤ, pos, negsuc, ◌+ℤ◌}
use film_bill.Base.Text.{Text}
use film_bill.Money.Decimal.{Decimal, finite, infinity, quiet_nan, signaling_nan}
use film_bill.Money.Format.{serialise}

-- ±c·10^e without the zeros that `c` ends in. The fuel is as large as `c`.
unfoldable pub drop_zeros : ℕ → Bool → ℕ → ℤ → Decimal
drop_zeros zero sign c e = finite sign c e
drop_zeros (suc f) sign c e =
    let rest = drop_zeros f sign (c / 10) (e +ℤ pos 1) in
    if nat_eq (c % 10) 0 then rest else finite sign c e

unfoldable pub normalize : Decimal → Decimal
normalize (finite sign zero e) = finite sign 0 (pos 0)
normalize (finite sign (suc c) e) = drop_zeros (suc c) sign (suc c) e
normalize (infinity sign) = infinity sign
normalize quiet_nan = quiet_nan
normalize signaling_nan = signaling_nan

unfoldable pub format_rate : Decimal → Text
format_rate rate = serialise (normalize rate)
