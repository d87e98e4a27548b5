-- ===== src/Money/Format.antt =====
-- The text of a decimal on the wire: `_serialise` of apps/api/core/money.py, which is
-- `format(value, "f")`.
use film_bill.Base.{
  ℕ, suc, ◌+◌, ◌-◌, Bool, true, false, [], ◌∷◌, ◌++◌, if◌then◌else◌, nat_eq, length, take, drop,
  replicate,
}
use film_bill.Base.Int.{ℤ, pos, negsuc}
use film_bill.Base.Text.{Text, lit}
use film_bill.Base.Digits.{show, zfill}
use film_bill.Money.Decimal.{Decimal, finite, infinity, quiet_nan, signaling_nan}

abbrev pub sign_text : Bool → Text
sign_text true = b'-' ∷ []
sign_text false = []

-- The digits with `places` of them after a point.
unfoldable pub pointed : Text → ℕ → Text
pointed body places = let whole = length body - places in take whole body ++ b'.' ∷ drop whole body

-- A zero with a positive exponent prints as one zero.
unfoldable pub plain : ℕ → ℤ → Text
unfolding pointed
plain c (pos k) = if nat_eq c 0 then b'0' ∷ [] else show c ++ replicate k b'0'
plain c (negsuc k) = pointed (zfill (k + 2) (show c)) (suc k)

unfoldable pub serialise : Decimal → Text
unfolding plain
serialise (finite sign c e) = sign_text sign ++ plain c e
serialise (infinity sign) = sign_text sign ++ lit "Infinity"
serialise quiet_nan = lit "NaN"
serialise signaling_nan = lit "sNaN"
