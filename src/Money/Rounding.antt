-- ===== src/Money/Rounding.antt =====
-- The one rounding of money: to the nearest, a half away from zero, once.
use native.Mathlib.Nat.{div-add-mod, mod-lt, one-le-pow, mul-one}
use mathlib.Core.Option.{some-injective}
use film_bill.Base.{
  ℕ, zero, suc, ◌+◌, ◌*◌, ◌%◌, ◌^◌, ◌≤◌, ◌<◌, ◌≡◌, refl, sym, ◌∙◌, ◌⊎◌, inl, inr, Bool, Option,
  none, some, ltb, ltb→lt, lt→ltb, if◌then◌else◌, arith, Bool-cases,
}
use film_bill.Base.Int.{ℤ, pos, negsuc, minus, ◌+ℤ◌}
use film_bill.Money.Decimal.{
  Decimal, finite, infinity, quiet_nan, signaling_nan, precision, half_up, rescale, quantize,
}

-- `r` is c·10^shift rounded: exactly that where nothing is cut off, else the nearest whole number,
-- the greater one at a half.
abbrev pub IsRounded : ℕ → ℤ → ℕ → Type 0
IsRounded c (pos k) r = r ≡ c * 10 ^ k
IsRounded c (negsuc k) r =
    (2 * (r * 10 ^ suc k) ≤ 2 * c + 10 ^ suc k) × (2 * c < 2 * (r * 10 ^ suc k) + 10 ^ suc k)

half_up_lem :
    (c m : ℕ) → 0 < m → (2 * (half_up c m * m) ≤ 2 * c + m) × (2 * c < 2 * (half_up c m * m) + m)
unfolding half_up
half_up_lem c m h = elim (Bool-cases (ltb (2 * (c % m)) m)) [
  | inl below ↦
      let small = ltb→lt (2 * (c % m)) m below in
      rw below (omega (arith, div-add-mod c m), omega (arith, div-add-mod c m, small))
  | inr above ↦
      let big : m ≤ 2 * (c % m) = ground arith in
      rw above (omega (arith, div-add-mod c m, big), omega (arith, div-add-mod c m, mod-lt c h))
]

rescale-IsRounded : (c : ℕ) (shift : ℤ) → IsRounded c shift (rescale c shift)
unfolding rescale
rescale-IsRounded c (pos k) = refl
rescale-IsRounded c (negsuc k) = half_up_lem c (10 ^ suc k) (one-le-pow (suc k) 10 (omega arith))

-- What the context makes of digits `r`: they stand, or are too many.
abbrev pub IsKept : ℕ → Decimal → Option Decimal → Type 0
IsKept r d result =
    ((r < 10 ^ precision) × (result ≡ some d)) ⊎ ((10 ^ precision ≤ r) × (result ≡ none))

keep-IsKept : (r : ℕ) (d : Decimal) → IsKept r d (if ltb r (10 ^ precision) then some d else none)
keep-IsKept r d = elim (Bool-cases (ltb r (10 ^ precision))) [
  | inl e ↦ rw e (inl (ltb→lt r (10 ^ precision) e, refl))
  | inr e ↦ rw e (inr (ground arith, refl))
]

-- A finite value is rounded to digits that are those of the exact value to the nearest, a half
-- rounded away from zero. It keeps its sign and gets the places asked for, if its digits are at most
-- 34, and else nothing is returned.
pub quantize_nearest :
    (places : ℕ) (sign : Bool) (c : ℕ) (e : ℤ)
    → (r : ℕ) × (IsRounded c (e +ℤ pos places) r
        × IsKept r (finite sign r (minus places)) (quantize places (finite sign c e)))
unfolding quantize
quantize_nearest places sign c e =
    (rescale c (e +ℤ pos places), (rescale-IsRounded c (e +ℤ pos places), keep-IsKept _ _))

shift_back : (places : ℕ) → minus places +ℤ pos places ≡ pos 0
unfolding ◌+ℤ◌
shift_back zero = refl
shift_back (suc n) = ground arith

kept_exact :
    (places : ℕ) (sign : Bool) (r : ℕ)
    → r < 10 ^ precision
    → quantize places (finite sign r (minus places)) ≡ some (finite sign r (minus places))
unfolding quantize rescale
kept_exact places sign r h = rw (shift_back places, mul-one r, lt→ltb r (10 ^ precision) h) refl

quantize_nan : (places : ℕ) → quantize places quiet_nan ≡ some quiet_nan
unfolding quantize
quantize_nan places = refl

-- What has been rounded is left as it is by rounding it once more.
pub quantize_idem :
    (places : ℕ) (d : Decimal) {rounded : Decimal}
    → quantize places d ≡ some rounded
    → quantize places rounded ≡ some rounded
quantize_idem places (finite sign c e) h =
    let (r, (_, kept)) = quantize_nearest places sign c e in
    elim kept [
      | inl (small, e) ↦ rw (sym (some-injective _ _ (sym e ∙ h))) (kept_exact places sign r small)
      | inr (large, e) ↦ cc
    ]
quantize_idem places (infinity sign) h = unfold quantize in cc
quantize_idem places quiet_nan h =
    let e = some-injective _ _ (sym (quantize_nan places) ∙ h) in rw (sym e) (quantize_nan places)
quantize_idem places signaling_nan h = unfold quantize in cc
