-- ===== src/Tax/Rates/Scale.antt =====
-- A rate prints the same with whatever number of places it is held.
use native.Mathlib.Nat.{mul-one, mul_assoc, pow-suc}
use film_bill.Base.{
  ap₂, ◌≡◌, refl, sym, ◌∙◌, ap, inl, inr, ℕ, zero, suc, ◌*◌, ◌/◌, ◌%◌, ◌^◌, ◌≤◌, ◌<◌, Bool, true,
  arith, nat_eq, Bool-cases,
}
use film_bill.Base.Int.{ℤ, pos, negsuc, minus, ◌+ℤ◌}
use film_bill.Money.Decimal.{finite}
use film_bill.Money.Format.{serialise}
use film_bill.Tax.Rates.{drop_zeros, normalize, format_rate}

-- Fuel that is above the digits is enough.
drop_zeros-fuel :
    (f g : ℕ) (sign : Bool) (c : ℕ) (e : ℤ)
    → 0 < c
    → c ≤ f
    → c ≤ g
    → drop_zeros f sign c e ≡ drop_zeros g sign c e
unfolding drop_zeros
drop_zeros-fuel zero g sign c e h k l = absurd (omega (arith, h, k))
drop_zeros-fuel (suc f) zero sign c e h k l = absurd (omega (arith, h, l))
drop_zeros-fuel (suc f) (suc g) sign c e h k l = elim (Bool-cases (nat_eq (c % 10) 0)) [
  | inl z ↦
      let tens : c % 10 ≡ 0 = ground arith in
      rw z (
        drop_zeros-fuel f g sign (c / 10) (e +ℤ pos 1) (omega (arith, tens, h))
          (omega (arith, h, k)) (omega (arith, h, l)))
  | inr z ↦ rw z refl
]

-- One zero more at the end, and one place more.
back_one : (e : ℤ) → (e +ℤ negsuc 0) +ℤ pos 1 ≡ e
unfolding ◌+ℤ◌
back_one (pos zero) = refl
back_one (pos (suc n)) = ground arith
back_one (negsuc n) = ground arith

normalize-drop_zeros :
    (sign : Bool) (c : ℕ) (e : ℤ) → 0 < c → normalize (finite sign c e) ≡ drop_zeros c sign c e
unfolding normalize
normalize-drop_zeros sign zero e h = absurd (omega (arith, h))
normalize-drop_zeros sign (suc c) e h = refl

drop_one :
    (f : ℕ) (sign : Bool) (c : ℕ) (e : ℤ)
    → drop_zeros (suc f) sign (c * 10) e ≡ drop_zeros f sign c (e +ℤ pos 1)
unfolding drop_zeros
drop_one f sign c e =
    let none_left : nat_eq (c * 10 % 10) 0 ≡ true = ground arith in
    let shorter : c * 10 / 10 ≡ c = omega arith in rw (none_left, shorter) refl

normalize-ten :
    (sign : Bool) (c : ℕ) (e : ℤ)
    → normalize (finite sign (c * 10) (e +ℤ negsuc 0)) ≡ normalize (finite sign c e)
normalize-ten sign zero e = unfold normalize in refl
normalize-ten sign (suc c) e =
    let tens = suc c * 10 in
    let positive : 0 < tens = omega arith in
    let few : suc c ≤ tens = omega arith in
    let enough : tens ≤ suc tens = omega arith in
    let least : suc c ≤ suc c = omega arith in
    normalize-drop_zeros sign tens (e +ℤ negsuc 0) positive
    ∙ drop_zeros-fuel tens (suc tens) sign tens (e +ℤ negsuc 0) positive (omega arith) enough
    ∙ drop_one tens sign (suc c) (e +ℤ negsuc 0)
    ∙ rw (back_one e) (drop_zeros-fuel tens (suc c) sign (suc c) e (omega arith) few least)
    ∙ sym (normalize-drop_zeros sign (suc c) e (omega arith))

more_zeros : (c k : ℕ) → c * 10 ^ suc k ≡ c * 10 ^ k * 10
more_zeros c k = ap (λ t. c * t) (pow-suc 10 k) ∙ sym (mul_assoc c (10 ^ k) 10)

no_places : (e : ℤ) → e +ℤ minus 0 ≡ e
unfolding ◌+ℤ◌
no_places (pos n) = ground arith
no_places (negsuc n) = ground arith

more_places : (e : ℤ) (k : ℕ) → e +ℤ minus (suc k) ≡ (e +ℤ minus k) +ℤ negsuc 0
unfolding ◌+ℤ◌
more_places (pos n) k = ground arith
more_places (negsuc n) k = ground arith

normalize_scale :
    (k : ℕ) (sign : Bool) (c : ℕ) (e : ℤ)
    → normalize (finite sign (c * 10 ^ k) (e +ℤ minus k)) ≡ normalize (finite sign c e)
normalize_scale zero sign c e = ap₂ (λ d f. normalize (finite sign d f)) (mul-one c) (no_places e)
normalize_scale (suc k) sign c e =
    ap₂ (λ d f. normalize (finite sign d f)) (more_zeros c k) (more_places e k)
    ∙ normalize-ten sign (c * 10 ^ k) (e +ℤ minus k)
    ∙ normalize_scale k sign c e

-- The text of a rate is the same whatever zeros it ends in: 20, 20.0 and 20.0000 print alike.
pub format_rate_scale :
    (k : ℕ) (sign : Bool) (c : ℕ) (e : ℤ)
    → format_rate (finite sign (c * 10 ^ k) (e +ℤ minus k)) ≡ format_rate (finite sign c e)
unfolding format_rate
format_rate_scale k sign c e = ap serialise (normalize_scale k sign c e)
