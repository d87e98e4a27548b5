-- ===== src/Base/Text/Strip.antt =====
-- `str.strip()` and `str.upper()` are idempotent.
use film_bill.Base.{ℕ, ◌≡◌, refl, false, [], ◌∷◌, arith}
use film_bill.Base.Text.{Text, is_space, lstrip, rstrip, strip, upper, upper_code}

-- The first character of a text, if there is one, is no space.
abbrev StartsClean : Text → Type 0
StartsClean [] = Unit {0}
StartsClean (c ∷ s) = is_space c ≡ false

lstrip-StartsClean : (s : Text) → StartsClean (lstrip s)
unfolding lstrip
lstrip-StartsClean [] = tt
lstrip-StartsClean (c ∷ s) = ground (arith, lstrip-StartsClean s)

StartsClean-lstrip : (s : Text) → StartsClean s → lstrip s ≡ s
unfolding lstrip
StartsClean-lstrip [] h = refl
StartsClean-lstrip (c ∷ s) h = ground arith

rstrip-StartsClean : (s : Text) → StartsClean s → StartsClean (rstrip s)
unfolding rstrip
rstrip-StartsClean [] h = tt
rstrip-StartsClean (c ∷ s) h = ground arith

-- A text that `rstrip` returns is kept as it is.
rstrip_idem : (s : Text) → rstrip (rstrip s) ≡ rstrip s
unfolding rstrip
rstrip_idem [] = refl
rstrip_idem (c ∷ s) = ground (arith, rstrip_idem s)

pub strip_idem : (s : Text) → strip (strip s) ≡ strip s
unfolding strip
strip_idem s =
    rw (StartsClean-lstrip _ (rstrip-StartsClean _ (lstrip-StartsClean s))) (rstrip_idem (lstrip s))

upper_code_idem : (c : ℕ) → upper_code (upper_code c) ≡ upper_code c
unfolding upper_code
upper_code_idem c = ground arith

pub upper_idem : (s : Text) → upper (upper s) ≡ upper s
unfolding upper
upper_idem [] = refl
upper_idem (c ∷ s) = cc (upper_code_idem c, upper_idem s)

-- The case of a character does not make it a space.
pub upper_code-is_space : (c : ℕ) → is_space (upper_code c) ≡ is_space c
unfolding upper_code is_space
upper_code-is_space c = ground arith
