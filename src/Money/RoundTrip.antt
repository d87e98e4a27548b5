-- ===== src/Money/RoundTrip.antt =====
-- What is printed is read back, with its places: `_to_decimal` after `_serialise`.
use film_bill.Base.{
  length-drop, ℕ, zero, suc, ◌+◌, ◌-◌, ◌<◌, ◌≡◌, refl, sym, ap, ◌∙◌, Bool, true, false, none, some,
  [], ◌∷◌, ◌++◌, text_eq, nat_eq, arith, length, take, drop, all, append-nil, length-append,
  take-append-drop,
}
use film_bill.Base.Int.{pos, negsuc, minus, ◌+ℤ◌}
use film_bill.Base.Text.{Text, lit, strip, lower, starts_with}
use film_bill.Base.Digits.{is_digit, show, read, zfill}
use film_bill.Base.Digits.Reading.{read-show, show_nonempty, read-zfill, length-zfill, show-digits}
use film_bill.Money.Decimal.{Decimal, finite, is_finite}
use film_bill.Money.Format.{sign_text, pointed, plain, serialise}
use film_bill.Money.Parse.{
  string, ok, split_digits, split_sign, split_fraction, exponent, unsigned, special, parse_decimal,
  to_decimal,
}
use film_bill.Money.Plain.{
  is_plain, strip_plain, select_plain, split_digits-append, all-append, digit_plain, zfill_digits,
  take_digits, drop_digits, split_digits-all,
}

unsigned-pointed :
    (sign : Bool) (whole fraction : Text)
    → 0 < length whole
    → all is_digit whole ≡ true
    → all is_digit fraction ≡ true
    → unsigned (sign, whole ++ b'.' ∷ fraction)
      ≡ some (finite sign (read (whole ++ fraction)) (pos 0 +ℤ minus (length fraction)))
unfolding unsigned split_fraction exponent
unsigned-pointed sign [] fraction some_digit hw hf = absurd (omega arith)
unsigned-pointed sign (x ∷ whole) fraction some_digit hw hf =
    rw (split_digits-append (x ∷ whole) (b'.' ∷ fraction) hw refl, split_digits-all fraction hf)
      refl

unsigned-whole :
    (sign : Bool) (whole : Text)
    → 0 < length whole
    → all is_digit whole ≡ true
    → unsigned (sign, whole) ≡ some (finite sign (read whole) (pos 0))
unfolding unsigned split_fraction exponent ◌+ℤ◌
unsigned-whole sign [] some_digit h = absurd (omega arith)
unsigned-whole sign (x ∷ whole) some_digit h =
    rw (split_digits-all (x ∷ whole) h, append-nil whole) refl

places_back : (k : ℕ) → pos 0 +ℤ minus (suc k) ≡ negsuc k
unfolding ◌+ℤ◌
places_back k = ground arith

whole_long :
    (body : Text) (k : ℕ) → suc k < length body → 0 < length (take (length body - suc k) body)
whole_long body k long =
    let cut = length body - suc k in
    omega (
      arith,
      length-drop cut body,
      length-append (take cut body) (drop cut body),
      ap length (take-append-drop cut body),
    )

-- A body of digits, longer than the places.
unsigned-points :
    (sign : Bool) (body : Text) (k : ℕ)
    → suc k < length body
    → all is_digit body ≡ true
    → unsigned (sign, pointed body (suc k)) ≡ some (finite sign (read body) (negsuc k))
unfolding pointed
unsigned-points sign body k long h =
    let cut = length body - suc k in
    let places : length (drop cut body) ≡ suc k = omega (arith, length-drop cut body) in
    unsigned-pointed sign (take cut body) (drop cut body) (whole_long body k long)
      (take_digits cut body h) (drop_digits cut body h)
    ∙ rw (take-append-drop cut body, places, places_back k) refl

minus-suc : (k : ℕ) → minus (suc k) ≡ negsuc k
minus-suc k = ground arith

-- The printed text before its sign.
record IsPrinted (sign : Bool) (c : ℕ) (places : ℕ) (t : Text) : Type 0 where
  is_clean : all is_plain t ≡ true
  no_sign : split_sign t ≡ (false, t)
  reads : unsigned (sign, t) ≡ some (finite sign c (minus places))

digits_no_sign :
    (whole rest : Text)
    → 0 < length whole
    → all is_digit whole ≡ true
    → split_sign (whole ++ rest) ≡ (false, whole ++ rest)
unfolding split_sign
digits_no_sign [] rest some_digit h = absurd (omega arith)
digits_no_sign (x ∷ whole) rest some_digit h = ground arith

zero-IsPrinted : (sign : Bool) → IsPrinted sign 0 0 (b'0' ∷ [])
unfolding unsigned exponent split_digits split_fraction split_sign ◌+ℤ◌
zero-IsPrinted sign = record { is_clean = refl; no_sign = refl; reads = refl }

whole-IsPrinted : (sign : Bool) (c : ℕ) → IsPrinted sign c 0 (show c ++ [])
whole-IsPrinted sign c = record {
  is_clean = rw (append-nil (show c)) (digit_plain (show c) (show-digits c));
  no_sign = digits_no_sign (show c) [] (show_nonempty c) (show-digits c);
  reads =
      rw (append-nil (show c))
        (unsigned-whole sign (show c) (show_nonempty c) (show-digits c) ∙ rw (read-show c) refl);
}

pointed-IsPrinted :
    (sign : Bool) (c k : ℕ) → IsPrinted sign c (suc k) (pointed (zfill (k + 2) (show c)) (suc k))
unfolding pointed
pointed-IsPrinted sign c k =
    let body = zfill (k + 2) (show c) in
    let digits : all is_digit body ≡ true = zfill_digits (k + 2) c in
    let long : suc k < length body = omega (arith, length-zfill (k + 2) (show c)) in
    let cut = length body - suc k in
    record {
      is_clean = rw (all-append is_plain (take cut body) (b'.' ∷ drop cut body)) (
          rw (digit_plain (take cut body) (take_digits cut body digits))
            (digit_plain (drop cut body) (drop_digits cut body digits)));
      no_sign =
          digits_no_sign (take cut body) (b'.' ∷ drop cut body) (whole_long body k long)
            (take_digits cut body digits);
      reads = unsigned-points sign body k long digits ∙ rw (read-zfill (k + 2) c, minus-suc k) refl;
    }

plain-IsPrinted : (sign : Bool) (c places : ℕ) → IsPrinted sign c places (plain c (minus places))
unfolding plain
plain-IsPrinted sign zero zero = zero-IsPrinted sign
plain-IsPrinted sign (suc c) zero =
    let digits : nat_eq (suc c) 0 ≡ false = ground arith in rw digits (whole-IsPrinted sign (suc c))
plain-IsPrinted sign c (suc k) = rw (minus-suc k) (pointed-IsPrinted sign c k)

minus_splits : (t : Text) → split_sign (b'-' ∷ t) ≡ (true, t)
unfolding split_sign
minus_splits t = refl

signed-IsPrinted :
    (sign : Bool) (c places : ℕ)
    → (t : Text) → IsPrinted sign c places t
    → (all is_plain (sign_text sign ++ t) ≡ true) × (split_sign (sign_text sign ++ t) ≡ (sign, t))
signed-IsPrinted true c places t h = (h.is_clean, minus_splits t)
signed-IsPrinted false c places t h = (h.is_clean, h.no_sign)

pub parse_decimal-nil : parse_decimal [] ≡ none
unfolding parse_decimal unsigned split_sign split_digits split_fraction special lower lit strip
    starts_with text_eq
parse_decimal-nil = refl

parse_decimal-plain :
    (s t : Text) (sign : Bool)
    → all is_plain s ≡ true
    → split_sign s ≡ (sign, t)
    → parse_decimal s ≡ unsigned (sign, t)
unfolding parse_decimal
parse_decimal-plain s t sign plain splits =
    rw (strip_plain s plain, select_plain s plain, splits) refl

parsed_back :
    (s : Text) (d : Decimal)
    → all is_plain s ≡ true
    → parse_decimal s ≡ some d
    → is_finite d ≡ true
    → to_decimal (string s) ≡ ok d
unfolding to_decimal
parsed_back [] d plain parsed fin = absurd (none_some (sym parse_decimal-nil ∙ parsed))
  where
    none_some : none ≡ some d → ⊥
    none_some e = cc
parsed_back (c ∷ s) d plain parsed fin =
    let clean = strip_plain (c ∷ s) plain in rw (clean, parsed) (rw fin refl)

-- A finite value with no positive exponent, so every value that a column or `quantize` gives, is
-- printed as a text that `_to_decimal` reads back as the same value: the same sign, digits and
-- number of places, trailing zeros included.
pub to_decimal-serialise :
    (sign : Bool) (c places : ℕ)
    → to_decimal (string (serialise (finite sign c (minus places))))
      ≡ ok (finite sign c (minus places))
unfolding serialise
to_decimal-serialise sign c places =
    let t = plain c (minus places) in
    let printed = plain-IsPrinted sign c places in
    let (clean, splits) = signed-IsPrinted sign c places t printed in
    parsed_back (sign_text sign ++ t) (finite sign c (minus places)) clean
      (parse_decimal-plain (sign_text sign ++ t) t sign clean splits ∙ printed.reads)
      (unfold is_finite in refl)
