-- ===== src/Money/Plain.antt =====
-- Texts of digits, a sign and a point: nothing is stripped from them, and a run of digits is read
-- as a whole.
use film_bill.Base.{
  ℕ, zero, suc, ◌-◌, ◌≡◌, refl, Bool, true, false, not, ◌&&◌, ◌||◌, List, [], ◌∷◌, ◌++◌, nat_eq,
  arith, length, take, drop, replicate, all, select, append-nil,
}
use film_bill.Base.Text.{Text, is_space, strip, lstrip, rstrip}
use film_bill.Base.Digits.{is_digit, show, zfill}
use film_bill.Base.Digits.Reading.{show-digits}
use film_bill.Money.Parse.{split_digits}

-- The characters of a printed decimal.
abbrev pub is_plain : ℕ → Bool
is_plain c = is_digit c || nat_eq c b'-' || nat_eq c b'.'

pub plain_no_space : (c : ℕ) → is_plain c ≡ true → is_space c ≡ false
unfolding is_space
plain_no_space c h = ground arith

pub lstrip_plain : (s : Text) → all is_plain s ≡ true → lstrip s ≡ s
unfolding lstrip
lstrip_plain [] h = refl
lstrip_plain (c ∷ s) h = ground (arith, plain_no_space c)

pub rstrip_plain : (s : Text) → all is_plain s ≡ true → rstrip s ≡ s
unfolding rstrip
rstrip_plain [] h = refl
rstrip_plain (c ∷ []) h = ground (arith, plain_no_space c)
rstrip_plain (c ∷ d ∷ s) h =
    let rest : rstrip (d ∷ s) ≡ d ∷ s = rstrip_plain (d ∷ s) (ground arith) in rw rest refl

pub strip_plain : (s : Text) → all is_plain s ≡ true → strip s ≡ s
unfolding strip
strip_plain s h = rw (lstrip_plain s h) (rstrip_plain s h)

pub select_plain : (s : Text) → all is_plain s ≡ true → select (λ c. not (nat_eq c b'_')) s ≡ s
select_plain [] h = refl
select_plain (c ∷ s) h = ground (arith, select_plain s)

-- A run of digits that the text ends after, or goes on after with a character that is no digit.
abbrev pub Stops : Text → Type 0
Stops [] = Unit {0}
Stops (c ∷ s) = is_digit c ≡ false

pub split_digits-append :
    (xs rest : Text) → all is_digit xs ≡ true → Stops rest → split_digits (xs ++ rest) ≡ (xs, rest)
unfolding split_digits
split_digits-append [] [] h stop = refl
split_digits-append [] (c ∷ s) h stop = ground arith
split_digits-append (x ∷ xs) rest h stop =
    let first : is_digit x ≡ true = ground arith in
    let others : all is_digit xs ≡ true = ground arith in
    rw (split_digits-append xs rest others stop) (rw first refl)

pub all-append {ℓ} :
    {A : Type ℓ} (p : A → Bool) (xs ys : List A) → all p (xs ++ ys) ≡ (all p xs && all p ys)
all-append p [] ys = refl
all-append p (x ∷ xs) ys = ground (arith, all-append p xs ys)

pub digit_plain : (s : Text) → all is_digit s ≡ true → all is_plain s ≡ true
digit_plain [] h = refl
digit_plain (c ∷ s) h = ground (arith, digit_plain s)

pub zeros_digits : (k : ℕ) → all is_digit (replicate k b'0') ≡ true
zeros_digits zero = refl
zeros_digits (suc k) = zeros_digits k

pub zfill_digits : (w n : ℕ) → all is_digit (zfill w (show n)) ≡ true
unfolding zfill
zfill_digits w n = ground (
  arith,
  all-append is_digit (replicate (w - length (show n)) b'0') (show n),
  zeros_digits (w - length (show n)),
  show-digits n,
)

pub take_digits : (k : ℕ) (s : Text) → all is_digit s ≡ true → all is_digit (take k s) ≡ true
take_digits zero s h = refl
take_digits (suc k) [] h = refl
take_digits (suc k) (c ∷ s) h = ground (arith, take_digits k s)

pub drop_digits : (k : ℕ) (s : Text) → all is_digit s ≡ true → all is_digit (drop k s) ≡ true
drop_digits zero s h = h
drop_digits (suc k) [] h = refl
drop_digits (suc k) (c ∷ s) h = ground (arith, drop_digits k s)

pub split_digits-all : (xs : Text) → all is_digit xs ≡ true → split_digits xs ≡ (xs, [])
split_digits-all xs h =
    let cut : split_digits (xs ++ []) ≡ (xs, []) = split_digits-append xs [] h tt in
    rw (append-nil xs) at cut
