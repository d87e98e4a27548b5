-- ===== src/Redis/Pools.antt =====
-- The five pools of apps/api/services/redis_service.py share no key.
use mathlib.Core.Logic.{◌≢◌}
use film_bill.Base.{
  ◌≡◌, refl, sym, ℕ, ◌<◌, Bool, true, false, ◌&&◌, ◌||◌, List, [], ◌∷◌, ◌++◌, nat_eq, arith,
  if◌then◌else◌, all, Member, inl, inr, Bool-cases, text_eq, text_eq_iff,
}
use film_bill.Base.Text.{Text, lit, lower}
use film_bill.Redis.Codes.{
  Pool, magic_code, password_reset, backup_email, twofa_email, twofa_enrol, code_key, attempts_key,
}
use film_bill.Redis.Guesses.{IsUsable}

pub data PoolName : Type 0 where
  magic reset backup challenge enrolment : PoolName

abbrev pub pool_of : PoolName → Pool
pool_of magic = magic_code
pool_of reset = password_reset
pool_of backup = backup_email
pool_of challenge = twofa_email
pool_of enrolment = twofa_enrol

abbrev number_of : PoolName → ℕ
number_of magic = 0
number_of reset = 1
number_of backup = 2
number_of challenge = 3
number_of enrolment = 4

same_number : (p q : PoolName) → nat_eq (number_of p) (number_of q) ≡ true → p ≡ q
same_number p q h = ground arith

-- The two texts have different characters at one place.
differs : Text → Text → Bool
differs [] t = false
differs (c ∷ s) [] = false
differs (c ∷ s) (d ∷ t) = if nat_eq c d then differs s t else true

differs-append : (p q a b : Text) → differs p q ≡ true → p ++ a ≢ q ++ b
unfolding differs
differs-append [] q a b h e = cc
differs-append (c ∷ p) [] a b h e = cc
differs-append (c ∷ p) (d ∷ q) a b h e = elim (Bool-cases (nat_eq c d)) [
  | inl same ↦ differs-append p q a b (rw same at h) (cc)
  | inr other ↦ let heads : c ≡ d = cc in absurd (ground arith)
]

apart : PoolName → PoolName → Bool
apart p q =
    (nat_eq (number_of p) (number_of q)
      || (differs (pool_of p).prefix (pool_of q).prefix
          && differs (pool_of p).attempts_prefix (pool_of q).attempts_prefix))
    && differs (pool_of p).prefix (pool_of q).attempts_prefix

abbrev names : List PoolName
names = magic ∷ reset ∷ backup ∷ challenge ∷ enrolment ∷ []

each_pair : all (λ p. all (λ q. apart p q) names) names ≡ true
unfolding apart differs lit
each_pair = refl

named : (p : PoolName) → Member p names
named magic = inl refl
named reset = inr (inl refl)
named backup = inr (inr (inl refl))
named challenge = inr (inr (inr (inl refl)))
named enrolment = inr (inr (inr (inr (inl refl))))

all-Member :
    {A : Type 0} (p : A → Bool) (xs : List A) (a : A) → all p xs ≡ true → Member a xs → p a ≡ true
all-Member p [] a h m = absurd m
all-Member p (x ∷ xs) a h (inl e) = rw e (ground arith)
all-Member p (x ∷ xs) a h (inr m) = all-Member p xs a (ground arith) m

is_apart : (p q : PoolName) → apart p q ≡ true
is_apart p q =
    all-Member (λ q. apart p q) names q
      (all-Member (λ p. all (λ q. apart p q) names) names p each_pair (named p)) (named q)

parts :
    (same first second crossed : Bool)
    → ((same || (first && second)) && crossed) ≡ true
    → (crossed ≡ true) × (same ≡ false → (first ≡ true) × (second ≡ true))
parts same first second crossed h = (ground arith, λ e. (ground arith, ground arith))

-- No key of one pool is a key of another, for a code or for its attempts and whatever the two addresses
-- are, and no code's key is the key of attempts in the same pool either.
pub keys-Apart :
    (p q : PoolName) (a b : Text)
    → (code_key (pool_of p) a ≢ attempts_key (pool_of q) b)
      × (p ≢ q
          → (code_key (pool_of p) a ≢ code_key (pool_of q) b)
            × (attempts_key (pool_of p) a ≢ attempts_key (pool_of q) b))
unfolding code_key attempts_key apart
keys-Apart p q a b =
    let (crossed, others) =
      parts (nat_eq (number_of p) (number_of q)) (differs (pool_of p).prefix (pool_of q).prefix)
        (differs (pool_of p).attempts_prefix (pool_of q).attempts_prefix)
        (differs (pool_of p).prefix (pool_of q).attempts_prefix) (is_apart p q) in
    (
      differs-append (pool_of p).prefix (pool_of q).attempts_prefix (lower a) (lower b) crossed,
      λ h.
          let distinct : nat_eq (number_of p) (number_of q) ≡ false =
            elim (Bool-cases (nat_eq (number_of p) (number_of q))) [
              | inl e ↦ absurd (h (same_number p q e))
              | inr e ↦ e
            ] in
          let (codes, attempts) = others distinct in
          (
            differs-append (pool_of p).prefix (pool_of q).prefix (lower a) (lower b) codes,
            differs-append (pool_of p).attempts_prefix (pool_of q).attempts_prefix (lower a)
                (lower b) attempts,
          ),
    )

unequal : (s t : Text) → s ≢ t → text_eq s t ≡ false
unequal s t h = elim (Bool-cases (text_eq s t)) [
  | inl e ↦ absurd (h ((text_eq_iff s t).0 e))
  | inr e ↦ e
]

lives : (p : PoolName) → 0 < (pool_of p).expiry_seconds
lives magic = omega arith
lives reset = omega arith
lives backup = omega arith
lives challenge = omega arith
lives enrolment = omega arith

pub pool-IsUsable : (p : PoolName) (email : Text) → IsUsable (pool_of p) email
pool-IsUsable p email = record {
  lives = lives p;
  differ = unequal _ _ (keys-Apart p p email email).0;
  differ' = unequal _ _ (λ e. (keys-Apart p p email email).0 (sym e));
}
