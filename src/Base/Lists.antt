-- ===== src/Base/Lists.antt =====
-- Lists measured by native numbers, under the library's names, and predicates on lists.
use Prim.Native.Nat.{ℕ, zero, suc, ◌+◌, ◌-◌}
use mathlib.Core.Path.{◌≡◌, refl, sym, ap, subst}
use mathlib.Core.Logic.{◌↔◌, ◌⊎◌, inl, inr}
use mathlib.Core.Bool.{Bool, true, false, ◌&&◌, ◌||◌}
use mathlib.Core.List.{List, [], ◌∷◌, ◌++◌}
use mathlib.Core.Option.{Option, none, some, some-injective}
use native.Mathlib.Omega.{arith}
use film_bill.Base.Tests.{if◌then◌else◌, Bool-cases}

module _ {ℓ} {A : Type ℓ} where
  abbrev pub length : List A → ℕ
  length [] = 0
  length (x ∷ xs) = suc (length xs)

  abbrev pub take : ℕ → List A → List A
  take zero xs = []
  take (suc n) [] = []
  take (suc n) (x ∷ xs) = x ∷ take n xs

  abbrev pub drop : ℕ → List A → List A
  drop zero xs = xs
  drop (suc n) [] = []
  drop (suc n) (x ∷ xs) = drop n xs

  abbrev pub replicate : ℕ → A → List A
  replicate zero a = []
  replicate (suc n) a = a ∷ replicate n a

  abbrev pub is_nil : List A → Bool
  is_nil [] = true
  is_nil (x ∷ xs) = false

  abbrev pub any : (A → Bool) → List A → Bool
  any p [] = false
  any p (x ∷ xs) = p x || any p xs

  abbrev pub all : (A → Bool) → List A → Bool
  all p [] = true
  all p (x ∷ xs) = p x && all p xs

  -- The elements that pass a test, and the first of them.
  abbrev pub select : (A → Bool) → List A → List A
  select p [] = []
  select p (x ∷ xs) = let rest = select p xs in if p x then x ∷ rest else rest

  abbrev pub find : (A → Bool) → List A → Option A
  find p [] = none
  find p (x ∷ xs) = if p x then some x else find p xs

  abbrev pub All {κ} : (A → Type κ) → List A → Type κ
  All P [] = Unit
  All P (x ∷ xs) = P x × All P xs

  pub length-append : (xs ys : List A) → length (xs ++ ys) ≡ length xs + length ys
  length-append [] ys = omega arith
  length-append (x ∷ xs) ys = omega (arith, length-append xs ys)

  pub length-replicate : (n : ℕ) (a : A) → length (replicate n a) ≡ n
  length-replicate zero a = refl
  length-replicate (suc n) a = ap suc (length-replicate n a)

  pub take-append-drop : (n : ℕ) (xs : List A) → take n xs ++ drop n xs ≡ xs
  take-append-drop zero xs = refl
  take-append-drop (suc n) [] = refl
  take-append-drop (suc n) (x ∷ xs) = ap (λ t. x ∷ t) (take-append-drop n xs)

  pub drop-append : (xs ys : List A) → drop (length xs) (xs ++ ys) ≡ ys
  drop-append [] ys = refl
  drop-append (x ∷ xs) ys = drop-append xs ys

  pub length-drop : (k : ℕ) (xs : List A) → length (drop k xs) ≡ length xs - k
  length-drop zero xs = omega arith
  length-drop (suc k) [] = omega arith
  length-drop (suc k) (x ∷ xs) = omega (arith, length-drop k xs)

  pub All-append {κ} : (P : A → Type κ) (xs ys : List A) → All P xs → All P ys → All P (xs ++ ys)
  All-append P [] ys _ q = q
  All-append P (x ∷ xs) ys (p, ps) q = (p, All-append P xs ys ps q)

  pub All-map_of {κ μ} :
      {P : A → Type κ} {Q : A → Type μ}
      → ((a : A) → P a → Q a)
      → (xs : List A) → All P xs
      → All Q xs
  All-map_of f [] h = tt
  All-map_of f (x ∷ xs) (h, hs) = (f x h, All-map_of f xs hs)

-- `a` is in the list.
module _ {A : Type 0} where
  abbrev pub Member : A → List A → Type 0
  Member a [] = ⊥
  Member a (x ∷ xs) = (a ≡ x) ⊎ Member a xs

  pub All-Member {κ} : (P : A → Type κ) (xs : List A) {a : A} → All P xs → Member a xs → P a
  All-Member P [] h m = absurd m
  All-Member P (x ∷ xs) (p, ps) (inl e) = subst P (sym e) p
  All-Member P (x ∷ xs) (p, ps) (inr m) = All-Member P xs ps m

  pub All-of_Member {κ} : (P : A → Type κ) (xs : List A) → ((a : A) → Member a xs → P a) → All P xs
  All-of_Member P [] f = tt
  All-of_Member P (x ∷ xs) f = (f x (inl refl), All-of_Member P xs λ a m. f a (inr m))

  pub find-Member :
      (p : A → Bool) (xs : List A) {a : A} → find p xs ≡ some a → Member a xs × (p a ≡ true)
  find-Member p [] h = cc
  find-Member p (x ∷ xs) h = elim (Bool-cases (p x)) [
    | inl e ↦ let same = some-injective _ _ (rw e at h) in (inl (sym same), rw (sym same) e)
    | inr e ↦ let (m, q) = find-Member p xs (rw e at h) in (inr m, q)
  ]

  -- The only member that a test accepts is the one that is found.
  pub find-only :
      (p : A → Bool) (xs : List A) {a : A}
      → Member a xs
      → p a ≡ true
      → ((b : A) → Member b xs → p b ≡ true → b ≡ a)
      → find p xs ≡ some a
  find-only p [] m h only = absurd m
  find-only p (x ∷ xs) {a} m h only = elim (Bool-cases (p x)) [
    | inl e ↦ rw e (ap some (only x (inl refl) e))
    | inr e ↦ elim m [
      | inl same ↦ let clash : p a ≡ false = rw same e in cc
      | inr n ↦ rw e (find-only p xs n h (λ b k. only b (inr k)))
    ]
  ]

  pub select-Member :
      (p : A → Bool) (xs : List A) {a : A} → Member a (select p xs) ↔ (Member a xs × (p a ≡ true))
  select-Member p [] = (λ m. absurd m, λ (m, h). absurd m)
  select-Member p (x ∷ xs) {a} = elim (Bool-cases (p x)) [
    | inl e ↦ rw e (
      λ o. elim o [
        | inl same ↦ (inl same, rw same e)
        | inr m ↦ let (n, h) = (select-Member p xs).0 m in (inr n, h)
      ],
      λ (o, h). elim o [ inl same ↦ inl same | inr m ↦ inr ((select-Member p xs).1 (m, h)) ],
    )
    | inr e ↦ rw e (
      λ m. let (n, h) = (select-Member p xs).0 m in (inr n, h),
      λ (o, h). elim o [
        | inl same ↦ let away : p a ≡ false = rw same e in cc
        | inr m ↦ (select-Member p xs).1 (m, h)
      ],
    )
  ]
