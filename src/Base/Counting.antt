-- ===== src/Base/Counting.antt =====
-- How many elements of a list pass a test, and what a write to the first element found changes of it.
use Prim.Native.Nat.{ℕ, ◌+◌, ◌≤◌, ◌<◌}
use mathlib.Core.Path.{◌≡◌, refl, sym}
use mathlib.Core.Logic.{◌⊎◌, inl, inr}
use mathlib.Core.Bool.{Bool, true, false, not, ◌&&◌}
use mathlib.Core.List.{List, [], ◌∷◌, ◌++◌, map}
use mathlib.Core.Option.{some, some-injective}
use native.Mathlib.Omega.{arith}
use film_bill.Base.Tests.{if◌then◌else◌, Bool-cases}
use film_bill.Base.Lists.{any, find, select, Member}

-- One if the test holds.
abbrev pub bit : Bool → ℕ
bit true = 1
bit false = 0

pub bit_bounded : (b : Bool) → bit b ≤ 1
bit_bounded true = omega arith
bit_bounded false = omega arith

module _ {A : Type 0} where
  abbrev pub count : (A → Bool) → List A → ℕ
  count p [] = 0
  count p (x ∷ xs) = bit (p x) + count p xs

  -- The first element that passes the test is written.
  abbrev pub amend : (A → Bool) → (A → A) → List A → List A
  amend q f [] = []
  amend q f (x ∷ xs) = let rest = amend q f xs in if q x then f x ∷ xs else x ∷ rest

  pub count-append : (p : A → Bool) (xs ys : List A) → count p (xs ++ ys) ≡ count p xs + count p ys
  count-append p [] ys = omega arith
  count-append p (x ∷ xs) ys = omega (arith, count-append p xs ys)

  pub count-amend :
      (p q : A → Bool) (f : A → A) (xs : List A) {r : A}
      → find q xs ≡ some r
      → count p (amend q f xs) + bit (p r) ≡ count p xs + bit (p (f r))
  count-amend p q f [] h = cc
  count-amend p q f (x ∷ xs) {r} h = elim (Bool-cases (q x)) [
    | inl e ↦ let same : x ≡ r = some-injective _ _ (rw e at h) in rw (e, sym same) (omega arith)
    | inr e ↦ let rest = count-amend p q f xs (rw e at h) in rw e (omega arith)
  ]

  -- The elements that a test excludes are the same, if it excludes what is written as well.
  pub select-amend :
      (p q : A → Bool) (f : A → A) (xs : List A)
      → ((a : A) → q a ≡ true → (p a ≡ false) × (p (f a) ≡ false))
      → select p (amend q f xs) ≡ select p xs
  select-amend p q f [] h = refl
  select-amend p q f (x ∷ xs) h = elim (Bool-cases (q x)) [
    | inl e ↦ let (old, new) = h x e in rw (e, old, new) refl
    | inr e ↦ let rest = select-amend p q f xs h in rw (e, rest) refl
  ]

  pub select-append :
      (p : A → Bool) (xs ys : List A) → select p (xs ++ ys) ≡ select p xs ++ select p ys
  select-append p [] ys = refl
  select-append p (x ∷ xs) ys = ground (arith, select-append p xs ys)

  -- An element after the write is one from before, or the one written.
  pub amend-Member :
      (q : A → Bool) (f : A → A) (xs : List A) {a : A}
      → Member a (amend q f xs)
      → Member a xs ⊎ ((r : A) × ((find q xs ≡ some r) × (a ≡ f r)))
  amend-Member q f [] m = absurd m
  amend-Member q f (x ∷ xs) {a} m = elim (Bool-cases (q x)) [
    | inl e ↦
        let cases : (a ≡ f x) ⊎ Member a xs = rw e at m in
        elim cases [ inl new ↦ inr (x, (rw e refl, new)) | inr old ↦ inl (inr old) ]
    | inr e ↦
        let cases : (a ≡ x) ⊎ Member a (amend q f xs) = rw e at m in
        elim cases [
          | inl old ↦ inl (inl old)
          | inr later ↦ elim (amend-Member q f xs later) [
            | inl old ↦ inl (inr old)
            | inr (r, (found, new)) ↦ inr (r, (rw e found, new))
          ]
        ]
  ]

  pub Member-append : (xs ys : List A) (a : A) → Member a (xs ++ ys) → Member a xs ⊎ Member a ys
  Member-append [] ys a m = inr m
  Member-append (x ∷ xs) ys a (inl e) = inl (inl e)
  Member-append (x ∷ xs) ys a (inr m) = elim (Member-append xs ys a m) [
    | inl old ↦ inl (inr old)
    | inr new ↦ inr new
  ]

  pub count-map :
      (p : A → Bool) (f : A → A) (xs : List A) → count p (map f xs) ≡ count (λ x. p (f x)) xs
  count-map p f [] = refl
  count-map p f (x ∷ xs) = omega (arith, count-map p f xs)

  pub count-le :
      (p q : A → Bool) (xs : List A) → ((a : A) → bit (p a) ≤ bit (q a)) → count p xs ≤ count q xs
  count-le p q [] h = omega arith
  count-le p q (x ∷ xs) h = omega (arith, h x, count-le p q xs h)

  pub count-select :
      (p q : A → Bool) (xs : List A) → count p (select q xs) ≡ count (λ x. q x && p x) xs
  count-select p q [] = refl
  count-select p q (x ∷ xs) = elim (Bool-cases (q x)) [
    | inl e ↦ rw (e, count-select p q xs) refl
    | inr e ↦ rw (e, count-select p q xs) (omega arith)
  ]

  pub find-append :
      (p : A → Bool) (xs ys : List A) {a : A} → find p xs ≡ some a → find p (xs ++ ys) ≡ some a
  find-append p [] ys h = cc
  find-append p (x ∷ xs) ys h = elim (Bool-cases (p x)) [
    | inl e ↦ rw e (rw e at h)
    | inr e ↦ rw e (find-append p xs ys (rw e at h))
  ]

  pub count-cong : (p q : A → Bool) (xs : List A) → ((a : A) → p a ≡ q a) → count p xs ≡ count q xs
  count-cong p q [] h = refl
  count-cong p q (x ∷ xs) h = rw (h x, count-cong p q xs h) refl

  pub count_split :
      (p q : A → Bool) (xs : List A)
      → count (λ x. q x && p x) xs + count (λ x. not (q x) && p x) xs ≡ count p xs
  count_split p q [] = omega arith
  count_split p q (x ∷ xs) = elim (Bool-cases (q x)) [
    | inl e ↦ rw e (omega (arith, count_split p q xs))
    | inr e ↦ rw e (omega (arith, count_split p q xs))
  ]

  pub any-count : (p : A → Bool) (xs : List A) → any p xs ≡ false → count p xs ≡ 0
  any-count p [] h = refl
  any-count p (x ∷ xs) h = ground (arith, any-count p xs)

  pub count-any : (p : A → Bool) (xs : List A) → any p xs ≡ true → 0 < count p xs
  count-any p [] h = cc
  count-any p (x ∷ xs) h = ground (arith, count-any p xs)

  pub count-pos : (q : A → Bool) (xs : List A) {a : A} → find q xs ≡ some a → 0 < count q xs
  count-pos q [] h = cc
  count-pos q (x ∷ xs) h = elim (Bool-cases (q x)) [
    | inl e ↦ rw e (omega arith)
    | inr e ↦ rw e (omega (arith, count-pos q xs (rw e at h)))
  ]

  -- Where the element found is the only one, a second test counts it or nothing.
  pub count-find :
      (p q : A → Bool) (xs : List A) {r : A}
      → find q xs ≡ some r
      → count q xs ≤ 1
      → count (λ x. q x && p x) xs ≡ bit (p r)
  count-find p q [] h k = cc
  count-find p q (x ∷ xs) {r} h k = elim (Bool-cases (q x)) [
    | inl e ↦
        let same : x ≡ r = some-injective _ _ (rw e at h) in
        let rest : count q xs ≤ 0 = (let k' : 1 + count q xs ≤ 1 = rw e at k in omega arith) in
        let none_left = count-le (λ x. q x && p x) q xs (λ a. ground arith) in
        rw (e, same) (omega arith)
    | inr e ↦
        let k' : 0 + count q xs ≤ 1 = rw e at k in
        rw e (omega (arith, count-find p q xs (rw e at h) (omega arith)))
  ]
