-- ===== src/PartyService/Evidence/Newest.antt =====
-- What a sort keeps, and that the latest check is later than no other (`.order_by` in
-- apps/api/services/party_service.py).
use film_bill.Base.{
  ◌≡◌, sym, ◌⊎◌, inl, inr, ◌≤◌, Bool, some, List, [], ◌∷◌, arith, text_has_equality, Bool-cases,
  Member,
}
use mathlib.Core.Option.{some-injective}
use film_bill.PartyService.Evidence.{PartyVatCheck, put, sort_rows, first_of, check_before}

-- A list that is sorted has the same members, and its first is before no other.
module _ {A : Type 0} (before : A → A → Bool) where
  put-Member : (a : A) (xs : List A) {b : A} → Member b (put before a xs) → (b ≡ a) ⊎ Member b xs
  unfolding put
  put-Member a [] m = m
  put-Member a (x ∷ xs) {b} m = elim (Bool-cases (before x a)) [
    | inr e ↦ let cases : (b ≡ a) ⊎ Member b (x ∷ xs) = rw e at m in cases
    | inl e ↦
        let cases : (b ≡ x) ⊎ Member b (put before a xs) = rw e at m in
        elim cases [
          | inl here ↦ inr (inl here)
          | inr there ↦ elim (put-Member a xs there) [ inl new ↦ inl new | inr old ↦ inr (inr old) ]
        ]
  ]

  pub sort_rows-Member : (xs : List A) (b : A) → Member b (sort_rows before xs) → Member b xs
  unfolding sort_rows
  sort_rows-Member [] b m = m
  sort_rows-Member (x ∷ xs) b m = elim (put-Member x (sort_rows before xs) m) [
    | inl new ↦ inl new
    | inr old ↦ inr (sort_rows-Member xs b old)
  ]

  put-both : (a : A) (xs : List A) {b : A} → (b ≡ a) ⊎ Member b xs → Member b (put before a xs)
  unfolding put
  put-both a [] m = m
  put-both a (x ∷ xs) {b} m = elim (Bool-cases (before x a)) [
    | inr e ↦ rw e m
    | inl e ↦ rw e (elim m [
      | inl new ↦ inr (put-both a xs (inl new))
      | inr (inl here) ↦ inl here
      | inr (inr there) ↦ inr (put-both a xs (inr there))
    ])
  ]

  pub Member-sort_rows : (xs : List A) (b : A) → Member b xs → Member b (sort_rows before xs)
  unfolding sort_rows
  Member-sort_rows [] b m = absurd m
  Member-sort_rows (x ∷ xs) b (inl new) = put-both x (sort_rows before xs) (inl new)
  Member-sort_rows (x ∷ xs) b (inr old) =
      put-both x (sort_rows before xs) (inr (Member-sort_rows xs b old))

-- The first row is later than no other.
abbrev pub StartsNewest : List PartyVatCheck → Type 0
StartsNewest [] = Unit {0}
StartsNewest (c ∷ cs) = (d : PartyVatCheck) → Member d (c ∷ cs) → d.checked_at ≤ c.checked_at

put-StartsNewest :
    (a : PartyVatCheck) (cs : List PartyVatCheck)
    → StartsNewest cs
    → StartsNewest (put check_before a cs)
unfolding put
put-StartsNewest a [] s =
    λ d m. elim m [ inl same ↦ rw same (omega arith) | inr nowhere ↦ absurd nowhere ]
put-StartsNewest a (c ∷ cs) s = elim (Bool-cases (check_before c a)) [
  | inl e ↦ rw e (λ d m. elim m [
    | inl same ↦ rw same (omega arith)
    | inr later ↦ elim (put-Member check_before a cs later) [
      | inl new ↦ rw new (ground arith)
      | inr old ↦ s d (inr old)
    ]
  ])
  | inr e ↦ rw e (λ d m. elim m [
    | inl same ↦ rw same (omega arith)
    | inr old ↦ let near = s d old in ground (arith, near)
  ])
]

pub sort_rows-StartsNewest : (cs : List PartyVatCheck) → StartsNewest (sort_rows check_before cs)
unfolding sort_rows
sort_rows-StartsNewest [] = tt
sort_rows-StartsNewest (c ∷ cs) =
    put-StartsNewest c (sort_rows check_before cs) (sort_rows-StartsNewest cs)

pub first_of-newest :
    (cs : List PartyVatCheck) (d : PartyVatCheck) {c : PartyVatCheck}
    → StartsNewest cs
    → first_of cs ≡ some c
    → Member d cs
    → d.checked_at ≤ c.checked_at
first_of-newest [] d s h m = absurd m
first_of-newest (b ∷ cs) d {c} s h m =
    let same : b ≡ c = some-injective _ _ h in rw (← same) (s d m)

pub first_of-Member : {A : Type 0} (xs : List A) {a : A} → first_of xs ≡ some a → Member a xs
first_of-Member [] h = cc
first_of-Member (x ∷ xs) h = inl (sym (some-injective _ _ h))
