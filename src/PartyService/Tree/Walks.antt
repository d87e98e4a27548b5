-- ===== src/PartyService/Tree/Walks.antt =====
-- The two walks of apps/api/services/party_service.py end, whatever the rows say.
use film_bill.Base.{
  ◌≡◌, ◌≢◌, refl, inl, inr, ℕ, zero, suc, ◌+◌, ◌≤◌, ◌<◌, Bool, true, false, not, Option, none, some,
  List, [], ◌∷◌, leb, nat_eq, arith, Bool-cases, length, is_nil, contains, ℕ_has_equality, count,
  bit, Member, count-le, is_some, Option-cases,
}
use film_bill.Base.Text.{Text}
use film_bill.Parties.Levels.{department, Level, level_eq, level_has_equality}
use film_bill.PartyService.Rows.{Party, find_party, parent_row, found-Member}
use film_bill.PartyService.Tree.{
  ParentCheck, undecided, party_type_named, allowed_parents, meets_itself, depth_from, fuel_for,
  depth_of, check_depth, check_cycle, check_row, check_parent, check_type, validate_parent,
}

count-less :
    {A : Type 0} (p q : A → Bool) (xs : List A) {a : A}
    → ((x : A) → bit (q x) ≤ bit (p x))
    → Member a xs
    → p a ≡ true
    → q a ≡ false
    → count q xs < count p xs
count-less p q [] h m passes fails = absurd m
count-less p q (x ∷ xs) h (inl same) passes fails =
    let first : bit (q x) < bit (p x) = rw (← same, passes, fails) (omega arith) in
    omega (arith, first, count-le q p xs h)
count-less p q (x ∷ xs) h (inr m) passes fails =
    omega (arith, h x, count-less p q xs h m passes fails)

-- The rows that have not been seen.
abbrev unseen : List ℕ → Party → Bool
unseen seen p = not (contains seen p.id)

fewer :
    (id : ℕ) (seen : List ℕ) (rows : List Party) (p : Party)
    → Member p rows
    → p.id ≡ id
    → contains seen id ≡ false
    → count (unseen (id ∷ seen)) rows < count (unseen seen) rows
fewer id seen rows p m same new =
    count-less (unseen seen) (unseen (id ∷ seen)) rows (λ x. ground arith) m (rw (same, new) refl)
      (ground arith)

count-length : {A : Type 0} (p : A → Bool) (xs : List A) → count p xs ≤ length xs
count-length p [] = omega arith
count-length p (x ∷ xs) = ground (arith, count-length p xs)

abbrev InRows : List Party → Option Party → Type 0
InRows rows none = Unit {0}
InRows rows (some p) = Member p rows

parent_row-InRows :
    (company_id : ℕ) (id : Option ℕ) (rows : List Party)
    → InRows rows (parent_row company_id id rows)
parent_row-InRows company_id none rows = tt
parent_row-InRows company_id (some id) rows = elim (Option-cases (find_party company_id id rows)) [
  | inl gone ↦ rw gone tt
  | inr (p, there) ↦ rw there (found-Member company_id id rows there).0
]

meets_itself-total :
    (fuel company_id : ℕ) (rows : List Party) (seen : List ℕ) (walker : Option Party)
    → InRows rows walker
    → count (unseen seen) rows < fuel
    → is_some (meets_itself fuel company_id rows seen walker) ≡ true
unfolding meets_itself
meets_itself-total zero company_id rows seen walker m h = absurd (omega arith)
meets_itself-total (suc fuel) company_id rows seen none m h = refl
meets_itself-total (suc fuel) company_id rows seen (some p) m h =
    elim (Bool-cases (contains seen p.id)) [
      | inl met ↦ rw met refl
      | inr new ↦ rw new (
          meets_itself-total fuel company_id rows (p.id ∷ seen)
            (parent_row company_id p.parent_id rows) (parent_row-InRows company_id p.parent_id rows)
            (omega (arith, fewer p.id seen rows p m refl new)))
    ]

depth_from-total :
    (fuel company_id : ℕ) (rows : List Party) (seen : List ℕ) (depth : ℕ) (parent_id : Option ℕ)
    → count (unseen seen) rows < fuel
    → is_some (depth_from fuel company_id rows seen depth parent_id) ≡ true
unfolding depth_from
depth_from-total zero company_id rows seen depth parent_id h = absurd (omega arith)
depth_from-total (suc fuel) company_id rows seen depth none h = refl
depth_from-total (suc fuel) company_id rows seen depth (some id) h =
    elim (Bool-cases (contains seen id)) [
      | inl met ↦ rw met refl
      | inr new ↦ elim (Option-cases (find_party company_id id rows)) [
        | inl gone ↦ rw (new, gone) refl
        | inr (p, there) ↦
            let (m, _, same) = found-Member company_id id rows there in
            rw (new, there)
              (depth_from-total fuel company_id rows (id ∷ seen) (depth + 1) p.parent_id
                (omega (arith, fewer id seen rows p m same new)))
      ]
    ]

abbrev is_decided : {A : Type 0} → ParentCheck A → Bool
is_decided undecided = false
is_decided _ = true

check_depth-decided :
    (company_id : ℕ) (rows : List Party) (parent : Party)
    → is_decided (check_depth company_id rows parent) ≡ true
unfolding check_depth depth_of depth_from
check_depth-decided company_id rows parent = elim (Option-cases (depth_of company_id rows parent)) [
  | inl gone ↦
      let ended =
        depth_from-total (fuel_for rows) company_id rows (parent.id ∷ []) 1 parent.parent_id
          (omega (arith, count-length (unseen (parent.id ∷ [])) rows)) in
      let clash : false ≡ true = rw gone at ended in absurd (ground arith)
  | inr (depth, there) ↦ elim (Bool-cases (leb 4 (depth + 1))) [
    | inl e ↦ rw (there, e) refl
    | inr e ↦ rw (there, e) refl
  ]
]

check_cycle-decided :
    (company_id : ℕ) (rows : List Party) (party_id : Option ℕ) (parent : Party)
    → Member parent rows
    → is_decided (check_cycle company_id rows party_id parent) ≡ true
unfolding check_cycle
check_cycle-decided company_id rows none parent m = check_depth-decided company_id rows parent
check_cycle-decided company_id rows (some own) parent m = elim (Bool-cases (nat_eq parent.id own)) [
  | inl e ↦ rw e refl
  | inr e ↦
      let walk = meets_itself (fuel_for rows) company_id rows (own ∷ []) (some parent) in
      elim (Option-cases walk) [
        | inl gone ↦
            let ended =
              meets_itself-total (fuel_for rows) company_id rows (own ∷ []) (some parent) m
                (omega (arith, count-length (unseen (own ∷ [])) rows)) in
            let clash : false ≡ true = rw gone at ended in absurd (ground arith)
        | inr (met, there) ↦ elim (Bool-cases met) [
          | inl yes_met ↦ rw (e, there, yes_met) refl
          | inr not_met ↦ rw (e, there, not_met) (check_depth-decided company_id rows parent)
        ]
      ]
]

check_parent-decided :
    (company_id : ℕ) (rows : List Party) (kind : Level) (parent_id party_id : Option ℕ)
    → is_decided (check_parent company_id rows kind parent_id party_id) ≡ true
unfolding check_parent check_row
check_parent-decided company_id rows kind none party_id =
    elim (Bool-cases (level_eq kind department)) [ inl e ↦ rw e refl | inr e ↦ rw e refl ]
check_parent-decided company_id rows kind (some id) party_id =
    elim (Bool-cases (is_nil (allowed_parents kind))) [
      | inl e ↦ rw e refl
      | inr e ↦ elim (Option-cases (find_party company_id id rows)) [
        | inl gone ↦ rw (e, gone) refl
        | inr (parent, there) ↦ elim (Bool-cases (contains (allowed_parents kind) parent.kind)) [
          | inr refused ↦ rw (e, there, refused) refl
          | inl fits ↦
              rw (e, there, fits)
                (check_cycle-decided company_id rows party_id parent
                  (found-Member company_id id rows there).0)
        ]
      ]
    ]

check_type-decided :
    (company_id : ℕ) (rows : List Party) (party_type : Text) (parent_id party_id : Option ℕ)
    (kind : Option Level)
    → is_decided (check_type company_id rows party_type parent_id party_id kind) ≡ true
unfolding check_type
check_type-decided company_id rows party_type parent_id party_id none = refl
check_type-decided company_id rows party_type parent_id party_id (some kind) =
    check_parent-decided company_id rows kind parent_id party_id

-- The check of a parent is decided for every table, cycles in it included: neither of its walks up the
-- tree runs out of fuel, as each sees a row once.
pub validate_parent-decided :
    (company_id : ℕ) (rows : List Party) (party_type : Text) (parent_id party_id : Option ℕ)
    → validate_parent company_id rows party_type parent_id party_id ≢ undecided
unfolding validate_parent
validate_parent-decided company_id rows party_type parent_id party_id e =
    let decided =
      check_type-decided company_id rows party_type parent_id party_id
        (party_type_named party_type) in
    let clash : false ≡ true = rw e at decided in absurd (ground arith)
