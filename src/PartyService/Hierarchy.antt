-- ===== src/PartyService/Hierarchy.antt =====
-- The tree of the parties stays one under the handlers of apps/api/routers/parties.py.
use film_bill.Base.{
  ◌≡◌, refl, ap, ◌∙◌, ◌⊎◌, inl, inr, ℕ, Bool, true, false, Option, none, some, List, [], ◌∷◌, ◌++◌,
  nat_eq, arith, Bool-cases, find, any, amend, amend-Member, Member, Member-append, find-append,
  contains, is_nil, text_eq,
}
use film_bill.Base.Text.{lit}
use film_bill.Parties.Levels.{Level, person, department, organisation, level_eq, level_has_equality}
use film_bill.PartyService.Rows.{Party, is_party, find_party, parent_row}
use film_bill.PartyService.Tree.{
  passed, failed, allowed_parents, party_type_named, check_row, check_parent, check_type,
  validate_parent, cannot_belong, department_needs_parent, organisation_on_top,
}
use film_bill.PartyService.Values.{level_name}
use film_bill.PartyService.Writes.{write_party}

-- Where a party of a kind may stand: at the top, or below a row of its company of an allowed kind.
abbrev pub IsPlaced : ℕ → List Party → Level → Option ℕ → Type 0
IsPlaced company_id rows kind parent_id =
    ((parent_id ≡ none) × (level_eq kind department ≡ false))
    ⊎ ((parent : Party) × (parent_row company_id parent_id rows ≡ some parent)
        × (contains (allowed_parents kind) parent.kind ≡ true))

-- Each party stands where one of its kind may.
abbrev pub IsTree : List Party → Type 0
IsTree rows = (p : Party) → Member p rows → IsPlaced p.company_id rows p.kind p.parent_id

check_row-allowed :
    (company_id : ℕ) (rows : List Party) (kind : Level) (party_id : Option ℕ) (row : Option Party)
    {o : Option Party}
    → check_row company_id rows kind party_id row ≡ passed o
    → (parent : Party) × (row ≡ some parent) × (contains (allowed_parents kind) parent.kind ≡ true)
unfolding check_row
check_row-allowed company_id rows kind party_id none h = cc
check_row-allowed company_id rows kind party_id (some parent) {o} h =
    elim (Bool-cases (contains (allowed_parents kind) parent.kind)) [
      | inl e ↦ (parent, refl, e)
      | inr e ↦ let clash : failed (cannot_belong kind parent) ≡ passed o = rw e at h in cc
    ]

check_parent-IsPlaced :
    (company_id : ℕ) (rows : List Party) (kind : Level) (parent_id party_id : Option ℕ)
    {o : Option Party}
    → check_parent company_id rows kind parent_id party_id ≡ passed o
    → IsPlaced company_id rows kind parent_id
unfolding check_parent
check_parent-IsPlaced company_id rows kind none party_id {o} h =
    elim (Bool-cases (level_eq kind department)) [
      | inr e ↦ inl (refl, e)
      | inl e ↦ let clash : failed department_needs_parent ≡ passed o = rw e at h in cc
    ]
check_parent-IsPlaced company_id rows kind (some id) party_id {o} h =
    elim (Bool-cases (is_nil (allowed_parents kind))) [
      | inl e ↦ let clash : failed organisation_on_top ≡ passed o = rw e at h in cc
      | inr e ↦ inr (
          check_row-allowed company_id rows kind party_id (find_party company_id id rows)
            (rw e at h))
    ]

named_level : (kind : Level) → party_type_named (level_name kind) ≡ some kind
unfolding party_type_named text_eq lit
named_level organisation = refl
named_level department = refl
named_level person = refl

-- A parent that is accepted is a row of the company of an allowed kind, or there is none and the party
-- is no department.
pub validate_parent-IsPlaced :
    (company_id : ℕ) (rows : List Party) (kind : Level) (parent_id party_id : Option ℕ)
    {o : Option Party}
    → validate_parent company_id rows (level_name kind) parent_id party_id ≡ passed o
    → IsPlaced company_id rows kind parent_id
unfolding validate_parent check_type
validate_parent-IsPlaced company_id rows kind parent_id party_id {o} h =
    check_parent-IsPlaced company_id rows kind parent_id party_id (rw (named_level kind) at h)

-- A row that is found is found after a write, as it was or as it is written.
find-amend :
    {A : Type 0} (p q : A → Bool) (f : A → A) (xs : List A) {a : A}
    → ((x : A) → q x ≡ true → p (f x) ≡ p x)
    → find p xs ≡ some a
    → (b : A) × (find p (amend q f xs) ≡ some b) × ((b ≡ a) ⊎ ((find q xs ≡ some a) × (b ≡ f a)))
find-amend p q f [] same h = cc
find-amend p q f (x ∷ xs) {a} same h = elim (Bool-cases (p x)) [
  | inl e ↦
      let here : some x ≡ some a = rw e at h in
      let this : x ≡ a = cc in
      elim (Bool-cases (q x)) [
        | inl w ↦
            let kept : p (f x) ≡ true = same x w ∙ e in
            (f x, rw (w, kept) refl, inr (rw w here, ap f this))
        | inr w ↦ (x, rw (w, e) refl, inl this)
      ]
  | inr e ↦
      let there : find p xs ≡ some a = rw e at h in
      elim (Bool-cases (q x)) [
        | inl w ↦ let kept : p (f x) ≡ false = same x w ∙ e in (a, rw (w, kept) there, inl refl)
        | inr w ↦
            let (b, found, cases) = find-amend p q f xs same there in
            (b, rw (w, e) found, rw w cases)
      ]
]

module _ (p r : Party) (rows : List Party) (there : find_party p.company_id p.id rows ≡ some r)
    (same_kind : p.kind ≡ r.kind) where
  parent_row-write :
      (company_id : ℕ) (parent_id : Option ℕ) (parent : Party)
      → parent_row company_id parent_id rows ≡ some parent
      → (q : Party) × (parent_row company_id parent_id (write_party p rows) ≡ some q)
        × (q.kind ≡ parent.kind)
  unfolding write_party
  parent_row-write company_id none parent h = cc
  parent_row-write company_id (some id) parent h =
      let (q, found, cases) =
        find-amend (is_party company_id id) (is_party p.company_id p.id) (λ _. p) rows
          (λ x e. ground arith) h in
      (
        q,
        found,
        elim cases [
          | inl same ↦ ap (λ x. x.kind) same
          | inr (old, new) ↦
              let this : r ≡ parent = cc in
              ap (λ x. x.kind) new ∙ (same_kind ∙ ap (λ x. x.kind) this)
        ],
      )

  IsPlaced-write :
      (company_id : ℕ) (kind : Level) (parent_id : Option ℕ)
      → IsPlaced company_id rows kind parent_id
      → IsPlaced company_id (write_party p rows) kind parent_id
  IsPlaced-write company_id kind parent_id (inl top) = inl top
  IsPlaced-write company_id kind parent_id (inr (parent, found, fits)) =
      let (q, now_found, same) = parent_row-write company_id parent_id parent found in
      inr (q, now_found, rw same fits)

  pub write_party-IsTree :
      IsTree rows → IsPlaced p.company_id rows p.kind p.parent_id → IsTree (write_party p rows)
  unfolding write_party
  write_party-IsTree tree placed q m =
      elim (amend-Member (is_party p.company_id p.id) (λ _. p) rows m) [
        | inl old ↦ IsPlaced-write q.company_id q.kind q.parent_id (tree q old)
        | inr (x, (found, new)) ↦ rw new (IsPlaced-write p.company_id p.kind p.parent_id placed)
      ]

pub IsPlaced-append :
    (company_id : ℕ) (rows others : List Party) (kind : Level) (parent_id : Option ℕ)
    → IsPlaced company_id rows kind parent_id
    → IsPlaced company_id (rows ++ others) kind parent_id
IsPlaced-append company_id rows others kind parent_id (inl top) = inl top
IsPlaced-append company_id rows others kind none (inr (parent, found, fits)) = cc
IsPlaced-append company_id rows others kind (some id) (inr (parent, found, fits)) =
    inr (parent, find-append (is_party company_id id) rows others found, fits)

pub append-IsTree :
    (p : Party) (rows : List Party)
    → IsTree rows
    → IsPlaced p.company_id rows p.kind p.parent_id
    → IsTree (rows ++ p ∷ [])
append-IsTree p rows tree placed q m = elim (Member-append rows (p ∷ []) q m) [
  | inl old ↦ IsPlaced-append q.company_id rows (p ∷ []) q.kind q.parent_id (tree q old)
  | inr (inl new) ↦ rw new (IsPlaced-append p.company_id rows (p ∷ []) p.kind p.parent_id placed)
  | inr (inr nowhere) ↦ absurd nowhere
]

-- A row with a new key is found after those before it.
pub find-new :
    (p : Party) (rows : List Party)
    → any (λ q. nat_eq q.id p.id) rows ≡ false
    → find_party p.company_id p.id (rows ++ p ∷ []) ≡ some p
find-new p [] h = let own : is_party p.company_id p.id p ≡ true = ground arith in rw own refl
find-new p (q ∷ rows) h =
    let other : is_party p.company_id p.id q ≡ false = ground arith in
    rw other (find-new p rows (ground arith))
