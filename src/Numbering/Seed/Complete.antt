-- ===== src/Numbering/Seed/Complete.antt =====
-- Seeding gives a company every series it lacks, keeps those it has, and does nothing twice.
use film_bill.Base.{
  ℕ, ◌+◌, ◌≡◌, refl, sym, ◌∙◌, ap, Bool, true, false, not, inl, inr, List, [], ◌∷◌, ◌++◌, arith,
  map, select, contains, text_has_equality, All, All-append, is_some, find, text_eq, text_eq_iff,
  text_eq_refl, Bool-cases,
}
use film_bill.Base.Text.{Text, lit}
use film_bill.Numbering.Store.{Series, Store, serves, active_series}
use film_bill.Numbering.Seed.{
  SeriesData, yearly_row, party_row, rows_from, seed_rows, existing_types, missing_rows,
  seed_number_series, default_series, party_series,
}

-- Having an active series of a type, in the two forms in which the code asks for it.
pub contains-existing_types :
    (company : ℕ) (t : Text) (rows : List Series)
    → contains (existing_types company rows) t ≡ is_some (find (serves company t) rows)
unfolding existing_types serves
contains-existing_types company t [] = refl
contains-existing_types company t (s ∷ rows) = ground (
  arith,
  contains-existing_types company t rows,
  text_eq_iff t s.document_type,
  text_eq_iff s.document_type t,
)

abbrev type_of : Series → Text
type_of s = s.document_type

abbrev IsActiveIn : ℕ → Series → Type 0
IsActiveIn company s = (s.company_id ≡ company) × (s.is_active ≡ true)

rows_from-IsActiveIn :
    (company : ℕ) (row : ℕ → SeriesData → Series)
    → ((id : ℕ) (d : SeriesData) → IsActiveIn company (row id d))
    → (first : ℕ) (ds : List SeriesData) → All (IsActiveIn company) (rows_from row first ds)
unfolding rows_from
rows_from-IsActiveIn company row h first [] = tt
rows_from-IsActiveIn company row h first (d ∷ ds) =
    (h first d, rows_from-IsActiveIn company row h (first + 1) ds)

module _ (company : ℕ) (known : List Text) where
  abbrev lacks : Series → Bool
  lacks s = not (contains known s.document_type)

  not-serves :
      (t : Text) (s : Series)
      → contains known t ≡ true
      → contains known s.document_type ≡ false
      → serves company t s ≡ false
  unfolding serves
  not-serves t s h new = elim (Bool-cases (text_eq s.document_type t)) [
    | inl same ↦ cc (ap (contains known) ((text_eq_iff s.document_type t).0 same))
    | inr other ↦ ground arith
  ]

  -- A type that is known is none of those created.
  find-select :
      (t : Text) (rows base : List Series)
      → contains known t ≡ true
      → find (serves company t) (select lacks rows ++ base) ≡ find (serves company t) base
  unfolding serves
  find-select t [] base h = refl
  find-select t (s ∷ rows) base h = elim (Bool-cases (contains known s.document_type)) [
    | inl old ↦ rw old (find-select t rows base h)
    | inr new ↦ rw new (rw (not-serves t s h new) (find-select t rows base h))
  ]

  -- Of a type that is not known, the first created row is found.
  find-created :
      (t : Text) (rows base : List Series)
      → All (IsActiveIn company) rows
      → contains known t ≡ false
      → contains (map type_of rows) t ≡ true
      → is_some (find (serves company t) (select lacks rows ++ base)) ≡ true
  unfolding serves
  find-created t [] base h new e = cc
  find-created t (s ∷ rows) base (here, h) new e = elim (Bool-cases (text_eq s.document_type t)) [
    | inl same ↦
        rw (rw (← (text_eq_iff s.document_type t).0 same) at new) (rw (same) (ground (arith)))
    | inr other ↦ ground (
      arith,
      find-created t rows base h new,
      text_eq_iff t s.document_type,
      text_eq_iff s.document_type t,
    )
  ]

seed_rows-IsActiveIn : (company first : ℕ) → All (IsActiveIn company) (seed_rows company first)
unfolding seed_rows
seed_rows-IsActiveIn company first =
    All-append (IsActiveIn company) (rows_from (yearly_row company) first default_series)
      (rows_from (party_row company) (first + 8) party_series)
      (rows_from-IsActiveIn company (yearly_row company) (λ id d. unfold yearly_row in (refl, refl))
        first default_series)
      (rows_from-IsActiveIn company (party_row company) (λ id d. unfold party_row in (refl, refl))
        (first + 8) party_series)

-- The document types that every company has a series for.
abbrev pub seeded_types : List Text
seeded_types =
    lit "quote"
    ∷ lit "order_confirmation"
    ∷ lit "delivery_note"
    ∷ lit "invoice"
    ∷ lit "credit_note"
    ∷ lit "self_billing"
    ∷ lit "dunning"
    ∷ lit "letter"
    ∷ lit "customer"
    ∷ lit "supplier"
    ∷ []

module _ (company first : ℕ) (db : Store) where
  -- A type that has an active series keeps it.
  pub seed_number_series_keeps :
      (t : Text)
      → is_some (active_series db company t) ≡ true
      → active_series (seed_number_series company first db).0 company t ≡ active_series db company t
  unfolding seed_number_series active_series
  seed_number_series_keeps t h =
      find-select company (existing_types company db.series) t (seed_rows company first) db.series
        (contains-existing_types company t db.series ∙ h)

  -- After seeding, each of the ten document types has an active series in the company.
  pub seed_number_series_complete :
      (t : Text)
      → contains seeded_types t ≡ true
      → is_some (active_series (seed_number_series company first db).0 company t) ≡ true
  unfolding seed_number_series active_series
  seed_number_series_complete t h =
      let known = existing_types company db.series in
      elim (Bool-cases (contains known t)) [
        | inl old ↦
            rw (find-select company known t (seed_rows company first) db.series old)
              (sym (contains-existing_types company t db.series) ∙ old)
        | inr new ↦
            find-created company known t (seed_rows company first) db.series
              (seed_rows-IsActiveIn company first) new h
      ]

select-none :
    (company : ℕ) (known : List Text) (rows : List Series)
    → All (λ t. contains known t ≡ true) (map type_of rows)
    → select (lacks company known) rows ≡ []
select-none company known [] h = refl
select-none company known (s ∷ rows) (h, hs) = rw h (select-none company known rows hs)

All-contained :
    (P : Text → Type 0) (ts : List Text) → ((t : Text) → contains ts t ≡ true → P t) → All P ts
All-contained P [] h = tt
All-contained P (t ∷ ts) h =
    (h t (rw (text_eq_refl t)), All-contained P ts λ u e. h u (ground arith))

nothing_missing :
    (company first again : ℕ) (db : Store)
    → missing_rows company again (seed_number_series company first db).0 ≡ []
unfolding missing_rows
nothing_missing company first again db =
    let known = existing_types company (seed_number_series company first db).0.series in
    select-none company known (seed_rows company again) (
      (All-contained (λ t. contains known t ≡ true) seeded_types
        λ t e.
          contains-existing_types company t (seed_number_series company first db).0.series
          ∙ (unfold active_series in seed_number_series_complete company first db t e)))

-- A second seeding of the company creates nothing and leaves the store as it is.
pub seed_number_series_twice :
    (company first again : ℕ) (db : Store)
    → let after = (seed_number_series company first db).0 in
      seed_number_series company again after ≡ (after, [])
unfolding seed_number_series
seed_number_series_twice company first again db = rw (nothing_missing company first again db)
