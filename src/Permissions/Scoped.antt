-- ===== src/Permissions/Scoped.antt =====
-- `scoped` of apps/api/services/permissions.py: a query is constrained to one company. A row of a
-- query has, for each entity by its name, the company that it belongs to.
use film_bill.Base.{
  ◌≡◌, ◌≢◌, inl, inr, ℕ, Bool, true, false, Option, none, some, List, [], ◌∷◌, nat_eq, arith,
  if◌then◌else◌, Bool-cases, all, lookup, text_has_equality,
}
use film_bill.Base.Text.{Text}

pub record Entity : Type 0 where
  pub name : Text
  pub is_company_scoped : Bool

-- The name of an entity and the company that its rows must belong to.
abbrev pub Filter : Type 0
Filter = Text × ℕ

-- The entities that a query selects, and the filters put on it.
pub record Query : Type 0 where
  pub entities : List Entity
  pub filters : List Filter

-- ScopeError
pub data ScopeError : Type 0 where
  no_entity : ScopeError
  not_company_scoped : Text → ScopeError

pub data Scoped : Type 0 where
  ok : Query → Scoped
  refused : ScopeError → Scoped

unfoldable pub filter_all : List Entity → ℕ → Query → Scoped
filter_all [] company_id query = ok query
filter_all (entity ∷ entities) company_id query =
    let rest =
      filter_all entities company_id
        (record query { filters = (entity.name, company_id) ∷ query.filters }) in
    if entity.is_company_scoped then rest else refused (not_company_scoped entity.name)

abbrev pub scope : List Entity → ℕ → Query → Scoped
scope [] company_id query = refused no_entity
scope (entity ∷ entities) company_id query = filter_all (entity ∷ entities) company_id query

unfoldable pub scoped : Query → ℕ → Scoped
scoped query company_id = scope query.entities company_id query

-- What the database returns.
abbrev pub Row : Type 0
Row = List (Text × ℕ)

abbrev pub is_company : Option ℕ → ℕ → Bool
is_company none company_id = false
is_company (some c) company_id = nat_eq c company_id

abbrev pub belongs : Row → Filter → Bool
belongs row (name, company_id) = is_company (lookup name row) company_id

abbrev pub passes : Query → Row → Bool
passes query row = all (belongs row) query.filters

-- The row is of one company, in every entity.
abbrev pub IsOf : ℕ → List Entity → Row → Type 0
IsOf company_id [] row = Unit {0}
IsOf company_id (entity ∷ entities) row =
    ((entity.is_company_scoped ≡ true) × (lookup entity.name row ≡ some company_id))
    × IsOf company_id entities row

ok_inj : {q r : Query} → ok q ≡ ok r → q ≡ r
ok_inj h = cc

is_company_sound : (o : Option ℕ) (c : ℕ) → is_company o c ≡ true → o ≡ some c
is_company_sound none c h = cc
is_company_sound (some d) c h = ground arith

filter_all-passes :
    (entities : List Entity) (company_id : ℕ) (query : Query) (row : Row) {result : Query}
    → filter_all entities company_id query ≡ ok result
    → passes result row ≡ true
    → IsOf company_id entities row × (passes query row ≡ true)
unfolding filter_all
filter_all-passes [] company_id query row h k = (tt, rw (ok_inj h) k)
filter_all-passes (entity ∷ entities) company_id query row h k =
    elim (Bool-cases entity.is_company_scoped) [
      | inl e ↦
          let filtered = record query { filters = (entity.name, company_id) ∷ query.filters } in
          let (others, passed) = filter_all-passes entities company_id filtered row (rw e at h) k in
          (
            ((e, is_company_sound (lookup entity.name row) company_id (ground arith)), others),
            ground arith,
          )
      | inr e ↦ absurd (refused_ok (rw e at h))
    ]
  where
    refused_ok : {r : Query} → refused (not_company_scoped entity.name) ≡ ok r → ⊥
    refused_ok x = cc

scope-IsOf :
    (entities : List Entity) (company_id : ℕ) (query : Query) (row : Row) {result : Query}
    → scope entities company_id query ≡ ok result
    → passes result row ≡ true
    → (entities ≢ []) × IsOf company_id entities row
scope-IsOf [] company_id query row h k = absurd (refused_ok h)
  where
    refused_ok : {r : Query} → refused no_entity ≡ ok r → ⊥
    refused_ok x = cc
scope-IsOf (entity ∷ entities) company_id query row h k =
    ((λ e. cc), (filter_all-passes (entity ∷ entities) company_id query row h k).0)

-- What a scoped query selects is not nothing, each of its entities belongs to companies, and a row
-- that it returns is of the one company in each of them.
pub scoped-IsOf :
    (query : Query) (company_id : ℕ) (row : Row) {result : Query}
    → scoped query company_id ≡ ok result
    → passes result row ≡ true
    → (query.entities ≢ []) × IsOf company_id query.entities row
unfolding scoped
scoped-IsOf query company_id row h k = scope-IsOf query.entities company_id query row h k
