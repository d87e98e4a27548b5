-- ===== src/Permissions/Membership.antt =====
-- Which memberships count (`active_memberships` and `active_membership_in` of
-- apps/api/services/permissions.py, after `CompanyMembership.is_active`).
use film_bill.Base.{
  ◌≡◌, refl, sym, ◌⊎◌, inl, inr, ℕ, ◌<◌, Bool, true, not, ◌&&◌, Option, none, some, List, nat_eq,
  arith, if◌then◌else◌, is_some, select, find, Bool-cases, Member, select-Member, find-Member,
  find-only, ◌↔◌,
}
use mathlib.Core.Option.{some-injective}
use film_bill.Permissions.{CompanyMembership, is_active, not_expired}

-- The rows that the database gives: those of the user that are not revoked.
abbrev pub is_held : ℕ → CompanyMembership → Bool
is_held user_id row = nat_eq row.user_id user_id && not (is_some row.revoked_at)

unfoldable pub active_memberships : ℕ → ℕ → List CompanyMembership → List CompanyMembership
active_memberships now user_id rows = select (is_active now) (select (is_held user_id) rows)

abbrev pub if_active : ℕ → Option CompanyMembership → Option CompanyMembership
if_active now none = none
if_active now (some row) = if is_active now row then some row else none

abbrev pub is_held_in : ℕ → ℕ → CompanyMembership → Bool
is_held_in user_id company_id row = is_held user_id row && nat_eq row.company_id company_id

-- `.first()` of the rows, in the order in which the database gives them.
unfoldable pub active_membership_in : ℕ → ℕ → ℕ → List CompanyMembership → Option CompanyMembership
active_membership_in now user_id company_id rows =
    if_active now (find (is_held_in user_id company_id) rows)

-- A membership that gives its user access to its company at a moment.
pub record Grants (now user_id company_id : ℕ) (row : CompanyMembership) : Type 0 where
  pub user : row.user_id ≡ user_id
  pub company : row.company_id ≡ company_id
  pub not_revoked : row.revoked_at ≡ none
  pub not_expired :
      (row.expires_at ≡ none)
      ⊎ ((expires : ℕ) × ((row.expires_at ≡ some expires) × (now < expires)))

not_expired_sound :
    (now : ℕ) (o : Option ℕ)
    → not_expired now o ≡ true
    → (o ≡ none) ⊎ ((expires : ℕ) × ((o ≡ some expires) × (now < expires)))
not_expired_sound now none h = inl refl
not_expired_sound now (some expires) h = inr (expires, (refl, ground arith))

is_active_sound :
    (now : ℕ) (row : CompanyMembership)
    → is_active now row ≡ true
    → (row.revoked_at ≡ none)
      × ((row.expires_at ≡ none)
          ⊎ ((expires : ℕ) × ((row.expires_at ≡ some expires) × (now < expires))))
unfolding is_active
is_active_sound now row h = (ground arith, not_expired_sound now row.expires_at (ground arith))

if_active-some :
    (now : ℕ) (o : Option CompanyMembership) {row : CompanyMembership}
    → if_active now o ≡ some row
    → (o ≡ some row) × (is_active now row ≡ true)
if_active-some now none h = cc
if_active-some now (some r) h = elim (Bool-cases (is_active now r)) [
  | inl e ↦ let same : r ≡ _ = some-injective _ _ (rw e at h) in rw (sym same) (refl, e)
  | inr e ↦ let clash : none ≡ some _ = rw e at h in cc
]

-- Access that is found in a company is a row of the user in that company that is neither revoked nor
-- expired.
pub active_membership_in-Grants :
    (now user_id company_id : ℕ) (rows : List CompanyMembership) {row : CompanyMembership}
    → active_membership_in now user_id company_id rows ≡ some row
    → Member row rows × Grants now user_id company_id row
unfolding active_membership_in
active_membership_in-Grants now user_id company_id rows {row} h =
    let (first, active) = if_active-some now (find (is_held_in user_id company_id) rows) h in
    let (m, held) = find-Member (is_held_in user_id company_id) rows first in
    let (kept, unexpired) = is_active_sound now row active in
    (
      m,
      record {
        user = ground arith;
        company = ground arith;
        not_revoked = kept;
        not_expired = unexpired;
      },
    )

if_active-active :
    (now : ℕ) (row : CompanyMembership)
    → is_active now row ≡ true
    → if_active now (some row) ≡ some row
if_active-active now row h = rw h refl

-- The two queries agree: where a user has no more than one row of a company that is not revoked, access
-- that is found in the company is exactly a row of the company among the user's active memberships.
pub active_membership_in_iff :
    (now user_id company_id : ℕ) (rows : List CompanyMembership) (row : CompanyMembership)
    → ((a b : CompanyMembership)
        → Member a rows
        → Member b rows
        → is_held_in user_id company_id a ≡ true
        → is_held_in user_id company_id b ≡ true
        → a ≡ b)
    → (active_membership_in now user_id company_id rows ≡ some row)
      ↔ (Member row (active_memberships now user_id rows) × (row.company_id ≡ company_id))
unfolding active_membership_in active_memberships
active_membership_in_iff now user_id company_id rows row one = (
  λ h.
      let (first, active) = if_active-some now (find (is_held_in user_id company_id) rows) h in
      let (m, held) = find-Member (is_held_in user_id company_id) rows first in
      let listed = (select-Member (is_held user_id) rows).1 (m, ground arith) in
      ((select-Member (is_active now) _).1 (listed, active), ground arith),
  λ (m, here).
      let (listed, active) = (select-Member (is_active now) _).0 m in
      let (stored, held) = (select-Member (is_held user_id) rows).0 listed in
      let held_in : is_held_in user_id company_id row ≡ true = ground arith in
      let found =
        find-only (is_held_in user_id company_id) rows stored held_in
          (λ b n k. one b row n stored k held_in) in
      rw found (if_active-active now row active),
)
