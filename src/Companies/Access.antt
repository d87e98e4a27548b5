-- ===== src/Companies/Access.antt =====
-- The company that a request acts in, and whether it may (apps/api/middleware/company.py).
use film_bill.Base.{
  ◌≡◌, refl, ◌⊎◌, inl, inr, ℕ, Bool, true, false, not, Option, none, some, List, [], nat_eq, arith,
  is_some, or_else, find, Option-cases, Bool-cases, Member, find-Member,
}
use film_bill.Base.Text.{Text, lit, strip, is_empty}
use film_bill.Base.Uuid.{uuid_of}
use film_bill.Http.{
  HttpError, Answer, ok, raised, ◌>>=◌, ◌>>◌, raise_if, or_raise, bad_request, not_found, step_then,
  guard_then, found_then, ok-injective,
}
use film_bill.Permissions.{Company, CompanyRole, CompanyMembership, has_permission}
use film_bill.Permissions.Membership.{active_membership_in, Grants, active_membership_in-Grants}

-- A row of the companies.
pub record CompanyRow : Type 0 where
  pub company : Company
  pub archived_at : Option ℕ

pub record Membership : Type 0 where
  pub user_id : ℕ
  pub company : Company
  pub row : CompanyMembership

abbrev pub company_id_of : Membership → ℕ
company_id_of membership = membership.company.id

abbrev pub role_of : Membership → CompanyRole
role_of membership = membership.row.role

unfoldable pub can : Membership → Text → Bool
can membership permission = has_permission permission (role_of membership) (some membership.company)

unfoldable pub header_required : HttpError
header_required = bad_request (lit "X-Company-Id header is required")

unfoldable pub header_invalid : HttpError
header_invalid = bad_request (lit "X-Company-Id is not a valid id")

abbrev is_company : ℕ → CompanyRow → Bool
is_company id c = nat_eq c.company.id id

module _ (now : ℕ) (companies : List CompanyRow) (rows : List CompanyMembership) where
  -- `header` is what the request sends, `user_id` the user whose session it is.
  unfoldable pub current_membership : Option Text → ℕ → Answer Membership
  current_membership header user_id = do
    raise_if (is_empty (strip (or_else header []))) header_required
    company_id ← or_raise (uuid_of (strip (or_else header []))) header_invalid
    row ← or_raise (active_membership_in now user_id company_id rows) not_found
    stored ← or_raise (find (is_company company_id) companies) not_found
    raise_if (is_some stored.archived_at) not_found
    ok (record { user_id = user_id; company = stored.company; row = row })

  unfoldable pub require : Text → Option Text → ℕ → Answer Membership
  require permission header user_id = do
    membership ← current_membership header user_id
    raise_if (not (can membership permission)) not_found
    ok membership

  -- What a handler may rely on: the membership is the user's own, active now, in a company that is
  -- stored and not archived, and holds the permission.
  pub record IsEntitled (permission : Text) (user_id : ℕ) (membership : Membership) : Type 0 where
    pub caller : membership.user_id ≡ user_id
    pub held : Member membership.row rows
    pub grants : Grants now user_id membership.company.id membership.row
    pub stored : CompanyRow
    pub known : Member stored companies
    pub same : stored.company ≡ membership.company
    pub open_ : stored.archived_at ≡ none
    pub holds : can membership permission ≡ true

  never : (o : Option ℕ) → is_some o ≡ false → o ≡ none
  never none h = refl
  never (some t) h = cc

  -- A request that passes `require` is from a member: their membership is a row of the user in that
  -- company, neither revoked nor expired, the company is stored and not archived, and the role holds
  -- the permission.
  pub require-IsEntitled :
      (permission : Text) (header : Option Text) (user_id : ℕ) {membership : Membership}
      → require permission header user_id ≡ ok membership
      → IsEntitled permission user_id membership
  unfolding require current_membership
  require-IsEntitled permission header user_id {membership} h =
      let (found, resolved, h1) = step_then (current_membership header user_id) _ h in
      let (allowed, last) = guard_then (not (can found permission)) _ h1 in
      let (sent, h2) = guard_then (is_empty (strip (or_else header []))) _ resolved in
      let (company_id, parsed, h3) = found_then (uuid_of (strip (or_else header []))) _ h2 in
      let (row, active, h4) = found_then (active_membership_in now user_id company_id rows) _ h3 in
      let (stored, kept, h5) = found_then (find (is_company company_id) companies) _ h4 in
      let (unarchived, made) = guard_then (is_some stored.archived_at) _ h5 in
      let same : found ≡ membership = ok-injective last in
      let built : record { user_id = user_id; company = stored.company; row = row } ≡ found =
        ok-injective made in
      let (held, grants) = active_membership_in-Grants now user_id company_id rows active in
      let (known, at) = find-Member (is_company company_id) companies kept in
      let here : stored.company.id ≡ company_id = ground arith in
      rw (← same, ← built)
        (record {
          caller = refl;
          held = held;
          grants = rw here grants;
          stored = stored;
          known = known;
          same = refl;
          open_ = never stored.archived_at unarchived;
          holds = rw built (ground arith);
        })

  -- With a company's id in the header, every refusal is the same answer: nothing tells a company that
  -- does not exist from one that is archived, from a membership that is missing, revoked or expired,
  -- or from a role that does not hold the permission.
  pub require_uniform :
      (permission : Text) (header : Option Text) (user_id : ℕ) (company_id : ℕ)
      → is_empty (strip (or_else header [])) ≡ false
      → uuid_of (strip (or_else header [])) ≡ some company_id
      → ((m : Membership) × (require permission header user_id ≡ ok m))
        ⊎ (require permission header user_id ≡ raised not_found)
  unfolding require current_membership
  require_uniform permission header user_id company_id sent parsed =
      elim (Option-cases (active_membership_in now user_id company_id rows)) [
        | inl e ↦ inr (simp (sent, parsed, e))
        | inr (row, e) ↦ elim (Option-cases (find (is_company company_id) companies)) [
          | inl f ↦ inr (simp (sent, parsed, e, f))
          | inr (stored, f) ↦ elim (Bool-cases (is_some stored.archived_at)) [
            | inl g ↦ inr (simp (sent, parsed, e, f, g))
            | inr g ↦
                let m : Membership = record {
                  user_id = user_id;
                  company = stored.company;
                  row = row;
                } in
                elim (Bool-cases (can m permission)) [
                  | inl allowed ↦ inl (m, simp (sent, parsed, e, f, g, allowed))
                  | inr denied ↦ inr (simp (sent, parsed, e, f, g, denied))
                ]
          ]
        ]
      ]
