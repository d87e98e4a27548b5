-- ===== src/Companies/Members/Promotion.antt =====
-- Only an owner makes an owner (the member handlers of apps/api/routers/companies.py).
use film_bill.Base.{
  ◌≡◌, ◌≢◌, refl, sym, ap, ◌∙◌, inl, inr, ℕ, Bool, Option, some, List, [], ◌∷◌, find, amend,
  find-Member, Member, amend-Member, Member-append,
}
use mathlib.Core.Option.{some-injective}
use film_bill.Http.{ok}
use film_bill.Audit.Trail.{Client}
use film_bill.Permissions.{CompanyRole, owner, CompanyMembership}
use film_bill.Companies.Access.{Membership, role_of}
use film_bill.Companies.Members.{MemberStore, updated, revoked}
use film_bill.Companies.Members.Effect.{Effect, MemberRequest, respond, expiry_of, respond-Effect}

-- The row of an owner, by its id, its user and its company.
pub record WasOwner (rows : List CompanyMembership) (row : CompanyMembership) : Type 0 where
  pub old : CompanyMembership
  pub member : Member old rows
  pub id : old.id ≡ row.id
  pub user : old.user_id ≡ row.user_id
  pub company : old.company_id ≡ row.company_id
  pub role : old.role ≡ owner

amend-WasOwner :
    (q : CompanyMembership → Bool) (f : CompanyMembership → CompanyMembership)
    (rows : List CompanyMembership) (found row : CompanyMembership)
    → find q rows ≡ some found
    → ((f found).role ≡ owner → found.role ≡ owner)
    → ((r : CompanyMembership)
        → ((f r).id ≡ r.id) × ((f r).user_id ≡ r.user_id) × ((f r).company_id ≡ r.company_id))
    → Member row (amend q f rows)
    → row.role ≡ owner
    → WasOwner rows row
amend-WasOwner q f rows found row h kept same m o = elim (amend-Member q f rows m) [
  | inl old ↦ record { old = row; member = old; id = refl; user = refl; company = refl; role = o }
  | inr (r, (g, new)) ↦
      let first : r ≡ found = some-injective _ _ (sym g ∙ h) in
      let (ids, users, companies) = same r in
      let (m', held) = find-Member q rows g in
      record {
        old = r;
        member = m';
        id = sym ids ∙ ap (λ (c : CompanyMembership). c.id) (sym new);
        user = sym users ∙ ap (λ (c : CompanyMembership). c.user_id) (sym new);
        company = sym companies ∙ ap (λ (c : CompanyMembership). c.company_id) (sym new);
        role = rw first (kept (rw (← first, ← new) o));
      }
]

not_owner : {A : Type 0} (role : CompanyRole) → role ≢ owner → (role ≡ owner) → A
not_owner role h e = absurd (h e)

Effect-WasOwner :
    (now : ℕ) (caller : Membership) (expiry : Option (Option ℕ)) (store store' : MemberStore)
    (row : CompanyMembership)
    → role_of caller ≢ owner
    → Effect now caller expiry store store'
    → Member row store'.memberships
    → row.role ≡ owner
    → WasOwner store.memberships row
unfolding updated revoked
Effect-WasOwner now caller expiry store store' row h (Effect.grants new users c promoted u e e') m
      o =
    elim (Member-append store.memberships (new ∷ []) row (rw e at m)) [
      | inl old ↦ record {
        old = row;
        member = old;
        id = refl;
        user = refl;
        company = refl;
        role = o;
      }
      | inr (inl same) ↦ absurd (h (promoted (rw (← same) o)))
      | inr (inr none_left) ↦ absurd none_left
    ]
Effect-WasOwner now caller expiry store store' row h (Effect.updates id role found at may e e') m
      o =
    amend-WasOwner _ (updated role expiry) store.memberships found row at
      (λ p. elim (may.promoted_by_owner p) [ inl was ↦ was | inr is_owner ↦ absurd (h is_owner) ])
      (λ r. (refl, refl, refl)) (rw e at m) o
Effect-WasOwner now caller expiry store store' row h (Effect.revokes id found at may e e') m o =
    amend-WasOwner _ (revoked now) store.memberships found row at (λ p. p) (λ r. (refl, refl, refl))
      (rw e at m) o
Effect-WasOwner now caller expiry store store' row h (Effect.stays e) m o = record {
  old = row;
  member = rw e at m;
  id = refl;
  user = refl;
  company = refl;
  role = o;
}

-- A caller who is no owner makes no owner: every row of an owner after the request, in any company, was
-- one before it, of the same user.
pub respond-WasOwner :
    (now : ℕ) (caller : Membership) (client : Client) (request : MemberRequest)
    (store : MemberStore) {store' : MemberStore} (row : CompanyMembership)
    → role_of caller ≢ owner
    → respond now caller client request store ≡ ok store'
    → Member row store'.memberships
    → row.role ≡ owner
    → WasOwner store.memberships row
respond-WasOwner now caller client request store {store'} row h e m o =
    Effect-WasOwner now caller (expiry_of request) store store' row h
      (respond-Effect now caller client request store e) m o
