-- ===== src/Companies/Members/Effect.antt =====
-- What a request to the member handlers of apps/api/routers/companies.py may do to the tables, as a
-- relation, and that the handlers do nothing else.
use film_bill.Base.{
  ◌≡◌, refl, sym, ap, ◌∙◌, ◌⊎◌, inl, inr, ℕ, ◌<◌, true, false, not, ◌&&◌, Option, none, some, List,
  [], ◌∷◌, ◌++◌, arith, is_some, or_else, find, Bool-cases, amend, find-Member,
}
use film_bill.Base.Text.{strip}
use film_bill.Http.{Answer, ok, not_found, guard_then, found_then, step_then, ok-injective}
use film_bill.Audit.Trail.{Client}
use film_bill.Permissions.{CompanyRole, owner, CompanyMembership, is_active, role_eq, role_eq_iff}
use film_bill.Permissions.Membership.{is_held_in}
use film_bill.Accounts.{User, has_id, get_user_by_email, end_sessions}
use film_bill.Companies.Access.{Membership, company_id_of, role_of}
use film_bill.Companies.Members.{
  MemberStore, MemberCreate, MemberUpdate, Fresh, is_row, updated, revoked, active_owner_count,
  granted, invited, grant_membership_and_bump, update_membership_and_bump,
  revoke_membership_and_bump, add_found, add_member, refuse_last_owner, role_guard, update_member,
  revoke_found, revoke_member, is_active_row,
}

-- The change of a role: nothing is asked of one that stays, only an owner makes an owner, and where the
-- row is that of an active owner, another active owner is left.
pub record MayChange (now : ℕ) (caller : Membership) (row : CompanyMembership) (role : CompanyRole)
    (rows : List CompanyMembership) : Type 0 where
  pub promoted_by_owner : role ≡ owner → (row.role ≡ owner) ⊎ (role_of caller ≡ owner)
  pub other_owner :
      row.role ≡ owner
      → is_active now row ≡ true
      → (role ≡ owner) ⊎ (1 < active_owner_count now (company_id_of caller) rows)

pub record MayRevoke (now : ℕ) (caller : Membership) (row : CompanyMembership)
    (rows : List CompanyMembership) : Type 0 where
  pub other_owner :
      row.role ≡ owner
      → is_active now row ≡ true
      → 1 < active_owner_count now (company_id_of caller) rows

-- One request of the caller at a moment, by what it changes.
pub data Effect (now : ℕ) (caller : Membership) (expiry : Option (Option ℕ))
    (store store' : MemberStore) : Type 0 where
  grants :
      (row : CompanyMembership) (users : List User)
      → row.company_id ≡ company_id_of caller
      → (row.role ≡ owner → role_of caller ≡ owner)
      → ((users ≡ store.users)
          ⊎ ((user : User) × ((users ≡ store.users ++ user ∷ []) × (user.id ≡ row.user_id))))
      → store'.memberships ≡ store.memberships ++ row ∷ []
      → store'.users ≡ end_sessions row.user_id users
      → Effect now caller expiry store store'
  updates :
      (id : ℕ) (role : Option CompanyRole) (row : CompanyMembership)
      → find (is_row (company_id_of caller) id) store.memberships ≡ some row
      → MayChange now caller row (or_else role row.role) store.memberships
      → store'.memberships
        ≡ amend (is_row (company_id_of caller) id) (updated role expiry) store.memberships
      → store'.users ≡ end_sessions row.user_id store.users
      → Effect now caller expiry store store'
  revokes :
      (id : ℕ) (row : CompanyMembership)
      → find (is_row (company_id_of caller) id) store.memberships ≡ some row
      → MayRevoke now caller row store.memberships
      → store'.memberships
        ≡ amend (is_row (company_id_of caller) id) (revoked now) store.memberships
      → store'.users ≡ end_sessions row.user_id store.users
      → Effect now caller expiry store store'
  stays : store' ≡ store → Effect now caller expiry store store'

module _ (now : ℕ) (caller : Membership) (client : Client) where
  by_owner :
      (role : CompanyRole)
      → (role_eq role owner && not (role_eq (role_of caller) owner)) ≡ false
      → role ≡ owner
      → role_of caller ≡ owner
  by_owner role h e = ground (arith, role_eq_iff role owner, role_eq_iff (role_of caller) owner)

  granted-Effect :
      (body : MemberCreate) (fresh : Fresh) (user_id : ℕ) (store : MemberStore)
      → (body.role ≡ owner → role_of caller ≡ owner)
      → Effect now caller none store (granted now caller client body fresh user_id store)
  unfolding granted grant_membership_and_bump
  granted-Effect body fresh user_id store h =
      Effect.grants _ store.users refl h (inl refl) refl refl

  invited-Effect :
      (body : MemberCreate) (fresh : Fresh) (store : MemberStore)
      → (body.role ≡ owner → role_of caller ≡ owner)
      → Effect now caller none store (invited now caller client body fresh store)
  unfolding invited granted grant_membership_and_bump
  invited-Effect body fresh store h = Effect.grants _ _ refl h (inr (_, (refl, refl))) refl refl

  add_found-Effect :
      (body : MemberCreate) (fresh : Fresh) (o : Option User) (store : MemberStore)
      {store' : MemberStore}
      → (body.role ≡ owner → role_of caller ≡ owner)
      → add_found now caller client body fresh o store ≡ ok store'
      → Effect now caller none store store'
  add_found-Effect body fresh none store h e =
      rw (← ok-injective e) (invited-Effect body fresh store h)
  add_found-Effect body fresh (some user) store h e =
      let (free, made) =
        guard_then
          (is_active_row now (find (is_held_in user.id (company_id_of caller)) store.memberships)) _
          e in
      rw (← ok-injective made) (granted-Effect body fresh user.id store h)

  pub add_member-Effect :
      (body : MemberCreate) (fresh : Fresh) (store : MemberStore) {store' : MemberStore}
      → add_member now caller client body fresh store ≡ ok store'
      → Effect now caller none store store'
  unfolding add_member
  add_member-Effect body fresh store e =
      let (allowed, rest) =
        guard_then (role_eq body.role owner && not (role_eq (role_of caller) owner)) _ e in
      add_found-Effect body fresh (get_user_by_email (strip body.email) store.users) store
        (by_owner body.role allowed) rest

  -- What `_refuse_last_owner` lets through.
  refuse_last_owner-MayRevoke :
      (row : CompanyMembership) (rows : List CompanyMembership) {u : Unit {0}}
      → refuse_last_owner now caller client row rows ≡ ok u
      → MayRevoke now caller row rows
  unfolding refuse_last_owner
  refuse_last_owner-MayRevoke row rows h = record {
    other_owner = λ e a. ground (arith, role_eq_iff row.role owner);
  }

  role_guard-MayChange :
      (o : Option CompanyRole) (row : CompanyMembership) (rows : List CompanyMembership)
      {u : Unit {0}}
      → role_guard now caller client o row rows ≡ ok u
      → MayChange now caller row (or_else o row.role) rows
  role_guard-MayChange none row rows h = record {
    promoted_by_owner = λ e. inl e;
    other_owner = λ e a. inl e;
  }
  role_guard-MayChange (some role) row rows h = elim (Bool-cases (role_eq role row.role)) [
    | inl same ↦
        let e : role ≡ row.role = (role_eq_iff role row.role).0 same in
        record { promoted_by_owner = λ o. inl (sym e ∙ o); other_owner = λ o a. inl (e ∙ o) }
    | inr changed ↦
        let (promoted, rest) =
          guard_then (role_eq role owner && not (role_eq (role_of caller) owner)) _
            (rw changed at h) in
        let kept = refuse_last_owner-MayRevoke row rows rest in
        record {
          promoted_by_owner = λ e. inr (by_owner role promoted e);
          other_owner = λ e a. inr (kept.other_owner e a);
        }
  ]

  same_user :
      (id : ℕ) (users : List User) {user : User} → find (has_id id) users ≡ some user → user.id ≡ id
  same_user id users h = let (m, held) = find-Member (has_id id) users h in ground arith

  pub update_member-Effect :
      (id : ℕ) (body : MemberUpdate) (store : MemberStore) {store' : MemberStore}
      → update_member now caller client id body store ≡ ok store'
      → Effect now caller body.expires_at store store'
  unfolding update_member update_membership_and_bump
  update_member-Effect id body store e =
      let (row, found, e1) =
        found_then (find (is_row (company_id_of caller) id) store.memberships) _ e in
      let (user, target, e2) = found_then (find (has_id row.user_id) store.users) _ e1 in
      let (u, guarded, made) =
        step_then (role_guard now caller client body.role row store.memberships) _ e2 in
      let same = same_user row.user_id store.users target in
      rw (← ok-injective made) (
        Effect.updates id body.role row found
          (role_guard-MayChange body.role row store.memberships guarded) refl
          (ap (λ i. end_sessions i store.users) same))

  revoke_found-Effect :
      (id : ℕ) (row : CompanyMembership) (store : MemberStore) {store' : MemberStore}
      → find (is_row (company_id_of caller) id) store.memberships ≡ some row
      → revoke_found now caller client id row store ≡ ok store'
      → Effect now caller none store store'
  unfolding revoke_found revoke_membership_and_bump
  revoke_found-Effect id row store found e =
      let (u, kept, e1) =
        step_then (refuse_last_owner now caller client row store.memberships) _ e in
      let (user, target, made) = found_then (find (has_id row.user_id) store.users) _ e1 in
      let same = same_user row.user_id store.users target in
      rw (← ok-injective made) (
        Effect.revokes id row found (refuse_last_owner-MayRevoke row store.memberships kept) refl
          (ap (λ i. end_sessions i store.users) same))

  pub revoke_member-Effect :
      (id : ℕ) (store : MemberStore) {store' : MemberStore}
      → revoke_member now caller client id store ≡ ok store'
      → Effect now caller none store store'
  unfolding revoke_member
  revoke_member-Effect id store e =
      let (row, found, e1) =
        found_then (find (is_row (company_id_of caller) id) store.memberships) _ e in
      elim (Bool-cases (is_some row.revoked_at)) [
        | inl gone ↦
            let (user, target, made) =
              found_then (find (has_id row.user_id) store.users) not_found (rw gone at e1) in
            Effect.stays (sym (ok-injective made))
        | inr held ↦ revoke_found-Effect id row store found (rw held at e1)
      ]

pub data MemberRequest : Type 0 where
  adds : MemberCreate → Fresh → MemberRequest
  updates : ℕ → MemberUpdate → MemberRequest
  revokes : ℕ → MemberRequest

unfoldable pub respond : ℕ → Membership → Client → MemberRequest → MemberStore → Answer MemberStore
respond now caller client (adds body fresh) store = add_member now caller client body fresh store
respond now caller client (updates id body) store = update_member now caller client id body store
respond now caller client (revokes id) store = revoke_member now caller client id store

-- The expiry that a request sets on a membership that is there already.
abbrev pub expiry_of : MemberRequest → Option (Option ℕ)
expiry_of (updates id body) = body.expires_at
expiry_of _ = none

pub respond-Effect :
    (now : ℕ) (caller : Membership) (client : Client) (request : MemberRequest)
    (store : MemberStore) {store' : MemberStore}
    → respond now caller client request store ≡ ok store'
    → Effect now caller (expiry_of request) store store'
unfolding respond
respond-Effect now caller client (adds body fresh) store e =
    add_member-Effect now caller client body fresh store e
respond-Effect now caller client (updates id body) store e =
    update_member-Effect now caller client id body store e
respond-Effect now caller client (revokes id) store e =
    revoke_member-Effect now caller client id store e
