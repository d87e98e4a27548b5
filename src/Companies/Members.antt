-- ===== src/Companies/Members.antt =====
-- The members of a company (`*_and_bump` and `active_owner_count` of
-- apps/api/services/company_service.py, the member handlers of apps/api/routers/companies.py). A
-- membership's `granted_by` and `granted_at`, which only listings show, are left out. What the database
-- and the token generator choose is an argument.
pub mod Effect
pub mod Owners
pub mod Promotion
pub mod Elsewhere
pub mod Sessions
use film_bill.Base.{
  ◌≡◌, refl, ℕ, ◌+◌, Bool, true, false, not, ◌&&◌, ◌||◌, Option, none, some, List, [], ◌∷◌, ◌++◌,
  ltb, nat_eq, if◌then◌else◌, is_some, find, select, count, amend, or_else,
}
use film_bill.Base.Int.{pos}
use film_bill.Base.Text.{Text, lit, strip}
use film_bill.Http.{
  HttpError, Answer, ok, raised, crashed, ◌>>=◌, ◌>>◌, raise_if, or_raise, bad_request, not_found,
}
use film_bill.Tax.Json.{Json, null, number, text}
use film_bill.Audit.Trail.{
  Client, Values, AuditedEntity, AuditEvent, actor_from, snapshot, record_event,
}
use film_bill.Permissions.{
  CompanyRole, owner, admin, accountant, producer, staff, tax_advisor, CompanyMembership, is_active,
  role_eq,
}
use film_bill.Permissions.Membership.{is_held_in}
use film_bill.Accounts.{
  User, has_id, get_user_by_email, create_invited_user, end_sessions, bump_token_version,
}
use film_bill.Companies.Access.{Membership, company_id_of, role_of}

-- The tables, the trail, and the accounts to which an invitation is mailed.
pub record MemberStore : Type 0 where
  pub users : List User
  pub memberships : List CompanyMembership
  pub trail : List AuditEvent
  pub invitations : List ℕ

pub record MemberCreate : Type 0 where
  pub email : Text
  pub role : CompanyRole
  pub name : Option Text
  pub expires_at : Option ℕ

-- An expiry that the request does not have is `none`, one that is null `some none`.
pub record MemberUpdate : Type 0 where
  pub role : Option CompanyRole
  pub expires_at : Option (Option ℕ)

pub record Fresh : Type 0 where
  pub user_id : ℕ
  pub invite_token : Text
  pub membership_id : ℕ

abbrev pub role_value : CompanyRole → Text
unfolding lit
role_value owner = lit "owner"
role_value admin = lit "admin"
role_value accountant = lit "accountant"
role_value producer = lit "producer"
role_value staff = lit "staff"
role_value tax_advisor = lit "tax_advisor"

abbrev pub nullable : Option ℕ → Json
nullable none = null
nullable (some n) = number (pos n)

unfoldable pub membership_values : CompanyMembership → Values
membership_values row =
    (lit "user_id", number (pos row.user_id))
    ∷ (lit "role", text (role_value row.role))
    ∷ (lit "expires_at", nullable row.expires_at)
    ∷ (lit "revoked_at", nullable row.revoked_at)
    ∷ []

unfoldable pub membership_audited : List Text
membership_audited = lit "user_id" ∷ lit "role" ∷ lit "expires_at" ∷ lit "revoked_at" ∷ []

unfoldable pub audited_member :
    Membership
    → Client
    → Text
    → Option CompanyMembership
    → CompanyMembership
    → List AuditEvent
    → List AuditEvent
audited_member caller client action before after trail =
    let values = λ (row : CompanyMembership). snapshot (membership_values row) membership_audited in
    record_event (actor_from client (some (company_id_of caller)) (some caller.user_id))
      (record {
        entity_type = lit "company_memberships";
        id = some after.id;
        company_id = some after.company_id;
      })
      action (elim before [ none ↦ none | some row ↦ some (values row) ]) (some (values after))
      membership_audited trail

abbrev pub is_owner_row : ℕ → CompanyMembership → Bool
is_owner_row company_id row =
    (nat_eq row.company_id company_id && role_eq row.role owner) && not (is_some row.revoked_at)

unfoldable pub active_owner_count : ℕ → ℕ → List CompanyMembership → ℕ
active_owner_count now company_id rows =
    count (is_active now) (select (is_owner_row company_id) rows)

unfoldable pub only_an_owner : HttpError
only_an_owner = record {
  status = 403;
  detail = lit "Only an owner can make someone else an owner.";
}

unfoldable pub already_a_member : HttpError
already_a_member = bad_request (lit "That person is already a member of this company.")

unfoldable pub keep_an_owner : HttpError
keep_an_owner = bad_request (lit "A company must keep at least one owner.")

-- `grant_membership_and_bump`
unfoldable pub grant_membership_and_bump :
    ℕ → ℕ → CompanyRole → Option ℕ → ℕ → MemberStore → MemberStore × CompanyMembership
grant_membership_and_bump company_id user_id role expires_at id store =
    let row : CompanyMembership = record {
      id = id;
      company_id = company_id;
      user_id = user_id;
      role = role;
      expires_at = expires_at;
      revoked_at = none;
    } in
    (
      record store {
        memberships = store.memberships ++ row ∷ [];
        users = end_sessions user_id store.users;
      },
      row,
    )

-- The row that a handler has looked up, by its primary key and its company.
abbrev pub is_row : ℕ → ℕ → CompanyMembership → Bool
is_row company_id id row = nat_eq row.company_id company_id && nat_eq row.id id

unfoldable pub updated :
    Option CompanyRole → Option (Option ℕ) → CompanyMembership → CompanyMembership
updated role expires_at row = record row {
  role = or_else role row.role;
  expires_at = or_else expires_at row.expires_at;
}

unfoldable pub update_membership_and_bump :
    ℕ → ℕ → ℕ → Option CompanyRole → Option (Option ℕ) → MemberStore → MemberStore
update_membership_and_bump company_id id user_id role expires_at store = record store {
  memberships = amend (is_row company_id id) (updated role expires_at) store.memberships;
  users = end_sessions user_id store.users;
}

unfoldable pub revoked : ℕ → CompanyMembership → CompanyMembership
revoked now row = record row { revoked_at = some now }

unfoldable pub revoke_membership_and_bump : ℕ → ℕ → ℕ → ℕ → MemberStore → MemberStore
revoke_membership_and_bump now company_id id user_id store = record store {
  memberships = amend (is_row company_id id) (revoked now) store.memberships;
  users = end_sessions user_id store.users;
}

abbrev pub is_active_row : ℕ → Option CompanyMembership → Bool
is_active_row now none = false
is_active_row now (some row) = is_active now row

module _ (now : ℕ) (caller : Membership) (client : Client) where
  unfoldable pub granted : MemberCreate → Fresh → ℕ → MemberStore → MemberStore
  unfolding grant_membership_and_bump
  granted body fresh user_id store =
      let (after, row) =
        grant_membership_and_bump (company_id_of caller) user_id body.role body.expires_at
          fresh.membership_id store in
      record after {
        trail = audited_member caller client (lit "membership.granted") none row after.trail;
      }

  unfoldable pub invited : MemberCreate → Fresh → MemberStore → MemberStore
  invited body fresh store =
      let user =
        create_invited_user fresh.user_id fresh.invite_token now (strip body.email) body.name in
      let after = granted body fresh user.id (record store { users = store.users ++ user ∷ [] }) in
      record after { invitations = after.invitations ++ user.id ∷ [] }

  abbrev pub add_found : MemberCreate → Fresh → Option User → MemberStore → Answer MemberStore
  add_found body fresh none store = ok (invited body fresh store)
  add_found body fresh (some user) store =
      let existing = find (is_held_in user.id (company_id_of caller)) store.memberships in
      raise_if (is_active_row now existing) already_a_member
      >> ok (granted body fresh user.id store)

  unfoldable pub add_member : MemberCreate → Fresh → MemberStore → Answer MemberStore
  add_member body fresh store = do
    raise_if (role_eq body.role owner && not (role_eq (role_of caller) owner)) only_an_owner
    add_found body fresh (get_user_by_email (strip body.email) store.users) store

  -- `_refuse_last_owner`
  unfoldable pub refuse_last_owner : CompanyMembership → List CompanyMembership → Answer (Unit {0})
  refuse_last_owner row rows =
      if not (role_eq row.role owner) || not (is_active now row)
      then ok tt
      else if ltb 1 (active_owner_count now (company_id_of caller) rows)
      then ok tt
      else raised keep_an_owner

  abbrev pub role_guard :
      Option CompanyRole → CompanyMembership → List CompanyMembership → Answer (Unit {0})
  role_guard none row rows = ok tt
  role_guard (some role) row rows =
      if role_eq role row.role
      then ok tt
      else (raise_if (role_eq role owner && not (role_eq (role_of caller) owner)) only_an_owner
          >> refuse_last_owner row rows)

  unfoldable pub update_member : ℕ → MemberUpdate → MemberStore → Answer MemberStore
  update_member id body store = do
    row ← or_raise (find (is_row (company_id_of caller) id) store.memberships) not_found
    user ← or_raise (find (has_id row.user_id) store.users) not_found
    role_guard body.role row store.memberships
    let after =
        update_membership_and_bump (company_id_of caller) id user.id body.role body.expires_at store
    ok (record after {
      trail =
          audited_member caller client (lit "membership.updated") (some row)
            (updated body.role body.expires_at row) store.trail;
    })

  unfoldable pub revoke_found : ℕ → CompanyMembership → MemberStore → Answer MemberStore
  revoke_found id row store = do
    refuse_last_owner row store.memberships
    user ← or_raise (find (has_id row.user_id) store.users) not_found
    let after = revoke_membership_and_bump now (company_id_of caller) id user.id store
    ok (record after {
      trail =
          audited_member caller client (lit "membership.revoked") (some row) (revoked now row)
            store.trail;
    })

  -- A membership that is revoked already stays as it is.
  unfoldable pub revoke_member : ℕ → MemberStore → Answer MemberStore
  revoke_member id store = do
    row ← or_raise (find (is_row (company_id_of caller) id) store.memberships) not_found
    (if is_some row.revoked_at
        then (or_raise (find (has_id row.user_id) store.users) not_found >>= λ _. ok store)
        else revoke_found id row store)
