-- ===== src/Companies/Members/Owners.antt =====
-- The active owners of a company after a request to the member handlers of
-- apps/api/routers/companies.py.
use film_bill.Base.{
  ◌≡◌, refl, ◌⊎◌, inl, inr, ℕ, ◌<◌, Bool, true, false, ◌&&◌, Option, none, some, List, [], ◌∷◌,
  arith, or_else, find, Bool-cases, amend, count, bit, count-select, count-amend, count-append,
}
use film_bill.Accounts.{User, has_id}
use film_bill.Base.Text.{lit}
use film_bill.Http.{ok}
use film_bill.Audit.Trail.{Client}
use film_bill.Permissions.{
  CompanyRole, owner, CompanyMembership, is_active, role_eq_iff, not_expired,
}
use film_bill.Companies.Access.{Membership, company_id_of}
use film_bill.Companies.Members.{
  MemberStore, is_row, is_owner_row, updated, revoked, active_owner_count, audited_member,
  update_member, update_membership_and_bump,
}
use film_bill.Companies.Members.Effect.{Effect, MemberRequest, respond, expiry_of, respond-Effect}

abbrev is_active_owner : ℕ → ℕ → CompanyMembership → Bool
is_active_owner now company_id row = is_owner_row company_id row && is_active now row

owner_count :
    (now company_id : ℕ) (rows : List CompanyMembership)
    → active_owner_count now company_id rows ≡ count (is_active_owner now company_id) rows
unfolding active_owner_count
owner_count now company_id rows = count-select (is_active now) (is_owner_row company_id) rows

-- An expiry that a request sets is none, or lies after the moment of the request.
abbrev pub IsInTime : ℕ → Option (Option ℕ) → Type 0
IsInTime now none = Unit {0}
IsInTime now (some o) = not_expired now o ≡ true

still_active :
    (now : ℕ) (role : Option CompanyRole) (expiry : Option (Option ℕ)) (row : CompanyMembership)
    → IsInTime now expiry
    → is_active now row ≡ true
    → is_active now (updated role expiry row) ≡ true
unfolding is_active updated
still_active now role none row h a = a
still_active now role (some o) row h a = ground arith

owner_parts :
    (now company_id : ℕ) (row : CompanyMembership)
    → is_active_owner now company_id row ≡ true
    → (row.role ≡ owner) × (is_active now row ≡ true)
owner_parts now company_id row h = (ground (arith, role_eq_iff row.role owner), ground arith)

still_owner :
    (now company_id : ℕ) (role : Option CompanyRole) (expiry : Option (Option ℕ))
    (row : CompanyMembership)
    → IsInTime now expiry
    → is_active_owner now company_id row ≡ true
    → or_else role row.role ≡ owner
    → is_active_owner now company_id (updated role expiry row) ≡ true
unfolding updated is_active
still_owner now company_id role expiry row h a e =
    let active = still_active now role expiry row h (owner_parts now company_id row a).1 in
    let same = (role_eq_iff (or_else role row.role) owner).1 e in ground (arith, active, same)

-- A write to one row leaves an owner if the row was none, stays one, or was not the only one.
amend-KeepsOwner :
    (now company_id : ℕ) (q : CompanyMembership → Bool) (f : CompanyMembership → CompanyMembership)
    (rows : List CompanyMembership) {row : CompanyMembership}
    → find q rows ≡ some row
    → (is_active_owner now company_id row ≡ true
        → (is_active_owner now company_id (f row) ≡ true)
          ⊎ (1 < count (is_active_owner now company_id) rows))
    → 0 < count (is_active_owner now company_id) rows
    → 0 < count (is_active_owner now company_id) (amend q f rows)
amend-KeepsOwner now company_id q f rows {row} found h b =
    let counted = count-amend (is_active_owner now company_id) q f rows found in
    elim (Bool-cases (is_active_owner now company_id row)) [
      | inl e ↦ elim (h e) [
        | inl remains ↦
            let same : bit (is_active_owner now company_id row) ≡ 1 = rw e refl in
            let new : bit (is_active_owner now company_id (f row)) ≡ 1 = rw remains refl in
            omega arith
        | inr others ↦
            let same : bit (is_active_owner now company_id row) ≡ 1 = rw e refl in omega arith
      ]
      | inr e ↦ let same : bit (is_active_owner now company_id row) ≡ 0 = rw e refl in omega arith
    ]

Effect-KeepsOwner :
    (now : ℕ) (caller : Membership) (expiry : Option (Option ℕ)) (store store' : MemberStore)
    → IsInTime now expiry
    → Effect now caller expiry store store'
    → 0 < count (is_active_owner now (company_id_of caller)) store.memberships
    → 0 < count (is_active_owner now (company_id_of caller)) store'.memberships
Effect-KeepsOwner now caller expiry store store' h (Effect.grants row users c o u e e') b =
    let counted =
      count-append (is_active_owner now (company_id_of caller)) store.memberships (row ∷ []) in
    rw e (omega arith)
Effect-KeepsOwner now caller expiry store store' h (Effect.updates id role row found may e e') b =
    rw e (
      amend-KeepsOwner now (company_id_of caller) _ (updated role expiry) store.memberships found
        (λ a.
          let (o, active) = owner_parts now (company_id_of caller) row a in
          elim (may.other_owner o active) [
            | inl remains ↦ inl (still_owner now (company_id_of caller) role expiry row h a remains)
            | inr others ↦
                inr (rw (← owner_count now (company_id_of caller) store.memberships) others)
          ])
        b)
Effect-KeepsOwner now caller expiry store store' h (Effect.revokes id row found may e e') b = rw e (
    amend-KeepsOwner now (company_id_of caller) _ (revoked now) store.memberships found
      (λ a.
        let (o, active) = owner_parts now (company_id_of caller) row a in
        inr (
          rw (← owner_count now (company_id_of caller) store.memberships)
            (may.other_owner o active)))
      b)
Effect-KeepsOwner now caller expiry store store' h (Effect.stays e) b = rw e b

-- After a request to the member handlers the company of the caller has an active owner if it had one
-- before, unless the request sets an expiry that is past already.
pub respond-KeepsOwner :
    (now : ℕ) (caller : Membership) (client : Client) (request : MemberRequest)
    (store : MemberStore) {store' : MemberStore}
    → IsInTime now (expiry_of request)
    → respond now caller client request store ≡ ok store'
    → 0 < active_owner_count now (company_id_of caller) store.memberships
    → 0 < active_owner_count now (company_id_of caller) store'.memberships
respond-KeepsOwner now caller client request store {store'} h e b =
    rw (owner_count now (company_id_of caller) store'.memberships) (
      Effect-KeepsOwner now caller (expiry_of request) store store' h
        (respond-Effect now caller client request store e)
        (rw (← owner_count now (company_id_of caller) store.memberships) b))

lapsed :
    (now company_id expires : ℕ) (row : CompanyMembership)
    → not_expired now (some expires) ≡ false
    → is_active_owner now company_id (updated none (some (some expires)) row) ≡ false
unfolding updated is_active
lapsed now company_id expires row h = ground (arith, h)

-- Nothing guards the expiry: a request that sets a past expiry on the only active owner, and no role,
-- is answered, and leaves the company with no active owner.
pub update_member-expired_owner :
    (now : ℕ) (caller : Membership) (client : Client) (id expires : ℕ) (store : MemberStore)
    (row : CompanyMembership) (user : User)
    → find (is_row (company_id_of caller) id) store.memberships ≡ some row
    → find (has_id row.user_id) store.users ≡ some user
    → is_active_owner now (company_id_of caller) row ≡ true
    → active_owner_count now (company_id_of caller) store.memberships ≡ 1
    → not_expired now (some expires) ≡ false
    → (store' : MemberStore) × (update_member now caller client id
          (record { role = none; expires_at = some (some expires) })
          store
        ≡ ok store')
      × (active_owner_count now (company_id_of caller) store'.memberships ≡ 0)
unfolding update_member update_membership_and_bump
update_member-expired_owner now caller client id expires store row user found target owns only
      past =
    let counted =
      count-amend (is_active_owner now (company_id_of caller)) (is_row (company_id_of caller) id)
        (updated none (some (some expires))) store.memberships found in
    let gone = lapsed now (company_id_of caller) expires row past in
    let before : bit (is_active_owner now (company_id_of caller) row) ≡ 1 = rw owns refl in
    let after : bit
          (is_active_owner now (company_id_of caller) (updated none (some (some expires)) row))
        ≡ 0 =
      rw gone refl in
    let after_update : MemberStore =
      update_membership_and_bump (company_id_of caller) id user.id none (some (some expires))
        store in
    (
      record after_update {
        trail =
            audited_member caller client (lit "membership.updated") (some row)
              (updated none (some (some expires)) row) store.trail;
      },
      simp (found, target),
      rw
          (owner_count now (company_id_of caller) (
            amend (is_row (company_id_of caller) id) (updated none (some (some expires)))
              store.memberships))
          (omega (arith, only, owner_count now (company_id_of caller) store.memberships)),
    )
