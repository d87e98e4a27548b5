-- ===== src/Companies/Members/Elsewhere.antt =====
-- The member handlers of apps/api/routers/companies.py touch one company.
use film_bill.Base.{
  ◌≡◌, refl, ℕ, Bool, false, not, Option, [], ◌∷◌, nat_eq, arith, select, select-amend,
  select-append, append-nil,
}
use film_bill.Http.{ok}
use film_bill.Audit.Trail.{Client}
use film_bill.Permissions.{CompanyMembership}
use film_bill.Companies.Access.{Membership, company_id_of}
use film_bill.Companies.Members.{MemberStore, updated, revoked}
use film_bill.Companies.Members.Effect.{Effect, MemberRequest, respond, expiry_of, respond-Effect}

abbrev pub is_elsewhere : ℕ → CompanyMembership → Bool
is_elsewhere company_id row = not (nat_eq row.company_id company_id)

Effect-elsewhere :
    (now : ℕ) (caller : Membership) (expiry : Option (Option ℕ)) (store store' : MemberStore)
    → Effect now caller expiry store store'
    → select (is_elsewhere (company_id_of caller)) store'.memberships
      ≡ select (is_elsewhere (company_id_of caller)) store.memberships
unfolding updated revoked
Effect-elsewhere now caller expiry store store' (Effect.grants row users c promoted u e e') =
    let here : is_elsewhere (company_id_of caller) row ≡ false = ground arith in
    rw (e, select-append (is_elsewhere (company_id_of caller)) store.memberships (row ∷ []), here)
      (append-nil _)
Effect-elsewhere now caller expiry store store' (Effect.updates id role row found may e e') = rw e (
    select-amend (is_elsewhere (company_id_of caller)) _ (updated role expiry) store.memberships
      (λ r q. (ground arith, ground arith)))
Effect-elsewhere now caller expiry store store' (Effect.revokes id row found may e e') = rw e (
    select-amend (is_elsewhere (company_id_of caller)) _ (revoked now) store.memberships
      (λ r q. (ground arith, ground arith)))
Effect-elsewhere now caller expiry store store' (Effect.stays e) = rw e refl

-- A request to the member handlers leaves the memberships of every other company as they are, and in
-- their order.
pub respond-elsewhere :
    (now : ℕ) (caller : Membership) (client : Client) (request : MemberRequest)
    (store : MemberStore) {store' : MemberStore}
    → respond now caller client request store ≡ ok store'
    → select (is_elsewhere (company_id_of caller)) store'.memberships
      ≡ select (is_elsewhere (company_id_of caller)) store.memberships
respond-elsewhere now caller client request store {store'} e =
    Effect-elsewhere now caller (expiry_of request) store store'
      (respond-Effect now caller client request store e)
