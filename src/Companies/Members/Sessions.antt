-- ===== src/Companies/Members/Sessions.antt =====
-- A membership does not change while its user stays signed in (the member handlers of
-- apps/api/routers/companies.py, with apps/api/middleware/auth.py).
use film_bill.Base.{
  ◌≡◌, ◌≢◌, refl, sym, ap, ◌∙◌, ◌⊎◌, inl, inr, ℕ, Bool, Option, some, List, [], ◌∷◌, ◌++◌, find,
  amend, Member, amend-Member, Member-append, find-append,
}
use mathlib.Core.Option.{some-injective}
use film_bill.Base.Text.{Text}
use film_bill.Http.{ok}
use film_bill.Audit.Trail.{Client}
use film_bill.Permissions.{CompanyMembership}
use film_bill.Accounts.{User, Payload, has_id, end_sessions}
use film_bill.Accounts.Session.{get_current_user}
use film_bill.Accounts.Ended.{IsStored, end_sessions-Ended, accepted-append}
use film_bill.Companies.Access.{Membership}
use film_bill.Companies.Members.{MemberStore, updated, revoked}
use film_bill.Companies.Members.Effect.{Effect, MemberRequest, respond, expiry_of, respond-Effect}

module _ (decode : Text → Option Payload) where
  -- No token that was accepted for the account before is accepted after.
  abbrev pub IsSignedOut : ℕ → List User → List User → Type 0
  IsSignedOut user_id users users' =
      (token : Text) (user v : User)
      → get_current_user decode token users ≡ ok user
      → IsStored user users
      → user.id ≡ user_id
      → get_current_user decode token users' ≢ ok v

  IsSignedOut-of_end :
      (user_id : ℕ) (users users' : List User)
      → users' ≡ end_sessions user_id users
      → IsSignedOut user_id users users'
  IsSignedOut-of_end user_id users users' e token user v h stored same k =
      (end_sessions-Ended decode token user_id users user h stored).0 same v (rw e at k)

  IsSignedOut-append :
      (user_id : ℕ) (users more users' : List User)
      → users' ≡ end_sessions user_id (users ++ more)
      → IsSignedOut user_id users users'
  IsSignedOut-append user_id users more users' e token user v h stored same k =
      IsSignedOut-of_end user_id (users ++ more) users' e token user v
        (accepted-append decode token users more user h)
        (find-append (has_id user.id) users more stored) same k

  amend-IsSignedOut :
      (q : CompanyMembership → Bool) (f : CompanyMembership → CompanyMembership)
      (rows : List CompanyMembership) (found row : CompanyMembership) (users users' : List User)
      → find q rows ≡ some found
      → ((r : CompanyMembership) → (f r).user_id ≡ r.user_id)
      → users' ≡ end_sessions found.user_id users
      → Member row (amend q f rows)
      → Member row rows ⊎ IsSignedOut row.user_id users users'
  amend-IsSignedOut q f rows found row users users' h same e m = elim (amend-Member q f rows m) [
    | inl old ↦ inl old
    | inr (r, (g, new)) ↦
        let first : r ≡ found = some-injective _ _ (sym g ∙ h) in
        let key : row.user_id ≡ found.user_id =
          ap (λ (c : CompanyMembership). c.user_id) new
          ∙ (same r ∙ ap (λ (c : CompanyMembership). c.user_id) first) in
        inr (
          IsSignedOut-of_end row.user_id users users'
            (e ∙ ap (λ i. end_sessions i users) (sym key)))
  ]

  Effect-IsSignedOut :
      (now : ℕ) (caller : Membership) (expiry : Option (Option ℕ)) (store store' : MemberStore)
      (row : CompanyMembership)
      → Effect now caller expiry store store'
      → Member row store'.memberships
      → Member row store.memberships ⊎ IsSignedOut row.user_id store.users store'.users
  unfolding updated revoked
  Effect-IsSignedOut now caller expiry store store' row (Effect.grants new users c o u e e') m =
      elim (Member-append store.memberships (new ∷ []) row (rw e at m)) [
        | inl old ↦ inl old
        | inr (inr none_left) ↦ absurd none_left
        | inr (inl same) ↦
            let key : store'.users ≡ end_sessions row.user_id users =
              e' ∙ ap (λ (r : CompanyMembership). end_sessions r.user_id users) (sym same) in
            elim u [
              | inl kept ↦ inr (
                  IsSignedOut-of_end row.user_id store.users store'.users
                    (key ∙ ap (end_sessions row.user_id) kept))
              | inr (user, (more, id)) ↦ inr (
                  IsSignedOut-append row.user_id store.users (user ∷ []) store'.users
                    (key ∙ ap (end_sessions row.user_id) more))
            ]
      ]
  Effect-IsSignedOut now caller expiry store store' row (Effect.updates id role found at may e e')
        m =
      amend-IsSignedOut _ (updated role expiry) store.memberships found row store.users store'.users
        at (λ r. refl) e' (rw e at m)
  Effect-IsSignedOut now caller expiry store store' row (Effect.revokes id found at may e e') m =
      amend-IsSignedOut _ (revoked now) store.memberships found row store.users store'.users at
        (λ r. refl) e' (rw e at m)
  Effect-IsSignedOut now caller expiry store store' row (Effect.stays e) m = inl (rw e at m)

  -- Every membership after a request to the member handlers was there before, unchanged, or its user
  -- is signed out: no token that was accepted for that account before the request is accepted after it.
  pub respond-IsSignedOut :
      (now : ℕ) (caller : Membership) (client : Client) (request : MemberRequest)
      (store : MemberStore) {store' : MemberStore} (row : CompanyMembership)
      → respond now caller client request store ≡ ok store'
      → Member row store'.memberships
      → Member row store.memberships ⊎ IsSignedOut row.user_id store.users store'.users
  respond-IsSignedOut now caller client request store {store'} row e m =
      Effect-IsSignedOut now caller (expiry_of request) store store' row
        (respond-Effect now caller client request store e) m
