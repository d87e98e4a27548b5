-- ===== src/Accounts/Ended.antt =====
-- What `bump_token_version` of apps/api/services/auth_service.py does to the sessions of an account.
use mathlib.Core.Option.{some-injective}
use film_bill.Base.{
  ◌≡◌, ◌≢◌, refl, sym, ap, ◌∙◌, inl, inr, ℕ, ◌+◌, Bool, true, false, not, ◌&&◌, Option, some, List,
  [], ◌∷◌, ◌++◌, arith, if◌then◌else◌, is_some, find, Bool-cases, find-Member, find-append,
}
use film_bill.Base.Text.{Text}
use film_bill.Http.{ok}
use film_bill.Accounts.{User, Payload, has_id, get_user_by_id, end_sessions, bump_token_version}
use film_bill.Accounts.Session.{
  get_current_user, get_current_user-IsSession, IsSession-accepted, get_current_user-SameVersion,
  by_id,
}

-- A user by their primary key.
abbrev pub IsStored : User → List User → Type 0
IsStored user users = find (has_id user.id) users ≡ some user

abbrev is_alive : ℕ → User → Bool
is_alive id u = has_id id u && not (is_some u.deleted_at)

found-end_sessions :
    (id : ℕ) (users : List User) {user : User}
    → find (has_id id) users ≡ some user
    → not (is_some user.deleted_at) ≡ true
    → get_user_by_id id (end_sessions id users) ≡ some (bump_token_version user)
unfolding get_user_by_id end_sessions bump_token_version
found-end_sessions id [] h a = cc
found-end_sessions id (u ∷ users) {user} h a = elim (Bool-cases (has_id id u)) [
  | inl e ↦
      let same : u ≡ user = some-injective _ _ (rw e at h) in
      let kept : not (is_some u.deleted_at) ≡ true = rw same a in rw (e, e, kept, same) refl
  | inr e ↦ rw (e, e) (found-end_sessions id users (rw e at h) a)
]

others-end_sessions :
    (id j : ℕ) (users : List User)
    → id ≢ j
    → get_user_by_id j (end_sessions id users) ≡ get_user_by_id j users
unfolding get_user_by_id end_sessions bump_token_version
others-end_sessions id j [] h = refl
others-end_sessions id j (u ∷ users) h = elim (Bool-cases (has_id id u)) [
  | inl e ↦ let away : has_id j u ≡ false = ground arith in rw (e, away) refl
  | inr e ↦ rw e (ap (λ t. if is_alive j u then some u else t) (others-end_sessions id j users h))
]

alive :
    (id : ℕ) (users : List User) {user : User}
    → get_user_by_id id users ≡ some user
    → not (is_some user.deleted_at) ≡ true
unfolding get_user_by_id
alive id users h = let (m, held) = find-Member _ users h in ground arith

bumped : (user v : User) → v ≡ bump_token_version user → v.token_version ≡ user.token_version + 1
unfolding bump_token_version
bumped user v e = ap (λ (u : User). u.token_version) e

module _ (decode : Text → Option Payload) where
  -- When the sessions of an account are ended, no token of it that was accepted before is accepted
  -- again, and every token of another account still is.
  pub end_sessions-Ended :
      (token : Text) (id : ℕ) (users : List User) (user : User)
      → get_current_user decode token users ≡ ok user
      → IsStored user users
      → (user.id ≡ id → (v : User) → get_current_user decode token (end_sessions id users) ≢ ok v)
        × (user.id ≢ id → get_current_user decode token (end_sessions id users) ≡ ok user)
  end_sessions-Ended token id users user h stored =
      let s = get_current_user-IsSession decode token users h in
      let at : user.id ≡ s.id = by_id s.id users s.stored in
      (
        λ e v k.
            let t = get_current_user-IsSession decode token (end_sessions id users) k in
            let (ids, versions) =
              get_current_user-SameVersion decode token users (end_sessions id users) user v h k in
            let key : t.id ≡ id =
              sym (by_id t.id (end_sessions id users) t.stored) ∙ (sym ids ∙ e) in
            let row = found-end_sessions id users (rw (← e) stored) (alive s.id users s.stored) in
            let same : v ≡ bump_token_version user =
              some-injective _ _ (sym (rw key at t.stored) ∙ row) in
            absurd (omega (arith, bumped user v same)),
        λ away. IsSession-accepted decode token (end_sessions id users) (record {
          payload = s.payload;
          id = s.id;
          decodes = s.decodes;
          access = s.access;
          subject = s.subject;
          stored = others-end_sessions id s.id users (λ e. away (at ∙ sym e)) ∙ s.stored;
          usable = s.usable;
          current = s.current;
        }),
      )

  -- A new account takes no session from the others.
  pub accepted-append :
      (token : Text) (users more : List User) (user : User)
      → get_current_user decode token users ≡ ok user
      → get_current_user decode token (users ++ more) ≡ ok user
  unfolding get_user_by_id
  accepted-append token users more user h =
      let s = get_current_user-IsSession decode token users h in
      IsSession-accepted decode token (users ++ more) (record {
        payload = s.payload;
        id = s.id;
        decodes = s.decodes;
        access = s.access;
        subject = s.subject;
        stored = find-append _ users more s.stored;
        usable = s.usable;
        current = s.current;
      })
