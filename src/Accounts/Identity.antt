-- ===== src/Accounts/Identity.antt =====
-- What `get_current_user` of apps/api/middleware/auth.py asks of a token and of an account.
use film_bill.Base.{
  ◌≡◌, ◌≢◌, refl, sym, ap, ◌∙◌, ◌↔◌, ℕ, true, false, not, ◌&&◌, Option, none, some, List, arith,
  or_else, lookup, is_some, text_eq_iff, text_eq_refl, text_has_equality, Member, find-Member,
  find-only,
}
use film_bill.Base.Int.{pos}
use film_bill.Base.Text.{Text, lit}
use film_bill.Base.Uuid.{uuid_of}
use film_bill.Http.{ok}
use film_bill.Tax.Json.{Json, null, boolean, number, text, array, object, json_equal}
use film_bill.Accounts.{
  User, UserStatus, active, deactivated, pending_invite, pending_verification, Payload, has_type,
  has_id, token_version_of, get_user_by_id, is_deactivated,
}
use film_bill.Accounts.Session.{
  subject_of, claimed_id, get_current_user, IsSession, get_current_user-IsSession,
  IsSession-accepted,
}

-- A token that speaks for an account now.
pub record IsFrom (decode : Text → Option Payload) (token : Text) (users : List User) (user : User)
    : Type 0 where
  pub payload : Payload
  pub subject : Text
  pub decodes : decode token ≡ some payload
  pub typed : lookup (lit "type") payload ≡ some (text (lit "access"))
  pub claimed : lookup (lit "sub") payload ≡ some (text subject)
  pub named : uuid_of subject ≡ some user.id
  pub stored : Member user users
  pub not_deleted : user.deleted_at ≡ none
  pub not_deactivated : user.status ≢ deactivated
  pub current :
      json_equal
        (or_else (lookup (lit "tv") payload) (number (pos 0)))
        (number (pos user.token_version))
      ≡ true

equal_text : (j : Json) (s : Text) → json_equal j (text s) ≡ true → j ≡ text s
unfolding json_equal
equal_text null s h = cc
equal_text (boolean b) s h = cc
equal_text (number i) s h = cc
equal_text (text t) s h = ap text ((text_eq_iff t s).0 h)
equal_text (array xs) s h = cc
equal_text (object fs) s h = cc

given_text : (o : Option Json) (s : Text) → or_else o null ≡ text s → o ≡ some (text s)
given_text none s h = cc
given_text (some j) s h = ap some h

has_type_iff :
    (kind : Text) (payload : Payload)
    → (has_type kind payload ≡ true) ↔ (lookup (lit "type") payload ≡ some (text kind))
unfolding has_type json_equal
has_type_iff kind payload = (
  λ h. given_text (lookup (lit "type") payload) kind (equal_text _ kind h),
  λ h. rw (h, text_eq_refl kind) refl,
)

claimed_text :
    (j : Json) {id : ℕ} → claimed_id j ≡ some id → (s : Text) × (j ≡ text s) × (uuid_of s ≡ some id)
claimed_text null h = cc
claimed_text (boolean b) h = cc
claimed_text (number i) h = cc
claimed_text (text s) h = (s, refl, h)
claimed_text (array xs) h = cc
claimed_text (object fs) h = cc

subject_of_text :
    (payload : Payload) {id : ℕ}
    → subject_of payload ≡ some id
    → (s : Text) × (lookup (lit "sub") payload ≡ some (text s)) × (uuid_of s ≡ some id)
unfolding subject_of
subject_of_text payload h =
    let (s, same, named) = claimed_text (or_else (lookup (lit "sub") payload) null) h in
    (s, given_text (lookup (lit "sub") payload) s same, named)

is_deactivated_iff :
    (status : UserStatus) → (is_deactivated status ≡ false) ↔ (status ≢ deactivated)
is_deactivated_iff active = (λ h. λ e. cc, λ h. refl)
is_deactivated_iff deactivated = (λ h. cc, λ h. absurd (h refl))
is_deactivated_iff pending_invite = (λ h. λ e. cc, λ h. refl)
is_deactivated_iff pending_verification = (λ h. λ e. cc, λ h. refl)

kept_iff : (o : Option ℕ) → (not (is_some o) ≡ true) ↔ (o ≡ none)
kept_iff none = (λ h. refl, λ h. refl)
kept_iff (some t) = (λ h. cc, λ h. cc)

module _ (decode : Text → Option Payload) (token : Text) (users : List User) (user : User) where
  IsSession-IsFrom : IsSession decode token users user → IsFrom decode token users user
  unfolding get_user_by_id token_version_of
  IsSession-IsFrom s =
      let (subject, claimed, named) = subject_of_text s.payload s.subject in
      let (m, found) = find-Member _ users s.stored in
      let same : user.id ≡ s.id = ground arith in
      record {
        payload = s.payload;
        subject = subject;
        decodes = s.decodes;
        typed = (has_type_iff (lit "access") s.payload).0 s.access;
        claimed = claimed;
        named = named ∙ ap some (sym same);
        stored = m;
        not_deleted = (kept_iff user.deleted_at).0 (ground arith);
        not_deactivated = (is_deactivated_iff user.status).0 s.usable;
        current = s.current;
      }

  IsFrom-IsSession :
      ((v : User) → Member v users → v.id ≡ user.id → v ≡ user)
      → IsFrom decode token users user
      → IsSession decode token users user
  unfolding get_user_by_id token_version_of subject_of
  IsFrom-IsSession one s =
      let kept : not (is_some user.deleted_at) ≡ true =
        (kept_iff user.deleted_at).1 s.not_deleted in
      let mine : (has_id user.id user && not (is_some user.deleted_at)) ≡ true = ground arith in
      record {
        payload = s.payload;
        id = user.id;
        decodes = s.decodes;
        access = (has_type_iff (lit "access") s.payload).1 s.typed;
        subject = rw s.claimed s.named;
        stored = find-only _ users s.stored mine (λ v m h. one v m (ground arith));
        usable = (is_deactivated_iff user.status).1 s.not_deactivated;
        current = s.current;
      }

  -- Where no other account has the id of the user, a request is from that user exactly if its token
  -- decodes to claims of the type access, whose subject is a text that reads as the id of the user, and
  -- whose version (or 0, where there is none) equals that of the account now, and if the account is in
  -- the table, is not deleted and is not deactivated.
  pub get_current_user_iff :
      ((v : User) → Member v users → v.id ≡ user.id → v ≡ user)
      → (get_current_user decode token users ≡ ok user) ↔ IsFrom decode token users user
  get_current_user_iff one = (
    λ h. IsSession-IsFrom (get_current_user-IsSession decode token users h),
    λ s. IsSession-accepted decode token users (IsFrom-IsSession one s),
  )
