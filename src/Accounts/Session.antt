-- ===== src/Accounts/Session.antt =====
-- Who a request is from (`get_current_user` and `get_optional_user` of apps/api/middleware/auth.py).
-- The signature and the expiry of a token are the JWT library's: `decode` gives the claims of a token
-- that it accepts.
use film_bill.Base.{
  ◌≡◌, refl, sym, ℕ, Bool, true, false, not, Option, none, some, List, arith, if◌then◌else◌,
  or_else, lookup, text_has_equality, find-Member, ap, ◌∙◌,
}
use mathlib.Core.Option.{some-injective}
use film_bill.Base.Int.{pos}
use film_bill.Base.Text.{Text, lit}
use film_bill.Base.Uuid.{uuid_of}
use film_bill.Http.{
  HttpError, Answer, ok, ◌>>=◌, ◌>>◌, raise_if, or_raise, or_crash, guard_then, found_then,
  parsed_then, ok-injective,
}
use film_bill.Tax.Json.{Json, null, boolean, number, text, array, object, json_equal}
use film_bill.Accounts.{User, Payload, has_type, token_version_of, get_user_by_id, is_deactivated}

abbrev pub invalid_token : HttpError
unfolding lit
invalid_token = record { status = 401; detail = lit "Invalid or expired token" }

abbrev pub no_such_user : HttpError
unfolding lit
no_such_user = record { status = 401; detail = lit "User not found or deactivated" }

-- `uuid.UUID(payload["sub"])`, which fails on a claim that is missing or is no UUID.
abbrev pub claimed_id : Json → Option ℕ
claimed_id (text s) = uuid_of s
claimed_id _ = none

unfoldable pub subject_of : Payload → Option ℕ
unfolding lit
subject_of payload = claimed_id (or_else (lookup (lit "sub") payload) null)

abbrev pub is_current : Payload → User → Bool
is_current payload user = json_equal (token_version_of payload) (number (pos user.token_version))

abbrev pub is_access : Option Payload → Bool
is_access none = false
is_access (some payload) = has_type (lit "access") payload

abbrev pub is_usable : Option User → Bool
is_usable none = false
is_usable (some user) = not (is_deactivated user.status)

module _ (decode : Text → Option Payload) where
  unfoldable pub get_current_user : Text → List User → Answer User
  get_current_user token users = do
    payload ← or_raise (decode token) invalid_token
    raise_if (not (has_type (lit "access") payload)) invalid_token
    id ← or_crash (subject_of payload)
    user ← or_raise (get_user_by_id id users) no_such_user
    raise_if (is_deactivated user.status) no_such_user
    raise_if (not (is_current payload user)) invalid_token
    ok user

  abbrev optional_current : Payload → Option User → Option User
  optional_current payload none = none
  optional_current payload (some user) =
      if is_deactivated user.status
      then none
      else if not (is_current payload user)
      then none
      else some user

  abbrev optional_stored : Payload → Option ℕ → List User → Option User
  optional_stored payload none users = none
  optional_stored payload (some id) users = optional_current payload (get_user_by_id id users)

  abbrev optional_access : Option Payload → List User → Option User
  optional_access none users = none
  optional_access (some payload) users =
      if not (has_type (lit "access") payload)
      then none
      else optional_stored payload (subject_of payload) users

  unfoldable pub get_optional_user : Option Text → List User → Option User
  get_optional_user none users = none
  get_optional_user (some token) users = optional_access (decode token) users

  -- The session of a user: an access token of theirs, of the version that their row has.
  pub record IsSession (token : Text) (users : List User) (user : User) : Type 0 where
    pub payload : Payload
    pub id : ℕ
    pub decodes : decode token ≡ some payload
    pub access : has_type (lit "access") payload ≡ true
    pub subject : subject_of payload ≡ some id
    pub stored : get_user_by_id id users ≡ some user
    pub usable : is_deactivated user.status ≡ false
    pub current : is_current payload user ≡ true

  pub get_current_user-IsSession :
      (token : Text) (users : List User) {user : User}
      → get_current_user token users ≡ ok user
      → IsSession token users user
  unfolding get_current_user
  get_current_user-IsSession token users {user} h =
      let (payload, decodes, h1) = found_then (decode token) _ h in
      let (access, h2) = guard_then (not (has_type (lit "access") payload)) _ h1 in
      let (id, subject, h3) = parsed_then (subject_of payload) h2 in
      let (found, stored, h4) = found_then (get_user_by_id id users) _ h3 in
      let (usable, h5) = guard_then (is_deactivated found.status) _ h4 in
      let (current, last) = guard_then (not (is_current payload found)) _ h5 in
      let same : found ≡ user = ok-injective last in
      record {
        payload = payload;
        id = id;
        decodes = decodes;
        access = ground arith;
        subject = subject;
        stored = rw (← same) stored;
        usable = rw (← same) usable;
        current = rw (← same) (ground arith);
      }

  pub IsSession-accepted :
      (token : Text) (users : List User) {user : User}
      → IsSession token users user
      → get_current_user token users ≡ ok user
  unfolding get_current_user
  IsSession-accepted token users s =
      rw s.decodes (rw s.access (rw s.subject (rw s.stored (rw (s.usable, s.current) refl))))

  abbrev pub ok_or_none : Answer User → Option User
  ok_or_none (ok user) = some user
  ok_or_none _ = none

  -- Where a session is optional, the user is the one of the session, and every refusal or failure is
  -- no user.
  pub get_optional_user-current :
      (token : Text) (users : List User)
      → get_optional_user (some token) users ≡ ok_or_none (get_current_user token users)
  unfolding get_optional_user get_current_user
  get_optional_user-current token users = ground arith

same_version :
    (j : Json) (m n : ℕ)
    → json_equal j (number (pos m)) ≡ true
    → json_equal j (number (pos n)) ≡ true
    → m ≡ n
unfolding json_equal
same_version null m n h k = cc
same_version (boolean true) m n h k = ground arith
same_version (boolean false) m n h k = ground arith
same_version (number i) m n h k = ground arith
same_version (text s) m n h k = cc
same_version (array xs) m n h k = cc
same_version (object fs) m n h k = cc

pub by_id :
    (id : ℕ) (users : List User) {user : User} → get_user_by_id id users ≡ some user → user.id ≡ id
unfolding get_user_by_id
by_id id users h = let (m, held) = find-Member _ users h in ground arith

-- A token is accepted for one account and for one version of it: where it is accepted at two moments,
-- the account has the same id and the same version at both.
pub get_current_user-SameVersion :
    (decode : Text → Option Payload) (token : Text) (users later : List User) (user user' : User)
    → get_current_user decode token users ≡ ok user
    → get_current_user decode token later ≡ ok user'
    → (user.id ≡ user'.id) × (user.token_version ≡ user'.token_version)
get_current_user-SameVersion decode token users later user user' h k =
    let s = get_current_user-IsSession decode token users h in
    let t = get_current_user-IsSession decode token later k in
    let payloads : s.payload ≡ t.payload = some-injective _ _ (sym s.decodes ∙ t.decodes) in
    let subjects : s.id ≡ t.id =
      some-injective _ _ (sym s.subject ∙ (ap subject_of payloads ∙ t.subject)) in
    (
      by_id s.id users s.stored ∙ (subjects ∙ sym (by_id t.id later t.stored)),
      same_version (token_version_of s.payload) _ _ s.current (rw payloads t.current),
    )
