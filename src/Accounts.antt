-- ===== src/Accounts.antt =====
-- Accounts (`User` of apps/api/models/user.py), and what apps/api/services/auth_service.py and
-- apps/api/services/invite_service.py do with them: tokens by their claims, the version that ends
-- sessions, and looking an account up. An instant is a number of microseconds.
pub mod Session
pub mod Identity
pub mod Ended
pub mod Gate
mod Samples
use film_bill.Base.{
  ◌≡◌, refl, ℕ, ◌+◌, ◌*◌, Bool, true, false, not, ◌&&◌, ◌||◌, Option, none, some, List, [], ◌∷◌,
  ◌++◌, nat_eq, text_eq, text_has_equality, lookup, is_some, find, amend, or_else, if◌then◌else◌,
  bit,
}
use film_bill.Base.Int.{ℤ, pos}
use film_bill.Base.Text.{Text, lit, strip, lower, is_empty, occurs}
use film_bill.Tax.Json.{Json, null, text, number, json_equal}

pub data UserStatus : Type 0 where
  active deactivated pending_invite pending_verification : UserStatus

pub data UserGlobalRole : Type 0 where
  superadmin superuser user : UserGlobalRole

-- What the modelled code reads or writes of an account.
pub record User : Type 0 where
  pub id : ℕ
  pub email : Text
  pub first_name : Option Text
  pub last_name : Text
  pub password_hash : Option Text
  pub status : UserStatus
  pub role : UserGlobalRole
  pub invite_token : Option Text
  pub invite_token_expires_at : Option ℕ
  pub two_factor_enabled : Bool
  pub token_version : ℕ
  pub backup_email : Option Text
  pub backup_email_verified_at : Option ℕ
  pub account_gate_waived_at : Option ℕ
  pub deleted_at : Option ℕ

abbrev pub is_deactivated : UserStatus → Bool
is_deactivated deactivated = true
is_deactivated _ = false

abbrev pub is_superadmin : UserGlobalRole → Bool
is_superadmin superadmin = true
is_superadmin _ = false

abbrev pub given : Option Text → Bool
given none = false
given (some s) = not (is_empty s)

unfoldable pub user_name : User → Text
user_name u =
    if given u.first_name then or_else u.first_name [] ++ b' ' ∷ u.last_name else u.last_name

unfoldable pub must_set_password : User → Bool
must_set_password u = not (is_some u.password_hash)

pub data BackupEmailState : Type 0 where
  missing pending verified : BackupEmailState

unfoldable pub backup_email_state : User → BackupEmailState
backup_email_state u =
    if not (given u.backup_email)
    then missing
    else if is_some u.backup_email_verified_at
    then verified
    else pending

abbrev pub is_verified : BackupEmailState → Bool
is_verified verified = true
is_verified _ = false

unfoldable pub account_setup_required : User → Bool
unfolding must_set_password backup_email_state
account_setup_required u = must_set_password u || not (is_verified (backup_email_state u))

unfoldable pub gate_outstanding : User → Bool
unfolding account_setup_required
gate_outstanding u =
    if not (account_setup_required u) then false else not (is_some u.account_gate_waived_at)

-- The claims of a token.
abbrev pub Payload : Type 0
Payload = List (Text × Json)

-- LEGACY_TOKEN_VERSION
abbrev pub legacy_token_version : Json
legacy_token_version = number (pos 0)

unfoldable pub token_version_of : Payload → Json
unfolding lit
token_version_of payload = or_else (lookup (lit "tv") payload) legacy_token_version

-- What `create_access_token` and `create_refresh_token` sign; `subject` is the text of the user's id.
unfoldable pub access_payload : Text → ℕ → ℕ → Payload
access_payload subject token_version expire =
    (lit "sub", text subject)
    ∷ (lit "type", text (lit "access"))
    ∷ (lit "tv", number (pos token_version))
    ∷ (lit "exp", number (pos expire))
    ∷ []

unfoldable pub refresh_payload : Text → ℕ → ℕ → Payload
refresh_payload subject token_version expire =
    (lit "sub", text subject)
    ∷ (lit "type", text (lit "refresh"))
    ∷ (lit "tv", number (pos token_version))
    ∷ (lit "exp", number (pos expire))
    ∷ []

-- VIA_PASSWORD, VIA_MAGIC_CODE and TWOFA_PENDING_TOKEN_TYPE
abbrev pub via_password : Text
unfolding lit
via_password = lit "password"

abbrev pub via_magic_code : Text
unfolding lit
via_magic_code = lit "magic_code"

abbrev pub twofa_pending_token_type : Text
unfolding lit
twofa_pending_token_type = lit "2fa_pending"

unfoldable pub pending_payload : Text → Text → ℕ → Payload
pending_payload subject via expire =
    (lit "sub", text subject)
    ∷ (lit "type", text twofa_pending_token_type)
    ∷ (lit "via", text via)
    ∷ (lit "exp", number (pos expire))
    ∷ []

-- `payload.get("type") == …`
unfoldable pub has_type : Text → Payload → Bool
unfolding lit
has_type kind payload = json_equal (or_else (lookup (lit "type") payload) null) (text kind)

unfoldable pub bump_token_version : User → User
bump_token_version u = record u { token_version = u.token_version + 1 }

abbrev pub has_email : Text → User → Bool
has_email email u = text_eq (lower u.email) (lower (strip email)) && not (is_some u.deleted_at)

unfoldable pub get_user_by_email : Text → List User → Option User
get_user_by_email email users = find (has_email email) users

abbrev pub has_id : ℕ → User → Bool
has_id id u = nat_eq u.id id

unfoldable pub get_user_by_id : ℕ → List User → Option User
get_user_by_id id users = find (λ u. has_id id u && not (is_some u.deleted_at)) users

-- `s.split(" ", 1)`, with what stands before the first space in front.
split_at_space : Text → Text × Text
split_at_space [] = ([], [])
split_at_space (c ∷ s) =
    let (first, rest) = split_at_space s in if nat_eq c b' ' then ([], s) else (c ∷ first, rest)

unfoldable pub split_full_name : Text → Option Text × Text
unfolding split_at_space lit
split_full_name full_name =
    let (first, rest) = split_at_space (strip full_name) in
    if occurs (lit " ") (strip full_name) then (some first, rest) else (none, strip full_name)

-- `email.split("@")[0]`
unfoldable pub before_at : Text → Text
before_at [] = []
before_at (c ∷ s) = if nat_eq c b'@' then [] else c ∷ before_at s

-- INVITE_EXPIRY_DAYS, in microseconds
abbrev pub invite_expiry : ℕ
invite_expiry = 7 * 86_400_000_000

-- The id is the database's and the token is `secrets.token_urlsafe(48)`.
unfoldable pub create_invited_user : ℕ → Text → ℕ → Text → Option Text → User
create_invited_user id token now email name =
    let (first, last) = split_full_name (if given name then or_else name [] else before_at email) in
    record {
      id = id;
      email = email;
      first_name = first;
      last_name = last;
      password_hash = none;
      status = pending_invite;
      role = user;
      invite_token = some token;
      invite_token_expires_at = some (now + invite_expiry);
      two_factor_enabled = false;
      token_version = 0;
      backup_email = none;
      backup_email_verified_at = none;
      account_gate_waived_at = none;
      deleted_at = none;
    }

-- `bump_token_version` on the row of the user with this id.
unfoldable pub end_sessions : ℕ → List User → List User
end_sessions id users = amend (has_id id) bump_token_version users
