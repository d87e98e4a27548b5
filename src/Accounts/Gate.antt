-- ===== src/Accounts/Gate.antt =====
-- The gate in front of every route (apps/api/middleware/account_gate.py). What the database does not
-- answer is `none`.
use film_bill.Base.{
  ◌≡◌, ℕ, Bool, true, false, not, ◌||◌, Option, none, some, List, [], ◌∷◌, nat_eq, if◌then◌else◌,
  any, text_eq, or_else, text_has_equality,
}
use film_bill.Base.Text.{Text, lit, lower, is_empty, starts_with}
use film_bill.Http.{ok}
use film_bill.Accounts.{User, Payload, has_type, get_user_by_id, gate_outstanding}
use film_bill.Accounts.Session.{
  subject_of, is_current, get_current_user, get_current_user-IsSession,
}

unfoldable pub exempt_prefixes : List Text
exempt_prefixes =
    lit "/auth"
    ∷ lit "/setup"
    ∷ lit "/health"
    ∷ lit "/docs"
    ∷ lit "/redoc"
    ∷ lit "/openapi.json"
    ∷ lit "/share/"
    ∷ lit "/site-settings"
    ∷ []

pub record GatedRequest : Type 0 where
  pub path : Text
  pub method : Text
  pub authorization : Option Text

unfoldable pub is_exempt : Text → Bool
is_exempt path = any (starts_with path) exempt_prefixes

unfoldable pub is_preflight : Text → Bool
is_preflight method = text_eq method (lit "OPTIONS")

-- `s.partition(" ")`, without the separator.
unfoldable pub partition_space : Text → Text × Text
partition_space [] = ([], [])
partition_space (c ∷ s) =
    let (before, after) = partition_space s in
    if nat_eq c b' ' then ([], s) else (c ∷ before, after)

unfoldable pub is_bearer : Text → Bool
is_bearer scheme = text_eq (lower scheme) (lit "bearer")

abbrev user_blocked : Payload → Option User → Bool
user_blocked payload none = false
user_blocked payload (some user) =
    if not (is_current payload user) then false else gate_outstanding user

-- A subject that is missing or no UUID is an exception, which lets the request through.
abbrev subject_blocked : Payload → Option ℕ → List User → Bool
subject_blocked payload none users = false
subject_blocked payload (some id) users = user_blocked payload (get_user_by_id id users)

abbrev token_blocked : Option Payload → List User → Bool
token_blocked none users = false
token_blocked (some payload) users =
    if not (has_type (lit "access") payload)
    then false
    else subject_blocked payload (subject_of payload) users

abbrev stored_blocked : Option Payload → Option (List User) → Bool
stored_blocked payload none = false
stored_blocked payload (some users) = token_blocked payload users

-- Whether the request is answered by a 403 that asks for the account to be set up, and goes no further.
unfoldable pub gate_blocks : (Text → Option Payload) → Option (List User) → GatedRequest → Bool
gate_blocks decode stored request =
    let (scheme, token) = partition_space (or_else request.authorization []) in
    if is_exempt request.path
    then false
    else if is_preflight request.method
    then false
    else if not (is_bearer scheme) || is_empty token
    then false
    else stored_blocked (decode token) stored

-- Where the database answers, a session whose account has its security set-up outstanding gets nowhere
-- but to the exempt paths: any other request with its token that is no CORS preflight, however the
-- scheme is capitalised, is blocked.
pub gate_blocks-outstanding :
    (decode : Text → Option Payload) (users : List User) (request : GatedRequest)
    (header scheme token : Text) (user : User)
    → get_current_user decode token users ≡ ok user
    → gate_outstanding user ≡ true
    → is_exempt request.path ≡ false
    → is_preflight request.method ≡ false
    → request.authorization ≡ some header
    → partition_space header ≡ (scheme, token)
    → is_bearer scheme ≡ true
    → is_empty token ≡ false
    → gate_blocks decode (some users) request ≡ true
unfolding gate_blocks
gate_blocks-outstanding decode users request header scheme token user h outstanding inside sent auth
      split bearer filled =
    let s = get_current_user-IsSession decode token users h in
    simp (
      inside, sent, auth, split, bearer, filled, s.decodes, s.access, s.subject, s.stored,
      s.current, outstanding,
    )
