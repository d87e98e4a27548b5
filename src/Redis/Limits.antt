-- ===== src/Redis/Limits.antt =====
-- The rate limits: `check_rate_limit` of apps/api/services/redis_service.py, and its use for every
-- request in apps/api/middleware/global_rate_limit.py.
use film_bill.Base.{
  ℕ, max, Bool, true, false, ◌||◌, Option, none, some, List, [], ◌∷◌, ◌++◌, leb, if◌then◌else◌,
  contains, text_has_equality, drop,
}
use film_bill.Base.Text.{Text, lit, starts_with, is_empty}
use film_bill.Base.Digits.{read}
use film_bill.Redis.Server.{Redis, get}

-- Allowed, or refused with the seconds to wait.
pub data Admission : Type 0 where
  allowed : Admission
  refused : ℕ → Admission

abbrev pub is_allowed : Admission → Bool
is_allowed allowed = true
is_allowed (refused n) = false

abbrev pub is_full : ℕ → Option Text → Bool
is_full limit none = false
is_full limit (some current) = leb limit (read current)

unfoldable pub rate_key : Text → Text → Text → Text
rate_key prefix action identity = prefix ++ (action ++ (lit ":" ++ identity))

module _ (redis : Redis) where
  open redis use {State, ttl, incr, expire_nx}

  -- `max(r.ttl(key), 1)`
  abbrev pub seconds_left : Text → ℕ → State → ℕ
  seconds_left key now s = max (ttl s now key) 1

  unfoldable pub count_request : Text → ℕ → ℕ → State → State
  count_request key window now s = expire_nx key window now (incr key now s)

  -- The counter under a key: the body that `check_rate_limit` and the middleware share.
  unfoldable pub check_counter : Text → ℕ → ℕ → ℕ → State → State × Admission
  check_counter key limit window now s =
      if is_full limit (get redis s now key)
      then (s, refused (seconds_left key now s))
      else (count_request key window now s, allowed)

  -- RATE_LIMIT_PREFIX
  unfoldable pub check_rate_limit : Text → Text → ℕ → ℕ → ℕ → State → State × Admission
  check_rate_limit ip action max_requests window now s =
      check_counter (rate_key (lit "rl:") action ip) max_requests window now s

-- READ_LIMIT, WRITE_LIMIT and WINDOW_SECONDS
abbrev pub read_limit : ℕ
read_limit = 600

abbrev pub write_limit : ℕ
write_limit = 300

abbrev pub window_seconds : ℕ
window_seconds = 60

unfoldable pub exempt_paths : List Text
exempt_paths = lit "/health" ∷ lit "/docs" ∷ lit "/redoc" ∷ lit "/openapi.json" ∷ []

unfoldable pub is_unlimited : Text → Bool
is_unlimited path =
    contains exempt_paths path
    || (starts_with path (lit "/stream/") || starts_with path (lit "/upload/"))

unfoldable pub is_write : Text → Bool
is_write method = contains (lit "POST" ∷ lit "PUT" ∷ lit "PATCH" ∷ lit "DELETE" ∷ []) method

-- Who is counted: the subject of a token, whether it has expired or not, or the address. `decode` is
-- the JWT library's, with the expiry unverified, and gives the subject.
abbrev subject_or : Option Text → Text → Text
subject_or none ip = lit "ip:" ++ ip
subject_or (some user_id) ip = if is_empty user_id then lit "ip:" ++ ip else lit "user:" ++ user_id

unfoldable pub identity_of : (Text → Option Text) → Text → Text → Text
identity_of decode authorization ip =
    if starts_with authorization (lit "Bearer ")
    then subject_or (decode (drop 7 authorization)) ip
    else lit "ip:" ++ ip

module _ (redis : Redis) where
  open redis use {State}

  -- Whether the request goes on, by its path, its method and its identity.
  unfoldable pub global_rate_limit : Text → Text → Text → ℕ → State → State × Admission
  global_rate_limit path method identity now s =
      if is_unlimited path
      then (s, allowed)
      else if is_write method
      then check_counter redis (rate_key (lit "grl:") (lit "global_w") identity) write_limit
          window_seconds now s
      else check_counter redis (rate_key (lit "grl:") (lit "global_r") identity) read_limit
          window_seconds now s
