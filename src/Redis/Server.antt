-- ===== src/Redis/Server.antt =====
-- The commands of a Redis server that apps/api/services/redis_service.py calls, and their documented
-- effect on the entry of a key. Nothing else of the server is assumed. Moments and deadlines are in
-- milliseconds, as the server keeps them; the commands take and give seconds.
use film_bill.Base.{
  ◌≡◌, ℕ, ◌+◌, ◌-◌, ◌*◌, ◌≤◌, ◌<◌, Bool, true, Option, none, some, ltb, if◌then◌else◌, text_eq,
  text_has_equality,
}
use film_bill.Base.Text.{Text}
use film_bill.Base.Digits.{show, read}

-- A value and the moment at which it expires, if it does.
pub record Entry : Type 0 where
  pub value : Text
  pub deadline : Option ℕ

abbrev pub is_live : ℕ → Option ℕ → Bool
is_live now none = true
is_live now (some deadline) = ltb now deadline

-- What is left of an entry at a later moment.
abbrev pub lasting : ℕ → Option Entry → Option Entry
lasting now none = none
lasting now (some e) = if is_live now e.deadline then some e else none

abbrev pub expiring : ℕ → Text → Entry
expiring deadline value = record { value = value; deadline = some deadline }

-- A counter that is not there counts from zero and does not expire.
abbrev pub incremented : Option Entry → Entry
incremented none = record { value = show 1; deadline = none }
incremented (some e) = record e { value = show (read e.value + 1) }

abbrev pub with_deadline : ℕ → Option Entry → Option Entry
with_deadline deadline none = none
with_deadline deadline (some e) = some (record e { deadline = some deadline })

-- `expire(…, nx=True)`: an entry that expires already keeps its deadline.
abbrev pub with_first_deadline : ℕ → Option Entry → Option Entry
with_first_deadline deadline none = none
with_first_deadline deadline (some e) = elim e.deadline [
  | none ↦ some (record e { deadline = some deadline })
  | some d ↦ some e
]

pub record Redis : Type 1 where
  pub State : Type 0
  pub entry : State → ℕ → Text → Option Entry
  pub setex : Text → ℕ → Text → ℕ → State → State
  pub delete : Text → ℕ → State → State
  pub incr : Text → ℕ → State → State
  pub expire : Text → ℕ → ℕ → State → State
  pub expire_nx : Text → ℕ → ℕ → State → State
  -- What `ttl` answers for a key, with 0 for its negative answers (the key is not there, or does not
  -- expire). The time that is left is rounded to whole seconds.
  pub ttl : State → ℕ → Text → ℕ
  pub ttl-near :
      (s : State) (now deadline : ℕ) (k v : Text)
      → entry s now k ≡ some (expiring deadline v)
      → (deadline - now ≤ 1_000 * ttl s now k + 500) × (1_000 * ttl s now k ≤ deadline - now + 500)
  pub later :
      (s : State) (t now : ℕ) (k : Text) → t ≤ now → entry s now k ≡ lasting now (entry s t k)
  pub entry-setex :
      (s : State) (t ttl : ℕ) (k j v : Text)
      → 0 < ttl
      → entry (setex k ttl v t s) t j
        ≡ (if text_eq j k then some (expiring (t + 1_000 * ttl) v) else entry s t j)
  pub entry-delete :
      (s : State) (t : ℕ) (k j : Text)
      → entry (delete k t s) t j ≡ (if text_eq j k then none else entry s t j)
  pub entry-incr :
      (s : State) (t : ℕ) (k j : Text)
      → entry (incr k t s) t j
        ≡ (if text_eq j k then some (incremented (entry s t k)) else entry s t j)
  pub entry-expire :
      (s : State) (t ttl : ℕ) (k j : Text)
      → 0 < ttl
      → entry (expire k ttl t s) t j
        ≡ (if text_eq j k then with_deadline (t + 1_000 * ttl) (entry s t k) else entry s t j)
  pub entry-expire_nx :
      (s : State) (t ttl : ℕ) (k j : Text)
      → 0 < ttl
      → entry (expire_nx k ttl t s) t j
        ≡ (if text_eq j k then with_first_deadline (t + 1_000 * ttl) (entry s t k) else entry s t j)

abbrev pub value_of : Option Entry → Option Text
value_of none = none
value_of (some e) = some e.value

-- `r.get(key)`
module _ (redis : Redis) where
  open redis use {State, entry}

  abbrev pub get : State → ℕ → Text → Option Text
  get s now k = value_of (entry s now k)
