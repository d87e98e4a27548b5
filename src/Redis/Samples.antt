-- ===== src/Redis/Samples.antt =====
-- A server in memory that fulfils the interface, runs on it, and the theorems at concrete inputs.
use mathlib.Core.Logic.{◌≢◌}
use film_bill.Base.{
  ◌≡◌, refl, sym, ◌∙◌, inl, inr, ℕ, ◌+◌, ◌-◌, ◌*◌, ◌/◌, ◌≤◌, ◌<◌, true, false, Option, none, some,
  List, [], ◌∷◌, ltb, arith, if◌then◌else◌, text_eq, lookup, insert, lookup-insert,
  text_has_equality, Bool-cases, count,
}
use film_bill.Base.Text.{starts_with, Text, lit, lower}
use film_bill.Base.Digits.{show}
use film_bill.Redis.Server.{
  Redis, Entry, lasting, expiring, incremented, with_deadline, with_first_deadline,
}
use film_bill.Redis.Codes.{
  accepted, too_many_attempts, expired_or_missing, invalid_code, code_key, attempts_key, store_code,
  clear_code, count_attempt, verify_code,
}
use film_bill.Redis.Guesses.{
  AllWrong, is_invalid, is_accepted, guesses_from, after_guesses, store_code_bounds,
}
use film_bill.Redis.Single.{store-verify_code}
use film_bill.Redis.Pools.{magic, reset, pool_of, pool-IsUsable, keys-Apart}
use film_bill.Redis.Limits.{
  allowed, refused, count_request, check_counter, global_rate_limit, rate_key, is_unlimited,
  exempt_paths, is_write,
}
use film_bill.Redis.Windows.{check, after_requests, admissions, refused_waits}
use film_bill.Redis.Minute.{ApiRequest, is_let_through, answers, write_requests_bounds}

abbrev Memory : Type 0
Memory = List (Text × Option Entry)

abbrev flat : Option (Option Entry) → Option Entry
flat none = none
flat (some o) = o

abbrev held : Memory → ℕ → Text → Option Entry
held s now k = lasting now (flat (lookup k s))

lasting_twice : (t now : ℕ) (o : Option Entry) → t ≤ now → lasting now o ≡ lasting now (lasting t o)
lasting_twice t now none h = refl
lasting_twice t now (some e) h = twice e.value e.deadline
  where
    twice :
        (v : Text) (d : Option ℕ)
        → lasting now (some (record { value = v; deadline = d }))
          ≡ lasting now (lasting t (some (record { value = v; deadline = d })))
    twice v none = refl
    twice v (some d) = elim (Bool-cases (ltb t d)) [
      | inl live ↦ rw live refl
      | inr over ↦ let over_too : ltb now d ≡ false = ground arith in rw (over, over_too) refl
    ]

-- A command writes what it makes of the entry that is held.
abbrev command : (Option Entry → Option Entry) → Text → ℕ → Memory → Memory
command f k t s = insert k (f (held s t k)) s

held-command :
    (f : Option Entry → Option Entry) (s : Memory) (t : ℕ) (k j : Text)
    → held (command f k t s) t j ≡ (if text_eq j k then lasting t (f (held s t k)) else held s t j)
held-command f s t k j = rw (lookup-insert k j (f (held s t k)) s) (ground arith)

-- The change of an entry that is live leaves one that is, or none.
abbrev KeepsLive : ℕ → (Option Entry → Option Entry) → Type 0
KeepsLive t f = (o : Option Entry) → lasting t o ≡ o → lasting t (f o) ≡ f o

held-kept :
    (f : Option Entry → Option Entry) (s : Memory) (t : ℕ) (k j : Text)
    → KeepsLive t f
    → held (command f k t s) t j ≡ (if text_eq j k then f (held s t k) else held s t j)
held-kept f s t k j keeps =
    held-command f s t k j
    ∙ rw (keeps (held s t k) (sym (lasting_twice t t (flat (lookup k s)) (omega arith)))) refl

incremented-live : (t : ℕ) → KeepsLive t (λ o. some (incremented o))
incremented-live t none h = refl
incremented-live t (some e) h = live e.value e.deadline h
  where
    live :
        (v : Text) (d : Option ℕ)
        → lasting t (some (record { value = v; deadline = d }))
          ≡ some (record { value = v; deadline = d })
        → lasting t (some (incremented (some (record { value = v; deadline = d }))))
          ≡ some (incremented (some (record { value = v; deadline = d })))
    live v none h = refl
    live v (some d) h = elim (Bool-cases (ltb t d)) [
      | inl e ↦ rw e refl
      | inr e ↦ (let gone = rw e at h in cc)
    ]

-- A deadline that lies ahead.
set-live :
    (t deadline : ℕ)
    → t < deadline
    → (v : Text) → lasting t (some (expiring deadline v)) ≡ some (expiring deadline v)
set-live t deadline h v = let live : ltb t deadline ≡ true = ground arith in rw live refl

-- Rounded to whole seconds.
abbrev seconds_to : ℕ → Option Entry → ℕ
seconds_to now none = 0
seconds_to now (some e) = elim e.deadline [ none ↦ 0 | some d ↦ (d - now + 500) / 1_000 ]

seconds-near :
    (s : Memory) (now deadline : ℕ) (k v : Text)
    → held s now k ≡ some (expiring deadline v)
    → (deadline - now ≤ 1_000 * seconds_to now (held s now k) + 500)
      × (1_000 * seconds_to now (held s now k) ≤ deadline - now + 500)
seconds-near s now deadline k v h = rw h (omega arith, omega arith)

deadline-live : (t ttl : ℕ) → 0 < ttl → KeepsLive t (with_deadline (t + 1_000 * ttl))
deadline-live t ttl lasts none h = refl
deadline-live t ttl lasts (some e) h = set-live t (t + 1_000 * ttl) (omega arith) e.value

first_deadline-live : (t ttl : ℕ) → 0 < ttl → KeepsLive t (with_first_deadline (t + 1_000 * ttl))
first_deadline-live t ttl lasts none h = refl
first_deadline-live t ttl lasts (some e) h = live e.value e.deadline h
  where
    live :
        (v : Text) (d : Option ℕ)
        → lasting t (some (record { value = v; deadline = d }))
          ≡ some (record { value = v; deadline = d })
        → lasting t
            (with_first_deadline (t + 1_000 * ttl) (some (record { value = v; deadline = d })))
          ≡ with_first_deadline (t + 1_000 * ttl) (some (record { value = v; deadline = d }))
    live v none h = set-live t (t + 1_000 * ttl) (omega arith) v
    live v (some d) h = h

abbrev memory : Redis
memory = record {
  State = Memory;
  entry = held;
  ttl = λ s now k. seconds_to now (held s now k);
  ttl-near = seconds-near;
  setex = λ k ttl v t s. command (λ o. some (expiring (t + 1_000 * ttl) v)) k t s;
  delete = λ k t s. command (λ o. none) k t s;
  incr = λ k t s. command (λ o. some (incremented o)) k t s;
  expire = λ k ttl t s. command (with_deadline (t + 1_000 * ttl)) k t s;
  expire_nx = λ k ttl t s. command (with_first_deadline (t + 1_000 * ttl)) k t s;
  later = λ s t now k h. lasting_twice t now (flat (lookup k s)) h;
  entry-setex = λ s t ttl k j v lasts.
      held-kept (λ o. some (expiring (t + 1_000 * ttl) v)) s t k j
        (λ o h. set-live t (t + 1_000 * ttl) (omega arith) v);
  entry-delete = λ s t k j. held-kept (λ o. none) s t k j (λ o h. refl);
  entry-incr = λ s t k j. held-kept (λ o. some (incremented o)) s t k j (incremented-live t);
  entry-expire = λ s t ttl k j lasts.
      held-kept (with_deadline (t + 1_000 * ttl)) s t k j (deadline-live t ttl lasts);
  entry-expire_nx = λ s t ttl k j lasts.
      held-kept (with_first_deadline (t + 1_000 * ttl)) s t k j (first_deadline-live t ttl lasts);
}

abbrev address : Text
address = lit "anna@film.de"

-- Six wrong codes, of which five are compared.
abbrev guesses : List (ℕ × Text)
guesses =
    (5_000, lit "111111")
    ∷ (5_000, lit "222222")
    ∷ (5_000, lit "333333")
    ∷ (5_000, lit "444444")
    ∷ (5_000, lit "555555")
    ∷ (5_000, lit "666666")
    ∷ []

guesses_run :
    guesses_from memory
      (pool_of magic)
      address
      guesses
      100
      (store_code memory (pool_of magic) address (lit "123456") 100 [])
    ≡ invalid_code ∷ invalid_code ∷ invalid_code ∷ invalid_code ∷ invalid_code ∷ too_many_attempts
      ∷ []
unfolding store_code verify_code clear_code count_attempt code_key attempts_key lit lower text_eq
    show
guesses_run = refl

wrong_guesses : AllWrong (lit "123456") guesses
unfolding lit text_eq
wrong_guesses = (refl, (refl, (refl, (refl, (refl, (refl, tt))))))

store_code_bounds_example :
    (count is_invalid (
        guesses_from memory
          (pool_of magic)
          address
          guesses
          100
          (store_code memory (pool_of magic) address (lit "123456") 100 []))
      ≤ 5)
    × (count is_accepted (
          guesses_from memory
            (pool_of magic)
            address
            guesses
            100
            (store_code memory (pool_of magic) address (lit "123456") 100 []))
        ≡ 0)
unfolding lit
store_code_bounds_example =
    store_code_bounds memory (pool_of magic) address (pool-IsUsable magic address) (lit "123456")
      100 guesses [] refl wrong_guesses

-- Two wrong guesses, then the code.
abbrev guessed_twice : List (ℕ × Text)
guessed_twice = (5_000, lit "111111") ∷ (5_000, lit "222222") ∷ []

guessed_twice-AllWrong : AllWrong (lit "123456") guessed_twice
unfolding lit text_eq
guessed_twice-AllWrong = (refl, (refl, tt))

abbrev after_two_guesses : Memory
after_two_guesses =
    (after_guesses memory (pool_of reset) address guessed_twice 100
      (store_code memory (pool_of reset) address (lit "123456") 100 [])).1

store-verify_code_example :
    ((verify_code memory (pool_of reset) address (lit "123456") 400_000 after_two_guesses).1
      ≡ accepted)
    × ((verify_code memory
          (pool_of reset)
          address
          (lit "123456")
          401_000
          (verify_code memory (pool_of reset) address (lit "123456") 400_000 after_two_guesses).0).1
        ≡ expired_or_missing)
unfolding lit
store-verify_code_example =
    store-verify_code memory (pool_of reset) address (pool-IsUsable reset address) (lit "123456")
      (lit "123456") 100 10_100 400_000 401_000 guessed_twice [] after_two_guesses refl
      guessed_twice-AllWrong (omega arith) refl (omega arith) (omega arith) (omega arith)

keys-Apart_example :
    (code_key (pool_of magic) address ≢ attempts_key (pool_of reset) address)
    × (magic ≢ reset
        → (code_key (pool_of magic) address ≢ code_key (pool_of reset) address)
          × (attempts_key (pool_of magic) address ≢ attempts_key (pool_of reset) address))
keys-Apart_example = keys-Apart magic reset address address

-- Three requests under a limit of two, then one when the window is over. The wait that the third is
-- told is rounded: 58_300 milliseconds are left of the minute.
window_run :
    admissions memory (lit "rl:login:10.0.0.1") 2 60 (1_000 ∷ 700 ∷ 1_000 ∷ 58_300 ∷ []) 100 []
    ≡ allowed ∷ allowed ∷ refused 58 ∷ allowed ∷ []
unfolding check_counter count_request text_eq show lit
window_run = refl

abbrev counted_two : Memory
counted_two = (after_requests memory (lit "rl:login:10.0.0.1") 2 60 (1_000 ∷ 700 ∷ []) 100 []).1

third_refused : (check memory (lit "rl:login:10.0.0.1") 2 60 1_800 counted_two).1 ≡ refused 59
unfolding check_counter count_request text_eq show lit
third_refused = refl

refused_waits_example :
    (0 < 59)
    × (59 ≤ 60)
    × ((check memory (lit "rl:login:10.0.0.1") 2 60 1_800 counted_two).0 ≡ counted_two)
    × ((check memory (lit "rl:login:10.0.0.1") 2 60 61_300 counted_two).1 ≡ allowed)
refused_waits_example =
    refused_waits memory (lit "rl:login:10.0.0.1") 2 60 (omega arith) (omega arith) 100 1_800 59
      61_300 (1_000 ∷ 700 ∷ []) [] counted_two refl refl third_refused (omega arith)

-- The window starts with the first request that it counts: two requests on either side of its end are
-- allowed within a second, under a limit of two a minute.
fixed_window_run :
    admissions memory (lit "rl:login:10.0.0.1") 2 60 (0 ∷ 59_000 ∷ 1_000 ∷ 0 ∷ 0 ∷ []) 100 []
    ≡ allowed ∷ allowed ∷ allowed ∷ allowed ∷ refused 60 ∷ []
unfolding check_counter count_request text_eq show lit
fixed_window_run = refl

abbrev reads_bills : ApiRequest
reads_bills = record {
  delay = 1_000;
  path = lit "/bills";
  method = lit "GET";
  identity = lit "user:7";
}

abbrev writes_bill : ApiRequest
writes_bill = record reads_bills { method = lit "POST" }

abbrev someone_writes : ApiRequest
someone_writes = record writes_bill { identity = lit "ip:10.0.0.1" }

abbrev requests : List ApiRequest
requests = writes_bill ∷ reads_bills ∷ someone_writes ∷ writes_bill ∷ []

requests_let_through : count (is_let_through (lit "user:7")) (answers memory requests 100 []) ≡ 2
unfolding global_rate_limit is_unlimited exempt_paths is_write starts_with check_counter
    count_request rate_key text_eq show lit
requests_let_through = refl

write_requests_bounds_example :
    count (is_let_through (lit "user:7")) (answers memory requests 100 []) ≤ 300
write_requests_bounds_example =
    write_requests_bounds memory (lit "user:7") 100 requests [] refl (omega arith)
