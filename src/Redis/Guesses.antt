-- ===== src/Redis/Guesses.antt =====
-- How often a code can be guessed (the `verify_*` functions of apps/api/services/redis_service.py).
use film_bill.Base.{
  ◌≡◌, refl, ap, ◌∙◌, ◌⊎◌, inl, inr, ℕ, ◌+◌, ◌*◌, ◌≤◌, ◌<◌, Bool, true, false, Option, none, some,
  List, [], ◌∷◌, ltb, leb, arith, if◌then◌else◌, text_eq, text_eq_refl, Bool-cases, bit,
  bit_bounded, count, length, All,
}
use film_bill.Base.Text.{Text, is_empty}
use film_bill.Base.Digits.{show}
use film_bill.Base.Digits.Reading.{read-show}
use film_bill.Redis.Server.{
  Redis, Entry, lasting, expiring, incremented, with_deadline, value_of, get,
}
use film_bill.Redis.Codes.{
  Pool, code_key, attempts_key, Verdict, accepted, invalid_code, attempts_of, store_code,
  count_attempt, verify_code,
}

-- A pool whose two keys of an address differ, and whose codes and counters live for a while.
pub record IsUsable (pool : Pool) (email : Text) : Type 0 where
  pub lives : 0 < pool.expiry_seconds
  pub differ : text_eq (code_key pool email) (attempts_key pool email) ≡ false
  pub differ' : text_eq (attempts_key pool email) (code_key pool email) ≡ false

-- The counter of the wrong guesses: it is not there, or it outlives the code.
abbrev pub Counts : ℕ → ℕ → Option Entry → Type 0
Counts end n o =
    ((n ≡ 0) × (o ≡ none))
    ⊎ ((d : ℕ) × (o ≡ some (record { value = show n; deadline = some d })) × (end ≤ d))

Counts-lasting :
    (end n now : ℕ) (o : Option Entry) → now < end → Counts end n o → Counts end n (lasting now o)
Counts-lasting end n now o h (inl (zeroed, gone)) = inl (zeroed, rw gone refl)
Counts-lasting end n now o h (inr (d, there, long)) =
    let live : ltb now d ≡ true = ground arith in inr (d, rw (there, live) refl, long)

pub Counts-attempts : (end n : ℕ) (o : Option Entry) → Counts end n o → attempts_of (value_of o) ≡ n
Counts-attempts end n o (inl (zeroed, gone)) = rw (gone, zeroed) refl
Counts-attempts end n o (inr (d, there, long)) = rw there (read-show n)

Counts-incremented :
    (end n deadline : ℕ) (o : Option Entry)
    → end ≤ deadline
    → Counts end n o
    → Counts end (n + 1) (with_deadline deadline (some (incremented o)))
Counts-incremented end n deadline o h (inl (zeroed, gone)) =
    inr (deadline, rw (gone, zeroed) refl, h)
Counts-incremented end n deadline o h (inr (d, there, long)) =
    inr (deadline, rw (there, read-show n) refl, h)

abbrev pub is_invalid : Verdict → Bool
is_invalid invalid_code = true
is_invalid _ = false

abbrev pub is_accepted : Verdict → Bool
is_accepted accepted = true
is_accepted _ = false

module _ (redis : Redis) (pool : Pool) (email : Text) where
  open redis use {State}

  -- Guesses, each with the time since the one before, in milliseconds.
  abbrev pub guesses_from : List (ℕ × Text) → ℕ → State → List Verdict
  guesses_from [] t s = []
  guesses_from ((delay, guess) ∷ guesses) t s =
      let (s', verdict) = verify_code redis pool email guess (t + delay) s in
      verdict ∷ guesses_from guesses (t + delay) s'

  -- The moment and the state after them.
  abbrev pub after_guesses : List (ℕ × Text) → ℕ → State → ℕ × State
  after_guesses [] t s = (t, s)
  after_guesses ((delay, guess) ∷ guesses) t s =
      after_guesses guesses (t + delay) (verify_code redis pool email guess (t + delay) s).0

abbrev pub AllWrong : Text → List (ℕ × Text) → Type 0
AllWrong code guesses = All (λ (g : ℕ × Text). text_eq code g.1 ≡ false) guesses

module _ (redis : Redis) (pool : Pool) (email : Text) (usable : IsUsable pool email) where
  open redis use {State, entry, later, entry-setex, entry-delete, entry-incr, entry-expire}

  -- At the moment `t` the code is `code` if `t` lies before `end`, and then `n` wrong guesses are counted.
  pub record Holds (code : Text) (end n t : ℕ) (s : State) : Type 0 where
    pub stored :
        entry s t (code_key pool email) ≡ (if ltb t end then some (expiring end code) else none)
    pub counted : t < end → Counts end n (entry s t (attempts_key pool email))

  pub Holds-later :
      (code : Text) (end n t now : ℕ) (s : State)
      → t ≤ now
      → Holds code end n t s
      → Holds code end n now s
  Holds-later code end n t now s h k = record {
    stored = later s t now (code_key pool email) h ∙ (ap (lasting now) k.stored ∙ lasting_code);
    counted = λ b.
        rw (later s t now (attempts_key pool email) h)
          (Counts-lasting end n now _ b (k.counted (omega arith)));
  }
    where
      lasting_code :
          lasting now (if ltb t end then some (expiring end code) else none)
          ≡ (if ltb now end then some (expiring end code) else none)
      lasting_code = ground arith

  pub store_code-Holds :
      (code : Text) (t : ℕ) (s : State)
      → Holds code (t + 1_000 * pool.expiry_seconds) 0 t (store_code redis pool email code t s)
  unfolding store_code
  store_code-Holds code t s =
      let before : ltb t (t + 1_000 * pool.expiry_seconds) ≡ true = ground (arith, usable.lives) in
      record {
        stored =
            rw
              (
                entry-delete,
                usable.differ,
                entry-setex _ t _ _ _ code usable.lives,
                text_eq_refl (code_key pool email),
                before,
              )
              refl;
        counted = λ _. inl (refl, rw (entry-delete, text_eq_refl (attempts_key pool email)) refl);
      }

  count_attempt-Holds :
      (code : Text) (end n t : ℕ) (s : State)
      → end ≤ t + 1_000 * pool.expiry_seconds
      → t < end
      → Holds code end n t s
      → Holds code end (n + 1) t (count_attempt redis pool email t s)
  unfolding count_attempt
  count_attempt-Holds code end n t s h b k = record {
    stored =
        rw
          (
            entry-expire _ t pool.expiry_seconds _ _ usable.lives,
            usable.differ,
            entry-incr,
            usable.differ,
          )
          k.stored;
    counted = λ _.
        rw
          (
            entry-expire _ t pool.expiry_seconds _ _ usable.lives,
            text_eq_refl (attempts_key pool email),
            entry-incr,
            text_eq_refl (attempts_key pool email),
          )
          (Counts-incremented end n (t + 1_000 * pool.expiry_seconds) _ h (k.counted b));
  }

  -- What a wrong guess leaves.
  record Leaves (code : Text) (end n t : ℕ) (result : State × Verdict) : Type 0 where
    now_counted : ℕ
    holds : Holds code end now_counted t result.0
    counts : n + bit (is_invalid result.1) ≡ now_counted
    bounded : now_counted ≤ pool.max_attempts
    refuses : is_accepted result.1 ≡ false

  current_code :
      (code : Text) (end n t : ℕ) (s : State)
      → Holds code end n t s
      → get redis s t (code_key pool email) ≡ (if ltb t end then some code else none)
  current_code code end n t s k =
      ap value_of k.stored
      ∙ (let cases : value_of (if ltb t end then some (expiring end code) else none)
              ≡ (if ltb t end then some code else none) =
            ground arith in
          cases)

  wrong_guess :
      (code guess : Text) (end n t : ℕ) (s : State)
      → end ≤ t + 1_000 * pool.expiry_seconds
      → n ≤ pool.max_attempts
      → is_empty code ≡ false
      → text_eq code guess ≡ false
      → Holds code end n t s
      → Leaves code end n t (verify_code redis pool email guess t s)
  unfolding verify_code
  wrong_guess code guess end n t s h m filled wrong k =
      elim (Bool-cases
        (leb pool.max_attempts (attempts_of (get redis s t (attempts_key pool email))))) [
          | inl full ↦ rw full (record {
            now_counted = n;
            holds = k;
            counts = omega arith;
            bounded = m;
            refuses = refl;
          })
          | inr left ↦ elim (Bool-cases (ltb t end)) [
            | inr over ↦
                let gone : get redis s t (code_key pool email) ≡ none =
                  current_code code end n t s k
                  ∙ (let e : (if ltb t end then some code else none) ≡ none = rw over refl in e) in
                rw (left, gone)
                  (record {
                    now_counted = n;
                    holds = k;
                    counts = omega arith;
                    bounded = m;
                    refuses = refl;
                  })
            | inl within ↦
                let there : get redis s t (code_key pool email) ≡ some code =
                  current_code code end n t s k
                  ∙ (let e : (if ltb t end then some code else none) ≡ some code = rw within refl in
                      e) in
                let before : t < end = ground arith in
                let counted = Counts-attempts end n _ (k.counted before) in
                rw (left, there, filled, wrong)
                  (record {
                    now_counted = n + 1;
                    holds = count_attempt-Holds code end n t s h before k;
                    counts = omega arith;
                    bounded = ground (arith, counted, left);
                    refuses = refl;
                  })
          ]
        ]

  pub guesses-Holds :
      (code : Text) (end n t : ℕ) (guesses : List (ℕ × Text)) (s : State)
      → end ≤ t + 1_000 * pool.expiry_seconds
      → n + length guesses < pool.max_attempts
      → is_empty code ≡ false
      → AllWrong code guesses
      → Holds code end n t s
      → (m : ℕ) × (m < pool.max_attempts)
        × Holds code end m
            (after_guesses redis pool email guesses t s).0
            (after_guesses redis pool email guesses t s).1
  guesses-Holds code end n t [] s h few filled wrong k = (n, omega arith, k)
  guesses-Holds code end n t ((delay, guess) ∷ guesses) s h few filled (wrong, wrongs) k =
      let left =
        wrong_guess code guess end n (t + delay) s (omega arith) (omega arith) filled wrong
          (Holds-later code end n t (t + delay) s (omega arith) k) in
      let one = bit_bounded (is_invalid (verify_code redis pool email guess (t + delay) s).1) in
      guesses-Holds code end left.now_counted (t + delay) guesses
        (verify_code redis pool email guess (t + delay) s).0 (omega arith)
        (omega (arith, few, one, left.counts)) filled wrongs left.holds

  guesses_bounded :
      (code : Text) (end n t : ℕ) (guesses : List (ℕ × Text)) (s : State)
      → end ≤ t + 1_000 * pool.expiry_seconds
      → n ≤ pool.max_attempts
      → is_empty code ≡ false
      → AllWrong code guesses
      → Holds code end n t s
      → (n + count is_invalid (guesses_from redis pool email guesses t s) ≤ pool.max_attempts)
        × (count is_accepted (guesses_from redis pool email guesses t s) ≡ 0)
  guesses_bounded code end n t [] s h m filled wrong k = (omega arith, refl)
  guesses_bounded code end n t ((delay, guess) ∷ guesses) s h m filled (wrong, wrongs) k =
      let left =
        wrong_guess code guess end n (t + delay) s (omega arith) m filled wrong
          (Holds-later code end n t (t + delay) s (omega arith) k) in
      let (few, refused) =
        guesses_bounded code end left.now_counted (t + delay) guesses
          (verify_code redis pool email guess (t + delay) s).0 (omega arith) left.bounded filled
          wrongs left.holds in
      let none_yet : bit (is_accepted (verify_code redis pool email guess (t + delay) s).1) ≡ 0 =
        rw left.refuses refl in
      (omega (arith, few, left.counts), omega (arith, none_yet, refused))

  -- After a code is stored, and whatever wrong codes are then tried and whenever, no more of them than
  -- the pool allows are compared with it and answered as invalid; the others are refused unseen, and
  -- none is accepted.
  pub store_code_bounds :
      (code : Text) (t : ℕ) (guesses : List (ℕ × Text)) (s : State)
      → is_empty code ≡ false
      → AllWrong code guesses
      → (count is_invalid
            (guesses_from redis pool email guesses t (store_code redis pool email code t s))
          ≤ pool.max_attempts)
        × (count is_accepted
              (guesses_from redis pool email guesses t (store_code redis pool email code t s))
            ≡ 0)
  store_code_bounds code t guesses s filled wrong =
      let (few, refused) =
        guesses_bounded code (t + 1_000 * pool.expiry_seconds) 0 t guesses _ (omega arith)
          (omega arith) filled wrong (store_code-Holds code t s) in
      (omega (arith, few), refused)
