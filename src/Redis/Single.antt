-- ===== src/Redis/Single.antt =====
-- A code is accepted once (the `store_*`, `verify_*` and `clear_*` functions of
-- apps/api/services/redis_service.py).
use film_bill.Base.{
  ◌≡◌, refl, ap, ◌∙◌, ℕ, ◌+◌, ◌*◌, ◌≤◌, ◌<◌, true, false, none, some, List, ltb, leb, arith,
  if◌then◌else◌, text_eq_refl, length,
}
use film_bill.Base.Text.{Text, is_empty}
use film_bill.Redis.Server.{Redis, lasting, expiring}
use film_bill.Redis.Codes.{
  Pool, code_key, attempts_key, accepted, expired_or_missing, store_code, clear_code, verify_code,
}
use film_bill.Redis.Guesses.{
  IsUsable, Holds, Holds-later, store_code-Holds, Counts-attempts, after_guesses, guesses-Holds,
  AllWrong,
}

module _ (redis : Redis) (pool : Pool) (email : Text) (usable : IsUsable pool email) where
  open redis use {State, entry, later, entry-delete}

  -- Neither a code nor a counter.
  record IsGone (t : ℕ) (s : State) : Type 0 where
    code : entry s t (code_key pool email) ≡ none
    counter : entry s t (attempts_key pool email) ≡ none

  clear_code-IsGone : (t : ℕ) (s : State) → IsGone t (clear_code redis pool email t s)
  unfolding clear_code
  clear_code-IsGone t s = record {
    code = rw (entry-delete, usable.differ, entry-delete, text_eq_refl (code_key pool email)) refl;
    counter = rw (entry-delete, text_eq_refl (attempts_key pool email)) refl;
  }

  gone_refuses :
      (guess : Text) (t now : ℕ) (s : State)
      → t ≤ now
      → 0 < pool.max_attempts
      → IsGone t s
      → (verify_code redis pool email guess now s).1 ≡ expired_or_missing
  unfolding verify_code
  gone_refuses guess t now s h m g =
      let no_code : entry s now (code_key pool email) ≡ none =
        later s t now (code_key pool email) h ∙ ap (lasting now) g.code in
      let no_count : entry s now (attempts_key pool email) ≡ none =
        later s t now (attempts_key pool email) h ∙ ap (lasting now) g.counter in
      let open_ : leb pool.max_attempts 0 ≡ false = ground arith in
      rw (no_count, open_, no_code) refl

  accepts_code :
      (code : Text) (now end n : ℕ) (s : State)
      → is_empty code ≡ false
      → n < pool.max_attempts
      → now < end
      → Holds redis pool email usable code end n now s
      → verify_code redis pool email code now s ≡ (clear_code redis pool email now s, accepted)
  unfolding verify_code
  accepts_code code now end n s filled m b k =
      let within : ltb now end ≡ true = ground arith in
      let there : entry s now (code_key pool email) ≡ some (expiring end code) =
        k.stored
        ∙ (let e : (if ltb now end then some (expiring end code) else none)
                ≡ some (expiring end code) =
              rw within refl in
            e) in
      let counted = Counts-attempts end n _ (k.counted b) in
      let open_ : leb pool.max_attempts n ≡ false = ground arith in
      rw (counted, open_, there, filled, text_eq_refl code) refl

  -- A code that is stored is accepted while it lives, whatever was counted before it was stored and after
  -- fewer wrong guesses than the pool allows, and once it is accepted, no code is, at any later moment,
  -- until another is stored.
  pub store-verify_code :
      (code guess : Text) (t tried now then_ : ℕ) (guesses : List (ℕ × Text)) (s s' : State)
      → is_empty code ≡ false
      → AllWrong code guesses
      → length guesses < pool.max_attempts
      → after_guesses redis pool email guesses t (store_code redis pool email code t s)
        ≡ (tried, s')
      → tried ≤ now
      → now < t + 1_000 * pool.expiry_seconds
      → now ≤ then_
      → ((verify_code redis pool email code now s').1 ≡ accepted)
        × ((verify_code redis pool email guess then_ (verify_code redis pool email code now s').0).1
            ≡ expired_or_missing)
  store-verify_code code guess t tried now then_ guesses s s' filled wrong few reached h b k =
      let end = t + 1_000 * pool.expiry_seconds in
      let (n, left, holds) =
        guesses-Holds redis pool email usable code end 0 t guesses
          (store_code redis pool email code t s) (omega arith) (omega arith) filled wrong
          (store_code-Holds redis pool email usable code t s) in
      let held : Holds redis pool email usable code end n now s' =
        Holds-later redis pool email usable code end n tried now s' h (rw reached at holds) in
      let result = accepts_code code now end n s' filled left b held in
      rw result (
        refl,
        gone_refuses guess now then_ (clear_code redis pool email now s') k (omega arith)
            (clear_code-IsGone now s'),
      )
