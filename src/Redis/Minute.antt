-- ===== src/Redis/Minute.antt =====
-- The requests that one identity can make within a minute, among everything else that is asked of the
-- API (apps/api/middleware/global_rate_limit.py).
use film_bill.Base.{
  ◌≡◌, refl, ◌∙◌, inl, inr, ℕ, ◌+◌, ◌*◌, ◌≤◌, ◌<◌, Bool, true, false, not, ◌&&◌, none, List, [],
  ◌∷◌, ◌++◌, nat_eq, arith, text_eq, text_eq_iff, Bool-cases, bit, count,
}
use film_bill.Base.Text.{Text, lit}
use film_bill.Redis.Server.{Redis, get}
use film_bill.Redis.Limits.{
  Admission, is_allowed, is_full, count_request, check_counter, rate_key, read_limit, write_limit,
  window_seconds, is_unlimited, is_write, global_rate_limit,
}
use film_bill.Redis.Windows.{Window, Window-later, check-Window, check}

-- `delay` is the time since the request before, in milliseconds.
pub record ApiRequest : Type 0 where
  pub delay : ℕ
  pub path : Text
  pub method : Text
  pub identity : Text

abbrev pub write_key : Text → Text
write_key identity = rate_key (lit "grl:") (lit "global_w") identity

abbrev pub read_key : Text → Text
read_key identity = rate_key (lit "grl:") (lit "global_r") identity

-- A request that the limit on the writes of an identity counts.
abbrev pub is_counted : Text → ApiRequest → Bool
is_counted identity r =
    not (is_unlimited r.path) && (is_write r.method && text_eq identity r.identity)

module _ (redis : Redis) where
  open redis use {State}

  abbrev pub handle : ApiRequest → ℕ → State → State × Admission
  handle r now s = global_rate_limit redis r.path r.method r.identity now s

  -- Requests, each with the time since the one before, and how they are answered.
  abbrev pub answers : List ApiRequest → ℕ → State → List (ApiRequest × Admission)
  answers [] t s = []
  answers (r ∷ rs) t s =
      (r, (handle r (t + r.delay) s).1) ∷ answers rs (t + r.delay) (handle r (t + r.delay) s).0

abbrev pub duration : List ApiRequest → ℕ
duration [] = 0
duration (r ∷ rs) = r.delay + duration rs

-- A write that the limit counts and lets through.
abbrev pub is_let_through : Text → ApiRequest × Admission → Bool
is_let_through identity (r, answer) = is_counted identity r && is_allowed answer

write_key-read_key : (i j : Text) → text_eq (write_key i) (read_key j) ≡ false
unfolding rate_key lit text_eq
write_key-read_key i j = refl

text_eq-prefix : (p a b : Text) → text_eq (p ++ a) (p ++ b) ≡ text_eq a b
unfolding text_eq
text_eq-prefix [] a b = refl
text_eq-prefix (c ∷ p) a b =
    let same : nat_eq c c ≡ true = ground arith in rw (same, text_eq-prefix p a b) refl

write_key-equal : (i j : Text) → text_eq (write_key i) (write_key j) ≡ text_eq i j
unfolding rate_key
write_key-equal i j =
    text_eq-prefix (lit "grl:") _ _
    ∙ (text_eq-prefix (lit "global_w") _ _ ∙ text_eq-prefix (lit ":") i j)

module _ (redis : Redis) where
  open redis use {State, entry, later, entry-incr, entry-expire_nx}

  -- A request that is counted under another key.
  check_counter-other :
      (key other : Text) (limit window t : ℕ) (s : State)
      → 0 < window
      → text_eq key other ≡ false
      → entry (check_counter redis other limit window t s).0 t key ≡ entry s t key
  unfolding check_counter count_request
  check_counter-other key other limit window t s lasts h =
      elim (Bool-cases (is_full limit (get redis s t other))) [
        | inl full ↦ rw full refl
        | inr left ↦ rw (left, entry-expire_nx _ t window other key lasts, h, entry-incr, h) refl
      ]

  counted_flags :
      (unlimited write same : Bool)
      → (not unlimited && (write && same)) ≡ true
      → (unlimited ≡ false) × (write ≡ true) × (same ≡ true)
  counted_flags unlimited write same h = (ground arith, ground arith, ground arith)

  handle-counted :
      (identity : Text) (r : ApiRequest) (t : ℕ) (s : State)
      → is_counted identity r ≡ true
      → handle redis r t s ≡ check redis (write_key identity) write_limit window_seconds t s
  unfolding global_rate_limit
  handle-counted identity r t s h =
      let (limited, write, same) =
        counted_flags (is_unlimited r.path) (is_write r.method) (text_eq identity r.identity) h in
      let who : identity ≡ r.identity = (text_eq_iff identity r.identity).0 same in
      rw (limited, write, who) refl

  handle-other :
      (identity : Text) (r : ApiRequest) (t : ℕ) (s : State)
      → is_counted identity r ≡ false
      → entry (handle redis r t s).0 t (write_key identity) ≡ entry s t (write_key identity)
  unfolding global_rate_limit
  handle-other identity r t s h = elim (Bool-cases (is_unlimited r.path)) [
    | inl unlimited ↦ rw unlimited refl
    | inr limited ↦ elim (Bool-cases (is_write r.method)) [
      | inr read ↦
          rw (limited, read)
            (check_counter-other (write_key identity) (read_key r.identity) read_limit
              window_seconds t s (omega arith) (write_key-read_key identity r.identity))
      | inl write ↦
          let someone_else : text_eq identity r.identity ≡ false = ground arith in
          rw (limited, write)
            (check_counter-other (write_key identity) (write_key r.identity) write_limit
              window_seconds t s (omega arith) (write_key-equal identity r.identity ∙ someone_else))
    ]
  ]

  minute_bounded :
      (identity : Text) (end n t : ℕ) (rs : List ApiRequest) (s : State)
      → end ≤ t + 1_000 * window_seconds
      → t + duration rs < end
      → n ≤ write_limit
      → Window write_limit end n t (entry s t (write_key identity))
      → n + count (is_let_through identity) (answers redis rs t s) ≤ write_limit
  minute_bounded identity end n t [] s h inside few w = omega arith
  minute_bounded identity end n t (r ∷ rs) s h inside few w =
      let now_there : Window write_limit end n (t + r.delay)
          (entry s (t + r.delay) (write_key identity)) =
        rw (later s t (t + r.delay) (write_key identity) (omega arith))
          (Window-later write_limit end n t (t + r.delay) _ (omega arith) w) in
      elim (Bool-cases (is_counted identity r)) [
        | inl mine ↦
            let result = handle-counted identity r (t + r.delay) s mine in
            let (m, next, room, counts) =
              check-Window redis (write_key identity) write_limit window_seconds (omega arith)
                (omega arith) end n (t + r.delay) s (omega arith) few now_there in
            let rest =
              minute_bounded identity end m (t + r.delay) rs (handle redis r (t + r.delay) s).0
                (omega arith) (omega arith) room (rw result next) in
            let first : bit (is_let_through identity (r, (handle redis r (t + r.delay) s).1))
                ≡ bit (
                    is_allowed
                      (check redis (write_key identity) write_limit window_seconds (t + r.delay)
                        s).1) =
              rw (mine, result) refl in
            omega (arith, rest, counts, first)
        | inr others ↦
            let rest =
              minute_bounded identity end n (t + r.delay) rs (handle redis r (t + r.delay) s).0
                (omega arith) (omega arith) few
                (rw (handle-other identity r (t + r.delay) s others) now_there) in
            let first : bit (is_let_through identity (r, (handle redis r (t + r.delay) s).1)) ≡ 0 =
              rw others refl in
            omega (arith, rest, first)
      ]

  -- From a moment at which no write of an identity is counted, no more than 300 of its writes are let
  -- through to the limited paths within the minute, whatever it reads and whatever others ask in between.
  pub write_requests_bounds :
      (identity : Text) (t : ℕ) (rs : List ApiRequest) (s : State)
      → entry s t (write_key identity) ≡ none
      → duration rs < 1_000 * window_seconds
      → count (is_let_through identity) (answers redis rs t s) ≤ write_limit
  write_requests_bounds identity t rs s empty inside =
      let bounded =
        minute_bounded identity (t + 1_000 * window_seconds) 0 t rs s (omega arith) (omega arith)
          (omega arith) (inl (refl, empty)) in
      omega (arith, bounded)
