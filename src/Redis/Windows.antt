-- ===== src/Redis/Windows.antt =====
-- How many requests a rate limit lets through, and how long it refuses (`check_rate_limit` of
-- apps/api/services/redis_service.py and `_check` of apps/api/middleware/global_rate_limit.py).
use film_bill.Base.{
  ◌≡◌, refl, sym, ap, ◌∙◌, ◌⊎◌, inl, inr, ℕ, ◌+◌, ◌*◌, ◌≤◌, ◌<◌, max, true, false, Option, none,
  some, List, [], ◌∷◌, ltb, leb, arith, text_eq_refl, Bool-cases, bit, count,
}
use film_bill.Base.Text.{Text}
use film_bill.Base.Digits.{show}
use film_bill.Base.Digits.Reading.{read-show}
use film_bill.Redis.Server.{Redis, Entry, lasting, incremented, with_first_deadline, value_of, get}
use film_bill.Redis.Limits.{
  Admission, allowed, refused, is_allowed, seconds_left, is_full, count_request, check_counter,
}

-- The counter of a window: it is not there, or it counts up to the limit and expires later.
abbrev pub Counts : ℕ → ℕ → ℕ → Option Entry → Type 0
Counts limit window t o =
    (o ≡ none)
    ⊎ ((n : ℕ) × (d : ℕ) × (o ≡ some (record { value = show n; deadline = some d }))
        × (n ≤ limit)
        × (t < d)
        × (d ≤ t + 1_000 * window))

-- The same within a window that ends at `end`, with the number that it has counted.
abbrev pub Window : ℕ → ℕ → ℕ → ℕ → Option Entry → Type 0
Window limit end n t o =
    ((n ≡ 0) × (o ≡ none))
    ⊎ ((d : ℕ) × (o ≡ some (record { value = show n; deadline = some d })) × (end ≤ d))

Counts-later :
    (limit window t now : ℕ) (o : Option Entry)
    → t ≤ now
    → Counts limit window t o
    → Counts limit window now (lasting now o)
Counts-later limit window t now o h (inl gone) = inl (rw gone refl)
Counts-later limit window t now o h (inr (n, d, there, few, long, near)) =
    elim (Bool-cases (ltb now d)) [
      | inl e ↦ inr (n, d, rw (there, e) refl, few, ground arith, omega arith)
      | inr e ↦ inl (rw (there, e) refl)
    ]

pub Window-later :
    (limit end n t now : ℕ) (o : Option Entry)
    → now < end
    → Window limit end n t o
    → Window limit end n now (lasting now o)
Window-later limit end n t now o h (inl (zeroed, gone)) = inl (zeroed, rw gone refl)
Window-later limit end n t now o h (inr (d, there, long)) =
    let live : ltb now d ≡ true = ground arith in inr (d, rw (there, live) refl, long)

Counts-counted :
    (limit t window : ℕ) (o : Option Entry)
    → 0 < limit
    → 0 < window
    → Counts limit window t o
    → is_full limit (value_of o) ≡ false
    → Counts limit window t (with_first_deadline (t + 1_000 * window) (some (incremented o)))
Counts-counted limit t window o some_ lasts (inl gone) left =
    inr (1, t + 1_000 * window, rw gone refl, omega arith, omega arith, omega arith)
Counts-counted limit t window o some_ lasts (inr (n, d, there, few, long, near)) left =
    let below : leb limit n ≡ false = (rw (there, read-show n) at left) in
    inr (n + 1, d, rw (there, read-show n) refl, ground arith, long, near)

Window-counted :
    (limit end n t window : ℕ) (o : Option Entry)
    → end ≤ t + 1_000 * window
    → 0 < limit
    → Window limit end n t o
    → is_full limit (value_of o) ≡ false
    → Window limit end (n + 1) t (with_first_deadline (t + 1_000 * window) (some (incremented o)))
      × (n + 1 ≤ limit)
Window-counted limit end n t window o h some_ (inl (zeroed, gone)) left =
    (inr (t + 1_000 * window, rw (gone, zeroed) refl, h), omega arith)
Window-counted limit end n t window o h some_ (inr (d, there, long)) left =
    let below : leb limit n ≡ false = (rw (there, read-show n) at left) in
    (inr (d, rw (there, read-show n) refl, long), ground arith)

abbrev pub total : List ℕ → ℕ
total [] = 0
total (delay ∷ delays) = delay + total delays

module _ (redis : Redis) (key : Text) (limit window : ℕ) where
  open redis use {State}

  -- The state and the admission of a request at a moment. Moments are in milliseconds, the window is in
  -- seconds.
  abbrev pub check : ℕ → State → State × Admission
  check t s = check_counter redis key limit window t s

  -- Requests, each with the time since the one before: where they lead, and how they are answered.
  abbrev pub after_requests : List ℕ → ℕ → State → ℕ × State
  after_requests [] t s = (t, s)
  after_requests (delay ∷ delays) t s = after_requests delays (t + delay) (check (t + delay) s).0

  abbrev pub admissions : List ℕ → ℕ → State → List Admission
  admissions [] t s = []
  admissions (delay ∷ delays) t s =
      (check (t + delay) s).1 ∷ admissions delays (t + delay) (check (t + delay) s).0

module _ (redis : Redis) (key : Text) (limit window : ℕ) (some_ : 0 < limit)
    (lasts : 0 < window) where
  open redis use {State, entry, ttl, ttl-near, later, entry-incr, entry-expire_nx}

  counted :
      (t : ℕ) (s : State)
      → entry (count_request redis key window t s) t key
        ≡ with_first_deadline (t + 1_000 * window) (some (incremented (entry s t key)))
  unfolding count_request
  counted t s =
      rw (entry-expire_nx _ t window key key lasts, text_eq_refl key, entry-incr, text_eq_refl key)
        refl

  pub check-Window :
      (end n t : ℕ) (s : State)
      → end ≤ t + 1_000 * window
      → n ≤ limit
      → Window limit end n t (entry s t key)
      → (m : ℕ) × Window limit end m t (entry (check redis key limit window t s).0 t key)
        × (m ≤ limit)
        × (n + bit (is_allowed (check redis key limit window t s).1) ≡ m)
  unfolding check_counter
  check-Window end n t s h few w = elim (Bool-cases (is_full limit (get redis s t key))) [
    | inl full ↦ rw full (n, w, few, omega arith)
    | inr left ↦
        let (next, room) = Window-counted limit end n t window (entry s t key) h some_ w left in
        rw left (n + 1, rw (counted t s) next, room, omega arith)
  ]

  check-Counts :
      (t : ℕ) (s : State)
      → Counts limit window t (entry s t key)
      → Counts limit window t (entry (check redis key limit window t s).0 t key)
  unfolding check_counter
  check-Counts t s c = elim (Bool-cases (is_full limit (get redis s t key))) [
    | inl full ↦ rw full c
    | inr left ↦
        rw (left, counted t s) (Counts-counted limit t window (entry s t key) some_ lasts c left)
  ]

  admissions_bounded :
      (end n t : ℕ) (delays : List ℕ) (s : State)
      → end ≤ t + 1_000 * window
      → t + total delays < end
      → n ≤ limit
      → Window limit end n t (entry s t key)
      → n + count is_allowed (admissions redis key limit window delays t s) ≤ limit
  admissions_bounded end n t [] s h inside few w = omega arith
  admissions_bounded end n t (delay ∷ delays) s h inside few w =
      let now_there : Window limit end n (t + delay) (entry s (t + delay) key) =
        rw (later s t (t + delay) key (omega arith))
          (Window-later limit end n t (t + delay) (entry s t key) (omega arith) w) in
      let (m, next, room, counts) = check-Window end n (t + delay) s (omega arith) few now_there in
      let rest =
        admissions_bounded end m (t + delay) delays (check redis key limit window (t + delay) s).0
          (omega arith) (omega arith) room next in
      omega (arith, rest, counts)

  -- From a moment at which nothing is counted, no more requests than the limit are allowed before the
  -- window is over, however many come and whenever they do.
  pub window_bounds :
      (t : ℕ) (delays : List ℕ) (s : State)
      → entry s t key ≡ none
      → total delays < 1_000 * window
      → count is_allowed (admissions redis key limit window delays t s) ≤ limit
  window_bounds t delays s empty inside =
      let bounded =
        admissions_bounded (t + 1_000 * window) 0 t delays s (omega arith) (omega arith)
          (omega arith) (inl (refl, empty)) in
      omega (arith, bounded)

  after-Counts :
      (t : ℕ) (delays : List ℕ) (s : State)
      → Counts limit window t (entry s t key)
      → Counts limit window (after_requests redis key limit window delays t s).0 (
          entry
            (after_requests redis key limit window delays t s).1
            (after_requests redis key limit window delays t s).0
            key)
  after-Counts t [] s c = c
  after-Counts t (delay ∷ delays) s c =
      after-Counts (t + delay) delays (check redis key limit window (t + delay) s).0 (
        check-Counts (t + delay) s (
          rw (later s t (t + delay) key (omega arith))
            (Counts-later limit window t (t + delay) _ (omega arith) c)))

  check-allowed :
      (t : ℕ) (s : State)
      → is_full limit (get redis s t key) ≡ false
      → (check redis key limit window t s).1 ≡ allowed
  unfolding check_counter
  check-allowed t s left = rw left refl

  check-refused :
      (t : ℕ) (s : State)
      → is_full limit (get redis s t key) ≡ true
      → check redis key limit window t s ≡ (s, refused (seconds_left redis key t s))
  unfolding check_counter
  check-refused t s full = rw full refl

  waits :
      (t wait : ℕ) (s : State)
      → Counts limit window t (entry s t key)
      → (check redis key limit window t s).1 ≡ refused wait
      → (0 < wait)
        × (wait ≤ window)
        × ((check redis key limit window t s).0 ≡ s)
        × ((then_ : ℕ) → t + 1_000 * wait + 500 ≤ then_ → entry s then_ key ≡ none)
  waits t wait s (inl gone) h =
      let open_ : (check redis key limit window t s).1 ≡ allowed =
        check-allowed t s (rw gone refl) in
      cc
  waits t wait s (inr (n, d, there, few, long, near)) h =
      elim (Bool-cases (is_full limit (get redis s t key))) [
        | inr left ↦
            let open_ : (check redis key limit window t s).1 ≡ allowed = check-allowed t s left in
            cc
        | inl full ↦
            let answer = check-refused t s full in
            let told : refused (max (ttl s t key) 1) ≡ refused wait =
              sym (ap (λ r. r.1) answer) ∙ h in
            let waited : max (ttl s t key) 1 ≡ wait = cc in
            let (above, below) = ttl-near s t d key (show n) there in
            (
              omega arith,
              omega arith,
              ap (λ r. r.0) answer,
              λ then_ over.
                  let ended : ltb then_ d ≡ false = ground arith in
                  later s t then_ key (omega arith) ∙ rw (there, ended) refl,
            )
      ]

  -- After any requests from a moment at which nothing is counted, a request that is refused is told to
  -- wait at least a second and no longer than the window, and changes nothing. The same request is allowed
  -- at any moment from half a second after that time on, if none has come between: the server rounds
  -- what it answers to whole seconds.
  pub refused_waits :
      (t now wait then_ : ℕ) (delays : List ℕ) (s s' : State)
      → entry s t key ≡ none
      → after_requests redis key limit window delays t s ≡ (now, s')
      → (check redis key limit window now s').1 ≡ refused wait
      → now + 1_000 * wait + 500 ≤ then_
      → (0 < wait)
        × (wait ≤ window)
        × ((check redis key limit window now s').0 ≡ s')
        × ((check redis key limit window then_ s').1 ≡ allowed)
  refused_waits t now wait then_ delays s s' empty reached h over =
      let c : Counts limit window now (entry s' now key) =
        rw reached at (after-Counts t delays s (inl empty)) in
      let (long, near, same, gone) = waits now wait s' c h in
      (long, near, same, check-allowed then_ s' (rw (gone then_ over) refl))
