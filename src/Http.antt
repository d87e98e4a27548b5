-- ===== src/Http.antt =====
-- What a handler answers: FastAPI's HTTPException, and the chain of steps that may raise it.
use film_bill.Base.{ℕ, Bool, true, false, Option, none, some, ◌≡◌, refl, ap}
use film_bill.Base.Text.{Text, lit}

-- HTTPException
pub record HttpError : Type 0 where
  pub status : ℕ
  pub detail : Text

-- A handler returns, raises an HTTPException, or fails with another exception, which is answered by
-- a 500.
pub data Answer {ℓ} (A : Type ℓ) : Type ℓ where
  ok : A → Answer A
  raised : HttpError → Answer A
  crashed : Answer A

infixl 5 ◌>>=◌ ◌>>◌
abbrev pub ◌>>=◌ {ℓ κ} : {A : Type ℓ} {B : Type κ} → Answer A → (A → Answer B) → Answer B
ok a >>= f = f a
raised e >>= f = raised e
crashed >>= f = crashed

abbrev pub ◌>>◌ {ℓ} : {B : Type ℓ} → Answer (Unit {0}) → Answer B → Answer B
m >> k = m >>= λ _. k

-- `if …: raise …`
abbrev pub raise_if : Bool → HttpError → Answer (Unit {0})
raise_if true e = raised e
raise_if false e = ok tt

abbrev pub or_raise {ℓ} : {A : Type ℓ} → Option A → HttpError → Answer A
or_raise none e = raised e
or_raise (some a) e = ok a

abbrev pub or_crash {ℓ} : {A : Type ℓ} → Option A → Answer A
or_crash none = crashed
or_crash (some a) = ok a

unfoldable pub bad_request : Text → HttpError
bad_request detail = record { status = 400; detail = detail }

unfoldable pub not_found : HttpError
not_found = record { status = 404; detail = lit "Not found" }

-- Inversion of one step of a chain that returns.
module _ {ℓ} {B : Type ℓ} where
  pub step_then {κ} :
      {A : Type κ} (step : Answer A) (continue : A → Answer B) {r : B}
      → (step >>= continue) ≡ ok r
      → (a : A) × (step ≡ ok a) × (continue a ≡ ok r)
  step_then crashed continue h = cc
  step_then (raised e) continue h = cc
  step_then (ok a) continue h = (a, refl, h)

  pub guard_then :
      (b : Bool) (e : HttpError) {k : Answer B} {r : B}
      → (raise_if b e >> k) ≡ ok r
      → (b ≡ false) × (k ≡ ok r)
  guard_then true e h = cc
  guard_then false e h = (refl, h)

  pub found_then {κ} :
      {A : Type κ} (o : Option A) (e : HttpError) {f : A → Answer B} {r : B}
      → (or_raise o e >>= f) ≡ ok r
      → (a : A) × (o ≡ some a) × (f a ≡ ok r)
  found_then none e h = cc
  found_then (some a) e h = (a, refl, h)

  pub parsed_then {κ} :
      {A : Type κ} (o : Option A) {f : A → Answer B} {r : B}
      → (or_crash o >>= f) ≡ ok r
      → (a : A) × (o ≡ some a) × (f a ≡ ok r)
  parsed_then none h = cc
  parsed_then (some a) h = (a, refl, h)

pub ok-injective {ℓ} : {A : Type ℓ} {a b : A} → ok a ≡ ok b → a ≡ b
ok-injective {A} {a} h = ap value h
  where
    value : Answer A → A
    value (ok b) = b
    value _ = a
