-- ===== src/Redis/Codes.antt =====
-- The one-time codes of apps/api/services/redis_service.py. The five pools have the same code in the
-- source, each under its own names: it is stated once over a pool, and each pool's functions are that
-- at its constants.
use film_bill.Base.{ℕ, ◌+◌, Bool, false, not, Option, none, some, ◌++◌, leb, if◌then◌else◌, text_eq}
use film_bill.Base.Text.{Text, lit, lower, is_empty}
use film_bill.Base.Digits.{show, read}
use film_bill.Redis.Server.{Redis, get}

pub record Pool : Type 0 where
  pub prefix : Text
  pub attempts_prefix : Text
  pub expiry_seconds : ℕ
  pub max_attempts : ℕ

abbrev pub magic_code : Pool
magic_code = record {
  prefix = lit "magic_code:";
  attempts_prefix = lit "magic_code_attempts:";
  expiry_seconds = 600;
  max_attempts = 5;
}

abbrev pub password_reset : Pool
password_reset = record {
  prefix = lit "password_reset_code:";
  attempts_prefix = lit "password_reset_attempts:";
  expiry_seconds = 600;
  max_attempts = 5;
}

abbrev pub backup_email : Pool
backup_email = record {
  prefix = lit "backup_email_code:";
  attempts_prefix = lit "backup_email_attempts:";
  expiry_seconds = 900;
  max_attempts = 5;
}

abbrev pub twofa_email : Pool
twofa_email = record {
  prefix = lit "2fa_email_code:";
  attempts_prefix = lit "2fa_email_attempts:";
  expiry_seconds = 600;
  max_attempts = 5;
}

abbrev pub twofa_enrol : Pool
twofa_enrol = record {
  prefix = lit "2fa_setup_code:";
  attempts_prefix = lit "2fa_setup_attempts:";
  expiry_seconds = 600;
  max_attempts = 5;
}

-- The five generators: `random` is `secrets.randbelow(900000)`.
unfoldable pub generate_code : ℕ → Text
generate_code random = show (random + 100_000)

unfoldable pub code_key : Pool → Text → Text
code_key pool email = pool.prefix ++ lower email

unfoldable pub attempts_key : Pool → Text → Text
attempts_key pool email = pool.attempts_prefix ++ lower email

-- What a verification returns: success, or the sentence of its refusal.
pub data Verdict : Type 0 where
  accepted : Verdict
  too_many_attempts : Verdict
  expired_or_missing : Verdict
  invalid_code : Verdict

abbrev pub attempts_of : Option Text → ℕ
attempts_of none = 0
attempts_of (some s) = read s

module _ (redis : Redis) where
  open redis use {State, setex, delete, incr, expire}

  unfoldable pub store_code : Pool → Text → Text → ℕ → State → State
  store_code pool email code now s =
      delete (attempts_key pool email) now
        (setex (code_key pool email) pool.expiry_seconds code now s)

  unfoldable pub clear_code : Pool → Text → ℕ → State → State
  clear_code pool email now s =
      delete (attempts_key pool email) now (delete (code_key pool email) now s)

  unfoldable pub count_attempt : Pool → Text → ℕ → State → State
  count_attempt pool email now s =
      expire (attempts_key pool email) pool.expiry_seconds now
        (incr (attempts_key pool email) now s)

  abbrev pub compare_code : Pool → Text → Text → ℕ → Option Text → State → State × Verdict
  compare_code pool email code now none s = (s, expired_or_missing)
  compare_code pool email code now (some stored_code) s =
      if is_empty stored_code
      then (s, expired_or_missing)
      else if not (text_eq stored_code code)
      then (count_attempt pool email now s, invalid_code)
      else (clear_code pool email now s, accepted)

  unfoldable pub verify_code : Pool → Text → Text → ℕ → State → State × Verdict
  verify_code pool email code now s =
      if leb pool.max_attempts (attempts_of (get redis s now (attempts_key pool email)))
      then (s, too_many_attempts)
      else compare_code pool email code now (get redis s now (code_key pool email)) s

  abbrev pub is_live_code : Option Text → Bool
  is_live_code none = false
  is_live_code (some code) = not (is_empty code)

  unfoldable pub has_live_code : Pool → Text → ℕ → State → Bool
  has_live_code pool email now s = is_live_code (get redis s now (code_key pool email))

  unfoldable pub store_magic_code : Text → Text → ℕ → State → State
  store_magic_code = store_code magic_code

  unfoldable pub verify_magic_code : Text → Text → ℕ → State → State × Verdict
  verify_magic_code = verify_code magic_code

  unfoldable pub delete_magic_code : Text → ℕ → State → State
  delete_magic_code = clear_code magic_code

  unfoldable pub store_password_reset_code : Text → Text → ℕ → State → State
  store_password_reset_code = store_code password_reset

  unfoldable pub verify_password_reset_code : Text → Text → ℕ → State → State × Verdict
  verify_password_reset_code = verify_code password_reset

  unfoldable pub store_backup_email_code : Text → Text → ℕ → State → State
  store_backup_email_code = store_code backup_email

  unfoldable pub verify_backup_email_code : Text → Text → ℕ → State → State × Verdict
  verify_backup_email_code = verify_code backup_email

  unfoldable pub clear_backup_email_code : Text → ℕ → State → State
  clear_backup_email_code = clear_code backup_email

  unfoldable pub store_2fa_email_code : Text → Text → ℕ → State → State
  store_2fa_email_code = store_code twofa_email

  unfoldable pub verify_2fa_email_code : Text → Text → ℕ → State → State × Verdict
  verify_2fa_email_code = verify_code twofa_email

  unfoldable pub has_live_2fa_email_code : Text → ℕ → State → Bool
  has_live_2fa_email_code = has_live_code twofa_email

  unfoldable pub store_2fa_setup_code : Text → Text → ℕ → State → State
  store_2fa_setup_code = store_code twofa_enrol

  unfoldable pub verify_2fa_setup_code : Text → Text → ℕ → State → State × Verdict
  verify_2fa_setup_code = verify_code twofa_enrol

  unfoldable pub has_live_2fa_setup_code : Text → ℕ → State → Bool
  has_live_2fa_setup_code = has_live_code twofa_enrol

  unfoldable pub clear_2fa_setup_code : Text → ℕ → State → State
  clear_2fa_setup_code = clear_code twofa_enrol
