-- ===== src/Numbering/Pattern.antt =====
-- Patterns of document numbers (`validate_pattern`, `validate_padding`, `format_number` of
-- apps/api/services/number_series.py). An error is the constructor of its message.
pub mod Accepted
pub mod Printing
use film_bill.Base.{
  is_nil, ℕ, ◌%◌, Bool, true, false, not, ◌&&◌, ◌||◌, Option, none, some, List, [], ◌∷◌, ◌++◌, ltb,
  nat_eq, if◌then◌else◌, or_else, text_eq, contains, text_has_equality, select, any,
}
use film_bill.Base.Int.{ℤ, pos, pos_part, ltb_ℤ}
use film_bill.Base.Text.{sorted_set, Text, lit, strip, is_empty, occurs, replace, text_ltb}
use film_bill.Base.Digits.{show, zfill}
use film_bill.Numbering.Date.{Date, padded}

pub data PatternError : Type 0 where
  pattern_required : PatternError
  unknown_tokens : List Text → PatternError
  sequence_missing : PatternError
  unknown_reset : Text → PatternError
  year_missing : PatternError
  padding_out_of_range : ℤ → PatternError

pub data Result {ℓ} (A : Type ℓ) : Type ℓ where
  ok : A → Result A
  err : PatternError → Result A

infixl 5 ◌>>=◌ ◌>>◌
abbrev pub ◌>>=◌ {ℓ κ} : {A : Type ℓ} {B : Type κ} → Result A → (A → Result B) → Result B
ok a >>= f = f a
err e >>= f = err e

abbrev pub ◌>>◌ {ℓ κ} : {A : Type ℓ} {B : Type κ} → Result A → Result B → Result B
m >> k = m >>= λ _. k

-- `if refused: raise error`
abbrev pub raise_if : Bool → PatternError → Result (Unit {0})
raise_if true e = err e
raise_if false e = ok tt

-- RESET_YEARLY, RESET_NEVER and RESET_MODES of apps/api/models/number_series.py
abbrev pub reset_yearly : Text
reset_yearly = lit "yearly"

abbrev pub reset_never : Text
reset_never = lit "never"

abbrev pub reset_modes : List Text
reset_modes = reset_yearly ∷ reset_never ∷ []

abbrev pub token_year4 : Text
token_year4 = lit "{YYYY}"

abbrev pub token_year2 : Text
token_year2 = lit "{YY}"

abbrev pub token_month : Text
token_month = lit "{MM}"

abbrev pub token_sequence : Text
token_sequence = lit "{SEQ}"

abbrev pub tokens : List Text
tokens = token_year4 ∷ token_year2 ∷ token_month ∷ token_sequence ∷ []

abbrev pub year_tokens : List Text
year_tokens = token_year4 ∷ token_year2 ∷ []

-- `_BRACED.findall`: the substrings `{…}` with no brace inside. `open` is the text read since the
-- last opening brace, if one is open.
unfoldable pub braced_from : Option Text → Text → List Text
braced_from open_text [] = []
braced_from none (c ∷ s) = braced_from (if nat_eq c b'{' then some (c ∷ []) else none) s
braced_from (some t) (c ∷ s) =
    let restart = braced_from (some (c ∷ [])) s in
    let close = (t ++ c ∷ []) ∷ braced_from none s in
    let more = braced_from (some (t ++ c ∷ [])) s in
    if nat_eq c b'{' then restart else if nat_eq c b'}' then close else more

unfoldable pub braced : Text → List Text
unfolding braced_from
braced s = braced_from none s

unfoldable pub unknown_in : Text → List Text
unfolding braced sorted_set
unknown_in candidate = sorted_set (select (λ t. not (contains tokens t)) (braced candidate))

abbrev pub has_year : Text → Bool
has_year s = any (λ t. occurs t s) year_tokens

unfoldable pub validate_pattern : Option Text → Text → Result Text
validate_pattern pattern reset = do
  let candidate = strip (or_else pattern [])
  raise_if (is_empty candidate) pattern_required
  let unknown = unknown_in candidate
  raise_if (not (is_nil unknown)) (unknown_tokens unknown)
  raise_if (not (occurs token_sequence candidate)) sequence_missing
  raise_if (not (contains reset_modes reset)) (unknown_reset reset)
  raise_if (text_eq reset reset_yearly && not (has_year candidate)) year_missing
  ok candidate

abbrev pub min_padding : ℤ
min_padding = pos 1

abbrev pub max_padding : ℤ
max_padding = pos 12

unfoldable pub validate_padding : ℤ → Result ℤ
validate_padding padding =
    if ltb_ℤ padding min_padding || ltb_ℤ max_padding padding
    then err (padding_out_of_range padding)
    else ok padding

-- The tokens are replaced one after the other, the sequence last. `zfill` of a negative width
-- adds nothing.
unfoldable pub fill_dates : Text → Date → Text
unfolding padded
fill_dates pattern date = replace token_month (padded 2 date.month) (
    replace token_year2 (padded 2 (date.year % 100))
      (replace token_year4 (padded 4 date.year) pattern))

unfoldable pub sequence_text : ℕ → ℤ → Text
sequence_text value padding = zfill (pos_part padding) (show value)

unfoldable pub format_number : Text → ℕ → Date → ℤ → Text
unfolding fill_dates sequence_text
format_number pattern value date padding =
    replace token_sequence (sequence_text value padding) (fill_dates pattern date)
