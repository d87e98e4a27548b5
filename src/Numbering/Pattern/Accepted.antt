-- ===== src/Numbering/Pattern/Accepted.antt =====
-- Exactly which patterns `validate_pattern` accepts.
use film_bill.Base.{
  ◌≡◌, refl, sym, ap, ◌∙◌, ◌≢◌, ◌↔◌, ◌⊎◌, inl, inr, true, false, not, Option, some, List, [], ◌∷◌,
  or_else, text_eq, contains, text_has_equality, select, All, arith, Bool-cases,
}
use film_bill.Base.Text.{insert_unique, sorted_set, Text, strip, is_empty, occurs}
use film_bill.Base.Text.Strip.{strip_idem}
use film_bill.Numbering.Pattern.{
  ok, reset_yearly, reset_modes, tokens, token_sequence, has_year, braced, unknown_in,
  validate_pattern,
}

-- A usable pattern: every `{…}` in it is a token, the sequence is among them, and a series that
-- restarts every year prints the year.
pub record IsUsable (pattern reset : Text) : Type 0 where
  pub filled : is_empty pattern ≡ false
  pub known : All (λ t. contains tokens t ≡ true) (braced pattern)
  pub counted : occurs token_sequence pattern ≡ true
  pub mode : contains reset_modes reset ≡ true
  pub dated : (text_eq reset reset_yearly ≡ false) ⊎ (has_year pattern ≡ true)

insert_unique-ne-nil : (t : Text) (ts : List Text) → insert_unique t ts ≢ []
unfolding insert_unique
insert_unique-ne-nil t [] e = cc
insert_unique-ne-nil t (u ∷ us) e = ground arith

unknown-nil :
    (ts : List Text)
    → sorted_set (select (λ t. not (contains tokens t)) ts) ≡ []
    → All (λ t. contains tokens t ≡ true) ts
unfolding sorted_set
unknown-nil [] e = tt
unknown-nil (t ∷ ts) e = elim (Bool-cases (contains tokens t)) [
  | inl token ↦ (token, unknown-nil ts (rw token at e))
  | inr other ↦ absurd (insert_unique-ne-nil t _ (rw other at e))
]

nil-unknown :
    (ts : List Text)
    → All (λ t. contains tokens t ≡ true) ts
    → sorted_set (select (λ t. not (contains tokens t)) ts) ≡ []
unfolding sorted_set
nil-unknown [] h = refl
nil-unknown (t ∷ ts) (h, hs) = rw h (nil-unknown ts hs)

unknown_in-nil : (s : Text) → unknown_in s ≡ [] → All (λ t. contains tokens t ≡ true) (braced s)
unfolding unknown_in
unknown_in-nil s e = unknown-nil (braced s) e

nil-unknown_in : (s : Text) → All (λ t. contains tokens t ≡ true) (braced s) → unknown_in s ≡ []
unfolding unknown_in
nil-unknown_in s h = nil-unknown (braced s) h

validate_pattern_sound :
    (pattern : Option Text) (reset candidate : Text)
    → validate_pattern pattern reset ≡ ok candidate
    → (candidate ≡ strip (or_else pattern [])) × IsUsable candidate reset
unfolding validate_pattern
validate_pattern_sound pattern reset candidate e =
    let known = unknown_in-nil (strip (or_else pattern [])) in ground (arith, known)

validate_pattern_complete :
    (pattern : Option Text) (reset candidate : Text)
    → candidate ≡ strip (or_else pattern [])
    → IsUsable candidate reset
    → validate_pattern pattern reset ≡ ok candidate
unfolding validate_pattern
validate_pattern_complete pattern reset candidate e u =
    ground (arith, nil-unknown_in candidate u.known)

-- A pattern is accepted, and returned without the white space around it, exactly if what is left
-- is not empty, every {…} in it is a token, {SEQ} is among them, the mode is known, and a series
-- that restarts every year prints the year.
pub validate_pattern_iff :
    (pattern : Option Text) (reset candidate : Text)
    → (validate_pattern pattern reset ≡ ok candidate)
      ↔ ((candidate ≡ strip (or_else pattern [])) × IsUsable candidate reset)
validate_pattern_iff pattern reset candidate = (
  validate_pattern_sound pattern reset candidate,
  λ (e, u). validate_pattern_complete pattern reset candidate e u,
)

-- What was accepted is accepted again, unchanged.
pub validate_pattern_again :
    (pattern : Option Text) (reset : Text) {candidate : Text}
    → validate_pattern pattern reset ≡ ok candidate
    → validate_pattern (some candidate) reset ≡ ok candidate
validate_pattern_again pattern reset {candidate} e =
    let (same, usable) = validate_pattern_sound pattern reset candidate e in
    validate_pattern_complete (some candidate) reset candidate
      (same ∙ sym (strip_idem _) ∙ ap strip (sym same)) usable
