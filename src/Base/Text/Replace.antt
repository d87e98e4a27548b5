-- ===== src/Base/Text/Replace.antt =====
-- `s.replace(old, new)` determines `new`, if `old` occurs in `s`.
use film_bill.Base.{
  ℕ, zero, suc, ◌+◌, ◌-◌, ◌*◌, ◌≡◌, refl, ap, inl, inr, true, [], ◌∷◌, ◌++◌, arith, ◌≢◌, Bool-cases,
  if◌then◌else◌, length, length-append, ◌≤◌,
}
use film_bill.Base.Text.{Text, starts_with, occurs, replace_from, replace}

-- How many matches are replaced.
matches : Text → ℕ → Text → ℕ
matches old skip [] = 0
matches old (suc skip) (c ∷ s) = matches old skip s
matches old zero (c ∷ s) =
    let hit = suc (matches old (length old - 1) s) in
    let miss = matches old zero s in if starts_with (c ∷ s) old then hit else miss

-- How many characters are kept.
kept : Text → ℕ → Text → ℕ
kept old skip [] = 0
kept old (suc skip) (c ∷ s) = kept old skip s
kept old zero (c ∷ s) =
    let hit = kept old (length old - 1) s in
    let miss = suc (kept old zero s) in if starts_with (c ∷ s) old then hit else miss

length-replace_from :
    (old new : Text) (skip : ℕ) (s : Text)
    → length (replace_from old new skip s) ≡ kept old skip s + matches old skip s * length new
unfolding replace_from matches kept
length-replace_from old new skip [] = omega arith
length-replace_from old new (suc skip) (c ∷ s) = length-replace_from old new skip s
length-replace_from old new zero (c ∷ s) = elim (Bool-cases (starts_with (c ∷ s) old)) [
  | inl hit ↦ rw hit (
      omega (
        arith,
        length-append new (replace_from old new (length old - 1) s),
        length-replace_from old new (length old - 1) s,
      ))
  | inr miss ↦ rw miss (omega (arith, length-replace_from old new zero s))
]

append_inj_left : (a b s t : Text) → length a ≡ length b → a ++ s ≡ b ++ t → a ≡ b
append_inj_left [] [] s t l e = refl
append_inj_left [] (y ∷ b) s t l e = absurd (omega arith)
append_inj_left (x ∷ a) [] s t l e = absurd (omega arith)
append_inj_left (x ∷ a) (y ∷ b) s t l e = ground (arith, append_inj_left a b s t)

same_length :
    (old a b : Text) (skip : ℕ) (s : Text)
    → suc (matches old skip s) * length a + kept old skip s
      ≡ suc (matches old skip s) * length b + kept old skip s
    → length a ≡ length b
same_length old a b skip s h = grind arith

hit_lengths :
    (old a b s : Text)
    → a ++ replace_from old a (length old - 1) s ≡ b ++ replace_from old b (length old - 1) s
    → let skip = length old - 1 in
      suc (matches old skip s) * length a + kept old skip s
      ≡ suc (matches old skip s) * length b + kept old skip s
hit_lengths old a b s e =
    let skip = length old - 1 in
    omega (
      arith,
      ap length e,
      length-append a (replace_from old a skip s),
      length-append b (replace_from old b skip s),
      length-replace_from old a skip s,
      length-replace_from old b skip s,
    )

-- With at least one match, equal results come from equal replacements.
replace_from-inj :
    (old a b : Text) (skip : ℕ) (s : Text)
    → 1 ≤ matches old skip s
    → replace_from old a skip s ≡ replace_from old b skip s
    → a ≡ b
unfolding replace_from matches
replace_from-inj old a b skip [] m e = absurd (omega arith)
replace_from-inj old a b (suc skip) (c ∷ s) m e = replace_from-inj old a b skip s m e
replace_from-inj old a b zero (c ∷ s) m e = elim (Bool-cases (starts_with (c ∷ s) old)) [
  | inl hit ↦
      let e' : a ++ replace_from old a (length old - 1) s
          ≡ b ++ replace_from old b (length old - 1) s =
        rw (hit) at e in
      append_inj_left a b _ _ (same_length old a b (length old - 1) s (hit_lengths old a b s e')) e'
  | inr miss ↦ replace_from-inj old a b zero s (rw (miss) at m) (ground arith)
]

-- A text in which `old` occurs has a match.
matches_pos : (old s : Text) → old ≢ [] → occurs old s ≡ true → 1 ≤ matches old 0 s
unfolding matches occurs starts_with
matches_pos [] s ne h = absurd (ne refl)
matches_pos (d ∷ t) [] ne h = cc
matches_pos (d ∷ t) (c ∷ s) ne h = ground (arith, matches_pos (d ∷ t) s ne)

-- Where the token occurs, the text that replaced it can be recovered from the result.
pub replace-inj :
    (old a b s : Text) → old ≢ [] → occurs old s ≡ true → replace old a s ≡ replace old b s → a ≡ b
unfolding replace
replace-inj old a b s ne h e = replace_from-inj old a b 0 s (matches_pos old s ne h) e
