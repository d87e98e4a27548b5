-- ===== src/Base/Text.antt =====
-- A Python `str` is the list of its code points. The methods of `str` that the program calls:
-- `strip`, `upper`, `lower`, `replace`, slices, `in`, `startswith`, `<`. `upper` and `lower` map the
-- ASCII letters and leave every other character as it is.
pub mod Strip
pub mod Order
pub mod Replace
use Prim.Native.Char.{code}
use Prim.Native.String.{String}
use film_bill.Base.{
  ℕ, zero, suc, ◌+◌, ◌-◌, Bool, true, false, not, ◌&&◌, ◌||◌, List, [], ◌∷◌, ◌++◌, map, ltb, leb,
  nat_eq, if◌then◌else◌, text_eq, length, drop, contains, ℕ_has_equality,
}

abbrev pub Text : Type 0
Text = List ℕ

codes : String → Text
codes String.[] = []
codes (String.◌∷◌ c s) = code c ∷ codes s

-- A literal. It stays shut where a proof does not look into texts.
unfoldable pub lit : String → Text
unfolding codes
lit s = codes s

-- The characters that `str.strip()` and `\s` take as white space.
abbrev pub space_codes : List ℕ
space_codes =
    9 ∷ 10 ∷ 11 ∷ 12 ∷ 13 ∷ 28 ∷ 29 ∷ 30 ∷ 31 ∷ 32 ∷ 0x85 ∷ 0xa0 ∷ 0x1680 ∷ 0x2028 ∷ 0x2029 ∷ 0x202f
    ∷ 0x205f ∷ 0x3000 ∷ []

unfoldable pub is_space : ℕ → Bool
is_space c = contains space_codes c || (leb 0x2000 c && leb c 0x200a)

unfoldable pub upper_code : ℕ → ℕ
upper_code c = if leb b'a' c && leb c b'z' then c - 32 else c

unfoldable pub lower_code : ℕ → ℕ
lower_code c = if leb b'A' c && leb c b'Z' then c + 32 else c

unfoldable pub upper : Text → Text
unfolding upper_code
upper s = map upper_code s

unfoldable pub lower : Text → Text
unfolding lower_code
lower s = map lower_code s

-- `s.lstrip()`, `s.rstrip()`, `s.strip()`
unfoldable pub lstrip : Text → Text
unfolding is_space
lstrip [] = []
lstrip (c ∷ s) = if is_space c then lstrip s else c ∷ s

unfoldable pub rstrip : Text → Text
unfolding is_space
rstrip [] = []
rstrip (c ∷ s) = elim (rstrip s) [ [] ↦ (if is_space c then [] else c ∷ []) | d ∷ t ↦ c ∷ d ∷ t ]

unfoldable pub strip : Text → Text
unfolding lstrip rstrip
strip s = rstrip (lstrip s)

-- `bool(s)` and `not s`
abbrev pub is_empty : Text → Bool
is_empty [] = true
is_empty (c ∷ s) = false

unfoldable pub starts_with : Text → Text → Bool
starts_with s [] = true
starts_with [] (d ∷ t) = false
starts_with (c ∷ s) (d ∷ t) = nat_eq c d && starts_with s t

-- `t in s`
unfoldable pub occurs : Text → Text → Bool
unfolding starts_with
occurs t [] = starts_with [] t
occurs t (c ∷ s) = starts_with (c ∷ s) t || occurs t s

-- `s.replace(old, new)` for a non-empty `old`, from the left, without overlaps: `skip` counts the
-- characters of the last match that are still to be passed over.
unfoldable pub replace_from : Text → Text → ℕ → Text → Text
unfolding starts_with
replace_from old new skip [] = []
replace_from old new (suc skip) (c ∷ s) = replace_from old new skip s
replace_from old new zero (c ∷ s) =
    let hit = new ++ replace_from old new (length old - 1) s in
    let miss = c ∷ replace_from old new zero s in if starts_with (c ∷ s) old then hit else miss

unfoldable pub replace : Text → Text → Text → Text
unfolding replace_from
replace old new s = replace_from old new zero s

-- `s < t`: by the code points.
unfoldable pub text_ltb : Text → Text → Bool
text_ltb s [] = false
text_ltb [] (d ∷ t) = true
text_ltb (c ∷ s) (d ∷ t) = ltb c d || (nat_eq c d && text_ltb s t)

-- `sorted({...})`: in ascending order, each once.
unfoldable pub insert_unique : Text → List Text → List Text
insert_unique t [] = t ∷ []
insert_unique t (u ∷ us) =
    if text_eq t u then u ∷ us else if text_ltb t u then t ∷ u ∷ us else u ∷ insert_unique t us

unfoldable pub sorted_set : List Text → List Text
unfolding insert_unique
sorted_set [] = []
sorted_set (t ∷ ts) = insert_unique t (sorted_set ts)
