-- ===== src/Base/Uuid.antt =====
-- `uuid.UUID(s)` of Python's library: the number of a UUID, which is what the models take for it.
-- `none` is the ValueError. A digit or a space that is not ASCII is not read.
use film_bill.Base.{
  ℕ, ◌+◌, ◌-◌, ◌*◌, Bool, true, false, not, ◌&&◌, ◌||◌, Option, none, some, [], ◌∷◌, leb, nat_eq,
  if◌then◌else◌, length, select,
}
use film_bill.Base.Text.{
  Text, lit, strip, lower_code, lstrip, rstrip, is_space, starts_with, replace_from, replace,
}

hex_digit : ℕ → Option ℕ
hex_digit c =
    if leb b'0' c && leb c b'9'
    then some (c - b'0')
    else if leb b'a' (lower_code c) && leb (lower_code c) b'f'
    then some (lower_code c - b'a' + 10)
    else none

-- `after_digit`: an underscore may stand between two digits.
hex_from : Bool → ℕ → Text → Option ℕ
hex_from true n [] = some n
hex_from false n [] = none
hex_from after_digit n (c ∷ s) = elim (hex_digit c) [
  | some d ↦ hex_from true (n * 16 + d) s
  | none ↦ if nat_eq c b'_' && after_digit then hex_from false n s else none
]

drop_underscore : Text → Text
drop_underscore [] = []
drop_underscore (c ∷ s) = if nat_eq c b'_' then s else c ∷ s

hex_unprefixed : Text → Option ℕ
unfolding hex_from hex_digit lower_code drop_underscore
hex_unprefixed (c ∷ d ∷ s) =
    if nat_eq c b'0' && nat_eq (lower_code d) b'x'
    then hex_from false 0 (drop_underscore s)
    else hex_from false 0 (c ∷ d ∷ s)
hex_unprefixed s = hex_from false 0 s

drop_plus : Text → Text
drop_plus [] = []
drop_plus (c ∷ s) = if nat_eq c b'+' then s else c ∷ s

-- `int(s, 16)` for a text with no minus sign.
int_16 : Text → Option ℕ
unfolding hex_unprefixed drop_plus
int_16 s = hex_unprefixed (drop_plus (strip s))

is_brace : ℕ → Bool
is_brace c = nat_eq c b'{' || nat_eq c b'}'

lstrip_braces : Text → Text
lstrip_braces [] = []
lstrip_braces (c ∷ s) = if is_brace c then lstrip_braces s else c ∷ s

rstrip_braces : Text → Text
rstrip_braces [] = []
rstrip_braces (c ∷ s) = elim (rstrip_braces s) [
  | [] ↦ (if is_brace c then [] else c ∷ [])
  | d ∷ t ↦ c ∷ d ∷ t
]

bare_hex : Text → Text
unfolding lstrip_braces rstrip_braces is_brace
bare_hex s =
    let plain = replace (lit "uuid:") [] (replace (lit "urn:") [] s) in
    select (λ c. not (nat_eq c b'-')) (rstrip_braces (lstrip_braces plain))

unfoldable pub uuid_of : Text → Option ℕ
unfolding int_16 bare_hex replace replace_from starts_with strip lstrip rstrip is_space lit
uuid_of s = if nat_eq (length (bare_hex s)) 32 then int_16 (bare_hex s) else none
