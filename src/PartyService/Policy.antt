-- ===== src/PartyService/Policy.antt =====
-- How often a tax identifier is checked again, and for how long an answer counts
-- (apps/api/services/tax_id_policy.py). A number of the stored JSON is an integer.
pub mod InForce
pub mod Saved
use film_bill.Base.{
  ℕ, suc, Bool, true, false, not, ◌&&◌, ◌||◌, Option, none, some, List, [], ◌∷◌, ltb, leb, nat_eq,
  if◌then◌else◌, lookup, contains, all, length, text_has_equality, ℕ_has_equality, is_nil, map,
  is_some,
}
use film_bill.Base.Int.{ℤ, pos, negsuc}
use film_bill.Base.Text.{Text, lit}
use film_bill.Parties.Levels.{Dict}
use film_bill.Tax.Json.{Json, null, boolean, number, text, array, object, Items, no_items, item}

pub record TaxIdCheckPolicy : Type 0 where
  pub initial_check_offsets : List ℕ
  pub recheck_interval_days : Option ℕ
  pub max_check_age_days : Option ℕ

-- PolicyError, by its sentences.
pub data PolicyError : Type 0 where
  unknown_setting : PolicyError
  no_offsets : PolicyError
  too_many_offsets : PolicyError
  not_a_number_of_days : Json → PolicyError
  not_a_usable_offset : PolicyError
  not_in_order : PolicyError
  same_day_twice : PolicyError
  not_offered : PolicyError
  below_a_day : PolicyError
  counts_too_short : PolicyError

pub data ValidatedPolicy (A : Type 0) : Type 0 where
  valid : A → ValidatedPolicy A
  invalid : PolicyError → ValidatedPolicy A

infixl 5 ◌>>=◌ ◌>>◌
abbrev pub ◌>>=◌ : {A B : Type 0} → ValidatedPolicy A → (A → ValidatedPolicy B) → ValidatedPolicy B
valid a >>= f = f a
invalid e >>= f = invalid e

abbrev pub ◌>>◌ : {B : Type 0} → ValidatedPolicy (Unit {0}) → ValidatedPolicy B → ValidatedPolicy B
m >> k = m >>= λ _. k

abbrev pub refuse_if : Bool → PolicyError → ValidatedPolicy (Unit {0})
refuse_if true e = invalid e
refuse_if false e = valid tt

-- INTERVAL_CHOICES, but for `None`, and the defaults and ceilings.
abbrev pub interval_choices : List ℕ
interval_choices = 7 ∷ 30 ∷ 90 ∷ 180 ∷ 365 ∷ []

abbrev pub max_initial_offsets : ℕ
max_initial_offsets = 6

abbrev pub max_offset_days : ℕ
max_offset_days = 90

abbrev pub default_policy : TaxIdCheckPolicy
default_policy = record {
  initial_check_offsets = 0 ∷ 1 ∷ 7 ∷ [];
  recheck_interval_days = some 90;
  max_check_age_days = some 180;
}

unfoldable pub known_settings : List Text
known_settings =
    lit "initial_check_offsets" ∷ lit "recheck_interval_days" ∷ lit "max_check_age_days" ∷ []

abbrev pub is_known : Text × Json → Bool
is_known (name, value) = contains known_settings name

unfoldable pub offset_of : Json → ValidatedPolicy ℕ
offset_of (number (pos n)) = if ltb max_offset_days n then invalid not_a_usable_offset else valid n
offset_of (number (negsuc n)) = invalid not_a_usable_offset
offset_of j = invalid (not_a_number_of_days j)

unfoldable pub offsets_of : Items → ValidatedPolicy (List ℕ)
offsets_of no_items = valid []
offsets_of (item j js) = do n ← offset_of j; ns ← offsets_of js; valid (n ∷ ns)

abbrev pub items_length : Items → ℕ
items_length no_items = 0
items_length (item j js) = suc (items_length js)

-- `sorted(ns) == ns`, and `len(set(ns)) == len(ns)`
abbrev pub is_sorted : List ℕ → Bool
is_sorted [] = true
is_sorted (m ∷ []) = true
is_sorted (m ∷ n ∷ ns) = leb m n && is_sorted (n ∷ ns)

abbrev pub has_repeat : List ℕ → Bool
has_repeat [] = false
has_repeat (n ∷ ns) = contains ns n || has_repeat ns

unfoldable pub read_items : Items → ValidatedPolicy (List ℕ)
read_items js = do
  refuse_if (nat_eq (items_length js) 0) no_offsets
  refuse_if (ltb max_initial_offsets (items_length js)) too_many_offsets
  cleaned ← offsets_of js
  refuse_if (not (is_sorted cleaned)) not_in_order
  refuse_if (has_repeat cleaned) same_day_twice
  valid cleaned

-- A setting that is not there has its default.
unfoldable pub read_offsets : Option Json → ValidatedPolicy (List ℕ)
read_offsets none = valid default_policy.initial_check_offsets
read_offsets (some (array js)) = read_items js
read_offsets (some j) = invalid no_offsets

unfoldable pub read_interval : Option Json → ValidatedPolicy (Option ℕ)
read_interval none = valid default_policy.recheck_interval_days
read_interval (some null) = valid none
read_interval (some (number (pos n))) =
    if contains interval_choices n then valid (some n) else invalid not_offered
read_interval (some (number (negsuc n))) = invalid not_offered
read_interval (some j) = invalid (not_a_number_of_days j)

unfoldable pub read_max_age : Option Json → ValidatedPolicy (Option ℕ)
read_max_age none = valid default_policy.max_check_age_days
read_max_age (some null) = valid none
read_max_age (some (number (pos n))) = if ltb n 1 then invalid below_a_day else valid (some n)
read_max_age (some (number (negsuc n))) = invalid below_a_day
read_max_age (some j) = invalid (not_a_number_of_days j)

abbrev pub expires_early : Option ℕ → Option ℕ → Bool
expires_early (some interval) (some max_age) = ltb max_age interval
expires_early _ _ = false

unfoldable pub validate : Dict → ValidatedPolicy TaxIdCheckPolicy
validate raw = do
  refuse_if (not (all is_known raw)) unknown_setting
  offsets ← read_offsets (lookup (lit "initial_check_offsets") raw)
  interval ← read_interval (lookup (lit "recheck_interval_days") raw)
  max_age ← read_max_age (lookup (lit "max_check_age_days") raw)
  refuse_if (expires_early interval max_age) counts_too_short
  valid (record {
    initial_check_offsets = offsets;
    recheck_interval_days = interval;
    max_check_age_days = max_age;
  })

abbrev pub in_force : ValidatedPolicy TaxIdCheckPolicy → TaxIdCheckPolicy
in_force (valid policy) = policy
in_force (invalid e) = default_policy

-- `load_policy`, of what is stored with the company, if there is one.
unfoldable pub load_policy : Option Dict → TaxIdCheckPolicy
load_policy none = default_policy
load_policy (some []) = default_policy
load_policy (some (e ∷ raw)) = in_force (validate (e ∷ raw))

abbrev pub days : Option ℕ → Json
days none = null
days (some n) = number (pos n)

abbrev pub offset_items : List ℕ → Items
offset_items [] = no_items
offset_items (n ∷ ns) = item (number (pos n)) (offset_items ns)

-- `as_dict`
unfoldable pub as_dict : TaxIdCheckPolicy → Dict
as_dict policy =
    (lit "initial_check_offsets", array (offset_items policy.initial_check_offsets))
    ∷ (lit "recheck_interval_days", days policy.recheck_interval_days)
    ∷ (lit "max_check_age_days", days policy.max_check_age_days)
    ∷ []

-- What `save_policy` stores.
unfoldable pub save_policy : Dict → ValidatedPolicy Dict
save_policy raw = do policy ← validate raw; valid (as_dict policy)
