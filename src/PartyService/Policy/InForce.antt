-- ===== src/PartyService/Policy/InForce.antt =====
-- The policy that counts is a sound one, and it is the one that was saved.
use film_bill.Base.{
  ◌≡◌, refl, ap, ℕ, suc, ◌≤◌, ◌<◌, Bool, true, false, not, Option, none, some, List, ltb, nat_eq,
  arith, lookup, contains, all, length, text_has_equality, ℕ_has_equality, All, Bool-cases, inl,
  inr,
}
use film_bill.Base.Int.{pos, negsuc}
use film_bill.Base.Text.{lit}
use film_bill.Parties.Levels.{Dict}
use film_bill.Tax.Json.{Json, null, boolean, number, text, array, object, Items, no_items, item}
use film_bill.PartyService.Policy.{
  TaxIdCheckPolicy, ValidatedPolicy, valid, invalid, PolicyError, ◌>>=◌, refuse_if,
  interval_choices, is_known, offset_of, offsets_of, items_length, is_sorted, has_repeat,
  read_items, read_offsets, read_interval, read_max_age, expires_early, validate,
  not_a_usable_offset, not_offered, below_a_day, in_force, max_initial_offsets,
}

abbrev pub IsOffered : Option ℕ → Type 0
IsOffered none = Unit {0}
IsOffered (some n) = contains interval_choices n ≡ true

abbrev pub IsPositive : Option ℕ → Type 0
IsPositive none = Unit {0}
IsPositive (some n) = 0 < n

-- The offsets are one to six days from 0 to 90 that rise, the interval is one of those offered, and an
-- answer counts for at least a day, and for at least the interval where both are set.
pub record IsSound (p : TaxIdCheckPolicy) : Type 0 where
  pub some_offset : 0 < length p.initial_check_offsets
  pub few_offsets : length p.initial_check_offsets ≤ 6
  pub soon : All (λ n. n ≤ 90) p.initial_check_offsets
  pub sorted : is_sorted p.initial_check_offsets ≡ true
  pub once : has_repeat p.initial_check_offsets ≡ false
  pub offered : IsOffered p.recheck_interval_days
  pub positive : IsPositive p.max_check_age_days
  pub counts : expires_early p.recheck_interval_days p.max_check_age_days ≡ false

pub valid-injective : {A : Type 0} {a b : A} → valid a ≡ valid b → a ≡ b
valid-injective {A} {a} h = ap value h
  where
    value : ValidatedPolicy A → A
    value (valid b) = b
    value _ = a

pub validated_then :
    {A B : Type 0} (step : ValidatedPolicy A) (continue : A → ValidatedPolicy B) {r : B}
    → (step >>= continue) ≡ valid r
    → (a : A) × (step ≡ valid a) × (continue a ≡ valid r)
validated_then (invalid e) continue h = cc
validated_then (valid a) continue h = (a, refl, h)

refused_then :
    {B : Type 0} (b : Bool) (e : PolicyError) {k : ValidatedPolicy B} {r : B}
    → (refuse_if b e >>= (λ _. k)) ≡ valid r
    → (b ≡ false) × (k ≡ valid r)
refused_then true e h = cc
refused_then false e h = (refl, h)

offset_of-soon : (j : Json) {n : ℕ} → offset_of j ≡ valid n → n ≤ 90
unfolding offset_of
offset_of-soon (number (pos m)) {n} h = elim (Bool-cases (ltb 90 m)) [
  | inl e ↦ let clash : invalid not_a_usable_offset ≡ valid n = rw e at h in cc
  | inr e ↦ let same : m ≡ n = valid-injective (rw e at h) in ground arith
]
offset_of-soon (number (negsuc m)) h = cc
offset_of-soon null h = cc
offset_of-soon (boolean b) h = cc
offset_of-soon (text s) h = cc
offset_of-soon (array js) h = cc
offset_of-soon (object fs) h = cc

offsets_of-soon :
    (js : Items) {ns : List ℕ}
    → offsets_of js ≡ valid ns
    → All (λ n. n ≤ 90) ns × (length ns ≡ items_length js)
unfolding offsets_of
offsets_of-soon no_items h = rw (← valid-injective h) (tt, refl)
offsets_of-soon (item j js) {ns} h =
    let (n, first, h1) = validated_then (offset_of j) _ h in
    let (rest, others, h2) = validated_then (offsets_of js) _ h1 in
    let (soon, same) = offsets_of-soon js others in
    rw (← valid-injective h2) ((offset_of-soon j first, soon), ap suc same)

-- What the offsets of a sound policy are.
record AreSound (ns : List ℕ) : Type 0 where
  some_offset : 0 < length ns
  few_offsets : length ns ≤ 6
  soon : All (λ n. n ≤ 90) ns
  sorted : is_sorted ns ≡ true
  once : has_repeat ns ≡ false

read_items-AreSound : (js : Items) {ns : List ℕ} → read_items js ≡ valid ns → AreSound ns
unfolding read_items
read_items-AreSound js {ns} h =
    let (filled, h1) = refused_then (nat_eq (items_length js) 0) _ h in
    let (few, h2) = refused_then (ltb max_initial_offsets (items_length js)) _ h1 in
    let (cleaned, read, h3) = validated_then (offsets_of js) _ h2 in
    let (in_order, h4) = refused_then (not (is_sorted cleaned)) _ h3 in
    let (once, h5) = refused_then (has_repeat cleaned) _ h4 in
    let (soon, same) = offsets_of-soon js read in
    rw (← valid-injective h5) (record {
      some_offset = ground (arith, same, filled);
      few_offsets = ground (arith, same, few);
      soon = soon;
      sorted = ground (arith, in_order);
      once = once;
    })

read_offsets-AreSound : (o : Option Json) {ns : List ℕ} → read_offsets o ≡ valid ns → AreSound ns
unfolding read_offsets
read_offsets-AreSound none h = rw (← valid-injective h) (record {
  some_offset = omega arith;
  few_offsets = omega arith;
  soon = (omega arith, (omega arith, (omega arith, tt)));
  sorted = refl;
  once = refl;
})
read_offsets-AreSound (some (array js)) h = read_items-AreSound js h
read_offsets-AreSound (some null) h = cc
read_offsets-AreSound (some (boolean b)) h = cc
read_offsets-AreSound (some (number n)) h = cc
read_offsets-AreSound (some (text s)) h = cc
read_offsets-AreSound (some (object fs)) h = cc

read_interval-IsOffered : (o : Option Json) {i : Option ℕ} → read_interval o ≡ valid i → IsOffered i
unfolding read_interval
read_interval-IsOffered none h = rw (← valid-injective h) refl
read_interval-IsOffered (some null) h = rw (← valid-injective h) tt
read_interval-IsOffered (some (number (pos n))) {i} h =
    elim (Bool-cases (contains interval_choices n)) [
      | inl e ↦ let same = valid-injective (rw e at h) in rw (← same) e
      | inr e ↦ let clash : invalid not_offered ≡ valid i = rw e at h in cc
    ]
read_interval-IsOffered (some (number (negsuc n))) h = cc
read_interval-IsOffered (some (boolean b)) h = cc
read_interval-IsOffered (some (text s)) h = cc
read_interval-IsOffered (some (array js)) h = cc
read_interval-IsOffered (some (object fs)) h = cc

read_max_age-IsPositive : (o : Option Json) {m : Option ℕ} → read_max_age o ≡ valid m → IsPositive m
unfolding read_max_age
read_max_age-IsPositive none h = rw (← valid-injective h) (omega arith)
read_max_age-IsPositive (some null) h = rw (← valid-injective h) tt
read_max_age-IsPositive (some (number (pos n))) {m} h = elim (Bool-cases (ltb n 1)) [
  | inl e ↦ let clash : invalid below_a_day ≡ valid m = rw e at h in cc
  | inr e ↦ let same = valid-injective (rw e at h) in rw (← same) (ground arith)
]
read_max_age-IsPositive (some (number (negsuc n))) h = cc
read_max_age-IsPositive (some (boolean b)) h = cc
read_max_age-IsPositive (some (text s)) h = cc
read_max_age-IsPositive (some (array js)) h = cc
read_max_age-IsPositive (some (object fs)) h = cc

pub validate-IsSound : (raw : Dict) {p : TaxIdCheckPolicy} → validate raw ≡ valid p → IsSound p
unfolding validate
validate-IsSound raw {p} h =
    let (known, h1) = refused_then (not (all is_known raw)) _ h in
    let (offsets, o, h2) =
      validated_then (read_offsets (lookup (lit "initial_check_offsets") raw)) _ h1 in
    let (interval, i, h3) =
      validated_then (read_interval (lookup (lit "recheck_interval_days") raw)) _ h2 in
    let (max_age, m, h4) =
      validated_then (read_max_age (lookup (lit "max_check_age_days") raw)) _ h3 in
    let (counts, h5) = refused_then (expires_early interval max_age) _ h4 in
    let s = read_offsets-AreSound (lookup (lit "initial_check_offsets") raw) o in
    rw (← valid-injective h5) (record {
      some_offset = s.some_offset;
      few_offsets = s.few_offsets;
      soon = s.soon;
      sorted = s.sorted;
      once = s.once;
      offered = read_interval-IsOffered (lookup (lit "recheck_interval_days") raw) i;
      positive = read_max_age-IsPositive (lookup (lit "max_check_age_days") raw) m;
      counts = counts;
    })

pub in_force-IsSound :
    (v : ValidatedPolicy TaxIdCheckPolicy)
    → ((p : TaxIdCheckPolicy) → v ≡ valid p → IsSound p)
    → IsSound (in_force v)
in_force-IsSound (valid p) h = h p refl
in_force-IsSound (invalid e) h = record {
  some_offset = omega arith;
  few_offsets = omega arith;
  soon = (omega arith, (omega arith, (omega arith, tt)));
  sorted = refl;
  once = refl;
  offered = refl;
  positive = omega arith;
  counts = refl;
}
