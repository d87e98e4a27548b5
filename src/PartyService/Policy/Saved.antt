-- ===== src/PartyService/Policy/Saved.antt =====
-- A policy that is saved is the one that is in force (`save_policy` and `load_policy` of
-- apps/api/services/tax_id_policy.py).
use film_bill.Base.{
  ◌≡◌, refl, ap, ℕ, suc, ◌≤◌, true, false, Option, none, some, List, [], ◌∷◌, ltb, nat_eq, arith,
  lookup, all, length, text_has_equality, ℕ_has_equality, All, text_eq,
}
use film_bill.Base.Text.{lit}
use film_bill.Parties.Levels.{Dict}
use film_bill.Tax.Json.{array}
use film_bill.PartyService.Policy.{
  TaxIdCheckPolicy, unknown_setting, valid, invalid, known_settings, is_known, offset_of,
  offsets_of, items_length, read_items, read_offsets, read_interval, read_max_age, validate,
  in_force, load_policy, as_dict, save_policy, offset_items, days, max_initial_offsets,
}
use film_bill.PartyService.Policy.InForce.{
  IsSound, IsOffered, IsPositive, validate-IsSound, in_force-IsSound, validated_then,
  valid-injective,
}

offsets_read : (ns : List ℕ) → All (λ n. n ≤ 90) ns → offsets_of (offset_items ns) ≡ valid ns
unfolding offsets_of offset_of
offsets_read [] h = refl
offsets_read (n ∷ ns) (h, hs) =
    let near : ltb 90 n ≡ false = ground arith in rw (near, offsets_read ns hs) refl

length-offset_items : (ns : List ℕ) → items_length (offset_items ns) ≡ length ns
length-offset_items [] = refl
length-offset_items (n ∷ ns) = ap suc (length-offset_items ns)

items_read :
    (p : TaxIdCheckPolicy)
    → IsSound p
    → read_items (offset_items p.initial_check_offsets) ≡ valid p.initial_check_offsets
unfolding read_items
items_read p s =
    let size = length-offset_items p.initial_check_offsets in
    let filled : nat_eq (length p.initial_check_offsets) 0 ≡ false =
      ground (arith, s.some_offset) in
    let few : ltb max_initial_offsets (length p.initial_check_offsets) ≡ false =
      ground (arith, s.few_offsets) in
    rw (size, filled, few, offsets_read p.initial_check_offsets s.soon, s.sorted, s.once) refl

interval_read : (i : Option ℕ) → IsOffered i → read_interval (some (days i)) ≡ valid i
unfolding read_interval
interval_read none h = refl
interval_read (some n) h = rw h refl

max_age_read : (m : Option ℕ) → IsPositive m → read_max_age (some (days m)) ≡ valid m
unfolding read_max_age
max_age_read none h = refl
max_age_read (some n) h = let long : ltb n 1 ≡ false = ground arith in rw long refl

module _ (p : TaxIdCheckPolicy) where
  all_known : all is_known (as_dict p) ≡ true
  unfolding as_dict known_settings lit text_eq
  all_known = refl

  offsets_stored :
      lookup (lit "initial_check_offsets") (as_dict p)
      ≡ some (array (offset_items p.initial_check_offsets))
  unfolding as_dict lit text_eq
  offsets_stored = refl

  interval_stored :
      lookup (lit "recheck_interval_days") (as_dict p) ≡ some (days p.recheck_interval_days)
  unfolding as_dict lit text_eq
  interval_stored = refl

  max_age_stored : lookup (lit "max_check_age_days") (as_dict p) ≡ some (days p.max_check_age_days)
  unfolding as_dict lit text_eq
  max_age_stored = refl

  validate-as_dict : IsSound p → validate (as_dict p) ≡ valid p
  unfolding validate read_offsets
  validate-as_dict s =
      rw
        (
          all_known,
          offsets_stored,
          items_read p s,
          interval_stored,
          interval_read p.recheck_interval_days s.offered,
          max_age_stored,
          max_age_read p.max_check_age_days s.positive,
          s.counts,
        )
        refl

  load_policy-as_dict : IsSound p → load_policy (some (as_dict p)) ≡ p
  unfolding load_policy as_dict
  load_policy-as_dict s = ap in_force (validate-as_dict s)

load_policy-IsSound : (o : Option Dict) → IsSound (load_policy o)
unfolding load_policy
load_policy-IsSound none = in_force-IsSound (invalid unknown_setting) (λ p e. cc)
load_policy-IsSound (some []) = in_force-IsSound (invalid unknown_setting) (λ p e. cc)
load_policy-IsSound (some (e ∷ raw)) =
    in_force-IsSound (validate (e ∷ raw)) (λ p accepted. validate-IsSound (e ∷ raw) accepted)

-- What is saved is in force: if settings are accepted, the policy that is loaded from what is stored is
-- the one that they were read as. Whatever else is stored, the policy in force is sound: its offsets
-- rise within 90 days, its interval is one that is offered, and an answer counts for at least a day, and
-- for at least the interval where both are set.
pub save-load_policy :
    (raw stored : Dict) (anything : Option Dict)
    → save_policy raw ≡ valid stored
    → (validate raw ≡ valid (load_policy (some stored))) × IsSound (load_policy anything)
unfolding save_policy
save-load_policy raw stored anything h =
    let (p, accepted, h1) = validated_then (validate raw) _ h in
    let same : load_policy (some stored) ≡ p =
      rw (← valid-injective h1) (load_policy-as_dict p (validate-IsSound raw accepted)) in
    (rw (accepted, same) refl, load_policy-IsSound anything)
