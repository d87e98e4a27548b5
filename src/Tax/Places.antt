-- ===== src/Tax/Places.antt =====
-- What `region_of` depends on.
use film_bill.Base.{
  ◌≡◌, refl, sym, ◌∙◌, inl, inr, true, ◌||◌, Option, none, some, List, [], ◌∷◌, arith, Bool-cases,
  text_eq_iff, text_has_equality,
}
use film_bill.Base.Text.{Text, strip, lstrip, rstrip, upper, is_empty}
use film_bill.Base.Text.Strip.{upper_code-is_space, strip_idem, upper_idem}
use film_bill.Tax.Regions.{Region, country_code, compare_countries, region_of}
use film_bill.Tax.Engine.{has_country}

upper-is_empty : (s : Text) → is_empty (upper s) ≡ is_empty s
unfolding upper
upper-is_empty [] = refl
upper-is_empty (c ∷ s) = refl

pub region_of-has_country :
    (members : List Text) (seller buyer : Option Text) {r : Region}
    → region_of members seller buyer ≡ some r
    → has_country seller ≡ true
unfolding region_of country_code
region_of-has_country members none buyer h = cc
region_of-has_country members (some s) none h = cc
region_of-has_country members (some s) (some b) h = ground (arith, upper-is_empty (strip s))

upper-lstrip : (s : Text) → lstrip (upper s) ≡ upper (lstrip s)
unfolding upper lstrip
upper-lstrip [] = refl
upper-lstrip (c ∷ s) = ground (arith, upper_code-is_space c, upper-lstrip s)

upper-rstrip : (s : Text) → rstrip (upper s) ≡ upper (rstrip s)
unfolding upper rstrip
upper-rstrip [] = refl
upper-rstrip (c ∷ s) = ground (arith, upper_code-is_space c, upper-rstrip s)

strip-upper : (s : Text) → strip (upper s) ≡ upper (strip s)
unfolding strip
strip-upper s = rw (upper-lstrip s) (upper-rstrip (lstrip s))

country_code_idem : (s : Text) → country_code (country_code s) ≡ country_code s
unfolding country_code
country_code_idem s = rw (strip-upper (strip s), strip_idem s) (upper_idem (strip s))

-- The region does not tell the seller’s country from the buyer’s.
compare_symm :
    (members : List Text) (s b : Text)
    → compare_countries members s b ≡ compare_countries members b s
compare_symm members s b = ground (arith, text_eq_iff s b, text_eq_iff b s)

compare_empty :
    (members : List Text) (s b : Text)
    → is_empty s || is_empty b ≡ true
    → compare_countries members s b ≡ none
compare_empty members s b h = ground arith

empty_code : (s : Text) → is_empty s ≡ true → country_code s ≡ []
unfolding country_code strip lstrip rstrip upper
empty_code [] h = refl
empty_code (c ∷ s) h = cc

-- Two countries, as they are written.
region_of_codes :
    (members : List Text) (s b : Text)
    → region_of members (some s) (some b)
      ≡ compare_countries members (country_code s) (country_code b)
unfolding region_of
region_of_codes members s b = elim (Bool-cases (is_empty s)) [
  | inl e ↦ rw (e, empty_code s e) refl
  | inr e ↦ elim (Bool-cases (is_empty b)) [
    | inl f ↦
        rw (e, f, empty_code b f) (sym (compare_empty members (country_code s) [] (ground arith)))
    | inr f ↦ rw (e, f) refl
  ]
]

region_of_symm :
    (members : List Text) (s b : Option Text) → region_of members s b ≡ region_of members b s
unfolding region_of
region_of_symm members none none = refl
region_of_symm members none (some b) = refl
region_of_symm members (some s) none = refl
region_of_symm members (some s) (some b) =
    ground (arith, compare_symm members (country_code s) (country_code b))

-- For any set of member states, the region is the same with the two countries swapped, and the same
-- with each written in upper case and without the white space around it.
pub region_of_invariant :
    (members : List Text) (s b : Text)
    → (region_of members (some s) (some b) ≡ region_of members (some b) (some s))
      × (region_of members (some s) (some b)
          ≡ region_of members (some (upper (strip s))) (some (upper (strip b))))
region_of_invariant members s b =
    let same =
      rw (country_code_idem s, country_code_idem b) at
        (region_of_codes members (country_code s) (country_code b)) in
    (
      region_of_symm members (some s) (some b),
      region_of_codes members s b ∙ sym (unfold country_code in same),
    )
