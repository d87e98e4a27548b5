-- ===== src/Parties/Resolver/SameLevel.antt =====
-- The verified flag, the kind and the evidence come from the level that the VAT ID comes from.
use film_bill.Base.{
  ◌≡◌, refl, ◌∙◌, ap, ◌⊎◌, inl, inr, true, false, none, some, List, [], ◌∷◌, ◌++◌, All, Member,
  lookup, insert, lookup-insert,
}
use film_bill.Base.Text.{Text}
use film_bill.Parties.Levels.{
  Level, level_eq, level_eq_iff, level_has_equality, PartyLevel, text_has_presence, is_present,
}
use film_bill.Parties.Resolver.{
  ResolvedField, ResolvedRecipient, first, by_level_from, source_level, verified_of, kind_of,
  evidence_of, filled_dict, resolve_recipient,
}
use film_bill.Parties.Resolver.First.{IsFirst, nowhere, at_level, first-IsFirst}

abbrev pub IsElsewhere : Level → List PartyLevel → Type 0
IsElsewhere level chain = All (λ other. level_eq level other.level ≡ false) chain

-- No two parties of a chain are of one level.
abbrev pub IsDistinct : List PartyLevel → Type 0
IsDistinct [] = Unit {0}
IsDistinct (level ∷ chain) = IsElsewhere level.level chain × IsDistinct chain

lookup-elsewhere :
    (k : Level) (chain : List PartyLevel) (d : List (Level × PartyLevel))
    → IsElsewhere k chain
    → lookup k (by_level_from (λ l. l) d chain) ≡ lookup k d
lookup-elsewhere k [] d h = refl
lookup-elsewhere k (l ∷ chain) d (h, hs) =
    lookup-elsewhere k chain (insert l.level l d) hs ∙ (lookup-insert l.level k l d ∙ rw h refl)

level_eq_refl : (k : Level) → level_eq k k ≡ true
level_eq_refl k = (level_eq_iff k k).1 refl

lookup-found :
    (before after : List PartyLevel) (level : PartyLevel) (d : List (Level × PartyLevel))
    → IsDistinct (before ++ level ∷ after)
    → lookup level.level (by_level_from (λ l. l) d (before ++ level ∷ after)) ≡ some level
lookup-found [] after level d (h, hs) =
    lookup-elsewhere level.level after (insert level.level level d) h
    ∙ (lookup-insert level.level level.level level d ∙ rw (level_eq_refl level.level) refl)
lookup-found (l ∷ before) after level d (h, hs) =
    lookup-found before after level (insert l.level l d) hs

-- The number of a recipient and what is said of it, if it is that of `level`.
pub record IsNumberOf (level : PartyLevel) (r : ResolvedRecipient) : Type 0 where
  pub has_number : is_present level.vat_id ≡ true
  pub vat_id : r.vat_id.value ≡ level.vat_id
  pub vat_verified : r.vat_verified.value ≡ some level.vat_verified
  pub tax_id_kind : r.tax_id_kind.value ≡ level.tax_id_kind
  pub tax_id_evidence : r.tax_id_evidence.value ≡ filled_dict level.tax_id_evidence

-- No number, so nothing is said of it.
pub record HasNoNumber (r : ResolvedRecipient) : Type 0 where
  pub vat_id : r.vat_id.value ≡ none
  pub vat_verified : r.vat_verified.value ≡ some false
  pub tax_id_kind : r.tax_id_kind.value ≡ none
  pub tax_id_evidence : r.tax_id_evidence.value ≡ none

abbrev pub IsConsistent : List PartyLevel → ResolvedRecipient → Type 0
IsConsistent chain r =
    HasNoNumber r ⊎ ((level : PartyLevel) × (Member level chain × IsNumberOf level r))

-- The part of the recipient that `vat` decides.
record Follows (chain : List PartyLevel) (vat : ResolvedField Text) (r : ResolvedRecipient)
    : Type 0 where
  vat_id : r.vat_id ≡ vat
  vat_verified : r.vat_verified.value ≡ some (verified_of (source_level chain vat.source))
  tax_id_kind : r.tax_id_kind.value ≡ kind_of (source_level chain vat.source)
  tax_id_evidence : r.tax_id_evidence.value ≡ evidence_of (source_level chain vat.source)

in_the_middle :
    (before after : List PartyLevel) (level : PartyLevel) → Member level (before ++ level ∷ after)
in_the_middle [] after level = inl refl
in_the_middle (l ∷ before) after level = inr (in_the_middle before after level)

Follows-IsConsistent :
    (chain : List PartyLevel) (vat : ResolvedField Text) (r : ResolvedRecipient)
    → IsDistinct chain
    → IsFirst (λ level. level.vat_id) chain vat
    → Follows chain vat r
    → IsConsistent chain r
Follows-IsConsistent _ _ r distinct (nowhere chain all_absent) f = inl (record {
  vat_id = ap (λ v. v.value) f.vat_id;
  vat_verified = f.vat_verified;
  tax_id_kind = f.tax_id_kind;
  tax_id_evidence = f.tax_id_evidence;
})
Follows-IsConsistent _ _ r distinct (at_level before after level all_absent has) f =
    let found = lookup-found before after level [] distinct in
    inr (
      level,
      (
        in_the_middle before after level,
        record {
          has_number = has;
          vat_id = ap (λ v. v.value) f.vat_id;
          vat_verified = rw found at f.vat_verified;
          tax_id_kind = rw found at f.tax_id_kind;
          tax_id_evidence = rw found at f.tax_id_evidence;
        },
      ),
    )

-- In a chain of distinct levels, the VAT ID of the recipient, whether it is verified, its kind and
-- its evidence are all those of one party of the chain, the one whose number it is; without a number
-- nothing is verified.
pub resolve_recipient-IsConsistent :
    (own : PartyLevel) (above : List PartyLevel)
    → IsDistinct (own ∷ above)
    → IsConsistent (own ∷ above) (resolve_recipient own above)
unfolding resolve_recipient
resolve_recipient-IsConsistent own above distinct =
    Follows-IsConsistent (own ∷ above) (first (λ level. level.vat_id) (own ∷ above))
      (resolve_recipient own above) distinct (first-IsFirst (λ level. level.vat_id) (own ∷ above))
      (record { vat_id = refl; vat_verified = refl; tax_id_kind = refl; tax_id_evidence = refl })
