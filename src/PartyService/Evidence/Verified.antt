-- ===== src/PartyService/Evidence/Verified.antt =====
-- A party is verified exactly by what its evidence says.
use film_bill.Base.{
  ◌≡◌, refl, sym, ◌∙◌, inl, inr, ℕ, ◌≤◌, Bool, true, false, not, Option, none, some, List, arith,
  text_eq, text_eq_iff, contains, text_has_equality, select, select-Member, find, find-Member,
  is_some, Bool-cases, Option-cases, Member, ◌≢◌,
}
use film_bill.PartyService.Rows.{Party}
use film_bill.PartyService.Evidence.{
  PartyTaxId, PartyVatCheck, Evidence, vat_valid, provider_manual, tax_id_vat, sort_rows, or_first,
  is_vat_like, vat_like_kinds, tax_id_before, primary_tax_id, is_completed, check_before,
  latest_completed_check, check_is_stale, is_refused, vat_is_verified, evidence_entry,
  tax_id_evidence, number_verifies, latest_verifies, number_evidence,
}
use film_bill.PartyService.Evidence.Newest.{
  sort_rows-Member, Member-sort_rows, sort_rows-StartsNewest, first_of-newest, first_of-Member,
}

-- The number and the check that a verified party rests on.
pub record IsBacked (e : Evidence) (p : Party) (now : ℕ) (t : PartyTaxId) (c : PartyVatCheck)
    : Type 0 where
  pub primary : primary_tax_id e p ≡ some t
  pub stored : Member t e.tax_ids
  pub own : t.party_id ≡ p.id
  pub active : t.is_active ≡ true
  pub vat_like : contains vat_like_kinds t.kind ≡ true
  pub check_stored : Member c e.checks
  pub completed : is_completed t c ≡ true
  pub newest :
      (d : PartyVatCheck)
      → Member d e.checks
      → is_completed t d ≡ true
      → d.checked_at ≤ c.checked_at
  pub status : c.status ≡ vat_valid
  pub registry : c.provider ≡ provider_manual → t.kind ≢ tax_id_vat
  pub fresh : check_is_stale e p now c ≡ false

or_first-Member :
    {A : Type 0} (q : A → Bool) (xs : List A) (o : Option A) {a : A}
    → find q xs ≡ o
    → or_first o xs ≡ some a
    → Member a xs
or_first-Member q xs (some b) found h = (find-Member q xs (found ∙ h)).0
or_first-Member q xs none found h = first_of-Member xs h

primary-Member :
    (e : Evidence) (p : Party) (t : PartyTaxId)
    → primary_tax_id e p ≡ some t
    → Member t (select (is_vat_like p.id) e.tax_ids)
unfolding primary_tax_id
primary-Member e p t h =
    let rows = sort_rows tax_id_before (select (is_vat_like p.id) e.tax_ids) in
    sort_rows-Member tax_id_before (select (is_vat_like p.id) e.tax_ids) t (
      or_first-Member (λ (r : PartyTaxId). r.is_primary) rows
        (find (λ (r : PartyTaxId). r.is_primary) rows) refl h)

verdict :
    (e : Evidence) (p : Party) (now : ℕ) (t : PartyTaxId) (c : PartyVatCheck)
    → is_refused e p now t c ≡ false
    → (c.status ≡ vat_valid)
      × (c.provider ≡ provider_manual → t.kind ≢ tax_id_vat)
      × (check_is_stale e p now c ≡ false)
verdict e p now t c h = (
  (text_eq_iff c.status vat_valid).0 (ground arith),
  λ by_hand vat.
      let manual : text_eq c.provider provider_manual ≡ true =
        (text_eq_iff c.provider provider_manual).1 by_hand in
      let is_vat : text_eq t.kind tax_id_vat ≡ true = (text_eq_iff t.kind tax_id_vat).1 vat in
      absurd (ground arith),
  ground arith,
)

latest-Member :
    (e : Evidence) (t : PartyTaxId) (c : PartyVatCheck)
    → latest_completed_check e t ≡ some c
    → Member c e.checks × (is_completed t c ≡ true)
unfolding latest_completed_check
latest-Member e t c h = (select-Member (is_completed t) e.checks).0 (
    sort_rows-Member check_before (select (is_completed t) e.checks) c
      (first_of-Member (sort_rows check_before (select (is_completed t) e.checks)) h))

latest-newest :
    (e : Evidence) (t : PartyTaxId) (c d : PartyVatCheck)
    → latest_completed_check e t ≡ some c
    → Member d e.checks
    → is_completed t d ≡ true
    → d.checked_at ≤ c.checked_at
unfolding latest_completed_check
latest-newest e t c d h m done =
    first_of-newest (sort_rows check_before (select (is_completed t) e.checks)) d
      (sort_rows-StartsNewest (select (is_completed t) e.checks)) h
      (Member-sort_rows check_before (select (is_completed t) e.checks) d
        ((select-Member (is_completed t) e.checks).1 (m, done)))

-- What is said of the number and the check that are looked at.
says :
    (e : Evidence) (p : Party) (now : ℕ) (t : PartyTaxId) (c : PartyVatCheck)
    → (latest_verifies e p now t (some c) ≡ not (is_refused e p now t c))
says e p now t c = ground arith

agree :
    (e : Evidence) (p : Party) (now : ℕ) (o : Option PartyTaxId)
    → is_some (number_evidence e p now o) ≡ number_verifies e p now o
agree e p now none = refl
agree e p now (some t) = elim (Option-cases (latest_completed_check e t)) [
  | inl gone ↦ rw gone refl
  | inr (c, there) ↦
      rw (there, says e p now t c)
        (elim (Bool-cases (is_refused e p now t c)) [
          | inl refused ↦ rw refused refl
          | inr kept ↦ rw kept refl
        ])
]

backed :
    (e : Evidence) (p : Party) (now : ℕ) (o : Option PartyTaxId)
    → primary_tax_id e p ≡ o
    → number_verifies e p now o ≡ true
    → (t : PartyTaxId) × (c : PartyVatCheck) × IsBacked e p now t c
      × (number_evidence e p now o ≡ some (evidence_entry t c))
backed e p now none h verified = cc
backed e p now (some t) h verified = elim (Option-cases (latest_completed_check e t)) [
  | inl gone ↦ let clash : false ≡ true = rw gone at verified in absurd (ground arith)
  | inr (c, there) ↦
      let verifies : latest_verifies e p now t (some c) ≡ true = rw there at verified in
      let kept : is_refused e p now t c ≡ false =
        (let flipped : not (is_refused e p now t c) ≡ true = sym (says e p now t c) ∙ verifies in
          ground arith) in
      let (status, registry, fresh) = verdict e p now t c kept in
      let (stored, likes) =
        (select-Member (is_vat_like p.id) e.tax_ids).0 (primary-Member e p t h) in
      let (check_stored, completed) = latest-Member e t c there in
      (
        t,
        c,
        record {
          primary = h;
          stored = stored;
          own = ground arith;
          active = ground arith;
          vat_like = ground arith;
          check_stored = check_stored;
          completed = completed;
          newest = λ d m done. latest-newest e t c d there m done;
          status = status;
          registry = registry;
          fresh = fresh;
        },
        rw (there, kept) refl,
      )
]

-- The flag and the evidence agree, and a party that is verified is so by its own active primary number
-- and by the latest check of it that was completed: that check is valid and not too old, and is no
-- manual one where the number is a VAT ID; the evidence is of that number and that check.
pub vat_is_verified-IsBacked :
    (e : Evidence) (p : Party) (now : ℕ)
    → (is_some (tax_id_evidence e p now) ≡ vat_is_verified e p now)
      × (vat_is_verified e p now ≡ true
          → (t : PartyTaxId) × (c : PartyVatCheck) × IsBacked e p now t c
            × (tax_id_evidence e p now ≡ some (evidence_entry t c)))
unfolding vat_is_verified tax_id_evidence
vat_is_verified-IsBacked e p now =
    (agree e p now (primary_tax_id e p), backed e p now (primary_tax_id e p) refl)
