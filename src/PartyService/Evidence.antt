-- ===== src/PartyService/Evidence.antt =====
-- Which number stands for a party and what it is verified by: `primary_tax_id`,
-- `latest_completed_check`, `vat_is_verified`, `tax_id_evidence` and `has_business_evidence` of
-- apps/api/services/party_service.py. An instant is a number of seconds.
pub mod Newest
pub mod Verified
use film_bill.Base.{
  ℕ, ◌+◌, ◌*◌, Bool, true, false, not, ◌&&◌, ◌||◌, Option, none, some, List, [], ◌∷◌, ltb, leb,
  nat_eq, if◌then◌else◌, text_eq, contains, text_has_equality, select, find, any, or_else, is_some,
}
use film_bill.Base.Int.{pos}
use film_bill.Base.Text.{Text, lit}
use film_bill.Parties.Levels.{Dict}
use film_bill.Tax.Json.{Json, null, boolean, number, text}
use film_bill.PartyService.Rows.{Party}
use film_bill.PartyService.Policy.{TaxIdCheckPolicy, load_policy}

pub record PartyTaxId : Type 0 where
  pub id : ℕ
  pub party_id : ℕ
  pub kind : Text
  pub value : Text
  pub is_primary : Bool
  pub is_active : Bool
  pub created_at : ℕ

pub record PartyVatCheck : Type 0 where
  pub id : ℕ
  pub tax_id_id : Option ℕ
  pub status : Text
  pub provider : Text
  pub qualified : Bool
  pub valid_until : Option ℕ
  pub consultation_ref : Option Text
  pub checked_at : ℕ

-- The identifiers, their checks and the settings of the companies.
pub record Evidence : Type 0 where
  pub tax_ids : List PartyTaxId
  pub checks : List PartyVatCheck
  pub policy_of : ℕ → Option Dict

abbrev pub vat_valid : Text
vat_valid = lit "valid"

abbrev pub vat_unavailable : Text
vat_unavailable = lit "unavailable"

abbrev pub vat_not_configured : Text
vat_not_configured = lit "not_configured"

abbrev pub provider_manual : Text
provider_manual = lit "manual"

abbrev pub tax_id_vat : Text
tax_id_vat = lit "vat"

unfoldable pub vat_like_kinds : List Text
vat_like_kinds = tax_id_vat ∷ lit "uid_ch" ∷ lit "abn" ∷ []

-- `.order_by(…)` by a test of which of two rows comes before the other: a stable sort by insertion.
module _ {A : Type 0} (before : A → A → Bool) where
  unfoldable pub put : A → List A → List A
  put a [] = a ∷ []
  put a (b ∷ bs) = let rest = put a bs in if before b a then b ∷ rest else a ∷ b ∷ bs

  unfoldable pub sort_rows : List A → List A
  sort_rows [] = []
  sort_rows (a ∷ bs) = put a (sort_rows bs)

abbrev pub first_of : {A : Type 0} → List A → Option A
first_of [] = none
first_of (a ∷ bs) = some a

-- `is_primary` descending, then `created_at`.
abbrev pub tax_id_before : PartyTaxId → PartyTaxId → Bool
tax_id_before a b =
    (a.is_primary && not b.is_primary)
    || (not (b.is_primary && not a.is_primary) && ltb a.created_at b.created_at)

abbrev pub is_vat_like : ℕ → PartyTaxId → Bool
is_vat_like party_id t =
    nat_eq t.party_id party_id && (t.is_active && contains vat_like_kinds t.kind)

abbrev pub or_first : {A : Type 0} → Option A → List A → Option A
or_first (some a) bs = some a
or_first none bs = first_of bs

-- The primary one, and the first if none is.
unfoldable pub primary_tax_id : Evidence → Party → Option PartyTaxId
primary_tax_id e p =
    let rows = sort_rows tax_id_before (select (is_vat_like p.id) e.tax_ids) in
    or_first (find (λ t. t.is_primary) rows) rows

abbrev pub is_completed : PartyTaxId → PartyVatCheck → Bool
is_completed t c =
    (elim c.tax_id_id [ none ↦ false | some id ↦ nat_eq id t.id ])
    && (not (text_eq c.status vat_unavailable) && not (text_eq c.status vat_not_configured))

-- `checked_at` descending.
abbrev pub check_before : PartyVatCheck → PartyVatCheck → Bool
check_before a b = ltb b.checked_at a.checked_at

unfoldable pub latest_completed_check : Evidence → PartyTaxId → Option PartyVatCheck
latest_completed_check e t = first_of (sort_rows check_before (select (is_completed t) e.checks))

abbrev pub is_older : ℕ → Option ℕ → ℕ → Bool
is_older checked_at none now = false
is_older checked_at (some max_age) now =
    if nat_eq max_age 0 then false else ltb (checked_at + max_age * 86_400) now

-- `_check_is_stale`
unfoldable pub check_is_stale : Evidence → Party → ℕ → PartyVatCheck → Bool
check_is_stale e p now c =
    is_older c.checked_at (load_policy (e.policy_of p.company_id)).max_check_age_days now

abbrev pub is_refused : Evidence → Party → ℕ → PartyTaxId → PartyVatCheck → Bool
is_refused e p now t c =
    if not (text_eq c.status vat_valid)
    then true
    else if text_eq c.provider provider_manual && text_eq t.kind tax_id_vat
    then true
    else check_is_stale e p now c

abbrev pub latest_verifies : Evidence → Party → ℕ → PartyTaxId → Option PartyVatCheck → Bool
latest_verifies e p now t none = false
latest_verifies e p now t (some c) =
    if not (text_eq c.status vat_valid)
    then false
    else if text_eq c.provider provider_manual && text_eq t.kind tax_id_vat
    then false
    else not (check_is_stale e p now c)

abbrev pub number_verifies : Evidence → Party → ℕ → Option PartyTaxId → Bool
number_verifies e p now none = false
number_verifies e p now (some t) = latest_verifies e p now t (latest_completed_check e t)

unfoldable pub vat_is_verified : Evidence → Party → ℕ → Bool
vat_is_verified e p now = number_verifies e p now (primary_tax_id e p)

abbrev optional_text : Option Text → Json
optional_text none = null
optional_text (some s) = text s

-- A UUID and an instant are their numbers.
unfoldable pub evidence_entry : PartyTaxId → PartyVatCheck → Dict
evidence_entry t c =
    (lit "tax_id_id", number (pos t.id))
    ∷ (lit "kind", text t.kind)
    ∷ (lit "value", text t.value)
    ∷ (lit "check_id", number (pos c.id))
    ∷ (lit "status", text c.status)
    ∷ (lit "qualified", boolean c.qualified)
    ∷ (lit "checked_at", number (pos c.checked_at))
    ∷ (lit "consultation_ref", optional_text c.consultation_ref)
    ∷ (lit "provider", text c.provider)
    ∷ []

abbrev pub latest_evidence : Evidence → Party → ℕ → PartyTaxId → Option PartyVatCheck → Option Dict
latest_evidence e p now t none = none
latest_evidence e p now t (some c) =
    if is_refused e p now t c then none else some (evidence_entry t c)

abbrev pub number_evidence : Evidence → Party → ℕ → Option PartyTaxId → Option Dict
number_evidence e p now none = none
number_evidence e p now (some t) = latest_evidence e p now t (latest_completed_check e t)

unfoldable pub tax_id_evidence : Evidence → Party → ℕ → Option Dict
tax_id_evidence e p now = number_evidence e p now (primary_tax_id e p)

abbrev is_current_valid : ℕ → Option PartyVatCheck → Bool
is_current_valid now none = false
is_current_valid now (some c) =
    if not (text_eq c.status vat_valid)
    then false
    else (elim c.valid_until [ none ↦ true | some until ↦ not (ltb until now) ])

unfoldable pub has_business_evidence : Evidence → Party → ℕ → Bool
has_business_evidence e p now =
    any (λ t. is_current_valid now (latest_completed_check e t))
      (select (λ t. nat_eq t.party_id p.id && t.is_active) e.tax_ids)
