-- ===== src/Permissions/Samples.antt =====
-- Runs of the permissions, and the theorems at concrete inputs.
use film_bill.Base.{
  ◌≡◌, ◌≢◌, ◌↔◌, refl, sym, ◌∙◌, inl, inr, ℕ, true, false, Option, none, some, List, [], ◌∷◌,
  text_eq, Member, text_has_equality,
}
use film_bill.Base.Text.{sorted_set, insert_unique, lit, text_ltb}
use film_bill.Permissions.{
  owner, accountant, staff, tax_advisor, permissions, tax_advisor_optional, Company, roles_with,
  has_permission, permissions_for, role_named, add_named, add_companies, roles_requiring_2fa,
  CompanyMembership, is_active,
}
use film_bill.Permissions.Membership.{
  active_memberships, active_membership_in, is_held_in, active_membership_in_iff,
}
use film_bill.Permissions.Scoped.{
  Entity, Query, refused, no_entity, not_company_scoped, scoped, filter_all, IsOf, scoped-IsOf,
}

abbrev studio : Company
studio = record {
  id = 1;
  tax_advisor_reports = true;
  require_2fa_roles = lit "owner" ∷ lit "runner" ∷ [];
}

holds :
    (has_permission (lit "reports.view") tax_advisor (some studio) ≡ true)
    × (has_permission (lit "reports.view") tax_advisor none ≡ false)
    × (has_permission (lit "parties.edit") accountant (some studio) ≡ false)
    × (has_permission (lit "parties.edti") owner (some studio) ≡ false)
    × (permissions_for staff none ≡ lit "company.view" ∷ [])
    × (roles_requiring_2fa (studio ∷ []) ≡ owner ∷ tax_advisor ∷ [])
unfolding has_permission roles_with permissions tax_advisor_optional permissions_for sorted_set
    insert_unique roles_requiring_2fa add_companies add_named role_named lit text_eq text_ltb
holds = (refl, refl, refl, refl, refl, refl)

abbrev membership : Option ℕ → CompanyMembership
membership expires = record {
  id = 1;
  company_id = 1;
  user_id = 7;
  role = tax_advisor;
  expires_at = expires;
  revoked_at = none;
}

-- A row that has expired, before one in force: no access is found, though the second is active.
lapsed_first :
    (active_membership_in 10 7 1 (membership (some 5) ∷ membership none ∷ []) ≡ none)
    × (active_memberships 10 7 (membership (some 5) ∷ membership none ∷ []) ≡ membership none ∷ [])
unfolding active_membership_in active_memberships is_active
lapsed_first = (refl, refl)

-- A row that is revoked, and one in force.
abbrev one_in_force : List CompanyMembership
one_in_force = record (membership none) { revoked_at = some 3 } ∷ membership (some 20) ∷ []

revoked_not_held : is_held_in 7 1 (record (membership none) { revoked_at = some 3 }) ≡ false
revoked_not_held = refl

held-in_force :
    (a : CompanyMembership)
    → Member a one_in_force
    → is_held_in 7 1 a ≡ true
    → a ≡ membership (some 20)
held-in_force a (inl e) h = let clash : is_held_in 7 1 a ≡ false = rw e revoked_not_held in cc
held-in_force a (inr (inl e)) h = e
held-in_force a (inr (inr m)) h = absurd m

one_held :
    (a b : CompanyMembership)
    → Member a one_in_force
    → Member b one_in_force
    → is_held_in 7 1 a ≡ true
    → is_held_in 7 1 b ≡ true
    → a ≡ b
one_held a b m n h k = held-in_force a m h ∙ sym (held-in_force b n k)

active_membership_in_iff_example :
    (active_membership_in 10 7 1 one_in_force ≡ some (membership (some 20))) ↔ (
      Member (membership (some 20)) (active_memberships 10 7 one_in_force)
      × ((membership (some 20)).company_id ≡ 1))
active_membership_in_iff_example =
    active_membership_in_iff 10 7 1 one_in_force (membership (some 20)) one_held

abbrev parties : Entity
parties = record { name = lit "Party"; is_company_scoped = true }

abbrev users : Entity
users = record { name = lit "User"; is_company_scoped = false }

abbrev of_parties : Query
of_parties = record { entities = parties ∷ []; filters = [] }

scopes :
    (scoped (record { entities = parties ∷ users ∷ []; filters = [] }) 1
      ≡ refused (not_company_scoped (lit "User")))
    × (scoped (record { entities = []; filters = [] }) 1 ≡ refused no_entity)
unfolding scoped filter_all
scopes = (refl, refl)

scoped-IsOf_example :
    (of_parties.entities ≢ []) × IsOf 1 of_parties.entities ((lit "Party", 1) ∷ [])
unfolding scoped filter_all lit text_eq
scoped-IsOf_example =
    scoped-IsOf of_parties 1 ((lit "Party", 1) ∷ [])
      {result = record { entities = parties ∷ []; filters = (lit "Party", 1) ∷ [] }} refl refl
