-- ===== src/Permissions.antt =====
-- Who may do what (apps/api/services/permissions.py), and the roles and memberships of
-- apps/api/models/company.py. An instant is a number.
pub mod Listed
pub mod Membership
pub mod Scoped
mod Samples
use film_bill.Base.{
  ◌≡◌, refl, ◌↔◌, ℕ, ◌<◌, Bool, true, false, not, ◌&&◌, ◌||◌, Option, none, some, List, [], ◌∷◌,
  ◌++◌, map, ltb, nat_eq, arith, if◌then◌else◌, text_eq, lookup, contains, or_else, is_some,
  HasEquality, text_has_equality, select, any,
}
use film_bill.Base.Text.{sorted_set, Text, lit}

pub data CompanyRole : Type 0 where
  owner : CompanyRole
  admin : CompanyRole
  accountant : CompanyRole
  producer : CompanyRole
  staff : CompanyRole
  tax_advisor : CompanyRole

abbrev pub role_number : CompanyRole → ℕ
role_number owner = 0
role_number admin = 1
role_number accountant = 2
role_number producer = 3
role_number staff = 4
role_number tax_advisor = 5

abbrev pub role_eq : CompanyRole → CompanyRole → Bool
role_eq a b = nat_eq (role_number a) (role_number b)

pub role_eq_iff : (a b : CompanyRole) → (role_eq a b ≡ true) ↔ (a ≡ b)
role_eq_iff a b = ground arith

instance abbrev pub role_has_equality : HasEquality CompanyRole
role_has_equality = record { equal = role_eq; equal_iff = role_eq_iff }

abbrev pub all_roles : List CompanyRole
all_roles = owner ∷ admin ∷ accountant ∷ producer ∷ staff ∷ tax_advisor ∷ []

abbrev pub owner_admin : List CompanyRole
owner_admin = owner ∷ admin ∷ []

abbrev pub books : List CompanyRole
books = owner ∷ admin ∷ accountant ∷ []

abbrev pub production : List CompanyRole
production = owner ∷ admin ∷ accountant ∷ producer ∷ []

abbrev pub party_edit : List CompanyRole
party_edit = owner ∷ admin ∷ producer ∷ []

unfoldable pub permissions : List (Text × List CompanyRole)
permissions =
    (lit "company.view", all_roles)
    ∷ (lit "company.settings.edit", owner_admin)
    ∷ (lit "company.members.manage", owner_admin)
    ∷ (lit "number_series.manage", owner_admin)
    ∷ (lit "audit.view", owner_admin ++ tax_advisor ∷ [])
    ∷ (lit "parties.view", production)
    ∷ (lit "parties.edit", party_edit)
    ∷ (lit "archive.view", books ++ tax_advisor ∷ [])
    ∷ (lit "archive.download", books ++ tax_advisor ∷ [])
    ∷ (lit "documents.finalize", production)
    ∷ (lit "documents.revise", production)
    ∷ (lit "ledger.view", books)
    ∷ (lit "reports.view", books)
    ∷ (lit "exports.download", books)
    ∷ []

unfoldable pub tax_advisor_optional : List Text
tax_advisor_optional = lit "reports.view" ∷ lit "exports.download" ∷ []

-- What the permissions read of a company.
pub record Company : Type 0 where
  pub id : ℕ
  pub tax_advisor_reports : Bool
  pub require_2fa_roles : List Text

unfoldable pub roles_with : Text → List CompanyRole
roles_with permission = or_else (lookup permission permissions) []

abbrev pub opted_in : Option Company → Bool
opted_in none = false
opted_in (some company) = company.tax_advisor_reports

unfoldable pub has_permission : Text → CompanyRole → Option Company → Bool
has_permission permission role company =
    contains (roles_with permission) role
    || (role_eq role tax_advisor && contains tax_advisor_optional permission && opted_in company)

abbrev pub keys : {A : Type 0} → List (Text × A) → List Text
keys [] = []
keys ((k, v) ∷ d) = k ∷ keys d

unfoldable pub permissions_for : CompanyRole → Option Company → List Text
permissions_for role company =
    sorted_set (select (λ key. has_permission key role company) (keys permissions))

-- `CompanyRole(value)`
unfoldable pub role_named : Text → Option CompanyRole
role_named value = lookup value (
    (lit "owner", owner)
    ∷ (lit "admin", admin)
    ∷ (lit "accountant", accountant)
    ∷ (lit "producer", producer)
    ∷ (lit "staff", staff)
    ∷ (lit "tax_advisor", tax_advisor)
    ∷ [])

-- `required.add(…)`, and nothing for a role that does not exist.
abbrev pub add_role : Option CompanyRole → List CompanyRole → List CompanyRole
add_role none required = required
add_role (some role) required = if contains required role then required else role ∷ required

unfoldable pub add_named : List Text → List CompanyRole → List CompanyRole
add_named [] required = required
add_named (value ∷ values) required = add_named values (add_role (role_named value) required)

unfoldable pub add_companies : List Company → List CompanyRole → List CompanyRole
add_companies [] required = required
add_companies (company ∷ companies) required =
    add_companies companies (add_named company.require_2fa_roles required)

unfoldable pub roles_requiring_2fa : List Company → List CompanyRole
roles_requiring_2fa companies = add_companies companies (tax_advisor ∷ [])

pub record CompanyMembership : Type 0 where
  pub id : ℕ
  pub company_id : ℕ
  pub user_id : ℕ
  pub role : CompanyRole
  pub expires_at : Option ℕ
  pub revoked_at : Option ℕ

abbrev pub not_expired : ℕ → Option ℕ → Bool
not_expired now none = true
not_expired now (some expires) = ltb now expires

unfoldable pub is_active : ℕ → CompanyMembership → Bool
is_active now row = not (is_some row.revoked_at) && not_expired now row.expires_at
