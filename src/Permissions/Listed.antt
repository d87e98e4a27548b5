-- ===== src/Permissions/Listed.antt =====
-- The list that the web application is given agrees with what each endpoint enforces, and the roles
-- that need a second factor.
use film_bill.Base.{
  ◌≡◌, refl, ◌⊎◌, inl, inr, ◌↔◌, true, Option, none, some, List, [], ◌∷◌, arith, text_eq_iff,
  lookup, contains, HasEquality, text_has_equality, Member, select-Member,
}
use film_bill.Base.Text.{insert_unique, sorted_set, Text, lit}
use film_bill.Permissions.{
  CompanyRole, tax_advisor, role_has_equality, permissions, tax_advisor_optional, Company,
  roles_with, has_permission, keys, permissions_for, role_named, add_role, add_named, add_companies,
  roles_requiring_2fa,
}

module _ {A : Type 0} ⦃e : HasEquality A⦄ where
  contains_iff : (xs : List A) (a : A) → (contains xs a ≡ true) ↔ Member a xs
  contains_iff [] a = ground arith
  contains_iff (x ∷ xs) a = ground (arith, e.equal_iff a x, contains_iff xs a)

insert_unique-Member :
    (t : Text) (ts : List Text) (s : Text) → Member s (insert_unique t ts) ↔ ((s ≡ t) ⊎ Member s ts)
unfolding insert_unique
insert_unique-Member t [] s = (λ m. m, λ m. m)
insert_unique-Member t (u ∷ us) s = ground (arith, text_eq_iff t u, insert_unique-Member t us s)

sorted_set-Member : (ts : List Text) (s : Text) → Member s (sorted_set ts) ↔ Member s ts
unfolding sorted_set
sorted_set-Member [] s = (λ m. m, λ m. m)
sorted_set-Member (t ∷ ts) s =
    ground (arith, insert_unique-Member t (sorted_set ts) s, sorted_set-Member ts s)

lookup-keys :
    {A : Type 0} (k : Text) (d : List (Text × A)) → (lookup k d ≡ none) ⊎ Member k (keys d)
lookup-keys k [] = inl refl
lookup-keys k ((j, v) ∷ d) = ground (arith, text_eq_iff k j, lookup-keys k d)

optional_known : (s : Text) → contains tax_advisor_optional s ≡ true → Member s (keys permissions)
unfolding tax_advisor_optional permissions
optional_known s h =
    ground (arith, text_eq_iff s (lit "reports.view"), text_eq_iff s (lit "exports.download"))

-- What anybody holds is in the table.
has_permission-known :
    (permission : Text) (role : CompanyRole) (company : Option Company)
    → has_permission permission role company ≡ true
    → Member permission (keys permissions)
unfolding has_permission roles_with
has_permission-known permission role company h = elim (lookup-keys permission permissions) [
  | inl absent ↦
      let optional : contains tax_advisor_optional permission ≡ true =
        ground (arith, rw absent at h) in
      optional_known permission optional
  | inr m ↦ m
]

-- The list for a role in a company has exactly the permissions that the role holds there; a key that
-- is not in the table is held by nobody.
pub permissions_for_iff :
    (permission : Text) (role : CompanyRole) (company : Option Company)
    → Member permission (permissions_for role company)
      ↔ (has_permission permission role company ≡ true)
unfolding permissions_for
permissions_for_iff permission role company = (
  λ m.
      let chosen = (sorted_set-Member _ permission).0 m in
      ((select-Member (λ key. has_permission key role company) (keys permissions)).0 chosen).1,
  λ h. (sorted_set-Member _ permission).1 (
      (select-Member (λ key. has_permission key role company) (keys permissions)).1
        (has_permission-known permission role company h, h)),
)

-- One of the names stands for the role, in a company or in any of several.
abbrev pub IsNamed : CompanyRole → List Text → Type 0
IsNamed role [] = ⊥
IsNamed role (value ∷ values) = (role_named value ≡ some role) ⊎ IsNamed role values

abbrev pub IsNamedByAny : CompanyRole → List Company → Type 0
IsNamedByAny role [] = ⊥
IsNamedByAny role (company ∷ companies) =
    IsNamed role company.require_2fa_roles ⊎ IsNamedByAny role companies

add_role-Member :
    (o : Option CompanyRole) (required : List CompanyRole) (role : CompanyRole)
    → Member role (add_role o required) ↔ ((o ≡ some role) ⊎ Member role required)
add_role-Member none required role = ground arith
add_role-Member (some r) required role = ground (arith, contains_iff required r)

add_named-Member :
    (values : List Text) (required : List CompanyRole) (role : CompanyRole)
    → Member role (add_named values required) ↔ (IsNamed role values ⊎ Member role required)
unfolding add_named
add_named-Member [] required role = ground arith
add_named-Member (value ∷ values) required role = ground (
  arith,
  add_named-Member values (add_role (role_named value) required) role,
  add_role-Member (role_named value) required role,
)

add_companies-Member :
    (companies : List Company) (required : List CompanyRole) (role : CompanyRole)
    → Member role (add_companies companies required)
      ↔ (IsNamedByAny role companies ⊎ Member role required)
unfolding add_companies
add_companies-Member [] required role = ground arith
add_companies-Member (company ∷ companies) required role = ground (
  arith,
  add_companies-Member companies (add_named company.require_2fa_roles required) role,
  add_named-Member company.require_2fa_roles required role,
)

-- The roles that need a second factor are the tax advisor, whatever is configured, and those that the
-- settings of some company name; a name that is no role adds none.
pub roles_requiring_2fa_iff :
    (companies : List Company) (role : CompanyRole)
    → Member role (roles_requiring_2fa companies)
      ↔ (IsNamedByAny role companies ⊎ (role ≡ tax_advisor))
unfolding roles_requiring_2fa
roles_requiring_2fa_iff companies role =
    ground (arith, add_companies-Member companies (tax_advisor ∷ []) role)
