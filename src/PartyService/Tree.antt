-- ===== src/PartyService/Tree.antt =====
-- `validate_parent` and `_depth_of`: which party may stand below which. Their two walks up the tree run
-- on fuel, and are undecided where it runs out.
pub mod Walks
use film_bill.Base.{
  ◌≡◌, refl, ℕ, zero, suc, ◌+◌, Bool, true, false, not, ◌&&◌, Option, none, some, List, [], ◌∷◌,
  leb, nat_eq, if◌then◌else◌, text_eq, length, is_nil, contains, ℕ_has_equality,
}
use film_bill.Base.Text.{Text, lit}
use film_bill.Parties.Levels.{Level, person, department, organisation, level_eq, level_has_equality}
use film_bill.PartyService.Rows.{Party, find_party, parent_row}

-- PartyError and ParentNotFound, by their sentences.
pub data PartyError : Type 0 where
  not_a_party_type : Text → PartyError
  department_needs_parent : PartyError
  organisation_on_top : PartyError
  parent_not_found : PartyError
  cannot_belong : Level → Party → PartyError
  own_parent : PartyError
  below_itself : Party → PartyError
  too_deep : PartyError

pub data ParentCheck (A : Type 0) : Type 0 where
  passed : A → ParentCheck A
  failed : PartyError → ParentCheck A
  undecided : ParentCheck A

-- PARTY_TYPES
unfoldable pub party_type_named : Text → Option Level
party_type_named s =
    if text_eq s (lit "organisation")
    then some organisation
    else if text_eq s (lit "department")
    then some department
    else if text_eq s (lit "person")
    then some person
    else none

-- ALLOWED_PARENTS
abbrev pub allowed_parents : Level → List Level
allowed_parents organisation = []
allowed_parents department = organisation ∷ []
allowed_parents person = organisation ∷ department ∷ []

abbrev pub max_depth : ℕ
max_depth = 3

-- The walk up from the proposed parent: whether it meets a party that it has seen.
unfoldable pub meets_itself : ℕ → ℕ → List Party → List ℕ → Option Party → Option Bool
meets_itself zero company_id rows seen walker = none
meets_itself (suc fuel) company_id rows seen none = some false
meets_itself (suc fuel) company_id rows seen (some p) =
    let rest =
      meets_itself fuel company_id rows (p.id ∷ seen) (parent_row company_id p.parent_id rows) in
    if contains seen p.id then some true else rest

-- The loop of `_depth_of`, at a walker that is `depth` levels down and whose parent is given.
unfoldable pub depth_from : ℕ → ℕ → List Party → List ℕ → ℕ → Option ℕ → Option ℕ
depth_from zero company_id rows seen depth parent_id = none
depth_from (suc fuel) company_id rows seen depth none = some depth
depth_from (suc fuel) company_id rows seen depth (some id) =
    let rest : Option ℕ = elim (find_party company_id id rows) [
      | none ↦ some depth
      | some p ↦ depth_from fuel company_id rows (id ∷ seen) (depth + 1) p.parent_id
    ] in
    if contains seen id then some depth else rest

-- The walks see each row once.
abbrev pub fuel_for : List Party → ℕ
fuel_for rows = suc (suc (length rows))

unfoldable pub depth_of : ℕ → List Party → Party → Option ℕ
depth_of company_id rows p = depth_from (fuel_for rows) company_id rows (p.id ∷ []) 1 p.parent_id

unfoldable pub check_depth : ℕ → List Party → Party → ParentCheck (Option Party)
check_depth company_id rows parent = elim (depth_of company_id rows parent) [
  | none ↦ undecided
  | some depth ↦ if leb (max_depth + 1) (depth + 1) then failed too_deep else passed (some parent)
]

-- The check of a party that has an id already.
unfoldable pub check_cycle : ℕ → List Party → Option ℕ → Party → ParentCheck (Option Party)
check_cycle company_id rows none parent = check_depth company_id rows parent
check_cycle company_id rows (some own) parent =
    if nat_eq parent.id own
    then failed own_parent
    else elim (meets_itself (fuel_for rows) company_id rows (own ∷ []) (some parent)) [
      | none ↦ undecided
      | some true ↦ failed (below_itself parent)
      | some false ↦ check_depth company_id rows parent
    ]

unfoldable pub check_row :
    ℕ → List Party → Level → Option ℕ → Option Party → ParentCheck (Option Party)
check_row company_id rows kind party_id none = failed parent_not_found
check_row company_id rows kind party_id (some parent) =
    if not (contains (allowed_parents kind) parent.kind)
    then failed (cannot_belong kind parent)
    else check_cycle company_id rows party_id parent

unfoldable pub check_parent :
    ℕ → List Party → Level → Option ℕ → Option ℕ → ParentCheck (Option Party)
check_parent company_id rows kind none party_id =
    if level_eq kind department then failed department_needs_parent else passed none
check_parent company_id rows kind (some id) party_id =
    if is_nil (allowed_parents kind)
    then failed organisation_on_top
    else check_row company_id rows kind party_id (find_party company_id id rows)

unfoldable pub check_type :
    ℕ → List Party → Text → Option ℕ → Option ℕ → Option Level → ParentCheck (Option Party)
check_type company_id rows party_type parent_id party_id none = failed (not_a_party_type party_type)
check_type company_id rows party_type parent_id party_id (some kind) =
    check_parent company_id rows kind parent_id party_id

unfoldable pub validate_parent :
    ℕ → List Party → Text → Option ℕ → Option ℕ → ParentCheck (Option Party)
validate_parent company_id rows party_type parent_id party_id =
    check_type company_id rows party_type parent_id party_id (party_type_named party_type)
