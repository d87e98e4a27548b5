-- ===== src/PartyService/Sentences.antt =====
-- The sentences of a refusal (`PartyError` of apps/api/services/party_service.py), for names that are
-- printable.
use film_bill.Base.{
  ℕ, Bool, true, false, not, ◌&&◌, ◌||◌, none, some, List, [], ◌∷◌, ◌++◌, map, nat_eq,
  if◌then◌else◌, select, contains, ℕ_has_equality,
}
use film_bill.Base.Text.{Text, lit}
use film_bill.PartyService.Rows.{Party}
use film_bill.PartyService.Values.{level_name}
use film_bill.PartyService.Tree.{
  PartyError, not_a_party_type, department_needs_parent, organisation_on_top, parent_not_found,
  cannot_belong, own_parent, below_itself, too_deep, allowed_parents,
}

abbrev quote : ℕ
quote = 39

abbrev double_quote : ℕ
double_quote = 34

abbrev backslash : ℕ
backslash = 92

-- The characters inside the quotes of `repr`.
unfoldable pub escaped : Bool → Text → Text
escaped quoted [] = []
escaped quoted (c ∷ s) =
    let rest = escaped quoted s in
    if nat_eq c backslash || (quoted && nat_eq c quote) then backslash ∷ c ∷ rest else c ∷ rest

-- `repr(s)`: in double quotes if there are single ones in it and no double ones.
unfoldable pub repr : Text → Text
repr s =
    if contains s quote && not (contains s double_quote)
    then (double_quote ∷ escaped false s) ++ double_quote ∷ []
    else (quote ∷ escaped true s) ++ quote ∷ []

unfoldable pub joined : List Text → Text
joined [] = []
joined (s ∷ []) = s
joined (s ∷ t ∷ ts) = s ++ (lit ", " ++ joined (t ∷ ts))

unfoldable pub sentence : PartyError → Text
sentence (not_a_party_type s) =
    repr s ++ lit " is not a party type. Use one of organisation, department, person."
sentence department_needs_parent =
    lit
      "A department belongs to an organisation, so it needs a parent. A standalone department is not a thing that can be invoiced."
sentence organisation_on_top =
    lit
      "An organisation is the top of the tree and cannot have a parent. If this is a part of a larger body, make it a department of that organisation instead."
sentence parent_not_found = lit "Parent not found"
sentence (cannot_belong kind parent) =
    lit "A "
    ++ (level_name kind
        ++ (lit " cannot belong to a "
            ++ (level_name parent.kind
                ++ (lit ". Allowed: "
                    ++ (joined (map level_name (allowed_parents kind))
                        ++ (lit ". ("
                            ++ (repr parent.name
                                ++ (lit " is a " ++ (level_name parent.kind ++ lit ".)")))))))))
sentence own_parent = lit "A party cannot be its own parent."
sentence (below_itself parent) =
    lit "That would put "
    ++ (repr parent.name ++ lit " inside its own hierarchy. A party cannot end up below itself.")
sentence too_deep =
    lit
      "The hierarchy is 3 levels deep at most — an organisation, its departments and the people in them. This would make a fourth."

abbrev pub is_child : Party → Party → Bool
is_child p q = elim q.parent_id [
  | none ↦ false
  | some id ↦ nat_eq q.company_id p.company_id && nat_eq id p.id
]

abbrev pub is_active_child : Party → Party → Bool
is_active_child p q = is_child p q && q.is_active

-- `active_children`. The order of the names is that of the database.
unfoldable pub active_children : (List Party → List Party) → Party → List Party → List Party
active_children by_name p rows = by_name (select (is_active_child p) rows)

-- `refuse_archive_with_active_children`
unfoldable pub active_below : Party → List Party → Text
active_below p children =
    p.name
    ++ (lit " still has active entries below it: "
        ++ (joined (map (λ c. c.name ++ (lit " (" ++ (level_name c.kind ++ lit ")"))) children)
            ++ lit
                ". Archive those first — archiving never deletes, so they stay readable afterwards."))
