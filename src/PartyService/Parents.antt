-- ===== src/PartyService/Parents.antt =====
-- Every handler of apps/api/routers/parties.py keeps the tree of the parties.
use film_bill.Base.{
  ◌≡◌, refl, ap, ap₂, ◌∙◌, inl, inr, ℕ, Bool, true, false, Option, none, some, List, [], ◌∷◌, ◌++◌,
  nat_eq, Bool-cases, any, or_else,
}
use film_bill.Http.{ok, crashed, guard_then, found_then, step_then, ok-injective}
use film_bill.Audit.Trail.{Client}
use film_bill.Base.Text.{Text, lit}
use film_bill.Numbering.Date.{Date}
use film_bill.Companies.Access.{Membership, company_id_of}
use film_bill.PartyService.Rows.{Party, find_party, found-Member}
use film_bill.PartyService.Tree.{validate_parent}
use film_bill.PartyService.Values.{level_name}
use film_bill.PartyService.Changes.{PartyWrite, PartyCreate, apply_changes, new_party}
use film_bill.PartyService.Numbers.{allocate_party_number, PartyStore}
use film_bill.PartyService.Writes.{
  flush_parties, write_party, caught, insert_party, create_party, move_party, same_parent,
  update_party, archive_party, reactivate_party, set_active, with_active, refused_with,
}
use film_bill.PartyService.Hierarchy.{
  IsPlaced, IsPlaced-append, IsTree, validate_parent-IsPlaced, write_party-IsTree, append-IsTree,
  find-new,
}
use film_bill.PartyService.Sentences.{is_active_child, active_children, active_below}
use film_bill.PartyService.Place.{
  SamePlace, allocate_party_number-SamePlace, apply_changes-SamePlace, flush_parties-ok, caught-ok,
}

module _ (caller : Membership) (client : Client) (today : Date) (now : ℕ) where
  -- What is written to the row of a party keeps the tree, if it is of the same kind and well placed.
  written-IsTree :
      (p r : Party) (rows : List Party) {result : List Party}
      → IsTree rows
      → find_party (company_id_of caller) r.id rows ≡ some r
      → r.company_id ≡ company_id_of caller
      → p.id ≡ r.id
      → p.company_id ≡ r.company_id
      → p.kind ≡ r.kind
      → IsPlaced (company_id_of caller) rows p.kind p.parent_id
      → flush_parties (write_party p rows) ≡ ok result
      → IsTree result
  written-IsTree p r rows tree found own same_id same_company same_kind placed h =
      let company : p.company_id ≡ company_id_of caller = same_company ∙ own in
      rw (← flush_parties-ok (write_party p rows) h) (
        write_party-IsTree p r rows (rw (company, same_id) found) same_kind tree
          (rw company placed))

  insert_party-ok :
      (p : Party) (rows : List Party) {result : List Party}
      → insert_party caller client today now p rows ≡ ok result
      → (any (λ q. nat_eq q.id p.id) rows ≡ false) × (rows ++ p ∷ [] ≡ result)
  unfolding insert_party
  insert_party-ok p rows {result} h = elim (Bool-cases (any (λ q. nat_eq q.id p.id) rows)) [
    | inl e ↦ let clash : crashed ≡ ok result = rw e at h in cc
    | inr e ↦ (e, flush_parties-ok (rows ++ p ∷ []) (rw e at h))
  ]

  pub create_party-IsTree :
      (body : PartyCreate) (id : ℕ) (store : PartyStore) {store' : PartyStore}
      → IsTree store.parties
      → create_party caller client today now body id store ≡ ok store'
      → IsTree store'.parties
  unfolding create_party new_party
  create_party-IsTree body id store {store'} tree h =
      let p = new_party (company_id_of caller) body id in
      let (o, accepted, h1) =
        step_then
          (caught (
            validate_parent (company_id_of caller) store.parties (level_name body.kind)
              (or_else body.rest.parent_id none) none))
          _ h in
      let placed =
        validate_parent-IsPlaced (company_id_of caller) store.parties body.kind
          (or_else body.rest.parent_id none) none (caught-ok _ accepted) in
      let (inserted, added, h2) =
        step_then (insert_party caller client today now p store.parties) _ h1 in
      let (fresh, same) = insert_party-ok p store.parties added in
      let ((numbered_store, q), allocated, h3) =
        step_then (allocate_party_number today now store p) _ h2 in
      let keeps : SamePlace q p = allocate_party_number-SamePlace today now store p allocated in
      let (parties, flushed, h4) = step_then (flush_parties (write_party q inserted)) _ h3 in
      let result : parties ≡ store'.parties = ap (λ s. s.parties) (ok-injective h4) in
      let tree' : IsTree inserted = rw (← same) (append-IsTree p store.parties tree placed) in
      let placed' : IsPlaced (company_id_of caller) inserted q.kind q.parent_id =
        rw (← same, keeps.kind, keeps.parent_id)
          (IsPlaced-append (company_id_of caller) store.parties (p ∷ []) p.kind p.parent_id
            placed) in
      rw (← result) (
        written-IsTree q p inserted tree' (rw (← same) (find-new p store.parties fresh)) refl
          keeps.id keeps.company_id keeps.kind placed' flushed)

  moved-IsPlaced :
      (p : Party) (parent_id : Option (Option ℕ)) (rows : List Party) {q : Party}
      → IsPlaced (company_id_of caller) rows p.kind p.parent_id
      → move_party caller client today now p parent_id rows ≡ ok q
      → (q.id ≡ p.id)
        × (q.company_id ≡ p.company_id)
        × (q.kind ≡ p.kind)
        × IsPlaced (company_id_of caller) rows q.kind q.parent_id
  unfolding move_party
  moved-IsPlaced p none rows placed h =
      let same = ok-injective h in rw (← same) (refl, refl, refl, placed)
  moved-IsPlaced p (some parent_id) rows placed h =
      elim (Bool-cases (same_parent caller client today now parent_id p.parent_id)) [
        | inl e ↦ let same = ok-injective (rw e at h) in rw (← same) (refl, refl, refl, placed)
        | inr e ↦
            let (o, accepted, h1) =
              step_then
                (caught (
                  validate_parent (company_id_of caller) rows (level_name p.kind) parent_id
                    (some p.id)))
                _ (rw e at h) in
            let same = ok-injective h1 in
            rw (← same) (
              refl,
              refl,
              refl,
              validate_parent-IsPlaced (company_id_of caller) rows p.kind parent_id (some p.id)
                  (caught-ok _ accepted),
            )
      ]

  pub update_party-IsTree :
      (id : ℕ) (body : PartyWrite) (store : PartyStore) {store' : PartyStore}
      → IsTree store.parties
      → update_party caller client today now id body store ≡ ok store'
      → IsTree store'.parties
  unfolding update_party
  update_party-IsTree id body store {store'} tree h =
      let (r, found, h1) = found_then (find_party (company_id_of caller) id store.parties) _ h in
      let (m, own, same_id) = found-Member (company_id_of caller) id store.parties found in
      let (moved, movedok, h2) =
        step_then (move_party caller client today now r body.parent_id store.parties) _ h1 in
      let (changed, changedok, h3) = step_then (apply_changes body moved) _ h2 in
      let ((numbered_store, q), allocated, h4) =
        step_then (allocate_party_number today now store changed) _ h3 in
      let (parties, flushed, h5) = step_then (flush_parties (write_party q store.parties)) _ h4 in
      let result : parties ≡ store'.parties = ap (λ s. s.parties) (ok-injective h5) in
      let a : SamePlace q changed =
        allocate_party_number-SamePlace today now store changed allocated in
      let b : SamePlace changed moved = apply_changes-SamePlace body moved changedok in
      let placed : IsPlaced (company_id_of caller) store.parties r.kind r.parent_id =
        rw (← own) (tree r m) in
      let (c1, c2, c3, c4) = moved-IsPlaced r body.parent_id store.parties placed movedok in
      rw (← result) (
        written-IsTree q r store.parties tree (rw same_id found) own (a.id ∙ (b.id ∙ c1))
          (a.company_id ∙ (b.company_id ∙ c2)) (a.kind ∙ (b.kind ∙ c3))
          (rw (a.kind, a.parent_id, b.kind, b.parent_id) c4) flushed)

  set_active-IsTree :
      (b : Bool) (action : Text) (id : ℕ) (p : Party) (store : PartyStore)
      → IsTree store.parties
      → find_party (company_id_of caller) id store.parties ≡ some p
      → IsTree (set_active caller client today now b action p store).parties
  set_active-IsTree b action id p store tree found =
      let (m, own, same_id) = found-Member (company_id_of caller) id store.parties found in
      write_party-IsTree (with_active caller client today now b p) p store.parties
        (ap₂ (λ c i. find_party c i store.parties) own same_id ∙ found) refl tree (tree p m)

  pub archive_party-IsTree :
      (by_name : List Party → List Party) (id : ℕ) (store : PartyStore) {store' : PartyStore}
      → IsTree store.parties
      → archive_party caller client today now by_name id store ≡ ok store'
      → IsTree store'.parties
  unfolding archive_party
  archive_party-IsTree by_name id store {store'} tree h =
      let (p, found, h1) = found_then (find_party (company_id_of caller) id store.parties) _ h in
      let (no_child, h2) =
        guard_then (any (is_active_child p) store.parties)
          (refused_with (active_below p (active_children by_name p store.parties))) h1 in
      let same : set_active caller client today now false (lit "party.archived") p store ≡ store' =
        ok-injective h2 in
      rw (← same) (set_active-IsTree false (lit "party.archived") id p store tree found)

  pub reactivate_party-IsTree :
      (id : ℕ) (store : PartyStore) {store' : PartyStore}
      → IsTree store.parties
      → reactivate_party caller client today now id store ≡ ok store'
      → IsTree store'.parties
  unfolding reactivate_party
  reactivate_party-IsTree id store {store'} tree h =
      let (p, found, h1) = found_then (find_party (company_id_of caller) id store.parties) _ h in
      rw (← ok-injective h1)
        (set_active-IsTree true (lit "party.reactivated") id p store tree found)
