-- ===== src/PartyService/Writes.antt =====
-- The handlers that write parties: create_party, update_party, archive_party and reactivate_party of
-- apps/api/routers/parties.py, with `allocate_party_number` and `refuse_archive_with_active_children` of
-- apps/api/services/party_service.py. What the database chooses is an argument, and the duplicates that
-- a response warns of are left out.
use film_bill.PartyService.Changes.{PartyCreate, PartyWrite, apply_changes, new_party}
use film_bill.PartyService.Numbers.{allocate_party_number, PartyStore}
use film_bill.Base.{
  ℕ, Bool, true, false, ◌&&◌, ◌||◌, Option, none, some, List, [], ◌∷◌, ◌++◌, nat_eq, if◌then◌else◌,
  is_some, is_nil, any, amend, text_eq, or_else, ℕ_has_equality,
}
use film_bill.Base.Text.{Text, lit}
use film_bill.Http.{HttpError, Answer, ok, raised, crashed, ◌>>=◌, ◌>>◌, raise_if, or_raise}
use film_bill.Audit.Trail.{Client, AuditEvent, Values, actor_from, snapshot, diff, record_event}
use film_bill.Numbering.Date.{Date}
use film_bill.Companies.Access.{Membership, company_id_of}
use film_bill.PartyService.Rows.{Party, is_party, find_party}
use film_bill.PartyService.Values.{level_name, party_values, party_audited}
use film_bill.PartyService.Tree.{
  PartyError, parent_not_found, ParentCheck, passed, failed, undecided, validate_parent,
}
use film_bill.PartyService.Sentences.{sentence, is_active_child, active_children, active_below}

-- The unique index on the company and the number, where there is one.
abbrev same_number : Party → Party → Bool
same_number p q =
    nat_eq p.company_id q.company_id
    && (is_some p.party_number
        && (is_some q.party_number
            && text_eq (or_else p.party_number []) (or_else q.party_number [])))

unfoldable pub has_duplicate_number : List Party → Bool
has_duplicate_number [] = false
has_duplicate_number (p ∷ ps) = any (same_number p) ps || has_duplicate_number ps

unfoldable pub flush_parties : List Party → Answer (List Party)
flush_parties rows = if has_duplicate_number rows then crashed else ok rows

-- The row of a party is written.
unfoldable pub write_party : Party → List Party → List Party
write_party p rows = amend (is_party p.company_id p.id) (λ _. p) rows

abbrev pub refused_with : Text → HttpError
refused_with detail = record { status = 409; detail = detail }

abbrev pub party_not_found : HttpError
party_not_found = record { status = 404; detail = lit "Party not found" }

-- `except ParentNotFound`, `except PartyError`
abbrev refusal_of : PartyError → HttpError
refusal_of parent_not_found = record { status = 404; detail = lit "Parent not found" }
refusal_of e = refused_with (sentence e)

abbrev pub caught : {A : Type 0} → ParentCheck A → Answer A
caught (passed a) = ok a
caught (failed e) = raised (refusal_of e)
caught undecided = crashed

module _ (caller : Membership) (client : Client) (today : Date) (now : ℕ) where
  unfoldable pub audited_party :
      Text → ℕ → Option Values → Option Values → List Text → List AuditEvent → List AuditEvent
  audited_party action id before after fields trail =
      record_event (actor_from client (some (company_id_of caller)) (some caller.user_id))
        (record {
          entity_type = lit "parties";
          id = some id;
          company_id = some (company_id_of caller);
        })
        action before after fields trail

  abbrev pub values_of : Party → Values
  values_of p = snapshot (party_values p) party_audited

  unfoldable pub insert_party : Party → List Party → Answer (List Party)
  insert_party p rows =
      if any (λ q. nat_eq q.id p.id) rows then crashed else flush_parties (rows ++ p ∷ [])

  unfoldable pub create_party : PartyCreate → ℕ → PartyStore → Answer PartyStore
  create_party body id store = do
    _ ← caught (
        validate_parent (company_id_of caller) store.parties (level_name body.kind)
          (or_else body.rest.parent_id none) none)
    inserted ← insert_party (new_party (company_id_of caller) body id) store.parties
    (store', party) ←
        allocate_party_number today now store (new_party (company_id_of caller) body id)
    parties ← flush_parties (write_party party inserted)
    let fields = party_audited ++ lit "type" ∷ []
    ok (record store' {
      parties = parties;
      trail =
          audited_party (lit "party.created") id none (some (snapshot (party_values party) fields))
            fields store'.trail;
    })

  abbrev pub same_parent : Option ℕ → Option ℕ → Bool
  same_parent none none = true
  same_parent (some a) (some b) = nat_eq a b
  same_parent _ _ = false

  -- The parent, if the request has another one.
  unfoldable pub move_party : Party → Option (Option ℕ) → List Party → Answer Party
  move_party p none rows = ok p
  move_party p (some parent_id) rows =
      if same_parent parent_id p.parent_id
      then ok p
      else (caught
            (validate_parent (company_id_of caller) rows (level_name p.kind) parent_id (some p.id))
          >>= λ _. ok (record p { parent_id = parent_id }))

  unfoldable pub audited_update : Party → Party → List AuditEvent → List AuditEvent
  audited_update before after trail =
      if is_nil (diff (some (values_of before)) (some (values_of after)) party_audited)
      then trail
      else audited_party (lit "party.updated") after.id (some (values_of before))
          (some (values_of after)) party_audited trail

  unfoldable pub update_party : ℕ → PartyWrite → PartyStore → Answer PartyStore
  update_party id body store = do
    party ← or_raise (find_party (company_id_of caller) id store.parties) party_not_found
    moved ← move_party party body.parent_id store.parties
    changed ← apply_changes body moved
    (store', after) ← allocate_party_number today now store changed
    parties ← flush_parties (write_party after store.parties)
    ok (record store' { parties = parties; trail = audited_update moved after store'.trail })

  abbrev pub with_active : Bool → Party → Party
  with_active b p = record p { is_active = b }

  abbrev pub set_active : Bool → Text → Party → PartyStore → PartyStore
  set_active b action p store = record store {
    parties = write_party (with_active b p) store.parties;
    trail =
        audited_party action p.id (some (values_of p)) (some (values_of (with_active b p)))
          party_audited store.trail;
  }

  unfoldable pub archive_party : (List Party → List Party) → ℕ → PartyStore → Answer PartyStore
  archive_party by_name id store = do
    party ← or_raise (find_party (company_id_of caller) id store.parties) party_not_found
    raise_if (any (is_active_child party) store.parties)
        (refused_with (active_below party (active_children by_name party store.parties)))
    ok (set_active false (lit "party.archived") party store)

  unfoldable pub reactivate_party : ℕ → PartyStore → Answer PartyStore
  reactivate_party id store = do
    party ← or_raise (find_party (company_id_of caller) id store.parties) party_not_found
    ok (set_active true (lit "party.reactivated") party store)
