-- ===== src/PartyService/Unaudited.antt =====
-- What the trail says of a party that is moved (`update_party` of apps/api/routers/parties.py).
use film_bill.Base.{
  ◌≡◌, refl, sym, ap, ◌∙◌, inl, inr, ℕ, ◌+◌, ◌≤◌, true, false, Option, none, some, List, [], ◌∷◌,
  ◌++◌, arith, Bool-cases, lookup, text_eq, text_has_equality, contains, is_nil, map, append-nil,
  append_assoc, length, length-append, All, All-append,
}
use film_bill.Base.Text.{Text, lit}
use film_bill.Http.{ok, found_then, step_then, ok-injective}
use film_bill.Tax.Json.{json_equal}
use film_bill.Audit.Trail.{
  Client, AuditEvent, snapshot, diff, record_event, get, has_changed, lookup-diff,
}
use film_bill.Numbering.Date.{Date}
use film_bill.Companies.Access.{Membership, company_id_of}
use film_bill.PartyService.Rows.{Party, find_party}
use film_bill.PartyService.Values.{party_values, party_audited, parent_value}
use film_bill.PartyService.Changes.{PartyWrite, apply_changes}
use film_bill.Numbering.Store
use film_bill.Numbering.Allocate.{Reply, issued, series_missing, collision}
use film_bill.Numbering.Allocate.Outcome.{allocate_number-events}
use film_bill.PartyService.Numbers.{
  PartyStore, numbers_of, dated_number, number_audited, number_event, with_numbers, has_text,
  number_series_of, numbered, party_request, allocate_from, allocate_party_number,
}
use film_bill.PartyService.Writes.{
  flush_parties, write_party, move_party, update_party, audited_update, audited_party,
}
use film_bill.PartyService.Place.{
  SamePlace, allocate_party_number-SamePlace, apply_changes-SamePlace,
}

parent_value-same : (o : Option ℕ) → json_equal (parent_value o) (parent_value o) ≡ true
unfolding json_equal
parent_value-same none = refl
parent_value-same (some id) = ground arith

audited_parent :
    (p : Party)
    → get (lit "parent_id") (snapshot (party_values p) party_audited) ≡ parent_value p.parent_id
unfolding snapshot party_values party_audited lit text_eq
audited_parent p = refl

has_parent : contains party_audited (lit "parent_id") ≡ true
unfolding party_audited lit text_eq
has_parent = refl

unmentioned :
    (p q : Party)
    → q.parent_id ≡ p.parent_id
    → lookup (lit "parent_id") (
        diff
          (some (snapshot (party_values p) party_audited))
          (some (snapshot (party_values q) party_audited))
          party_audited)
      ≡ none
unmentioned p q same =
    let kept : has_changed (lit "parent_id") (snapshot (party_values p) party_audited)
          (snapshot (party_values q) party_audited)
        ≡ false =
      rw (audited_parent p, audited_parent q, same, parent_value-same p.parent_id) refl in
    rw
      (
        lookup-diff (lit "parent_id") party_audited (some (snapshot (party_values p) party_audited))
            (some (snapshot (party_values q) party_audited)),
        has_parent,
        kept,
      )
      refl

abbrev pub Silent : AuditEvent → Type 0
Silent e = lookup (lit "parent_id") e.changes ≡ none

-- The trail, and as many events more at most, which say nothing of the parent.
abbrev pub Adds : ℕ → List AuditEvent → List AuditEvent → Type 0
Adds n before after =
    (es : List AuditEvent) × (after ≡ before ++ es) × (length es ≤ n) × All Silent es

-- The trail, and two events more at most, which say nothing of the parent.
abbrev pub SaysNothing : List AuditEvent → List AuditEvent → Type 0
SaysNothing = Adds 2

none_added : (n : ℕ) (trail : List AuditEvent) → Adds n trail trail
none_added n trail = ([], sym (append-nil trail), omega arith, tt)

Adds-then : (m n : ℕ) (a b c : List AuditEvent) → Adds m a b → Adds n b c → Adds (m + n) a c
Adds-then m n a b c (es, first, few, silent) (fs, then_, few', silent') = (
  es ++ fs,
  then_ ∙ (ap (λ t. t ++ fs) first ∙ append_assoc a es fs),
  omega (arith, length-append es fs, few, few'),
  All-append Silent es fs silent silent',
)

number_event-Silent : (id : ℕ) (e : Store.AuditEvent) → Silent (number_event id e)
unfolding number_event lit text_eq
number_event-Silent id e =
    lookup-diff (lit "parent_id") number_audited (some (dated_number e.before))
      (some (dated_number e.after))

number_events-Silent :
    (id : ℕ) (es : List Store.AuditEvent)
    → (length (map (number_event id) es) ≡ length es) × All Silent (map (number_event id) es)
number_events-Silent id [] = (refl, tt)
number_events-Silent id (e ∷ es) =
    let (same, silent) = number_events-Silent id es in
    (omega (arith, same), (number_event-Silent id e, silent))

with_numbers-Adds :
    (numbers : Store.Store) (store : PartyStore)
    → length numbers.audit_events ≤ 1
    → Adds 1 store.trail (with_numbers numbers store).trail
with_numbers-Adds numbers store few =
    let (same, silent) = number_events-Silent (length store.allocations) numbers.audit_events in
    (_, refl, omega (arith, same, few), silent)

numbered-Adds :
    (p : Party) (store : PartyStore) (result : Store.Store × Reply) {store' : PartyStore}
    {q : Party}
    → length result.0.audit_events ≤ 1
    → numbered p store result ≡ ok (store', q)
    → Adds 1 store.trail store'.trail
numbered-Adds p store (numbers, issued plan) few h =
    rw (← ap (λ r. r.0) (ok-injective h)) (with_numbers-Adds numbers store few)
numbered-Adds p store (numbers, series_missing document_type) few h =
    rw (← ap (λ r. r.0) (ok-injective h)) (with_numbers-Adds numbers store few)
numbered-Adds p store (numbers, collision number) few h = cc

allocate_from-Adds :
    (today : Date) (now : ℕ) (store : PartyStore) (p : Party) (document_type : Option Text)
    {store' : PartyStore} {q : Party}
    → allocate_from today now store p document_type ≡ ok (store', q)
    → Adds 1 store.trail store'.trail
allocate_from-Adds today now store p none h =
    rw (← ap (λ r. r.0) (ok-injective h)) (none_added 1 store.trail)
allocate_from-Adds today now store p (some document_type) h =
    numbered-Adds p store _
      (allocate_number-events (numbers_of store) (party_request today now p document_type)) h

allocate_party_number-Adds :
    (today : Date) (now : ℕ) (store : PartyStore) (p : Party) {store' : PartyStore} {q : Party}
    → allocate_party_number today now store p ≡ ok (store', q)
    → Adds 1 store.trail store'.trail
unfolding allocate_party_number
allocate_party_number-Adds today now store p h = elim (Bool-cases (has_text p.party_number)) [
  | inl e ↦ rw (← ap (λ r. r.0) (ok-injective (rw e at h))) (none_added 1 store.trail)
  | inr e ↦ allocate_from-Adds today now store p (number_series_of p) (rw e at h)
]

module _ (caller : Membership) (client : Client) (today : Date) (now : ℕ) where
  audited_update-Adds :
      (p q : Party) (trail : List AuditEvent)
      → q.parent_id ≡ p.parent_id
      → Adds 1 trail (audited_update caller client today now p q trail)
  unfolding audited_update audited_party record_event
  audited_update-Adds p q trail same =
      let changes =
        diff (some (snapshot (party_values p) party_audited))
          (some (snapshot (party_values q) party_audited)) party_audited in
      elim (Bool-cases (is_nil changes)) [
        | inl e ↦ rw e (none_added 1 trail)
        | inr e ↦ rw e (_, refl, omega arith, (unmentioned p q same, tt))
      ]

  -- The parent is not audited, though it is a field that should be: whatever a request changes of a
  -- party, its parent included, the trail has at most two events more, and none of them mentions the
  -- parent.
  pub update_party-SaysNothing :
      (id : ℕ) (body : PartyWrite) (store store' : PartyStore)
      → update_party caller client today now id body store ≡ ok store'
      → (contains party_audited (lit "parent_id") ≡ true) × SaysNothing store.trail store'.trail
  unfolding update_party
  update_party-SaysNothing id body store store' h =
      let (r, found, h1) = found_then (find_party (company_id_of caller) id store.parties) _ h in
      let (moved, movedok, h2) =
        step_then (move_party caller client today now r body.parent_id store.parties) _ h1 in
      let (changed, changedok, h3) = step_then (apply_changes body moved) _ h2 in
      let ((numbered_store, q), allocated, h4) =
        step_then (allocate_party_number today now store changed) _ h3 in
      let (parties, flushed, h5) = step_then (flush_parties (write_party q store.parties)) _ h4 in
      let result : audited_update caller client today now moved q numbered_store.trail
          ≡ store'.trail =
        ap (λ s. s.trail) (ok-injective h5) in
      let a : SamePlace q changed =
        allocate_party_number-SamePlace today now store changed allocated in
      let b : SamePlace changed moved = apply_changes-SamePlace body moved changedok in
      (
        has_parent,
        rw (← result) (
            Adds-then 1 1 _ _ _ (allocate_party_number-Adds today now store changed allocated)
              (audited_update-Adds moved q numbered_store.trail (a.parent_id ∙ b.parent_id))),
      )
