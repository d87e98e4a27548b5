-- ===== src/PartyService/Place.antt =====
-- The key of a party and its place in the tree are kept by what is written of it.
use film_bill.Base.{◌≡◌, refl, ap, inl, inr, ℕ, Option, none, some, List, Bool-cases}
use film_bill.Http.{ok, crashed, step_then, ok-injective}
use film_bill.Base.Text.{Text}
use film_bill.Numbering.Date.{Date}
use film_bill.Numbering.Store
use film_bill.Numbering.Allocate.{Reply, issued, series_missing, collision, allocate_number}
use film_bill.PartyService.Rows.{Party}
use film_bill.PartyService.Tree.{ParentCheck, passed, failed, undecided}
use film_bill.PartyService.Changes.{PartyWrite, apply_changes, not_null}
use film_bill.PartyService.Numbers.{
  PartyStore, numbers_of, allocate_party_number, numbered, has_text, number_series_of,
  allocate_from,
}
use film_bill.PartyService.Writes.{flush_parties, has_duplicate_number, caught}

-- The key of a party and its place in the tree.
pub record SamePlace (p q : Party) : Type 0 where
  pub id : p.id ≡ q.id
  pub company_id : p.company_id ≡ q.company_id
  pub kind : p.kind ≡ q.kind
  pub parent_id : p.parent_id ≡ q.parent_id

pub same_place : (p : Party) → SamePlace p p
same_place p = record { id = refl; company_id = refl; kind = refl; parent_id = refl }

numbered-SamePlace :
    (p : Party) (store : PartyStore) (result : Store.Store × Reply) {store' : PartyStore}
    {q : Party}
    → numbered p store result ≡ ok (store', q)
    → SamePlace q p
numbered-SamePlace p store (numbers, issued plan) h =
    let same = ap (λ r. r.1) (ok-injective h) in
    rw (← same) (record { id = refl; company_id = refl; kind = refl; parent_id = refl })
numbered-SamePlace p store (numbers, series_missing document_type) h =
    let same = ap (λ r. r.1) (ok-injective h) in rw (← same) (same_place p)
numbered-SamePlace p store (numbers, collision number) h = cc

allocate_from-SamePlace :
    (today : Date) (now : ℕ) (store : PartyStore) (p : Party) (document_type : Option Text)
    {store' : PartyStore} {q : Party}
    → allocate_from today now store p document_type ≡ ok (store', q)
    → SamePlace q p
allocate_from-SamePlace today now store p none h =
    let same = ap (λ r. r.1) (ok-injective h) in rw (← same) (same_place p)
allocate_from-SamePlace today now store p (some document_type) h =
    numbered-SamePlace p store (allocate_number (numbers_of store) _) h

pub allocate_party_number-SamePlace :
    (today : Date) (now : ℕ) (store : PartyStore) (p : Party) {store' : PartyStore} {q : Party}
    → allocate_party_number today now store p ≡ ok (store', q)
    → SamePlace q p
unfolding allocate_party_number
allocate_party_number-SamePlace today now store p h = elim (Bool-cases (has_text p.party_number)) [
  | inl e ↦ let same = ap (λ r. r.1) (ok-injective (rw e at h)) in rw (← same) (same_place p)
  | inr e ↦ allocate_from-SamePlace today now store p (number_series_of p) (rw e at h)
]

pub apply_changes-SamePlace :
    (body : PartyWrite) (p : Party) {q : Party} → apply_changes body p ≡ ok q → SamePlace q p
unfolding apply_changes
apply_changes-SamePlace body p h =
    let (a1, e1, h1) = step_then (not_null body.name p.name) _ h in
    let (a2, e2, h2) = step_then (not_null body.is_customer p.is_customer) _ h1 in
    let (a3, e3, h3) = step_then (not_null body.is_supplier p.is_supplier) _ h2 in
    let (a4, e4, h4) = step_then (not_null body.is_partner p.is_partner) _ h3 in
    let (a5, e5, h5) = step_then (not_null body.tags p.tags) _ h4 in
    let (a6, e6, h6) = step_then (not_null body.business_status p.business_status) _ h5 in
    let same = ok-injective h6 in
    rw (← same) (record { id = refl; company_id = refl; kind = refl; parent_id = refl })

pub flush_parties-ok :
    (rows : List Party) {result : List Party} → flush_parties rows ≡ ok result → rows ≡ result
unfolding flush_parties
flush_parties-ok rows {result} h = elim (Bool-cases (has_duplicate_number rows)) [
  | inl e ↦ let clash : crashed ≡ ok result = rw e at h in cc
  | inr e ↦ ok-injective (rw e at h)
]

pub caught-ok : {A : Type 0} (c : ParentCheck A) {a : A} → caught c ≡ ok a → c ≡ passed a
caught-ok (passed b) h = ap passed (ok-injective h)
caught-ok (failed e) h = cc
caught-ok undecided h = cc
