-- ===== src/PartyService/Requests.antt =====
-- Runs of the handlers that write parties (apps/api/routers/parties.py).
use film_bill.Base.{◌≡◌, ℕ, List}
use film_bill.Http.{Answer, ok}
use film_bill.Audit.Trail.{Client}
use film_bill.Numbering.Date.{Date}
use film_bill.Companies.Access.{Membership}
use film_bill.PartyService.Rows.{Party}
use film_bill.PartyService.Changes.{PartyWrite, PartyCreate}
use film_bill.PartyService.Numbers.{PartyStore}
use film_bill.PartyService.Writes.{create_party, update_party, archive_party, reactivate_party}
use film_bill.PartyService.Hierarchy.{IsTree}
use film_bill.PartyService.Parents.{
  create_party-IsTree, update_party-IsTree, archive_party-IsTree, reactivate_party-IsTree,
}

-- A request to the handlers that write parties, with what the database and the clock add to it.
pub data PartyRequest : Type 0 where
  creates : PartyCreate → ℕ → PartyRequest
  updates : ℕ → PartyWrite → PartyRequest
  archives : ℕ → PartyRequest
  reactivates : ℕ → PartyRequest

pub record Call : Type 0 where
  pub caller : Membership
  pub client : Client
  pub today : Date
  pub now : ℕ
  pub by_name : List Party → List Party
  pub request : PartyRequest

abbrev answer_to :
    Membership
    → Client
    → Date
    → ℕ
    → (List Party → List Party)
    → PartyRequest
    → PartyStore
    → Answer PartyStore
answer_to caller client today now by_name (creates body id) store =
    create_party caller client today now body id store
answer_to caller client today now by_name (updates id body) store =
    update_party caller client today now id body store
answer_to caller client today now by_name (archives id) store =
    archive_party caller client today now by_name id store
answer_to caller client today now by_name (reactivates id) store =
    reactivate_party caller client today now id store

abbrev pub answer : Call → PartyStore → Answer PartyStore
answer c store = answer_to c.caller c.client c.today c.now c.by_name c.request store

answer_to-IsTree :
    (caller : Membership) (client : Client) (today : Date) (now : ℕ)
    (by_name : List Party → List Party) (request : PartyRequest) (store : PartyStore)
    {store' : PartyStore}
    → IsTree store.parties
    → answer_to caller client today now by_name request store ≡ ok store'
    → IsTree store'.parties
answer_to-IsTree caller client today now by_name (creates body id) store tree h =
    create_party-IsTree caller client today now body id store tree h
answer_to-IsTree caller client today now by_name (updates id body) store tree h =
    update_party-IsTree caller client today now id body store tree h
answer_to-IsTree caller client today now by_name (archives id) store tree h =
    archive_party-IsTree caller client today now by_name id store tree h
answer_to-IsTree caller client today now by_name (reactivates id) store tree h =
    reactivate_party-IsTree caller client today now id store tree h

-- The stores that calls lead to. One that is not answered leaves the store as it was.
pub data Reached (start : PartyStore) : PartyStore → Type 0 where
  here : Reached start start
  next :
      {store store' : PartyStore} (c : Call)
      → Reached start store
      → answer c store ≡ ok store'
      → Reached start store'

-- Whatever is created, changed, archived and reactivated, in any companies and in any order, the parties
-- stay a tree: each stands at the top, and is no department then, or below a row of its own company of a
-- kind that may be above it.
pub Reached-IsTree :
    {start store : PartyStore} → IsTree start.parties → Reached start store → IsTree store.parties
Reached-IsTree tree here = tree
Reached-IsTree tree (next {store} c reached h) =
    answer_to-IsTree c.caller c.client c.today c.now c.by_name c.request store
      (Reached-IsTree tree reached) h
