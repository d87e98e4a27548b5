-- ===== src/Companies/BankAccounts/Sound.antt =====
-- The invariant of the bank accounts under the handlers of apps/api/routers/companies.py.
use film_bill.Base.{
  ◌≡◌, ◌≢◌, refl, ◌∙◌, ℕ, ◌<◌, true, false, not, ◌&&◌, ◌||◌, none, [], ◌∷◌, ◌++◌, map, arith, any,
  find, count, bit, count-append, count-pos,
}
use film_bill.Http.{Answer, ok, guard_then, found_then, step_then, ok-injective}
use film_bill.Iban.{normalise_iban}
use film_bill.Audit.Trail.{Client}
use film_bill.Companies.Access.{Membership, company_id_of}
use film_bill.Companies.BankAccounts.{
  AccountStore, BankAccountCreate, BankAccountUpdate, is_account, is_of, write,
  has_other_bank_accounts, flush, insert_account, changed, new_iban, promotes, gives_up,
  refuse_duplicate_iban, refuse_changed_iban, account_of, create_bank_account, update_bank_account,
  delete_bank_account,
}
use film_bill.Companies.BankAccounts.Defaults.{has_key, is_default_of}
use film_bill.Companies.BankAccounts.Writes.{
  IsSound, insert_account-ok, flush-ok, set_default-IsSound, inserted-HasKeys, deleted-IsSound,
  written-count, still_there,
}

pub data AccountRequest : Type 0 where
  creates : BankAccountCreate → ℕ → AccountRequest
  updates : ℕ → BankAccountUpdate → AccountRequest
  deletes : ℕ → AccountRequest

unfoldable pub respond : Membership → Client → AccountRequest → AccountStore → Answer AccountStore
respond caller client (creates body id) store = create_bank_account caller client body id store
respond caller client (updates id body) store = update_bank_account caller client id body store
respond caller client (deletes id) store = delete_bank_account caller client id store

module _ (caller : Membership) (client : Client) where
  -- What a new account counts for.
  new_account :
      (body : BankAccountCreate) (id other : ℕ)
      → (is_account (company_id_of caller) id (account_of caller client body id) ≡ true)
        × ((is_default_of other (account_of caller client body id) ≡ false)
            × (other ≢ company_id_of caller
                → is_of other (account_of caller client body id) ≡ false))
  new_account body id other = (ground arith, (ground arith, λ h. ground arith))

  create_bank_account-IsSound :
      (body : BankAccountCreate) (id : ℕ) (store : AccountStore) {store' : AccountStore}
      → IsSound store.accounts
      → create_bank_account caller client body id store ≡ ok store'
      → IsSound store'.accounts
  unfolding create_bank_account
  create_bank_account-IsSound body id store s h =
      let c = company_id_of caller in
      let a = account_of caller client body id in
      let (u, free, h1) =
        step_then
          (refuse_duplicate_iban caller client (normalise_iban body.iban) none store.accounts) _
          h in
      let (result, inserted, made) = step_then (insert_account a store.accounts) _ h1 in
      let (fresh, (unique, same)) = insert_account-ok a store.accounts inserted in
      rw (← ok-injective made, ← same)
        (set_default-IsSound c id (body.is_default || not (any (is_of c) store.accounts))
          (store.accounts ++ a ∷ []) (inserted-HasKeys a store.accounts s.keys fresh) unique
          (λ _.
            let one : bit (is_account c id a) ≡ 1 = rw ((new_account body id c).0) refl in
            omega (arith, count-append (is_account c id) store.accounts (a ∷ [])))
          (λ other why b.
            let (is_new, (plain, away)) = new_account body id other in
            let no_default : bit (is_default_of other a) ≡ 0 = rw plain refl in
            let defaults = count-append (is_default_of other) store.accounts (a ∷ []) in
            let there : 0 < count (is_of other) store.accounts =
              still_there c other a body.is_default store.accounts away why b in
            let one = s.defaults other there in omega (arith, defaults, one, no_default)))

  update_bank_account-IsSound :
      (id : ℕ) (body : BankAccountUpdate) (store : AccountStore) {store' : AccountStore}
      → IsSound store.accounts
      → update_bank_account caller client id body store ≡ ok store'
      → IsSound store'.accounts
  unfolding update_bank_account
  update_bank_account-IsSound id body store s h =
      let c = company_id_of caller in
      let (account, found, h1) = found_then (find (is_account c id) store.accounts) _ h in
      let (u, free, h2) =
        step_then (refuse_changed_iban caller client body.iban account.id store.accounts) _ h1 in
      let (kept, h3) = guard_then (gives_up body.is_default && account.is_default) _ h2 in
      let (iban, given, h4) = step_then (new_iban body.iban account.iban) _ h3 in
      let g = write (is_account c id) (changed body iban) in
      let (written, flushed, made) = step_then (flush (map g store.accounts)) _ h4 in
      let (unique, same) = flush-ok (map g store.accounts) flushed in
      rw (← ok-injective made, ← same)
        (set_default-IsSound c id (promotes body.is_default) (map g store.accounts)
          (λ key.
            let kept = written-count (has_key key) g store.accounts (λ a. ground arith) in
            omega (arith, kept, s.keys key))
          unique
          (λ _.
            let kept = written-count (is_account c id) g store.accounts (λ a. ground arith) in
            omega (arith, kept, count-pos (is_account c id) store.accounts found))
          (λ other why b.
            let kept = written-count (is_default_of other) g store.accounts (λ a. ground arith) in
            let there = written-count (is_of other) g store.accounts (λ a. ground arith) in
            kept ∙ s.defaults other (omega (arith, there, b))))

  delete_bank_account-IsSound :
      (id : ℕ) (store : AccountStore) {store' : AccountStore}
      → IsSound store.accounts
      → delete_bank_account caller client id store ≡ ok store'
      → IsSound store'.accounts
  unfolding delete_bank_account
  delete_bank_account-IsSound id store s h =
      let c = company_id_of caller in
      let (account, found, h1) = found_then (find (is_account c id) store.accounts) _ h in
      let (guarded, made) =
        guard_then (account.is_default && has_other_bank_accounts c account.id store.accounts) _
          h1 in
      rw (← ok-injective made) (deleted-IsSound c id account store.accounts s found guarded)

respond-IsSound :
    (caller : Membership) (client : Client) (request : AccountRequest) (store : AccountStore)
    {store' : AccountStore}
    → IsSound store.accounts
    → respond caller client request store ≡ ok store'
    → IsSound store'.accounts
unfolding respond
respond-IsSound caller client (creates body id) store s h =
    create_bank_account-IsSound caller client body id store s h
respond-IsSound caller client (updates id body) store s h =
    update_bank_account-IsSound caller client id body store s h
respond-IsSound caller client (deletes id) store s h =
    delete_bank_account-IsSound caller client id store s h

-- What requests by any callers, one after the other, can lead to.
pub data Reach (store : AccountStore) : AccountStore → Type 0 where
  here : Reach store store
  next :
      {before after : AccountStore} (caller : Membership) (client : Client)
      (request : AccountRequest)
      → Reach store before
      → respond caller client request before ≡ ok after
      → Reach store after

-- Whatever requests are answered, and in whatever order, the accounts stay sound: no primary key and
-- no IBAN of a company stands twice, and each company that has accounts has exactly one default.
pub Reach-IsSound :
    (store store' : AccountStore)
    → IsSound store.accounts
    → Reach store store'
    → IsSound store'.accounts
Reach-IsSound store store' s here = s
Reach-IsSound store store' s (next {before} {after} caller client request r h) =
    respond-IsSound caller client request before (Reach-IsSound store before s r) h
