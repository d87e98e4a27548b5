-- ===== src/Companies/BankAccounts/Writes.antt =====
-- The invariant of the bank accounts, and the writes that the handlers of
-- apps/api/routers/companies.py are made of.
use film_bill.Base.{
  ◌≡◌, ◌≢◌, refl, ◌∙◌, ◌⊎◌, inl, inr, ℕ, ◌<◌, Bool, true, false, not, ◌&&◌, ◌||◌, some, List, [],
  ◌∷◌, ◌++◌, map, nat_eq, arith, any, find, select, Bool-cases, count, bit, count-map, count-cong,
  count-le, count-append, count-select, count_split, count-find, any-count, count-any, find-Member,
}
use film_bill.Http.{ok, crashed, guard_then, ok-injective}
use film_bill.Companies.BankAccounts.{
  CompanyBankAccount, is_account, is_of, set_default_bank_account, has_other_bank_accounts,
  has_duplicate_iban, flush, insert_account,
}
use film_bill.Companies.BankAccounts.Defaults.{
  has_key, is_default_of, HasKeys, HasDefaults, one_account, set_default-HasDefaults,
  set_default-HasKeys,
}
use film_bill.Companies.BankAccounts.Unique.{set_default-Unique, select-Unique}

-- A primary key stands once, an IBAN once in a company, and a company that has accounts has exactly one
-- default.
pub record IsSound (accounts : List CompanyBankAccount) : Type 0 where
  pub keys : HasKeys accounts
  pub ibans : has_duplicate_iban accounts ≡ false
  pub defaults : HasDefaults accounts

pub insert_account-ok :
    (a : CompanyBankAccount) (accounts : List CompanyBankAccount) {result : List CompanyBankAccount}
    → insert_account a accounts ≡ ok result
    → (any (λ b. nat_eq b.id a.id) accounts ≡ false)
      × ((has_duplicate_iban (accounts ++ a ∷ []) ≡ false) × (accounts ++ a ∷ [] ≡ result))
unfolding insert_account flush
insert_account-ok a accounts h = elim (Bool-cases (any (λ b. nat_eq b.id a.id) accounts)) [
  | inl e ↦ let clash : crashed ≡ ok _ = rw e at h in cc
  | inr e ↦
      let (unique, made) = guard_then (has_duplicate_iban (accounts ++ a ∷ [])) _ (rw e at h) in
      (e, (unique, ok-injective made))
]

pub flush-ok :
    (accounts : List CompanyBankAccount) {result : List CompanyBankAccount}
    → flush accounts ≡ ok result
    → (has_duplicate_iban accounts ≡ false) × (accounts ≡ result)
unfolding flush
flush-ok accounts h =
    let (unique, made) = guard_then (has_duplicate_iban accounts) _ h in (unique, ok-injective made)

-- The accounts of a company after `set_default_bank_account`, asked for or not.
pub set_default-IsSound :
    (company_id id : ℕ) (b : Bool) (accounts : List CompanyBankAccount)
    → HasKeys accounts
    → has_duplicate_iban accounts ≡ false
    → (b ≡ true → 0 < count (is_account company_id id) accounts)
    → ((other : ℕ)
        → ((other ≢ company_id) ⊎ (b ≡ false))
        → 0 < count (is_of other) accounts
        → count (is_default_of other) accounts ≡ 1)
    → IsSound (set_default_bank_account company_id id b accounts)
unfolding set_default_bank_account
set_default-IsSound company_id id false accounts keys ibans there others = record {
  keys = keys;
  ibans = ibans;
  defaults = λ c. others c (inr refl);
}
set_default-IsSound company_id id true accounts keys ibans there others = record {
  keys = set_default-HasKeys company_id id true accounts keys;
  ibans = set_default-Unique company_id id true accounts ∙ ibans;
  defaults =
      set_default-HasDefaults company_id id accounts keys (there refl) (λ c h. others c (inl h));
}

pub inserted-HasKeys :
    (a : CompanyBankAccount) (accounts : List CompanyBankAccount)
    → HasKeys accounts
    → any (λ b. nat_eq b.id a.id) accounts ≡ false
    → HasKeys (accounts ++ a ∷ [])
inserted-HasKeys a accounts keys fresh id = elim (Bool-cases (has_key id a)) [
  | inl e ↦
      let same : a.id ≡ id = ground arith in
      let one : bit (has_key id a) ≡ 1 = rw e refl in
      omega (
        arith,
        count-append (has_key id) accounts (a ∷ []),
        any-count (has_key id) accounts (rw (← same) fresh),
      )
  | inr e ↦
      let no_more : bit (has_key id a) ≡ 0 = rw e refl in
      omega (arith, count-append (has_key id) accounts (a ∷ []), keys id)
]

-- A default that may go is the only account of its company.
only_default :
    (c id other : ℕ) (account : CompanyBankAccount) (accounts : List CompanyBankAccount)
    → find (is_account c id) accounts ≡ some account
    → (account.is_default && has_other_bank_accounts c account.id accounts) ≡ false
    → is_default_of other account ≡ true
    → count (λ a. not (is_account c id a) && is_of other a) accounts ≡ 0
unfolding has_other_bank_accounts
only_default c id other account accounts found guarded e =
    let (m, held) = find-Member (is_account c id) accounts found in
    let company : other ≡ c = ground arith in
    let key : account.id ≡ id = ground arith in
    let alone : any (λ a. nat_eq a.company_id c && not (nat_eq a.id account.id)) accounts ≡ false =
      ground arith in
    omega (
      arith,
      any-count (λ a. nat_eq a.company_id c && not (nat_eq a.id account.id)) accounts alone,
      count-le (λ a. not (is_account c id a) && is_of other a)
          (λ a. nat_eq a.company_id c && not (nat_eq a.id account.id)) accounts (λ a. ground arith),
    )

-- A row is deleted that is no default, or has no other beside it.
pub deleted-IsSound :
    (c id : ℕ) (account : CompanyBankAccount) (accounts : List CompanyBankAccount)
    → IsSound accounts
    → find (is_account c id) accounts ≡ some account
    → (account.is_default && has_other_bank_accounts c account.id accounts) ≡ false
    → IsSound (select (λ a. not (is_account c id a)) accounts)
unfolding has_other_bank_accounts
deleted-IsSound c id account accounts s found guarded =
    let rest = λ (a : CompanyBankAccount). not (is_account c id a) in
    record {
      keys = λ key. omega (
        arith,
        count-select (has_key key) rest accounts,
        count-le (λ a. rest a && has_key key a) (has_key key) accounts (λ a. ground arith),
        s.keys key,
      );
      ibans = select-Unique rest accounts s.ibans;
      defaults = λ other b.
          let account_count : count (λ a. is_account c id a && is_default_of other a) accounts
              ≡ bit (is_default_of other account) =
            count-find (is_default_of other) (is_account c id) accounts found
              (one_account c id accounts s.keys) in
          let split = count_split (is_default_of other) (is_account c id) accounts in
          let left = count-select (is_default_of other) rest accounts in
          let there = count-select (is_of other) rest accounts in
          let before : 0 < count (is_of other) accounts = omega (
            arith,
            there,
            b,
            count-le (λ a. rest a && is_of other a) (is_of other) accounts (λ a. ground arith),
          ) in
          let one = s.defaults other before in
          elim (Bool-cases (is_default_of other account)) [
            | inl e ↦
                let none_left = only_default c id other account accounts found guarded e in
                absurd (omega (arith, there, b, none_left))
            | inr e ↦
                let nothing : bit (is_default_of other account) ≡ 0 = rw e refl in
                omega (arith, account_count, split, left, one, nothing)
          ];
    }

pub written-count :
    (p : CompanyBankAccount → Bool) (g : CompanyBankAccount → CompanyBankAccount)
    (accounts : List CompanyBankAccount)
    → ((a : CompanyBankAccount) → p (g a) ≡ p a)
    → count p (map g accounts) ≡ count p accounts
written-count p g accounts h = count-map p g accounts ∙ count-cong (λ a. p (g a)) p accounts h

not_first : (asked occupied : Bool) → (asked || not occupied) ≡ false → occupied ≡ true
not_first true occupied h = cc
not_first false true h = refl
not_first false false h = cc

-- Where the new account does not become the default, its company had another, and another company has
-- what it had.
pub still_there :
    (c other : ℕ) (a : CompanyBankAccount) (asked : Bool) (accounts : List CompanyBankAccount)
    → (other ≢ c → is_of other a ≡ false)
    → (other ≢ c) ⊎ ((asked || not (any (is_of c) accounts)) ≡ false)
    → 0 < count (is_of other) (accounts ++ a ∷ [])
    → 0 < count (is_of other) accounts
still_there c other a asked accounts away why b = elim (Bool-cases (nat_eq other c)) [
  | inl e ↦
      let same : other ≡ c = ground arith in
      elim why [
        | inl apart ↦ absurd (apart same)
        | inr later ↦
            rw same (count-any (is_of c) accounts (not_first asked (any (is_of c) accounts) later))
      ]
  | inr e ↦
      let apart : other ≢ c = λ (q : other ≡ c). ground arith in
      let nothing : bit (is_of other a) ≡ 0 = rw (away apart) refl in
      omega (arith, count-append (is_of other) accounts (a ∷ []), b)
]
