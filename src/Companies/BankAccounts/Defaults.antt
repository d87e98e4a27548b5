-- ===== src/Companies/BankAccounts/Defaults.antt =====
-- How many accounts of a company are its default after the writes of
-- apps/api/services/company_service.py and apps/api/routers/companies.py.
use film_bill.Base.{
  ◌≡◌, ◌≢◌, ap, ◌∙◌, inl, inr, ℕ, ◌≤◌, ◌<◌, Bool, true, false, ◌&&◌, List, nat_eq, arith,
  Bool-cases, count, count-map, count-cong, count-le,
}
use film_bill.Companies.BankAccounts.{
  CompanyBankAccount, is_account, is_of, write, demotes, with_default, set_default_bank_account,
}

abbrev pub has_key : ℕ → CompanyBankAccount → Bool
has_key id a = nat_eq a.id id

abbrev pub is_default_of : ℕ → CompanyBankAccount → Bool
is_default_of company_id a = nat_eq a.company_id company_id && a.is_default

-- A primary key stands once.
abbrev pub HasKeys : List CompanyBankAccount → Type 0
HasKeys accounts = (id : ℕ) → count (has_key id) accounts ≤ 1

-- A company that has accounts has one default.
abbrev pub HasDefaults : List CompanyBankAccount → Type 0
HasDefaults accounts =
    (company_id : ℕ)
    → 0 < count (is_of company_id) accounts
    → count (is_default_of company_id) accounts ≡ 1

pub one_account :
    (company_id id : ℕ) (accounts : List CompanyBankAccount)
    → HasKeys accounts
    → count (is_account company_id id) accounts ≤ 1
one_account company_id id accounts k =
    omega
      (arith, count-le (is_account company_id id) (has_key id) accounts (λ a. ground arith), k id)

appointed : ℕ → ℕ → CompanyBankAccount → CompanyBankAccount
appointed company_id id a =
    write (is_account company_id id) (with_default true)
      (write (demotes company_id id) (with_default false) a)

default_here :
    (company_id id : ℕ) (a : CompanyBankAccount)
    → is_default_of company_id (appointed company_id id a) ≡ is_account company_id id a
unfolding appointed
default_here company_id id a = ground arith

default_elsewhere :
    (company_id other id : ℕ) (a : CompanyBankAccount)
    → other ≢ company_id
    → is_default_of other (appointed company_id id a) ≡ is_default_of other a
unfolding appointed
default_elsewhere company_id other id a h = ground arith

appointed_same :
    (company_id id : ℕ) (a : CompanyBankAccount)
    → ((appointed company_id id a).id ≡ a.id)
      × ((appointed company_id id a).company_id ≡ a.company_id)
unfolding appointed
appointed_same company_id id a = ground arith

count-appointed :
    (p : CompanyBankAccount → Bool) (company_id id : ℕ) (accounts : List CompanyBankAccount)
    → count p (set_default_bank_account company_id id true accounts)
      ≡ count (λ a. p (appointed company_id id a)) accounts
unfolding set_default_bank_account appointed
count-appointed p company_id id accounts =
    count-map p (write (is_account company_id id) (with_default true)) _
    ∙ count-map (λ a. p (write (is_account company_id id) (with_default true) a))
        (write (demotes company_id id) (with_default false)) accounts

-- Where the account is there, it is the one default of its company, and the others keep theirs.
pub set_default-HasDefaults :
    (company_id id : ℕ) (accounts : List CompanyBankAccount)
    → HasKeys accounts
    → 0 < count (is_account company_id id) accounts
    → ((other : ℕ)
        → other ≢ company_id
        → 0 < count (is_of other) accounts
        → count (is_default_of other) accounts ≡ 1)
    → HasDefaults (set_default_bank_account company_id id true accounts)
set_default-HasDefaults company_id id accounts keys there others other b =
    elim (Bool-cases (nat_eq other company_id)) [
      | inl e ↦
          let same : other ≡ company_id = ground arith in
          rw same (
            omega (
              arith,
              count-appointed (is_default_of company_id) company_id id accounts,
              count-cong (λ a. is_default_of company_id (appointed company_id id a))
                  (is_account company_id id) accounts (default_here company_id id),
              one_account company_id id accounts keys,
              there,
            ))
      | inr e ↦
          let away : other ≢ company_id = λ (q : other ≡ company_id). ground arith in
          let kept =
            count-appointed (is_of other) company_id id accounts
            ∙ count-cong (λ a. is_of other (appointed company_id id a)) (is_of other) accounts
                (λ a. ap (λ n. nat_eq n other) (appointed_same company_id id a).1) in
          count-appointed (is_default_of other) company_id id accounts
          ∙ (count-cong (λ a. is_default_of other (appointed company_id id a)) (is_default_of other)
                accounts (λ a. default_elsewhere company_id other id a away)
              ∙ others other away (rw (← kept) b))
    ]

pub set_default-HasKeys :
    (company_id id : ℕ) (b : Bool) (accounts : List CompanyBankAccount)
    → HasKeys accounts
    → HasKeys (set_default_bank_account company_id id b accounts)
unfolding set_default_bank_account
set_default-HasKeys company_id id false accounts keys key = keys key
set_default-HasKeys company_id id true accounts keys key =
    let kept =
      count-appointed (has_key key) company_id id accounts
      ∙ count-cong (λ a. has_key key (appointed company_id id a)) (has_key key) accounts
          (λ a. ap (λ n. nat_eq n key) (appointed_same company_id id a).0) in
    omega (arith, kept, keys key)
