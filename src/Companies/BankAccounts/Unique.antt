-- ===== src/Companies/BankAccounts/Unique.antt =====
-- The unique constraint on the company and the IBAN of an account (apps/api/models/company.py) under
-- the writes of apps/api/routers/companies.py.
use film_bill.Base.{
  ◌≡◌, refl, ap₂, ◌∙◌, ℕ, Bool, true, false, ◌||◌, List, [], ◌∷◌, map, arith, any, select,
}
use film_bill.Companies.BankAccounts.{
  CompanyBankAccount, is_account, write, demotes, with_default, same_iban, has_duplicate_iban,
  set_default_bank_account,
}

-- A write that keeps the companies and the IBANs.
any-map_same :
    (a b : CompanyBankAccount) (g : CompanyBankAccount → CompanyBankAccount)
    (accounts : List CompanyBankAccount)
    → ((c : CompanyBankAccount) → same_iban b (g c) ≡ same_iban a c)
    → any (same_iban b) (map g accounts) ≡ any (same_iban a) accounts
any-map_same a b g [] h = refl
any-map_same a b g (c ∷ accounts) h = ap₂ ◌||◌ (h c) (any-map_same a b g accounts h)

pub has_duplicate_iban-map :
    (g : CompanyBankAccount → CompanyBankAccount) (accounts : List CompanyBankAccount)
    → ((a c : CompanyBankAccount) → same_iban (g a) (g c) ≡ same_iban a c)
    → has_duplicate_iban (map g accounts) ≡ has_duplicate_iban accounts
unfolding has_duplicate_iban
has_duplicate_iban-map g [] h = refl
has_duplicate_iban-map g (a ∷ accounts) h =
    ap₂ ◌||◌ (any-map_same a (g a) g accounts (h a)) (has_duplicate_iban-map g accounts h)

write_default-same :
    (q : CompanyBankAccount → Bool) (b : Bool) (a c : CompanyBankAccount)
    → same_iban (write q (with_default b) a) (write q (with_default b) c) ≡ same_iban a c
write_default-same q b a c = ground arith

pub set_default-Unique :
    (company_id id : ℕ) (b : Bool) (accounts : List CompanyBankAccount)
    → has_duplicate_iban (set_default_bank_account company_id id b accounts)
      ≡ has_duplicate_iban accounts
unfolding set_default_bank_account
set_default-Unique company_id id false accounts = refl
set_default-Unique company_id id true accounts =
    has_duplicate_iban-map (write (is_account company_id id) (with_default true)) _
      (write_default-same (is_account company_id id) true)
    ∙ has_duplicate_iban-map (write (demotes company_id id) (with_default false)) accounts
        (write_default-same (demotes company_id id) false)

any-select :
    (p q : CompanyBankAccount → Bool) (accounts : List CompanyBankAccount)
    → any p accounts ≡ false
    → any p (select q accounts) ≡ false
any-select p q [] h = refl
any-select p q (a ∷ accounts) h = ground (arith, any-select p q accounts)

pub select-Unique :
    (q : CompanyBankAccount → Bool) (accounts : List CompanyBankAccount)
    → has_duplicate_iban accounts ≡ false
    → has_duplicate_iban (select q accounts) ≡ false
unfolding has_duplicate_iban
select-Unique q [] h = refl
select-Unique q (a ∷ accounts) h =
    ground (arith, any-select (same_iban a) q accounts, select-Unique q accounts)
