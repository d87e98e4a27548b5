-- ===== src/Companies/BankAccounts.antt =====
-- The bank accounts of a company (`CompanyBankAccount` of apps/api/models/company.py, the functions on
-- accounts of apps/api/services/company_service.py, and the handlers of apps/api/routers/companies.py).
-- The time of creation, by which a listing is sorted, is left out.
pub mod Defaults
pub mod Unique
pub mod Writes
pub mod Sound
use film_bill.Base.{
  ◌≡◌, refl, ℕ, Bool, true, false, not, ◌&&◌, ◌||◌, Option, none, some, List, [], ◌∷◌, ◌++◌, map,
  nat_eq, if◌then◌else◌, is_some, find, select, any, text_eq, or_else,
}
use film_bill.Base.Text.{Text, lit, is_empty}
use film_bill.Http.{
  HttpError, Answer, ok, raised, crashed, ◌>>=◌, ◌>>◌, raise_if, or_raise, bad_request, not_found,
}
use film_bill.Iban.{normalise_iban, format_iban}
use film_bill.Tax.Json.{Json, null, boolean, text}
use film_bill.Audit.Trail.{
  Client, Values, AuditedEntity, AuditEvent, actor_from, snapshot, record_event,
}
use film_bill.Companies.Access.{Membership, company_id_of}

pub record CompanyBankAccount : Type 0 where
  pub id : ℕ
  pub company_id : ℕ
  pub label : Option Text
  pub iban : Text
  pub bic : Option Text
  pub bank_name : Option Text
  pub is_default : Bool

pub record AccountStore : Type 0 where
  pub accounts : List CompanyBankAccount
  pub trail : List AuditEvent

pub record BankAccountCreate : Type 0 where
  pub label : Option Text
  pub iban : Text
  pub bic : Option Text
  pub bank_name : Option Text
  pub is_default : Bool

-- A field that the request does not have is `none`, one that is null `some none`.
pub record BankAccountUpdate : Type 0 where
  pub label : Option (Option Text)
  pub iban : Option (Option Text)
  pub bic : Option (Option Text)
  pub bank_name : Option (Option Text)
  pub is_default : Option (Option Bool)

abbrev pub optional_text : Option Text → Json
optional_text none = null
optional_text (some s) = text s

unfoldable pub account_values : CompanyBankAccount → Values
account_values a =
    (lit "label", optional_text a.label)
    ∷ (lit "iban", text a.iban)
    ∷ (lit "bic", optional_text a.bic)
    ∷ (lit "bank_name", optional_text a.bank_name)
    ∷ (lit "is_default", boolean a.is_default)
    ∷ []

unfoldable pub bank_account_audited : List Text
bank_account_audited =
    lit "label" ∷ lit "iban" ∷ lit "bic" ∷ lit "bank_name" ∷ lit "is_default" ∷ []

abbrev pub values_of : Option CompanyBankAccount → Option Values
values_of none = none
values_of (some a) = some (snapshot (account_values a) bank_account_audited)

unfoldable pub audited_account :
    Membership
    → Client
    → Text
    → ℕ
    → Option CompanyBankAccount
    → Option CompanyBankAccount
    → List AuditEvent
    → List AuditEvent
audited_account caller client action id before after trail =
    record_event (actor_from client (some (company_id_of caller)) (some caller.user_id))
      (record {
        entity_type = lit "company_bank_accounts";
        id = some id;
        company_id = some (company_id_of caller);
      })
      action (values_of before) (values_of after) bank_account_audited trail

-- The row that a handler has looked up, by its primary key and its company.
abbrev pub is_account : ℕ → ℕ → CompanyBankAccount → Bool
is_account company_id id a = nat_eq a.company_id company_id && nat_eq a.id id

abbrev pub is_of : ℕ → CompanyBankAccount → Bool
is_of company_id a = nat_eq a.company_id company_id

abbrev pub write :
    (CompanyBankAccount → Bool)
    → (CompanyBankAccount → CompanyBankAccount)
    → CompanyBankAccount
    → CompanyBankAccount
write q f a = if q a then f a else a

abbrev pub demotes : ℕ → ℕ → CompanyBankAccount → Bool
demotes company_id id a = (nat_eq a.company_id company_id && not (nat_eq a.id id)) && a.is_default

abbrev pub with_default : Bool → CompanyBankAccount → CompanyBankAccount
with_default b a = record a { is_default = b }

unfoldable pub set_default_bank_account :
    ℕ → ℕ → Bool → List CompanyBankAccount → List CompanyBankAccount
set_default_bank_account company_id id is_default accounts =
    if not is_default
    then accounts
    else map (write (is_account company_id id) (with_default true))
        (map (write (demotes company_id id) (with_default false)) accounts)

abbrev pub holds_iban : ℕ → Text → Option ℕ → CompanyBankAccount → Bool
holds_iban company_id iban exclude_id a =
    (nat_eq a.company_id company_id && text_eq a.iban (normalise_iban iban))
    && (elim exclude_id [ none ↦ true | some id ↦ not (nat_eq a.id id) ])

unfoldable pub find_bank_account_with_iban :
    ℕ → Text → Option ℕ → List CompanyBankAccount → Option CompanyBankAccount
find_bank_account_with_iban company_id iban exclude_id accounts =
    find (holds_iban company_id iban exclude_id) accounts

abbrev pub has_label : Option Text → Bool
has_label none = false
has_label (some s) = not (is_empty s)

unfoldable pub duplicate_iban_detail : Option CompanyBankAccount → Text
duplicate_iban_detail none =
    lit
      "That IBAN is already saved on this company. Reload the list — somebody added it a moment ago."
duplicate_iban_detail (some a) =
    if has_label a.label
    then lit "This IBAN is already saved as \"" ++ (or_else a.label [] ++ lit "\".")
    else lit "This IBAN is already saved on this company. That account has no label — look for "
      ++ (format_iban a.iban ++ lit " in the list.")

unfoldable pub conflict : Option CompanyBankAccount → HttpError
conflict existing = record { status = 409; detail = duplicate_iban_detail existing }

unfoldable pub has_other_bank_accounts : ℕ → ℕ → List CompanyBankAccount → Bool
has_other_bank_accounts company_id id accounts =
    any (λ a. nat_eq a.company_id company_id && not (nat_eq a.id id)) accounts

-- What the unique constraint on the company and the IBAN refuses.
abbrev pub same_iban : CompanyBankAccount → CompanyBankAccount → Bool
same_iban a b = nat_eq a.company_id b.company_id && text_eq a.iban b.iban

unfoldable pub has_duplicate_iban : List CompanyBankAccount → Bool
has_duplicate_iban [] = false
has_duplicate_iban (a ∷ accounts) = any (same_iban a) accounts || has_duplicate_iban accounts

-- A write of rows, with `_duplicate_iban_as_409`.
unfoldable pub flush : List CompanyBankAccount → Answer (List CompanyBankAccount)
flush accounts = raise_if (has_duplicate_iban accounts) (conflict none) >> ok accounts

-- An insertion, whose primary key must be new.
unfoldable pub insert_account :
    CompanyBankAccount → List CompanyBankAccount → Answer (List CompanyBankAccount)
insert_account a accounts =
    if any (λ b. nat_eq b.id a.id) accounts then crashed else flush (accounts ++ a ∷ [])

abbrev pub normalised : Option (Option Text) → Option (Option Text)
normalised (some (some iban)) = some (some (normalise_iban iban))
normalised o = o

-- `setattr` for each field that the request has. A null IBAN is refused by the column.
abbrev pub changed : BankAccountUpdate → Text → CompanyBankAccount → CompanyBankAccount
changed body iban a = record a {
  label = or_else body.label a.label;
  iban = iban;
  bic = or_else body.bic a.bic;
  bank_name = or_else body.bank_name a.bank_name;
}

abbrev pub new_iban : Option (Option Text) → Text → Answer Text
new_iban none old = ok old
new_iban (some none) old = crashed
new_iban (some (some iban)) old = ok (normalise_iban iban)

abbrev pub promotes : Option (Option Bool) → Bool
promotes (some (some true)) = true
promotes _ = false

abbrev pub gives_up : Option (Option Bool) → Bool
gives_up (some (some false)) = true
gives_up _ = false

unfoldable pub keep_a_default : HttpError
keep_a_default = bad_request (
    lit
      "A company keeps one default account. Make another account the default instead — this one is demoted automatically.")

unfoldable pub default_first : HttpError
default_first = bad_request (
    lit
      "That is the default account. Make another account the default first, then remove this one.")

module _ (caller : Membership) (client : Client) where
  unfoldable pub refuse_duplicate_iban :
      Text → Option ℕ → List CompanyBankAccount → Answer (Unit {0})
  refuse_duplicate_iban iban exclude_id accounts =
      elim (find_bank_account_with_iban (company_id_of caller) iban exclude_id accounts) [
        | none ↦ ok tt
        | some existing ↦ raised (conflict (some existing))
      ]

  abbrev pub account_of : BankAccountCreate → ℕ → CompanyBankAccount
  account_of body id = record {
    id = id;
    company_id = company_id_of caller;
    label = body.label;
    iban = normalise_iban body.iban;
    bic = body.bic;
    bank_name = body.bank_name;
    is_default = false;
  }

  unfoldable pub create_bank_account : BankAccountCreate → ℕ → AccountStore → Answer AccountStore
  create_bank_account body id store = do
    refuse_duplicate_iban (normalise_iban body.iban) none store.accounts
    let is_first = not (any (is_of (company_id_of caller)) store.accounts)
    inserted ← insert_account (account_of body id) store.accounts
    let accounts =
        set_default_bank_account (company_id_of caller) id (body.is_default || is_first) inserted
    ok (record {
      accounts = accounts;
      trail =
          audited_account caller client (lit "bank_account.created") id none
            (find (is_account (company_id_of caller) id) accounts) store.trail;
    })

  abbrev pub refuse_changed_iban :
      Option (Option Text) → ℕ → List CompanyBankAccount → Answer (Unit {0})
  refuse_changed_iban (some (some iban)) id accounts =
      refuse_duplicate_iban (normalise_iban iban) (some id) accounts
  refuse_changed_iban _ id accounts = ok tt

  unfoldable pub update_bank_account : ℕ → BankAccountUpdate → AccountStore → Answer AccountStore
  update_bank_account id body store = do
    account ← or_raise (find (is_account (company_id_of caller) id) store.accounts) not_found
    refuse_changed_iban body.iban account.id store.accounts
    raise_if (gives_up body.is_default && account.is_default) keep_a_default
    iban ← new_iban body.iban account.iban
    written ←
        flush
          (map (write (is_account (company_id_of caller) id) (changed body iban)) store.accounts)
    let accounts =
        set_default_bank_account (company_id_of caller) id (promotes body.is_default) written
    ok (record {
      accounts = accounts;
      trail =
          audited_account caller client
            (if promotes body.is_default
              then lit "bank_account.default_changed"
              else lit "bank_account.updated")
            id (some account) (find (is_account (company_id_of caller) id) accounts) store.trail;
    })

  unfoldable pub delete_bank_account : ℕ → AccountStore → Answer AccountStore
  delete_bank_account id store = do
    account ← or_raise (find (is_account (company_id_of caller) id) store.accounts) not_found
    raise_if
        (account.is_default
          && has_other_bank_accounts (company_id_of caller) account.id store.accounts)
        default_first
    ok (record {
      accounts = select (λ a. not (is_account (company_id_of caller) id a)) store.accounts;
      trail =
          audited_account caller client (lit "bank_account.deleted") id (some account) none
            store.trail;
    })
