-- ===== src/Companies/Samples.antt =====
-- Runs of the company handlers, and the theorems at concrete inputs.
use film_bill.Base.{
  ◌≡◌, ◌⊎◌, inl, inr, refl, ℕ, ◌<◌, true, false, Option, none, some, List, [], ◌∷◌, text_eq,
  or_else, Member, arith, text_has_equality,
}
use film_bill.Base.Text.{Text, lit, strip, lstrip, rstrip, is_space, is_empty, upper}
use film_bill.Base.Uuid.{uuid_of}
use film_bill.Http.{Answer, ok, raised, not_found}
use film_bill.Audit.Trail.{Client}
use film_bill.Permissions.{
  Company, CompanyMembership, CompanyRole, owner, admin, has_permission, roles_with, permissions,
  tax_advisor_optional, is_active,
}
use film_bill.Permissions.Membership.{active_membership_in}
use film_bill.Accounts.{User, user, active, Payload, access_payload}
use film_bill.Companies.Access.{
  CompanyRow, Membership, can, current_membership, require, IsEntitled, require-IsEntitled,
  require_uniform,
}
use film_bill.Companies.Members.{
  MemberStore, is_row, active_owner_count, only_an_owner, keep_an_owner, granted, invited,
  add_member, update_member, revoke_member, refuse_last_owner, revoke_found,
}
use film_bill.Companies.Members.Effect.{MemberRequest, updates, revokes, respond}
use film_bill.Companies.Members.Owners.{respond-KeepsOwner, update_member-expired_owner}
use film_bill.Companies.Members.Promotion.{WasOwner, respond-WasOwner}
use film_bill.Companies.Members.Sessions.{IsSignedOut, respond-IsSignedOut}
use film_bill.Companies.BankAccounts
use film_bill.Companies.BankAccounts.{
  set_default_bank_account, flush, insert_account, has_duplicate_iban,
}
use film_bill.Companies.BankAccounts.Writes.{IsSound}
use film_bill.Companies.BankAccounts.Sound
use film_bill.Companies.BankAccounts.Sound.{Reach, here, next, Reach-IsSound}

abbrev film_studio : Company
film_studio = record { id = 1; tax_advisor_reports = false; require_2fa_roles = [] }

abbrev companies : List CompanyRow
companies = record { company = film_studio; archived_at = none } ∷ []

abbrev row : ℕ → ℕ → CompanyRole → CompanyMembership
row id user_id role = record {
  id = id;
  company_id = 1;
  user_id = user_id;
  role = role;
  expires_at = none;
  revoked_at = none;
}

abbrev rows : List CompanyMembership
rows = row 1 7 owner ∷ row 2 8 admin ∷ []

abbrev person : ℕ → User
person id = record {
  id = id;
  email = lit "ann@film.at";
  first_name = none;
  last_name = lit "Lee";
  password_hash = none;
  status = active;
  role = user;
  invite_token = none;
  invite_token_expires_at = none;
  two_factor_enabled = false;
  token_version = 2;
  backup_email = none;
  backup_email_verified_at = none;
  account_gate_waived_at = none;
  deleted_at = none;
}

abbrev store : MemberStore
store = record {
  users = person 7 ∷ person 8 ∷ [];
  memberships = rows;
  trail = [];
  invitations = [];
}

abbrev caller : ℕ → CompanyRole → Membership
caller user_id role = record { user_id = user_id; company = film_studio; row = row 1 user_id role }

abbrev client : Client
client = record { host = none; user_agent = none }

abbrev header : Option Text
header = some (lit "00000000-0000-0000-0000-000000000001")

enters :
    require 5 companies rows (lit "company.members.manage") header 8
    ≡ ok (record { user_id = 8; company = film_studio; row = row 2 8 admin })
unfolding require current_membership can has_permission roles_with permissions tax_advisor_optional
    active_membership_in is_active uuid_of strip lstrip rstrip is_space lit text_eq
enters = refl

require-IsEntitled_example :
    IsEntitled 5 companies rows
      (lit "company.members.manage")
      8
      (record { user_id = 8; company = film_studio; row = row 2 8 admin })
require-IsEntitled_example =
    require-IsEntitled 5 companies rows (lit "company.members.manage") header 8 enters

sent : is_empty (strip (or_else header [])) ≡ false
unfolding strip lstrip rstrip is_space lit
sent = refl

parsed_header : uuid_of (strip (or_else header [])) ≡ some 1
unfolding uuid_of strip lstrip rstrip is_space lit
parsed_header = refl

require_uniform_example :
    ((m : Membership) × (require 5 companies rows (lit "ledger.view") header 9 ≡ ok m))
    ⊎ (require 5 companies rows (lit "ledger.view") header 9 ≡ raised not_found)
require_uniform_example =
    require_uniform 5 companies rows (lit "ledger.view") header 9 1 sent parsed_header

-- The owner makes the other member an owner, who then revokes the first.
abbrev promotion : MemberRequest
promotion = updates 2 (record { role = some owner; expires_at = none })

abbrev after : Answer MemberStore → MemberStore
after (ok s) = s
after _ = store

abbrev promoted : MemberStore
promoted = after (respond 5 (caller 7 owner) client promotion store)

abbrev removed : MemberStore
removed = after (respond 5 (caller 7 owner) client (revokes 2) store)

refusals :
    (revoke_member 5 (caller 8 admin) client 1 store ≡ raised keep_an_owner)
    × (update_member 5
          (caller 8 admin)
          client
          2
          (record { role = some owner; expires_at = none })
          store
        ≡ raised only_an_owner)
    × (update_member 5
          (caller 7 owner)
          client
          1
          (record { role = some admin; expires_at = none })
          store
        ≡ raised keep_an_owner)
    × (revoke_member 5 (caller 7 owner) client 9 store ≡ raised not_found)
unfolding revoke_member revoke_found update_member refuse_last_owner active_owner_count is_active
refusals = (refl, refl, refl, refl)

promoting : respond 5 (caller 7 owner) client promotion store ≡ ok promoted
unfolding respond update_member refuse_last_owner is_active
promoting = refl

removes : respond 5 (caller 7 owner) client (revokes 2) store ≡ ok removed
unfolding respond revoke_member revoke_found refuse_last_owner is_active
removes = refl

owned : active_owner_count 5 1 rows ≡ 1
unfolding active_owner_count is_active
owned = refl

respond-KeepsOwner_example : 0 < active_owner_count 5 1 promoted.memberships
respond-KeepsOwner_example =
    respond-KeepsOwner 5 (caller 7 owner) client promotion store tt promoting (omega (arith, owned))

owns : is_active 5 (row 1 7 owner) ≡ true
unfolding is_active
owns = refl

-- At the moment 5 the expiry 4 is past.
update_member-expired_owner_example :
    (store' : MemberStore) × (update_member 5
        (caller 8 admin)
        client
        1
        (record { role = none; expires_at = some (some 4) })
        store
      ≡ ok store')
    × (active_owner_count 5 1 store'.memberships ≡ 0)
unfolding is_active
update_member-expired_owner_example =
    update_member-expired_owner 5 (caller 8 admin) client 1 4 store (row 1 7 owner) (person 7) refl
      refl refl owned refl

removes_as_admin :
    respond 5 (caller 8 admin) client (revokes 2) store
    ≡ ok (after (respond 5 (caller 8 admin) client (revokes 2) store))
unfolding respond revoke_member revoke_found refuse_last_owner is_active
removes_as_admin = refl

first_stays :
    Member (row 1 7 owner) (after (respond 5 (caller 8 admin) client (revokes 2) store)).memberships
unfolding respond revoke_member revoke_found refuse_last_owner is_active
    film_bill.Companies.Members.revoke_membership_and_bump
first_stays = inl refl

respond-WasOwner_example : WasOwner rows (row 1 7 owner)
respond-WasOwner_example =
    respond-WasOwner 5 (caller 8 admin) client (revokes 2) store (row 1 7 owner) (λ e. cc)
      removes_as_admin first_stays refl

abbrev tokens_of_second : Text → Option Payload
tokens_of_second t = some (access_payload (lit "00000000-0000-0000-0000-000000000008") 2 99)

last_row : CompanyMembership
last_row = record (row 2 8 admin) { revoked_at = some 5 }

second_changes : Member last_row removed.memberships
unfolding last_row respond revoke_member revoke_found refuse_last_owner is_active
    film_bill.Companies.Members.revoke_membership_and_bump film_bill.Companies.Members.revoked
second_changes = inr (inl refl)

respond-IsSignedOut_example :
    Member last_row rows ⊎ IsSignedOut tokens_of_second last_row.user_id store.users removed.users
respond-IsSignedOut_example =
    respond-IsSignedOut tokens_of_second 5 (caller 7 owner) client (revokes 2) store last_row
      removes second_changes

abbrev no_accounts : BankAccounts.AccountStore
no_accounts = record { accounts = []; trail = [] }

abbrev first_account : Sound.AccountRequest
first_account =
    Sound.creates
      (record {
        label = none;
        iban = lit "AT61 1904 3002 3457 3201";
        bic = none;
        bank_name = none;
        is_default = false;
      })
      1

abbrev stored_accounts : Answer BankAccounts.AccountStore → BankAccounts.AccountStore
stored_accounts (ok s) = s
stored_accounts _ = no_accounts

abbrev first_accounts : BankAccounts.AccountStore
first_accounts = stored_accounts (Sound.respond (caller 7 owner) client first_account no_accounts)

creates_first : Sound.respond (caller 7 owner) client first_account no_accounts ≡ ok first_accounts
unfolding Sound.respond BankAccounts.create_bank_account BankAccounts.refuse_duplicate_iban
    BankAccounts.find_bank_account_with_iban insert_account flush has_duplicate_iban
creates_first = refl

is_default_now :
    first_accounts.accounts
    ≡ record {
      id = 1;
      company_id = 1;
      label = none;
      iban = lit "AT611904300234573201";
      bic = none;
      bank_name = none;
      is_default = true;
    }
      ∷ []
unfolding Sound.respond BankAccounts.create_bank_account BankAccounts.refuse_duplicate_iban
    BankAccounts.find_bank_account_with_iban insert_account flush has_duplicate_iban
    set_default_bank_account film_bill.Iban.normalise_iban upper is_space lit
is_default_now = refl

empty-IsSound : IsSound []
unfolding has_duplicate_iban
empty-IsSound = record {
  keys = λ id. omega arith;
  ibans = refl;
  defaults = λ c b. absurd (omega arith);
}

Reach-IsSound_example : IsSound first_accounts.accounts
Reach-IsSound_example =
    Reach-IsSound no_accounts first_accounts empty-IsSound
      (next (caller 7 owner) client first_account here creates_first)
