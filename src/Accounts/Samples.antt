-- ===== src/Accounts/Samples.antt =====
-- Runs of the accounts, and the theorems at concrete inputs.
use film_bill.Base.{
  ◌≡◌, ◌≢◌, ◌↔◌, refl, ap, inl, inr, arith, Member, true, false, Option, none, some, List, [], ◌∷◌,
  text_eq, if◌then◌else◌,
}
use film_bill.Base.Text.{Text, lit, lower, strip, lstrip, rstrip, is_space, occurs, starts_with}
use film_bill.Base.Uuid.{uuid_of}
use film_bill.Http.{ok, raised}
use film_bill.Tax.Json.{json_equal}
use film_bill.Accounts.{
  User, user, active, Payload, access_payload, refresh_payload, has_type, token_version_of,
  get_user_by_id, get_user_by_email, split_full_name, before_at, create_invited_user, end_sessions,
  gate_outstanding,
}
use film_bill.Accounts.Session.{subject_of, invalid_token, get_current_user, get_optional_user}
use film_bill.Accounts.Identity.{IsFrom, get_current_user_iff}
use film_bill.Accounts.Ended.{end_sessions-Ended}
use film_bill.Accounts.Gate.{
  GatedRequest, exempt_prefixes, is_exempt, is_preflight, partition_space, is_bearer, gate_blocks,
  gate_blocks-outstanding,
}

abbrev pub ann : User
ann = record {
  id = 7;
  email = lit "Ann@film.at";
  first_name = some (lit "Ann");
  last_name = lit "Lee";
  password_hash = none;
  status = active;
  role = user;
  invite_token = none;
  invite_token_expires_at = none;
  two_factor_enabled = false;
  token_version = 2;
  backup_email = none;
  backup_email_verified_at = none;
  account_gate_waived_at = none;
  deleted_at = none;
}

abbrev pub people : List User
people = ann ∷ []

-- The tokens "a", of Ann's version, "old", of the one before, and "r", which renews.
abbrev pub decode : Text → Option Payload
decode t =
    if text_eq t (lit "a")
    then some (access_payload (lit "00000000-0000-0000-0000-000000000007") 2 99)
    else if text_eq t (lit "old")
    then some (access_payload (lit "00000000-0000-0000-0000-000000000007") 1 99)
    else if text_eq t (lit "r")
    then some (refresh_payload (lit "00000000-0000-0000-0000-000000000007") 2 99)
    else none

signs_in :
    (get_current_user decode (lit "a") people ≡ ok ann)
    × (get_current_user decode (lit "old") people ≡ raised invalid_token)
    × (get_current_user decode (lit "r") people ≡ raised invalid_token)
    × (get_current_user decode (lit "x") people ≡ raised invalid_token)
    × (get_optional_user decode (some (lit "old")) people ≡ none)
unfolding get_current_user get_optional_user access_payload refresh_payload lit text_eq has_type
    json_equal token_version_of subject_of uuid_of get_user_by_id
signs_in = (refl, refl, refl, refl, refl)

invites :
    (split_full_name (lit " Mary Jane Watson ") ≡ (some (lit "Mary"), lit "Jane Watson"))
    × (split_full_name (lit "Cher") ≡ (none, lit "Cher"))
    × ((create_invited_user 8 (lit "t") 0 (lit "bo@film.at") none).last_name ≡ lit "bo")
    × (get_user_by_email (lit " ann@FILM.at") people ≡ some ann)
unfolding split_full_name create_invited_user before_at get_user_by_email lit strip lstrip rstrip
    is_space occurs starts_with lower text_eq
invites = (refl, refl, refl, refl)

signed_in : get_current_user decode (lit "a") people ≡ ok ann
signed_in = signs_in.0

abbrev bob : User
bob = record ann { id = 8; email = lit "bob@film.at" }

abbrev two_people : List User
two_people = ann ∷ bob ∷ []

only_ann : (v : User) → Member v two_people → v.id ≡ ann.id → v ≡ ann
only_ann v (inl e) h = e
only_ann v (inr (inl e)) h = absurd (omega (arith, h, ap (λ (u : User). u.id) e))
only_ann v (inr (inr m)) h = absurd m

get_current_user_iff_example :
    (get_current_user decode (lit "a") two_people ≡ ok ann) ↔ IsFrom decode (lit "a") two_people ann
get_current_user_iff_example = get_current_user_iff decode (lit "a") two_people ann only_ann

end_sessions-Ended_example :
    (ann.id ≡ 7 → (v : User) → get_current_user decode (lit "a") (end_sessions 7 people) ≢ ok v)
    × (ann.id ≢ 7 → get_current_user decode (lit "a") (end_sessions 7 people) ≡ ok ann)
end_sessions-Ended_example = end_sessions-Ended decode (lit "a") 7 people ann signed_in refl

abbrev gated_request : GatedRequest
gated_request = record {
  path = lit "/company/members";
  method = lit "GET";
  authorization = some (lit "BEARER a");
}

gates :
    (gate_blocks decode (some people) gated_request ≡ true)
    × (gate_blocks decode none gated_request ≡ false)
    × (gate_blocks decode (some people) (record gated_request { path = lit "/auth/me" }) ≡ false)
unfolding gate_blocks is_exempt exempt_prefixes is_preflight partition_space is_bearer lower lit
    text_eq starts_with has_type json_equal token_version_of subject_of uuid_of get_user_by_id
    gate_outstanding access_payload refresh_payload
gates = (refl, refl, refl)

outside : is_exempt (lit "/company/members") ≡ false
unfolding is_exempt exempt_prefixes starts_with lit
outside = refl

not_preflight : is_preflight (lit "GET") ≡ false
unfolding is_preflight lit text_eq
not_preflight = refl

parts : partition_space (lit "BEARER a") ≡ (lit "BEARER", lit "a")
unfolding partition_space lit
parts = refl

bearer : is_bearer (lit "BEARER") ≡ true
unfolding is_bearer lower lit text_eq
bearer = refl

unfinished : gate_outstanding ann ≡ true
unfolding gate_outstanding
unfinished = refl

gate_blocks-outstanding_example : gate_blocks decode (some people) gated_request ≡ true
unfolding lit
gate_blocks-outstanding_example =
    gate_blocks-outstanding decode people gated_request (lit "BEARER a") (lit "BEARER") (lit "a")
      ann signed_in unfinished outside not_preflight refl parts bearer refl
