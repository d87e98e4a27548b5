-- ===== src/PartyService/Samples.antt =====
-- Runs of the handlers of parties, and the theorems at concrete inputs.
use mathlib.Core.Logic.{◌≢◌}
use film_bill.Base.{
  ◌≡◌, refl, ◌∙◌, inl, inr, ℕ, ◌≤◌, true, false, Option, none, some, List, [], ◌∷◌, text_eq,
  text_has_equality, contains, Member, is_some, length, map,
}
use film_bill.Base.Int.{pos}
use film_bill.Base.Text.{Text, lit, strip, starts_with, replace, text_ltb}
use film_bill.Http.{Answer, ok}
use film_bill.Tax.Json.{number, json_equal}
use film_bill.Audit.Trail.{Client, AuditEvent, snapshot, diff, diff_from, record_event}
use film_bill.Numbering.Date.{Date, period_key}
use film_bill.Numbering.Pattern.{format_number}
use film_bill.Numbering.Plan.{plan_number}
use film_bill.Numbering.Allocate.{allocate_number}
use film_bill.Base.Digits.{show, zfill}
use film_bill.Numbering.Store
use film_bill.Numbering.Store.{highest_value_in_period, latest_allocation}
use film_bill.Permissions.{producer}
use film_bill.Companies.Access.{Membership}
use film_bill.Parties.Levels.{Level, department, organisation, Dict}
use film_bill.Parties.Buyer.{tax_inputs}
use film_bill.Parties.Resolver.{ResolvedRecipient, resolve_recipient, first}
use film_bill.Parties.Resolver.SameLevel.{IsDistinct}
use film_bill.PartyService.Rows.{Party}
use film_bill.PartyService.Tree.{
  undecided, validate_parent, check_type, check_parent, check_row, check_cycle, check_depth,
  depth_of, depth_from, party_type_named, meets_itself,
}
use film_bill.PartyService.Tree.Walks.{validate_parent-decided}
use film_bill.PartyService.Values.{party_values, party_audited}
use film_bill.PartyService.Changes.{PartyWrite, new_party, apply_changes}
use film_bill.PartyService.Numbers.{
  allocate_party_number, number_series_of, number_event, PartyStore,
}
use film_bill.PartyService.Writes.{
  create_party, update_party, insert_party, flush_parties, has_duplicate_number, write_party,
  audited_party, audited_update, move_party,
}
use film_bill.PartyService.Hierarchy.{IsTree}
use film_bill.PartyService.Requests.{
  PartyRequest, creates, Call, answer, here, next, Reached-IsTree,
}
use film_bill.PartyService.Unaudited.{SaysNothing, update_party-SaysNothing}
use film_bill.PartyService.Policy.{
  valid, validate, save_policy, load_policy, TaxIdCheckPolicy, as_dict, read_offsets, read_interval,
  read_max_age, known_settings,
}
use film_bill.PartyService.Policy.InForce.{IsSound}
use film_bill.PartyService.Policy.Saved.{save-load_policy}
use film_bill.PartyService.Evidence.{
  PartyTaxId, PartyVatCheck, Evidence, vat_is_verified, tax_id_evidence, evidence_entry,
  primary_tax_id, latest_completed_check, check_is_stale, put, sort_rows, vat_like_kinds,
}
use film_bill.PartyService.Evidence.Verified.{IsBacked, vat_is_verified-IsBacked}
use film_bill.PartyService.Chain.{PartyBook, chain_of, build_chain, resolve, ancestors, level_of}
use film_bill.PartyService.Chain.Climbs.{Climbs, build_chain-Climbs}
use film_bill.PartyService.Chain.Backed.{resolve-IsBacked}

abbrev party : ℕ → Level → Option ℕ → Text → Party
party id kind parent_id name = record {
  id = id;
  company_id = 1;
  kind = kind;
  parent_id = parent_id;
  name = name;
  trading_name = none;
  legal_form = none;
  register_number = none;
  register_court = none;
  title = none;
  position = none;
  is_customer = false;
  is_supplier = false;
  is_partner = false;
  tags = [];
  party_number = none;
  language = none;
  default_currency = none;
  payment_terms_days = none;
  payment_terms_text = none;
  po_reference = none;
  notes = none;
  business_status = lit "auto";
  tax_country = none;
  tax_status_note = none;
  recheck_interval_days = none;
  tax_override = none;
  einvoice_routing = some [];
  is_active = true;
}

abbrev no_change : PartyWrite
no_change = record {
  parent_id = none;
  name = none;
  trading_name = none;
  legal_form = none;
  register_number = none;
  register_court = none;
  title = none;
  position = none;
  is_customer = none;
  is_supplier = none;
  is_partner = none;
  tags = none;
  party_number = none;
  language = none;
  default_currency = none;
  payment_terms_days = none;
  payment_terms_text = none;
  po_reference = none;
  notes = none;
  business_status = none;
  tax_country = none;
  tax_status_note = none;
  recheck_interval_days = none;
  tax_override = none;
  einvoice_routing = none;
}

abbrev broadcaster : Party
broadcaster = party 10 organisation none (lit "ORF")

abbrev publisher : Party
publisher = party 12 organisation none (lit "Falter")

abbrev editors : Party
editors = party 11 department (some 10) (lit "Kultur")

-- Two departments that stand below each other.
abbrev in_a_circle : List Party
in_a_circle = party 20 department (some 21) (lit "A") ∷ party 21 department (some 20) (lit "B") ∷ []

validate_parent-decided_example :
    validate_parent 1 in_a_circle (lit "person") (some 20) (some 30) ≢ undecided
validate_parent-decided_example =
    validate_parent-decided 1 in_a_circle (lit "person") (some 20) (some 30)

abbrev caller : Membership
caller = record {
  user_id = 7;
  company = record { id = 1; tax_advisor_reports = false; require_2fa_roles = [] };
  row = record {
    id = 1;
    company_id = 1;
    user_id = 7;
    role = producer;
    expires_at = none;
    revoked_at = none;
  };
}

abbrev client : Client
client = record { host = none; user_agent = none }

abbrev today : Date
today = record { year = 2025; month = 3; day = 1 }

abbrev call : PartyRequest → Call
call request = record {
  caller = caller;
  client = client;
  today = today;
  now = 0;
  by_name = λ rows. rows;
  request = request;
}

abbrev store_of : List Party → PartyStore
store_of parties = record { parties = parties; series = []; allocations = []; trail = [] }

abbrev parties_of : Answer PartyStore → List Party
parties_of (ok store) = store.parties
parties_of _ = []

abbrev events_of : Answer PartyStore → List AuditEvent
events_of (ok store) = store.trail
events_of _ = []

abbrev adds_department : Call
adds_department = call (
    creates
      (record {
        kind = department;
        name = lit "Kultur";
        rest = record no_change { parent_id = some (some 10) };
      })
      11)

abbrev after_department : Answer PartyStore
after_department =
    create_party caller client today 0
      (record {
        kind = department;
        name = lit "Kultur";
        rest = record no_change { parent_id = some (some 10) };
      })
      11 (store_of (broadcaster ∷ []))

-- An archived organisation takes a new department, which is active: nothing asks whether a parent is.
archived_parent_run :
    parties_of (
      create_party caller client today 0
        (record {
          kind = department;
          name = lit "Kultur";
          rest = record no_change { parent_id = some (some 10) };
        })
        11
        (store_of (record broadcaster { is_active = false } ∷ [])))
    ≡ record broadcaster { is_active = false } ∷ editors ∷ []
unfolding create_party new_party validate_parent check_type check_parent check_row check_cycle
    check_depth depth_of depth_from party_type_named insert_party flush_parties has_duplicate_number
    allocate_party_number number_series_of write_party audited_party record_event lit text_eq
archived_parent_run = refl

alone-IsTree : (p : Party) → p.kind ≡ organisation → p.parent_id ≡ none → IsTree (p ∷ [])
alone-IsTree p kind top q (inl same) = rw (same, kind) (inl (top, refl))
alone-IsTree p kind top q (inr nowhere) = absurd nowhere

department_added : answer adds_department (store_of (broadcaster ∷ [])) ≡ after_department
department_added = refl

abbrev with_department : PartyStore
with_department = record (store_of (broadcaster ∷ editors ∷ [])) {
  trail = events_of after_department;
}

department_answered : after_department ≡ ok with_department
unfolding create_party new_party validate_parent check_type check_parent check_row check_cycle
    check_depth depth_of depth_from party_type_named insert_party flush_parties has_duplicate_number
    allocate_party_number number_series_of write_party audited_party record_event lit text_eq
department_answered = refl

Reached-IsTree_example : IsTree with_department.parties
Reached-IsTree_example =
    Reached-IsTree (alone-IsTree broadcaster refl refl)
      (next adds_department here (department_added ∙ department_answered))

-- A department is moved to another organisation.
abbrev moves : PartyWrite
moves = record no_change { parent_id = some (some 12) }

abbrev three : PartyStore
three = store_of (broadcaster ∷ publisher ∷ editors ∷ [])

abbrev moved : PartyStore
moved = store_of (broadcaster ∷ publisher ∷ record editors { parent_id = some 12 } ∷ [])

moved_silently : update_party caller client today 0 11 moves three ≡ ok moved
unfolding update_party move_party apply_changes audited_update validate_parent check_type
    check_parent check_row check_cycle check_depth depth_of depth_from meets_itself party_type_named
    flush_parties has_duplicate_number allocate_party_number number_series_of write_party snapshot
    party_values party_audited diff diff_from json_equal lit text_eq
moved_silently = refl

-- The department is moved, becomes a customer, and gets a number while a later one is out already.
abbrev becomes_customer : PartyWrite
becomes_customer = record moves { is_customer = some (some true) }

abbrev customers : Store.Series
customers = record {
  id = 1;
  company_id = 1;
  document_type = lit "customer";
  name = lit "Customers";
  pattern = lit "K-{SEQ}";
  reset = lit "never";
  next_value = 2;
  current_period = some (lit "2026");
  padding = pos 4;
  is_active = true;
}

abbrev first_customer : Store.Allocation
first_customer = record {
  company_id = 1;
  series_id = 1;
  period = lit "2026";
  value = 1;
  number = lit "K-0001";
  document_date = record { year = 2026; month = 1; day = 5 };
  allocated_at = 0;
  entity_type = some (lit "parties");
  entity_id = some 10;
}

abbrev numbering : PartyStore
numbering = record three { series = customers ∷ []; allocations = first_customer ∷ [] }

abbrev store_or : PartyStore → Answer PartyStore → PartyStore
store_or default (ok store) = store
store_or default _ = default

abbrev customer_moved : PartyStore
customer_moved =
    store_or numbering (update_party caller client today 0 11 becomes_customer numbering)

customer_answered :
    (update_party caller client today 0 11 becomes_customer numbering ≡ ok customer_moved)
    × (map (λ (e : AuditEvent). e.action) customer_moved.trail
        ≡ lit "number.out_of_order" ∷ lit "party.updated" ∷ [])
unfolding update_party move_party apply_changes audited_update audited_party record_event
    validate_parent check_type check_parent check_row check_cycle check_depth depth_of depth_from
    meets_itself party_type_named flush_parties has_duplicate_number allocate_party_number
    number_series_of write_party snapshot party_values party_audited diff diff_from json_equal
    allocate_number plan_number format_number period_key highest_value_in_period latest_allocation
    number_event starts_with replace show zfill text_ltb lit text_eq
customer_answered = (refl, refl)

update_party-SaysNothing_example :
    (contains party_audited (lit "parent_id") ≡ true) × SaysNothing [] customer_moved.trail
update_party-SaysNothing_example =
    update_party-SaysNothing caller client today 0 11 becomes_customer numbering customer_moved
      customer_answered.0

-- A policy that changes the interval alone.
abbrev monthly : Dict
monthly = (lit "recheck_interval_days", number (pos 30)) ∷ []

abbrev monthly_policy : TaxIdCheckPolicy
monthly_policy = record {
  initial_check_offsets = 0 ∷ 1 ∷ 7 ∷ [];
  recheck_interval_days = some 30;
  max_check_age_days = some 180;
}

monthly_saved : save_policy monthly ≡ valid (as_dict monthly_policy)
unfolding save_policy validate read_offsets read_interval read_max_age known_settings lit text_eq
monthly_saved = refl

save-load_policy_example :
    (validate monthly ≡ valid (load_policy (some (as_dict monthly_policy))))
    × IsSound (load_policy none)
save-load_policy_example = save-load_policy monthly (as_dict monthly_policy) none monthly_saved

abbrev number_of_orf : PartyTaxId
number_of_orf = record {
  id = 1;
  party_id = 10;
  kind = lit "vat";
  value = lit "ATU16250401";
  is_primary = true;
  is_active = true;
  created_at = 0;
}

abbrev check_of_orf : ℕ → Text → PartyVatCheck
check_of_orf id status = record {
  id = id;
  tax_id_id = some 1;
  status = status;
  provider = lit "vies";
  qualified = false;
  valid_until = none;
  consultation_ref = none;
  checked_at = id;
}

-- A registry that is unavailable later does not displace an answer.
abbrev evidence : Evidence
evidence = record {
  tax_ids = number_of_orf ∷ [];
  checks = check_of_orf 100 (lit "valid") ∷ check_of_orf 200 (lit "unavailable") ∷ [];
  policy_of = λ company_id. none;
}

orf_verified : vat_is_verified evidence broadcaster 1_000 ≡ true
unfolding vat_is_verified primary_tax_id latest_completed_check check_is_stale load_policy put
    sort_rows vat_like_kinds lit text_eq
orf_verified = refl

vat_is_verified-IsBacked_example :
    (is_some (tax_id_evidence evidence broadcaster 1_000)
      ≡ vat_is_verified evidence broadcaster 1_000)
    × (vat_is_verified evidence broadcaster 1_000 ≡ true
        → (t : PartyTaxId) × (c : PartyVatCheck) × IsBacked evidence broadcaster 1_000 t c
          × (tax_id_evidence evidence broadcaster 1_000 ≡ some (evidence_entry t c)))
vat_is_verified-IsBacked_example = vat_is_verified-IsBacked evidence broadcaster 1_000

abbrev book : PartyBook
book = record {
  parties = broadcaster ∷ editors ∷ [];
  addresses = [];
  contact_points = [];
  evidence = evidence;
}

book-IsTree : IsTree book.parties
book-IsTree q (inl same) = rw same (inl (refl, refl))
book-IsTree q (inr (inl same)) = rw same (inr (broadcaster, refl, refl))
book-IsTree q (inr (inr nowhere)) = absurd nowhere

build_chain-Climbs_example :
    Climbs 1 book.parties (some editors) (chain_of book editors)
    × (length (chain_of book editors) ≤ 3)
    × IsDistinct (build_chain book 1_000 editors)
build_chain-Climbs_example = build_chain-Climbs book 1_000 editors book-IsTree refl

abbrev recipient : ResolvedRecipient
unfolding chain_of build_chain level_of
recipient = resolve_recipient (level_of book 1_000 editors) (level_of book 1_000 broadcaster ∷ [])

resolved : resolve book 1_000 editors ≡ some recipient
unfolding resolve build_chain chain_of ancestors level_of recipient
resolved = refl

recipient_verified : (tax_inputs recipient).buyer_vat_verified ≡ true
unfolding tax_inputs recipient resolve_recipient first level_of lit text_eq vat_is_verified
    primary_tax_id latest_completed_check check_is_stale load_policy put sort_rows vat_like_kinds
    strip
recipient_verified = refl

resolve-IsBacked_example :
    (q : Party) × (t : PartyTaxId) × (c : PartyVatCheck) × Member q (chain_of book editors)
    × IsBacked book.evidence q 1_000 t c
    × (recipient.vat_id.value ≡ some t.value)
    × ((tax_inputs recipient).tax_id_evidence ≡ some (evidence_entry t c))
resolve-IsBacked_example =
    resolve-IsBacked book 1_000 editors recipient book-IsTree refl resolved recipient_verified
