-- ===== src/Parties/Buyer.antt =====
-- What a tax decision takes from the resolved recipient (`recipient_buyer_type` and `tax_inputs` of
-- apps/api/billing/parties/resolver.py).
pub mod Verified
use film_bill.Base.{
  Bool, true, false, not, ◌&&◌, ◌||◌, Option, none, some, List, [], ◌∷◌, lookup, is_some, or_else,
  text_eq, if◌then◌else◌,
}
use film_bill.Base.Text.{Text, lit, is_empty}
use film_bill.Parties.Levels.{
  Level, person, department, organisation, level_eq, level_has_equality, Dict, is_present,
  text_has_presence,
}
use film_bill.Parties.Resolver.{ResolvedField, ResolvedRecipient, or_auto, filled_dict}

-- BUYER_REASONS
pub data BuyerReason : Type 0 where
  explicit : BuyerReason
  explicit_without_tax_id : BuyerReason
  by_organisation : BuyerReason
  person_with_vat_id : BuyerReason
  a_person : BuyerReason

abbrev pub private_buyer : Text
private_buyer = lit "private"

abbrev pub business : Text
business = lit "business"

abbrev pub status_of : ResolvedRecipient → Text
status_of resolved = or_auto (or_else resolved.business_status.value [])

-- An organisation, or anything inside one.
abbrev pub is_inside : ResolvedRecipient → Bool
is_inside resolved =
    level_eq resolved.own_level organisation
    || level_eq resolved.own_level department
    || is_some (lookup organisation resolved.ids)
    || is_some (lookup department resolved.ids)

unfoldable pub recipient_buyer_type : ResolvedRecipient → Text × BuyerReason
recipient_buyer_type resolved =
    let numbered = is_present resolved.vat_id.value in
    if text_eq (status_of resolved) private_buyer
    then (private_buyer, explicit)
    else if text_eq (status_of resolved) business
    then (business, if numbered then explicit else explicit_without_tax_id)
    else if is_inside resolved
    then (business, by_organisation)
    else if numbered
    then (business, person_with_vat_id)
    else (private_buyer, a_person)

pub record BuyerInputs : Type 0 where
  pub buyer_country : Option Text
  pub buyer_type : Text
  pub buyer_vat_verified : Bool
  pub party_override : Option Dict
  pub buyer_type_reason : BuyerReason
  pub tax_id_evidence : Option Dict

abbrev pub non_empty : Option Text → Option Text
non_empty none = none
non_empty (some s) = if is_empty s then none else some s

unfoldable pub tax_inputs : ResolvedRecipient → BuyerInputs
tax_inputs resolved =
    let type_and_reason = recipient_buyer_type resolved in
    let verified = or_else resolved.vat_verified.value false in
    record {
      buyer_country = non_empty resolved.tax_country.value;
      buyer_type = type_and_reason.0;
      buyer_vat_verified = verified;
      party_override = filled_dict resolved.tax_override.value;
      buyer_type_reason = type_and_reason.1;
      tax_id_evidence = if verified then filled_dict resolved.tax_id_evidence.value else none;
    }
