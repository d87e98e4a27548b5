-- ===== src/Tax/Data.antt =====
-- The data of a tax decision (apps/api/billing/tax/engine.py). A sentence of a reason, a failure or
-- a warning is the constructor of its wording.
use film_bill.Base.{Bool, Option, List}
use film_bill.Base.Int.{ℤ}
use film_bill.Base.Text.{Text}
use film_bill.Money.Decimal.{Decimal}
use film_bill.Tax.Regions.{Region}
use film_bill.Tax.Json.{Json}

pub record TaxCodeData : Type 0 where
  pub code : Text
  pub name : Text
  pub rate : Decimal
  pub category : Text
  pub legal_notes : List (Text × Text)
  pub notes_reviewed : Bool
  pub is_active : Bool

pub record TaxClassData : Type 0 where
  pub key : Text
  pub label : Text
  pub code : Text

-- The outcome of a rule: the entries `treatment`, `code` and `warning`, each perhaps missing.
pub record RuleOutcome : Type 0 where
  pub treatment : Option Text
  pub code : List (Text × Text)
  pub warning : Option Text

pub record TaxRuleData : Type 0 where
  pub position : ℤ
  pub name : Text
  pub conditions : List (Text × Json)
  pub outcome : RuleOutcome
  pub is_active : Bool

pub record Override : Type 0 where
  pub kind : Text
  pub code : Option Text

pub record TaxInputs : Type 0 where
  pub seller_country : Option Text
  pub buyer_country : Option Text
  pub buyer_type : Text
  pub buyer_vat_verified : Bool
  pub supply_kind : Text
  pub item_class : Text
  pub item_override : Option Override
  pub party_override : Option Override
  pub seller_is_kleinunternehmer : Bool

-- Where an override comes from.
pub data Source : Type 0 where
  item : Source
  party : Source

-- `rule.name`, or `override:item` and `override:party`.
pub data Applied : Type 0 where
  by_rule : Text → Applied
  by_override : Source → Applied

pub data Failure : Type 0 where
  no_rule_matched : Failure
  code_not_in_company : Text → Failure
  class_not_in_company : Option Text → Failure
  class_code_not_in_company : Text → Text → Failure
  override_code_not_in_company : Source → Option Text → Failure
  override_kind_unknown : Source → Text → Failure

pub data Reason : Type 0 where
  company_has_no_country : Reason
  seller_is_in : Text → Reason
  buyer_has_no_country : Reason
  buyer_is : Text → Text → Region → Reason
  vat_id_verified : Reason
  vat_id_not_verified : Reason
  supply_is : Text → Reason
  small_business : Reason
  override_does_not_apply : Source → Reason
  rule_applies : ℤ → Text → Reason
  no_rule_applies : Reason
  override_fixes_code : Source → Text → Reason
  override_names_missing_code : Source → Option Text → Reason
  override_uses_domestic_rate : Source → Reason
  override_of_unknown_kind : Source → Reason
  failed : Failure → Reason
  nothing_resolved : Reason
  code_is_inactive : Text → Reason
  code_applies : Text → Text → Reason

pub record TaxWarning : Type 0 where
  pub code : Text
  pub text : Text

pub record WouldHaveApplied : Type 0 where
  pub treatment : Option Text
  pub code : Option Text
  pub rate : Option Decimal
  pub applied_rule : Option Applied
  pub applied_rule_position : Option ℤ
  pub legal_note : Option Text

pub record Proposal : Type 0 where
  pub treatment : Option Text
  pub code : Option Text
  pub rate : Option Decimal
  pub legal_note : Option Text
  pub applied_rule : Option Applied
  pub applied_rule_position : Option ℤ
  pub reasons : List Reason
  pub warnings : List TaxWarning
  pub blocking : Bool
  pub would_have_applied : Option WouldHaveApplied

-- `_Outcome`
pub record Outcome : Type 0 where
  pub treatment : Option Text
  pub code : Option TaxCodeData
  pub applied_rule : Option Applied
  pub applied_rule_position : Option ℤ
  pub reason : Reason
  pub rule_warning : Option Text
  pub failure : Option Failure
