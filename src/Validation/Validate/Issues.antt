-- ===== src/Validation/Validate/Issues.antt =====
-- src/validation/types.ts: coerced values, issues and the result of a validation.
use vault_engine.Base.{Text, Bool, Option, List}
use vault_engine.Base.Dict.{Dict}
use vault_engine.Value.{Value}
use vault_engine.Validation.Types.{FieldType, EffectiveFieldSet}
use vault_engine.Validation.Coerce.Result.{CoercionCode, ElementError}

pub data Source : Type 0 where
  provided defaulted orphan : Source

pub record CoercedValue : Type 0 where
  pub field : Text
  pub value : Value
  pub original : Option Value
  pub source : Source
  pub changed : Bool
  pub coercion_code : Option CoercionCode

pub data ValidationIssueCode : Type 0 where
  required_missing enum_mismatch type_mismatch : ValidationIssueCode
  coercion_failed list_item_coercion_failed merge_conflict : ValidationIssueCode
  internal_consistency : ValidationIssueCode

pub record RequiredMissingDetails : Type 0 where
  pub field_type : FieldType
  pub allowed_values : Option (List Text)
  pub default_value : Option Value
  pub reference_target : Option Text

pub record EnumMismatchDetails : Type 0 where
  pub provided : Value
  pub allowed_values : List Text
  pub closest_match : Option Text

pub record TypeMismatchDetails : Type 0 where
  pub expected_type : FieldType
  pub provided_type : Text
  pub coercion_failed_reason : Text

pub data Details : Type 0 where
  required : RequiredMissingDetails → Details
  enum_values : EnumMismatchDetails → Details
  types : TypeMismatchDetails → Details
  elements : List ElementError → Details

-- The severity is always `error`.
pub record ValidationIssue : Type 0 where
  pub field : Text
  pub code : ValidationIssueCode
  pub message : Text
  pub details : Option Details

pub record ValidationResult : Type 0 where
  pub valid : Bool
  pub effective_fields : EffectiveFieldSet
  pub coerced_state : Dict CoercedValue
  pub issues : List ValidationIssue
  pub orphan_fields : List Text
