-- ===== src/Validation/Types.antt =====
-- src/validation/types.ts: field definitions, claims and the results of merging and validating.
use vault_engine.Base.{Text, Bool, true, false, Option, List, ℤ}
use vault_engine.Base.Dict.{Dict}
use vault_engine.Value.{Value}

pub data FieldType : Type 0 where
  string number date boolean reference enum list : FieldType

pub record OverridesAllowed : Type 0 where
  pub required : Bool
  pub default_value : Bool
  pub enum_values : Bool

pub record GlobalFieldDefinition : Type 0 where
  pub name : Text
  pub field_type : FieldType
  pub enum_values : Option (List Text)
  pub reference_target : Option Text
  pub description : Option Text
  pub default_value : Value
  pub required : Bool
  pub overrides_allowed : OverridesAllowed
  pub list_item_type : Option FieldType

pub data Override {ℓ} (A : Type ℓ) : Type ℓ where
  inherit : Override A
  override : A → Override A

pub record FieldClaim : Type 0 where
  pub schema_name : Text
  pub field : Text
  pub label : Option Text
  pub description : Option Text
  pub sort_order : ℤ
  pub required_override : Option Bool
  pub default_value_override : Override Value
  pub enum_values_override : Option (List Text)

pub record PerTypeEnumValues : Type 0 where
  pub type : Text
  pub values : Option (List Text)

pub data DefaultSource : Type 0 where
  global claim : DefaultSource

pub record EffectiveField : Type 0 where
  pub field : Text
  pub global_field : GlobalFieldDefinition
  pub resolved_label : Option Text
  pub resolved_description : Option Text
  pub resolved_order : ℤ
  pub resolved_required : Bool
  pub resolved_default_value : Value
  pub default_source : DefaultSource
  pub claiming_types : List Text
  pub per_type_enum_values : Option (List PerTypeEnumValues)

abbrev pub EffectiveFieldSet : Type 0
EffectiveFieldSet = Dict EffectiveField

abbrev pub is_enum : FieldType → Bool
is_enum enum = true
is_enum _ = false

abbrev pub is_reference : FieldType → Bool
is_reference reference = true
is_reference _ = false

abbrev pub is_list : FieldType → Bool
is_list list = true
is_list _ = false
