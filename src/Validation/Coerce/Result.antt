-- ===== src/Validation/Coerce/Result.antt =====
-- src/validation/coerce.ts: the result types, `success`, `failure` and `detectType`.
use vault_engine.Base.{ℕ, Text, codes, Bool, Option, List}
use vault_engine.Value.{Value, undefined, null, str, num, bool, date, arr, obj}
use vault_engine.Validation.Types.{FieldType}

pub data CoercionCode : Type 0 where
  string_to_number string_to_date string_to_date_fuzzy string_to_boolean : CoercionCode
  string_to_enum string_to_reference number_to_string date_to_string : CoercionCode
  boolean_to_string single_to_list list_element_coercion : CoercionCode

pub record ElementError : Type 0 where
  pub index : ℕ
  pub value : Value
  pub reason : Text

-- The type that a failure names: a field type, or `list<item>`.
pub data ToType : Type 0 where
  to : FieldType → ToType
  list_of : FieldType → ToType

pub record CoercionFailure : Type 0 where
  pub reason : Text
  pub from_type : Text
  pub to_type : ToType
  pub closest_matches : Option (List Text)
  pub element_errors : Option (List ElementError)

pub data CoercionResult : Type 0 where
  success : (value : Value) (changed : Bool) (code : Option CoercionCode) → CoercionResult
  failure : CoercionFailure → CoercionResult

pub record CoercionOptions : Type 0 where
  pub enum_values : Option (List Text)
  pub list_item_type : Option FieldType

unfoldable pub detect_type : Value → Text
detect_type undefined = codes "null"
detect_type null = codes "null"
detect_type (arr vs) = codes "list"
detect_type (date t) = codes "date"
detect_type (str s) = codes "string"
detect_type (num n) = codes "number"
detect_type (bool b) = codes "boolean"
detect_type (obj ms) = codes "object"

-- The texts of `FieldType`, as the messages show them.
unfoldable pub field_type_name : FieldType → Text
field_type_name FieldType.string = codes "string"
field_type_name FieldType.number = codes "number"
field_type_name FieldType.date = codes "date"
field_type_name FieldType.boolean = codes "boolean"
field_type_name FieldType.reference = codes "reference"
field_type_name FieldType.enum = codes "enum"
field_type_name FieldType.list = codes "list"
