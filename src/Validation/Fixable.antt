-- ===== src/Validation/Fixable.antt =====
-- src/validation/fixable.ts: the issues that a caller can fix in a second call.
pub mod Order
use vault_engine.Base.{
  ℤ, int_le, if◌then◌else◌, Text, Bool, true, false, Option, none, some, List, [], ◌∷◌, ◌++◌,
  is_empty,
}
use vault_engine.Base.Dict
use vault_engine.Base.Sort.{sort_by}
use vault_engine.Value.{Value, null, str}
use vault_engine.Validation.Types.{FieldType, EffectiveField, EffectiveFieldSet}
use vault_engine.Validation.Validate.Issues.{
  ValidationIssue, ValidationIssueCode, Details, RequiredMissingDetails, EnumMismatchDetails,
}

pub record FixableEntry : Type 0 where
  pub field : Text
  pub suggestion : Value
  pub allowed_values : Option (List Text)
  pub field_type : Option FieldType

abbrev pub entry : Text → Value → Option (List Text) → Option FieldType → FixableEntry
entry f v allowed t = record { field = f; suggestion = v; allowed_values = allowed; field_type = t }

-- An empty closest match is suggested, and the allowed values stand beside it.
unfoldable pub enum_entry : Text → EnumMismatchDetails → FixableEntry
enum_entry f d = elim d.closest_match [
  | none ↦ entry f null (some d.allowed_values) none
  | some m ↦ entry f (str m) (if is_empty m then some d.allowed_values else none) none
]

abbrev allowed_entry : Text → Option (List Text) → Option FixableEntry
allowed_entry f none = none
allowed_entry f (some vs) = some (entry f null (some vs) none)

unfoldable pub required_entry : Text → RequiredMissingDetails → Option FixableEntry
required_entry f d = elim d.default_value [
  | some v ↦ some (entry f v none none)
  | none ↦ elim d.field_type [
    | FieldType.enum ↦ allowed_entry f d.allowed_values
    | FieldType.boolean ↦ some (entry f null none (some FieldType.boolean))
    | FieldType.reference ↦ some (entry f null none (some FieldType.reference))
    | _ ↦ none
  ]
]

-- One round of the loop over the issues.
unfoldable pub fixable_entry : ValidationIssue → Option FixableEntry
fixable_entry i = elim i.code [
  | ValidationIssueCode.enum_mismatch ↦ elim i.details [
    | some (Details.enum_values d) ↦ some (enum_entry i.field d)
    | _ ↦ none
  ]
  | ValidationIssueCode.required_missing ↦ elim i.details [
    | some (Details.required d) ↦ required_entry i.field d
    | _ ↦ none
  ]
  | _ ↦ none
]

abbrev push_if : Option FixableEntry → List FixableEntry → List FixableEntry
push_if none es = es
push_if (some e) es = e ∷ es

unfoldable pub fixable_entries : List ValidationIssue → List FixableEntry
fixable_entries [] = []
fixable_entries (i ∷ is) = push_if (fixable_entry i) (fixable_entries is)

-- The order of a field; none is `Infinity`.
unfoldable pub order_of : EffectiveFieldSet → FixableEntry → Option ℤ
order_of efs e = elim (Dict.get efs e.field) [ none ↦ none | some ef ↦ some ef.resolved_order ]

abbrev pub order_le : Option ℤ → Option ℤ → Bool
order_le a none = true
order_le none (some b) = false
order_le (some a) (some b) = int_le a b

unfoldable pub build_fixable : List ValidationIssue → EffectiveFieldSet → List FixableEntry
build_fixable issues efs =
    sort_by (λ a b. order_le (order_of efs a) (order_of efs b)) (fixable_entries issues)
