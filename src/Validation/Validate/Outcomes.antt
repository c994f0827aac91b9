-- ===== src/Validation/Validate/Outcomes.antt =====
-- src/validation/validate.ts: what one round of the loop over the effective fields adds. `fuel` bounds
-- the recursion of `coerceValue`; `none` stands for a call of it that does not return.
use vault_engine.Base.{
  ℕ, Text, codes, Bool, true, false, not, ◌&&◌, ◌||◌, Option, none, some, List, [], ◌∷◌, ◌++◌,
  if◌then◌else◌, head?,
}
use vault_engine.Base.Dict
use vault_engine.Value.{Value, null, Runtime, to_string}
use vault_engine.Validation.Types.{
  GlobalFieldDefinition, EffectiveField, PerTypeEnumValues, is_enum,
}
use vault_engine.Validation.Coerce.{coerce_value}
use vault_engine.Validation.Coerce.Result.{
  CoercionCode, CoercionResult, success, failure, CoercionFailure, CoercionOptions, ToType, to,
  list_of,
}
use vault_engine.Validation.Coerce.Dates.{Chrono}
use vault_engine.Validation.Coerce.Enums.{closest_matches}
use vault_engine.Validation.ResolveDefault.{Clock, FileContext, resolve_default_value}
use vault_engine.Validation.Validate.Issues.{
  provided, defaulted, CoercedValue, ValidationIssueCode, required_missing, enum_mismatch,
  type_mismatch, list_item_coercion_failed, RequiredMissingDetails, Details, required, enum_values,
  types, elements, ValidationIssue,
}

-- `=== null`
abbrev pub is_exactly_null : Value → Bool
is_exactly_null null = true
is_exactly_null _ = false

abbrev not_null : Value → Option Value
not_null v = if is_exactly_null v then none else some v

-- A target is left out where it is the empty text.
abbrev non_empty : Option Text → Option Text
non_empty none = none
non_empty (some []) = none
non_empty (some (c ∷ s)) = some (c ∷ s)

unfoldable pub build_required_missing_details : GlobalFieldDefinition → RequiredMissingDetails
build_required_missing_details gf = record {
  field_type = gf.field_type;
  allowed_values = gf.enum_values;
  default_value = not_null gf.default_value;
  reference_target = non_empty gf.reference_target;
}

-- What one round of the loop over the effective fields adds.
pub record FieldOutcome : Type 0 where
  pub issue : Option ValidationIssue
  pub entry : Option CoercedValue

abbrev pub nothing : FieldOutcome
nothing = record { issue = none; entry = none }

unfoldable pub missing_issue : Text → EffectiveField → Text → ValidationIssue
missing_issue name ef end = record {
  field = name;
  code = required_missing;
  message = codes "Required field \"" ++ name ++ end;
  details = some (required (build_required_missing_details ef.global_field));
}

-- A null is meant as a deletion.
unfoldable pub deleted_outcome : Text → EffectiveField → FieldOutcome
deleted_outcome name ef =
    if ef.resolved_required
    then record { issue = some (missing_issue name ef (codes "\" cannot be null")); entry = none }
    else nothing

-- No value is given.
unfoldable pub absent_outcome :
    Clock → Option FileContext → Bool → Text → EffectiveField → FieldOutcome
absent_outcome clock ctx skip_defaults name ef =
    if not skip_defaults && ef.resolved_required && not (is_exactly_null ef.resolved_default_value)
    then record {
      issue = none;
      entry = some (record {
        field = name;
        value = resolve_default_value clock ef.resolved_default_value ctx;
        original = none;
        source = defaulted;
        changed = false;
        coercion_code = none;
      });
    }
    else if ef.resolved_required
    then record { issue = some (missing_issue name ef (codes "\" is missing")); entry = none }
    else nothing

-- The entry of a value that was coerced.
unfoldable pub provided_entry : Text → Value → Value → Bool → Option CoercionCode → CoercedValue
provided_entry name value w changed code = record {
  field = name;
  value = w;
  original = if changed then some value else none;
  source = provided;
  changed = changed;
  coercion_code = if changed then code else none;
}

abbrev pub accepted_outcome : Text → Value → Value → Bool → Option CoercionCode → FieldOutcome
accepted_outcome name value w changed code = record {
  issue = none;
  entry = some (provided_entry name value w changed code);
}

abbrev to_enum_type : ToType → Bool
to_enum_type (to t) = is_enum t
to_enum_type (list_of t) = false

abbrev pub is_some {ℓ} : {A : Type ℓ} → Option A → Bool
is_some none = false
is_some (some a) = true

unfoldable pub failure_code : CoercionFailure → ValidationIssueCode
failure_code f =
    if to_enum_type f.to_type || is_some f.closest_matches
    then enum_mismatch
    else if is_some f.element_errors
    then list_item_coercion_failed
    else type_mismatch

abbrev first_text : Option (List Text) → Option Text
first_text none = none
first_text (some ts) = head? ts

abbrev texts_or_none : Option (List Text) → List Text
texts_or_none none = []
texts_or_none (some ts) = ts

unfoldable pub failure_details : Value → EffectiveField → CoercionFailure → Option Details
failure_details value ef f = elim (failure_code f) [
  | enum_mismatch ↦ some (
      enum_values (record {
        provided = value;
        allowed_values = texts_or_none ef.global_field.enum_values;
        closest_match = first_text f.closest_matches;
      }))
  | type_mismatch ↦ some (
      types (record {
        expected_type = ef.global_field.field_type;
        provided_type = f.from_type;
        coercion_failed_reason = f.reason;
      }))
  | _ ↦ elim f.element_errors [ none ↦ none | some errors ↦ some (elements errors) ]
]

-- The standard coercion, behind the call of `coerceValue`.
unfoldable pub standard_outcome : Text → Value → EffectiveField → CoercionResult → FieldOutcome
standard_outcome name value ef (success w changed code) = accepted_outcome name value w changed code
standard_outcome name value ef (failure f) = record {
  issue = some (record {
    field = name;
    code = failure_code f;
    message = f.reason;
    details = failure_details value ef f;
  });
  entry = none;
}

-- What the loop over the types' enum values ends with: a success, or the last failure.
pub data Attempt : Type 0 where
  accepted : Value → Bool → Option CoercionCode → Attempt
  refused : Option CoercionFailure → Attempt

abbrev pub options_for : EffectiveField → Option (List Text) → CoercionOptions
options_for ef values = record {
  enum_values = values;
  list_item_type = ef.global_field.list_item_type;
}

-- `allValues.add(v)`
abbrev add_value : List Text → Text → List Text
add_value seen v = if Dict.contains seen v then seen else seen ++ v ∷ []

add_values : List Text → List Text → List Text
add_values seen [] = seen
add_values seen (v ∷ vs) = add_values (add_value seen v) vs

unfoldable pub all_values : List Text → List PerTypeEnumValues → List Text
unfolding add_values
all_values seen [] = seen
all_values seen (pte ∷ ptes) = all_values (add_values seen (texts_or_none pte.values)) ptes

module _ (fuel : ℕ) (rt : Runtime) (chrono : Chrono) where
  unfoldable pub try_types :
      Value → EffectiveField → List PerTypeEnumValues → Option CoercionFailure → Option Attempt
  try_types value ef [] last = some (refused last)
  try_types value ef (pte ∷ ptes) last =
      elim (coerce_value fuel rt chrono value ef.global_field.field_type
        (options_for ef pte.values)) [
          | none ↦ none
          | some (success w changed code) ↦ some (accepted w changed code)
          | some (failure f) ↦ try_types value ef ptes (some f)
        ]

  unfoldable pub per_type_outcome : Text → Value → List PerTypeEnumValues → Attempt → FieldOutcome
  per_type_outcome name value ptes (accepted w changed code) =
      accepted_outcome name value w changed code
  per_type_outcome name value ptes (refused none) = nothing
  per_type_outcome name value ptes (refused (some f)) =
      let deduped = all_values [] ptes in
      record {
        issue = some (record {
          field = name;
          code = enum_mismatch;
          message = f.reason;
          details = some (
              enum_values (record {
                provided = value;
                allowed_values = deduped;
                closest_match = head? (closest_matches rt (to_string rt value) deduped 3);
              }));
        });
        entry = none;
      }

  abbrev pub mapped {ℓ} : {A : Type ℓ} → (A → FieldOutcome) → Option A → Option FieldOutcome
  mapped f none = none
  mapped f (some a) = some (f a)

  -- Step 3, for a value that is given and not null
  unfoldable pub provided_outcome : Text → Value → EffectiveField → Option FieldOutcome
  provided_outcome name value ef = elim ef.per_type_enum_values [
    | some ptes ↦ mapped (per_type_outcome name value ptes) (try_types value ef ptes none)
    | none ↦ mapped (standard_outcome name value ef) (
        coerce_value fuel rt chrono value ef.global_field.field_type
          (options_for ef ef.global_field.enum_values))
  ]

-- One round of the loop over the effective fields.
unfoldable pub field_outcome :
    ℕ
    → Runtime
    → Chrono
    → Clock
    → Option FileContext
    → Bool
    → Text
    → EffectiveField
    → Option Value
    → Option FieldOutcome
field_outcome fuel rt chrono clock ctx skip name ef none =
    some (absent_outcome clock ctx skip name ef)
field_outcome fuel rt chrono clock ctx skip name ef (some null) = some (deleted_outcome name ef)
field_outcome fuel rt chrono clock ctx skip name ef (some value) =
    provided_outcome fuel rt chrono name value ef
