-- ===== src/Validation/Validate.antt =====
-- src/validation/validate.ts: `validateProposedState` and `defaultedFieldsFrom`.
pub mod Issues
pub mod Outcomes
pub mod Locality
use vault_engine.Base.{
  ℕ, Text, Bool, true, false, not, Option, none, some, List, [], ◌∷◌, ◌++◌, is_empty, if◌then◌else◌,
}
use vault_engine.Base.Dict
use vault_engine.Base.Dict.{Dict}
use vault_engine.Value.{Value, Runtime}
use vault_engine.Validation.Types.{
  GlobalFieldDefinition, FieldClaim, EffectiveField, EffectiveFieldSet, DefaultSource,
}
use vault_engine.Validation.Coerce.Dates.{Chrono}
use vault_engine.Validation.Merge.{merge_field_claims}
use vault_engine.Validation.ResolveDefault.{Clock, FileContext}
use Issues.{Source, defaulted, orphan, CoercedValue, ValidationIssue, ValidationResult}
use Outcomes.{FieldOutcome, field_outcome}

-- What the loops have written so far.
pub record Progress : Type 0 where
  pub coerced_state : Dict CoercedValue
  pub issues : List ValidationIssue

abbrev pub started : Progress
started = record { coerced_state = []; issues = [] }

abbrev pub add_issue : List ValidationIssue → Option ValidationIssue → List ValidationIssue
add_issue issues none = issues
add_issue issues (some i) = issues ++ i ∷ []

abbrev pub set_entry : Dict CoercedValue → Text → Option CoercedValue → Dict CoercedValue
set_entry m name none = m
set_entry m name (some cv) = Dict.set m name cv

unfoldable pub apply_outcome : Text → FieldOutcome → Progress → Progress
apply_outcome name o p = record {
  coerced_state = set_entry p.coerced_state name o.entry;
  issues = add_issue p.issues o.issue;
}

-- The loop over the effective fields; `outcome` is what one round adds.
unfoldable pub check_fields :
    (Text → EffectiveField → Option FieldOutcome) → EffectiveFieldSet → Progress → Option Progress
check_fields outcome [] p = some p
check_fields outcome ((name, ef) ∷ efs) p = elim (outcome name ef) [
  | none ↦ none
  | some o ↦ check_fields outcome efs (apply_outcome name o p)
]

-- Step 4: the proposed fields that no type claims.
unfoldable pub orphan_names : EffectiveFieldSet → Dict Value → List Text
orphan_names efs [] = []
orphan_names efs ((name, v) ∷ fields) =
    if Dict.has efs name then orphan_names efs fields else name ∷ orphan_names efs fields

abbrev pub orphan_entry : Text → Value → CoercedValue
orphan_entry name v = record {
  field = name;
  value = v;
  original = none;
  source = orphan;
  changed = false;
  coercion_code = none;
}

unfoldable pub keep_orphans : EffectiveFieldSet → Dict Value → Dict CoercedValue → Dict CoercedValue
keep_orphans efs [] m = m
keep_orphans efs ((name, v) ∷ fields) m =
    keep_orphans efs fields (if Dict.has efs name then m else Dict.set m name (orphan_entry name v))

-- Steps 4 and 5
unfoldable pub finish : EffectiveFieldSet → Dict Value → Option Progress → Option ValidationResult
finish efs proposed none = none
finish efs proposed (some p) = some (record {
  valid = is_empty p.issues;
  effective_fields = efs;
  coerced_state = keep_orphans efs proposed p.coerced_state;
  issues = p.issues;
  orphan_fields = orphan_names efs proposed;
})

pub record Surroundings : Type 0 where
  pub fuel : ℕ
  pub rt : Runtime
  pub chrono : Chrono
  pub clock : Clock

-- The round at one field of the proposal.
abbrev pub outcome_at :
    Surroundings
    → Option FileContext
    → Bool
    → Dict Value
    → Text
    → EffectiveField
    → Option FieldOutcome
outcome_at s ctx skip_defaults proposed name ef =
    field_outcome s.fuel s.rt s.chrono s.clock ctx skip_defaults name ef (Dict.get proposed name)

unfoldable pub validate_proposed_state :
    Surroundings
    → Dict Value
    → List Text
    → Dict (List FieldClaim)
    → Dict GlobalFieldDefinition
    → Option FileContext
    → Bool
    → Option ValidationResult
validate_proposed_state s proposed types claims_by_type gfs ctx skip_defaults =
    let efs = merge_field_claims s.rt types claims_by_type gfs in
    finish efs proposed (check_fields (outcome_at s ctx skip_defaults proposed) efs started)

pub record DefaultedField : Type 0 where
  pub field : Text
  pub default_value : Value
  pub default_source : DefaultSource

abbrev source_or_global : Option EffectiveField → DefaultSource
source_or_global none = DefaultSource.global
source_or_global (some ef) = ef.default_source

abbrev is_defaulted : Source → Bool
is_defaulted defaulted = true
is_defaulted _ = false

unfoldable pub defaulted_fields : EffectiveFieldSet → Dict CoercedValue → List DefaultedField
defaulted_fields efs [] = []
defaulted_fields efs ((k, cv) ∷ m) =
    if is_defaulted cv.source
    then record {
      field = cv.field;
      default_value = cv.value;
      default_source = source_or_global (Dict.get efs cv.field);
    }
      ∷ defaulted_fields efs m
    else defaulted_fields efs m

unfoldable pub defaulted_fields_from : ValidationResult → List DefaultedField
defaulted_fields_from r = defaulted_fields r.effective_fields r.coerced_state
