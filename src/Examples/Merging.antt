-- ===== src/Examples/Merging.antt =====
-- The theorems on src/validation/merge.ts, validate.ts and fixable.ts at concrete values.
use mathlib.Core.List.{Perm}
use vault_engine.Base.{List, Text, true, false, none, some, [], ◌∷◌, is_empty, ◌==◌, ◌≡◌, refl}
use vault_engine.Base.Dict
use vault_engine.Base.Dict.{Dict, Unique}
use vault_engine.Base.Sort.{IsSorted}
use vault_engine.Value.{Value, str, null}
use vault_engine.Validation.Types.{EffectiveFieldSet}
use vault_engine.Validation.Merge.{
  merge_field_claims, resolve_required, resolve_default, overrides, build, collect, collect_claims,
  push, effective_field, agreed, resolve_enum_values, first_defined, resolve_order,
}
use vault_engine.Validation.Merge.Collected.{expected, claims_on, get-merge_field_claims}
use vault_engine.Validation.Merge.Resolved.{
  some_requires, by_vote, resolve_required-by_vote, IsDefault, default_overrides,
  resolve_default-IsDefault,
}
use vault_engine.Validation.ResolveDefault.{LocalTime}
use vault_engine.Validation.Validate.Issues.{
  ValidationIssue, ValidationIssueCode, ValidationResult, Details,
}
use vault_engine.Validation.Validate.{
  Surroundings, outcome_at, validate_proposed_state, orphan_entry, check_fields, finish,
  orphan_names, keep_orphans, apply_outcome,
}
use vault_engine.Validation.Validate.Outcomes.{field_outcome, deleted_outcome}
use vault_engine.Validation.Validate.Locality.{entry_of, issues_of, validate-entries}
use vault_engine.Validation.Fixable.{FixableEntry, build_fixable}
use vault_engine.Validation.Fixable.Order.{is_before, Fixes, build_fixable-IsSorted}
use vault_engine.Examples.{
  ascii, constant_chrono, note, low, high, task, page, note_field, note_claims, note_entries,
  known_fields, levels,
}

get-merge_field_claims_example :
    Dict.get (merge_field_claims ascii (task ∷ page ∷ []) note_claims known_fields) note
    ≡ expected ascii known_fields note (claims_on note note_claims (task ∷ page ∷ []))
get-merge_field_claims_example =
    get-merge_field_claims ascii (task ∷ page ∷ []) note_claims known_fields note

resolve_required-by_vote_example :
    resolve_required note_field note_entries
    ≡ by_vote (some_requires true note_entries) (some_requires false note_entries) false
resolve_required-by_vote_example = resolve_required-by_vote note_field note_entries

resolve_default-IsDefault_example :
    IsDefault ascii null
      (default_overrides note_entries)
      (resolve_default ascii note_field note_entries)
resolve_default-IsDefault_example = resolve_default-IsDefault ascii note_field note_entries

abbrev still : LocalTime
still = record { year = 2026; month = 3; day = 5; hours = 14; minutes = 30; seconds = 0 }

abbrev around : Surroundings
around = record {
  fuel = 2;
  rt = ascii;
  chrono = constant_chrono;
  clock = record { now = 0; local = λ ms. still };
}

-- A required note that is null, and a field that no type claims.
abbrev proposed : Dict Value
proposed = (note, null) ∷ (high, str low) ∷ []

proposed-Unique : Unique proposed
unfolding Dict.has Dict.get ◌==◌ high note
proposed-Unique = (refl, (refl, tt))

abbrev merged : EffectiveFieldSet
merged = merge_field_claims ascii (task ∷ []) note_claims known_fields

abbrev outcome : ValidationResult
outcome = record {
  valid = false;
  effective_fields = merged;
  coerced_state = (high, orphan_entry high (str low)) ∷ [];
  issues = issues_of (outcome_at around none false proposed) merged;
  orphan_fields = high ∷ [];
}

validated :
    validate_proposed_state around proposed (task ∷ []) note_claims known_fields none false
    ≡ some outcome
unfolding validate_proposed_state finish check_fields merge_field_claims build collect
    collect_claims Dict.get ◌==◌ task Dict.has push Dict.set field_outcome apply_outcome
    keep_orphans deleted_outcome orphan_names effective_field resolve_required agreed overrides note
    high resolve_default resolve_enum_values first_defined resolve_order
validated = refl

validate-entries_example :
    ((f : Text)
      → Dict.get outcome.coerced_state f
        ≡ entry_of
            (outcome_at around none false proposed)
            f
            (Dict.get merged f)
            (Dict.get proposed f))
    × (outcome.issues ≡ issues_of (outcome_at around none false proposed) merged)
    × (outcome.valid ≡ is_empty outcome.issues)
validate-entries_example =
    validate-entries around proposed (task ∷ []) note_claims known_fields none false outcome
      proposed-Unique validated

abbrev mismatch : ValidationIssue
mismatch = record {
  field = note;
  code = ValidationIssueCode.enum_mismatch;
  message = high;
  details = some (
      Details.enum_values
        (record { provided = str high; allowed_values = levels; closest_match = some low }));
}

build_fixable-IsSorted_example :
    IsSorted (is_before merged) (build_fixable (mismatch ∷ mismatch ∷ []) merged)
    × ((es : List FixableEntry) × Perm (build_fixable (mismatch ∷ mismatch ∷ []) merged) es
        × Fixes (mismatch ∷ mismatch ∷ []) es)
build_fixable-IsSorted_example = build_fixable-IsSorted (mismatch ∷ mismatch ∷ []) merged
