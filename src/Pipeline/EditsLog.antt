-- ===== src/Pipeline/EditsLog.antt =====
-- src/pipeline/edits-log.ts: the entries of the log for what a write changed on its own.
use vault_engine.Base.{
  Text, codes, Bool, true, false, not, ◌&&◌, Option, none, some, List, [], ◌∷◌, ◌++◌, if◌then◌else◌,
  ◌==◌,
}
use vault_engine.Base.Dict.{Dict}
use vault_engine.Value.{Value, undefined, Runtime, to_string}
use vault_engine.Validation.Types.{DefaultSource}
use vault_engine.Validation.Coerce.Result.{CoercionCode}
use vault_engine.Validation.Validate.Issues.{
  Source, CoercedValue, ValidationIssue, ValidationIssueCode,
}
use vault_engine.Validation.Validate.{DefaultedField}

pub data WriteSource : Type 0 where
  tool watcher normalizer propagation undo : WriteSource

pub record RetainedValue : Type 0 where
  pub retained_value : Value
  pub rejected_value : Value

-- The step of a coercion in words, and its code.
pub record CoercionStep : Type 0 where
  pub step : Text
  pub code : CoercionCode

-- The kinds of entries, by `event_type`. No issue of a conflict is ever made (merge.ts).
pub data Deviation : Type 0 where
  value_coerced : Text → Option Value → Value → List CoercionStep → Deviation
  value_rejected : Text → RetainedValue → Option ValidationIssueCode → Text → Deviation
  field_defaulted : Text → Value → DefaultSource → Deviation

pub record EditsLogEntry : Type 0 where
  pub node_id : Text
  pub source : WriteSource
  pub deviation : Deviation
  pub node_types : List Text

abbrev value_or_undefined : Option Value → Value
value_or_undefined none = undefined
value_or_undefined (some v) = v

-- The sign → of a step is U+2192.
unfoldable pub coercion_steps : Runtime → CoercedValue → List CoercionStep
coercion_steps rt cv = elim cv.coercion_code [
  | none ↦ []
  | some code ↦
      record {
        step =
            to_string rt (value_or_undefined cv.original)
            ++ b' ' ∷ 0x2192 ∷ b' ' ∷ to_string rt cv.value;
        code = code;
      }
      ∷ []
]

abbrev is_provided : Source → Bool
is_provided Source.provided = true
is_provided _ = false

unfoldable pub coerced_entries : Runtime → Dict CoercedValue → List Deviation
coerced_entries rt [] = []
coerced_entries rt ((k, cv) ∷ m) =
    let rest = coerced_entries rt m in
    if cv.changed && is_provided cv.source
    then value_coerced cv.field cv.original cv.value (coercion_steps rt cv) ∷ rest
    else rest

abbrev pub is_conflict : ValidationIssueCode → Bool
is_conflict ValidationIssueCode.merge_conflict = true
is_conflict _ = false

unfoldable pub find_issue : List ValidationIssue → Text → Option ValidationIssue
find_issue [] name = none
find_issue (i ∷ is) name =
    if i.field == name && not (is_conflict i.code) then some i else find_issue is name

-- The code none stands for UNKNOWN.
abbrev rejected_entry : Text → RetainedValue → Option ValidationIssue → Deviation
rejected_entry name rv none = value_rejected name rv none (codes "Validation failed")
rejected_entry name rv (some i) = value_rejected name rv (some i.code) i.message

unfoldable pub rejected_entries : List ValidationIssue → Dict RetainedValue → List Deviation
rejected_entries issues [] = []
rejected_entries issues ((name, rv) ∷ m) =
    rejected_entry name rv (find_issue issues name) ∷ rejected_entries issues m

abbrev pub is_watcher : WriteSource → Bool
is_watcher WriteSource.watcher = true
is_watcher _ = false

unfoldable pub defaulted_entries : List DefaultedField → List Deviation
defaulted_entries [] = []
defaulted_entries (df ∷ dfs) =
    field_defaulted df.field df.default_value df.default_source ∷ defaulted_entries dfs

abbrev retained_or_none : Option (Dict RetainedValue) → Dict RetainedValue
retained_or_none none = []
retained_or_none (some m) = m

abbrev defaulted_or_none : Option (List DefaultedField) → List DefaultedField
defaulted_or_none none = []
defaulted_or_none (some dfs) = dfs

unfoldable pub with_node : Text → WriteSource → List Text → List Deviation → List EditsLogEntry
with_node node_id source node_types [] = []
with_node node_id source node_types (d ∷ ds) =
    record { node_id = node_id; source = source; deviation = d; node_types = node_types }
    ∷ with_node node_id source node_types ds

unfoldable pub build_deviation_entries :
    Runtime
    → Text
    → WriteSource
    → Dict CoercedValue
    → List ValidationIssue
    → List Text
    → Option (Dict RetainedValue)
    → Option (List DefaultedField)
    → List EditsLogEntry
build_deviation_entries rt node_id source state issues node_types retained defaulted =
    with_node node_id source node_types (
      coerced_entries rt state
      ++ (if is_watcher source then rejected_entries issues (retained_or_none retained) else [])
      ++ defaulted_entries (defaulted_or_none defaulted))
