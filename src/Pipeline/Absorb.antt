-- ===== src/Pipeline/Absorb.antt =====
-- src/pipeline/execute.ts, stage 3: what a validation leaves to write, by the source of the write.
use vault_engine.Base.{
  Text, Bool, true, false, ◌&&◌, ◌||◌, Option, none, some, List, [], ◌∷◌, is_empty, if◌then◌else◌,
}
use vault_engine.Base.Dict
use vault_engine.Base.Dict.{Dict}
use vault_engine.Value.{Value, undefined, null}
use vault_engine.Store.{NodeField, find_field}
use vault_engine.Validation.Validate.Issues.{
  CoercedValue, ValidationIssue, ValidationIssueCode, ValidationResult,
}
use vault_engine.Pipeline.ClassifyValue.{reconstruct_value}
use vault_engine.Pipeline.EditsLog.{WriteSource, RetainedValue, is_watcher, is_conflict}
use vault_engine.Pipeline.World.{ProposedMutation}

pub record Absorbed : Type 0 where
  pub fields : Dict Value
  pub raw_texts : Dict Text
  pub retained : Dict RetainedValue

abbrev pub is_re_render : WriteSource → Bool
is_re_render WriteSource.normalizer = true
is_re_render WriteSource.propagation = true
is_re_render WriteSource.undo = true
is_re_render _ = false

abbrev is_required_missing : ValidationIssueCode → Bool
is_required_missing ValidationIssueCode.required_missing = true
is_required_missing _ = false

-- `toleratedCodes`
unfoldable pub is_tolerated : WriteSource → ValidationIssueCode → Bool
is_tolerated source code = is_conflict code || (is_re_render source && is_required_missing code)

unfoldable pub has_blocking : WriteSource → List ValidationIssue → Bool
has_blocking source [] = false
has_blocking source (i ∷ is) =
    let rest = has_blocking source is in if is_tolerated source i.code then rest else true

-- `finalFields[fieldName] = cv.value`
unfoldable pub coerced_values : Dict CoercedValue → Dict Value → Dict Value
coerced_values [] fields = fields
coerced_values ((name, cv) ∷ m) fields = coerced_values m (Dict.set fields name cv.value)

abbrev pub set_text : Dict Text → Text → Option Text → Dict Text
set_text m name none = m
set_text m name (some s) = Dict.set m name s

unfoldable pub accepted_texts : Dict Text → Dict CoercedValue → Dict Text → Dict Text
accepted_texts raws [] m = m
accepted_texts raws ((name, cv) ∷ state) m =
    accepted_texts raws state (set_text m name (Dict.get raws name))

abbrev text_if : Option Text → Option Text
text_if none = none
text_if (some s) = if is_empty s then none else some s

abbrev pub proposed_value : Option Value → Value
proposed_value none = undefined
proposed_value (some v) = v

abbrev pub stored_field : List NodeField → Option Text → Text → Option NodeField
stored_field rows none name = none
stored_field rows (some id) name = find_field rows id name

module _ (parse : Text → Value) (m : ProposedMutation) where
  -- A field that is refused keeps the value that is stored; one that has none is left out.
  unfoldable pub retain : Text → Option NodeField → Absorbed → Absorbed
  retain name none a = record a {
    retained = Dict.set a.retained name (record {
      retained_value = null;
      rejected_value = proposed_value (Dict.get m.fields name);
    });
  }
  retain name (some row) a = record {
    fields = Dict.set a.fields name (reconstruct_value parse row.columns);
    raw_texts = set_text a.raw_texts name (text_if row.value_raw_text);
    retained = Dict.set a.retained name (record {
      retained_value = reconstruct_value parse row.columns;
      rejected_value = proposed_value (Dict.get m.fields name);
    });
  }

  unfoldable pub retain_rejected : List NodeField → List ValidationIssue → Absorbed → Absorbed
  retain_rejected rows [] a = a
  retain_rejected rows (i ∷ is) a = retain_rejected rows is (
      if is_conflict i.code || is_empty i.field || Dict.has a.fields i.field
      then a
      else retain i.field (stored_field rows m.node_id i.field) a)

  -- none where a write is refused
  unfoldable pub absorb : List NodeField → ValidationResult → Option Absorbed
  absorb rows v =
      let accepted = coerced_values v.coerced_state [] in
      if is_watcher m.source
      then some (
          retain_rejected rows v.issues (record {
            fields = accepted;
            raw_texts = accepted_texts m.raw_field_texts v.coerced_state [];
            retained = [];
          }))
      else if has_blocking m.source v.issues
      then none
      else some (record { fields = accepted; raw_texts = []; retained = [] })
