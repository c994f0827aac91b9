-- ===== src/GlobalFields/TypeChange.antt =====
-- src/global-fields/crud.ts: `updateGlobalField`, with the change of a field's type, which coerces the
-- values that are stored or, when told to, drops them.
pub mod Cases
pub mod Cells
pub mod Kept
pub mod Recoerced
use vault_engine.Base.{
  ℕ, Text, codes, Bool, true, false, not, ◌&&◌, ◌||◌, Option, none, some, List, [], ◌∷◌, ◌++◌,
  filter, length, is_empty, if◌then◌else◌, ◌==◌,
}
use vault_engine.Value.{Value, undefined, null, str, num, Runtime}
use vault_engine.Store.{NodeField, GlobalField, LogEvent, LogRow, Database}
use vault_engine.Validation.Types.{FieldType, GlobalFieldDefinition}
use vault_engine.Validation.Coerce.{coerce_value}
use vault_engine.Validation.Coerce.Dates.{Chrono}
use vault_engine.Validation.Coerce.Result.{
  CoercionOptions, CoercionResult, success, failure, field_type_name,
}
use vault_engine.Pipeline.ClassifyValue.{FieldColumns, reconstruct_value}
use vault_engine.Pipeline.SchemaContext.{find_global_field}
use vault_engine.GlobalFields.UiHints.{UiHints}
use vault_engine.GlobalFields.Crud.{
  CrudError, Crud, done, failed, diverges, and_then, not_found, requires_discard, Uncoercible,
  UpdateInput, first_given, is_field, new_hints, replace_global_field, update_attributes,
}

-- What the change needs of the platform; `parse` is `JSON.parse`.
pub record Platform : Type 0 where
  pub fuel : ℕ
  pub rt : Runtime
  pub chrono : Chrono
  pub parse : Text → Value
  pub now : ℕ

pub record Coercible : Type 0 where
  pub node_id : Text
  pub old_value : Value
  pub new_value : Value

pub record Split : Type 0 where
  pub coercible : List Coercible
  pub uncoercible : List Uncoercible

abbrev json : Text → FieldColumns
json s = record { value_text = none; value_number = none; value_date = none; value_json = some s }

unfoldable pub classify_coerced_value : Runtime → Value → FieldColumns
classify_coerced_value rt undefined = json (rt.stringify null)
classify_coerced_value rt null = json (rt.stringify null)
classify_coerced_value rt (str s) = record {
  value_text = some s;
  value_number = none;
  value_date = none;
  value_json = none;
}
classify_coerced_value rt (num n) = record {
  value_text = none;
  value_number = some n;
  value_date = none;
  value_json = none;
}
classify_coerced_value rt v = json (rt.stringify v)

unfoldable pub add_split : Text → Value → CoercionResult → Split → Split
add_split node old (success v changed code) s = record s {
  coercible = record { node_id = node; old_value = old; new_value = v } ∷ s.coercible;
}
add_split node old (failure f) s = record s {
  uncoercible = record { node_id = node; value = old; reason = f.reason } ∷ s.uncoercible;
}

-- The loop over the rows; none where a coercion does not return.
unfoldable pub split_rows :
    (Value → Option CoercionResult) → (Text → Value) → List NodeField → Option Split
split_rows coerce parse [] = some (record { coercible = []; uncoercible = [] })
split_rows coerce parse (r ∷ rows) = elim (split_rows coerce parse rows) [
  | none ↦ none
  | some s ↦
      let old = reconstruct_value parse r.columns in
      elim (coerce old) [ none ↦ none | some result ↦ some (add_split r.node_id old result s) ]
]

unfoldable pub options_for : GlobalFieldDefinition → UpdateInput → CoercionOptions
options_for current input = record {
  enum_values = first_given input.enum_values current.enum_values;
  list_item_type = first_given input.list_item_type current.list_item_type;
}

-- `UPDATE node_fields SET … WHERE node_id = ? AND field_name = ?`
unfoldable pub set_columns : Text → Text → FieldColumns → List NodeField → List NodeField
set_columns name node columns [] = []
set_columns name node columns (r ∷ rs) =
    let rest = set_columns name node columns rs in
    if r.node_id == node && is_field name r then record r { columns = columns } ∷ rest else r ∷ rest

unfoldable pub store_coerced : Runtime → Text → List Coercible → List NodeField → List NodeField
store_coerced rt name [] rows = rows
store_coerced rt name (c ∷ cs) rows =
    store_coerced rt name cs
      (set_columns name c.node_id (classify_coerced_value rt c.new_value) rows)

-- `DELETE FROM node_fields WHERE node_id = ? AND field_name = ?`
unfoldable pub drop_rows : Text → List Uncoercible → List NodeField → List NodeField
drop_rows name [] rows = rows
drop_rows name (u ∷ us) rows =
    drop_rows name us (filter (λ r. not (r.node_id == u.node_id && is_field name r)) rows)

unfoldable pub removal_rows : ℕ → FieldType → FieldType → Text → List Uncoercible → List LogRow
removal_rows now old new name [] = []
removal_rows now old new name (u ∷ us) =
    record {
      node_id = u.node_id;
      timestamp = now;
      event = LogEvent.value_removed old new name u.value u.reason;
    }
    ∷ removal_rows now old new name us

unfoldable pub retyped : GlobalFieldDefinition → FieldType → UpdateInput → GlobalFieldDefinition
retyped d new input = record d {
  field_type = new;
  enum_values = first_given input.enum_values d.enum_values;
  list_item_type = first_given input.list_item_type d.list_item_type;
  reference_target = first_given input.reference_target d.reference_target;
}

pub record TypeChangeResult : Type 0 where
  pub preview : Bool
  pub applied : Bool
  pub affected_nodes : ℕ
  pub split : Split

pub record Changed : Type 0 where
  pub db : Database
  pub result : Option TypeChangeResult

module _ (p : Platform) where
  -- The transaction
  unfoldable pub apply_change :
      Database → GlobalField → FieldType → UpdateInput → Option UiHints → Split → Database
  apply_change db g new input hints s =
      let name = g.definition.name in
      record db {
        global_fields =
            replace_global_field name
              (record { definition = retyped g.definition new input; ui_hints = hints })
              db.global_fields;
        node_fields =
            drop_rows name s.uncoercible (store_coerced p.rt name s.coercible db.node_fields);
        edits_log =
            db.edits_log ++ removal_rows p.now g.definition.field_type new name s.uncoercible;
      }

  unfoldable pub change_result : Bool → ℕ → Split → TypeChangeResult
  change_result preview affected s = record {
    preview = preview;
    applied = not preview;
    affected_nodes = affected;
    split = s;
  }

  unfoldable pub confirmed :
      Database → GlobalField → FieldType → UpdateInput → ℕ → Split → Crud Changed
  confirmed db g new input affected s =
      if not input.confirm
      then done (record { db = db; result = some (change_result true affected s) })
      else if not (is_empty s.uncoercible) && not input.discard_uncoercible
      then failed (requires_discard affected (length s.coercible) s.uncoercible)
      else and_then (new_hints input.ui g.ui_hints) λ hints. done (record {
        db = apply_change db g new input hints s;
        result = some (change_result false affected s);
      })

  unfoldable pub or_diverge : Option Split → Crud Split
  or_diverge none = diverges
  or_diverge (some s) = done s

  unfoldable pub change_type : Database → GlobalField → FieldType → UpdateInput → Crud Changed
  change_type db g new input =
      let rows = filter (is_field g.definition.name) db.node_fields in
      let coerce : Value → Option CoercionResult =
        λ v. coerce_value p.fuel p.rt p.chrono v new (options_for g.definition input) in
      and_then (or_diverge (split_rows coerce p.parse rows))
        λ s. confirmed db g new input (length rows) s

  -- `input.field_type !== undefined && input.field_type !== current.field_type`
  unfoldable pub changed_type : FieldType → Option FieldType → Option FieldType
  changed_type old none = none
  changed_type old (some new) =
      if field_type_name old == field_type_name new then none else some new

  unfoldable pub update_found : Database → UpdateInput → Option GlobalField → Crud Changed
  update_found db input none = failed not_found
  update_found db input (some g) = elim (changed_type g.definition.field_type input.field_type) [
    | none ↦
        and_then (update_attributes db g input) λ after. done (record { db = after; result = none })
    | some new ↦ change_type db g new input
  ]

  unfoldable pub update_global_field : Database → Text → UpdateInput → Crud Changed
  update_global_field db name input =
      update_found db input (find_global_field db.global_fields name)
