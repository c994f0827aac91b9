-- ===== src/Examples/Tables.antt =====
-- The theorems on orderings, deletions, global fields and the undo log at concrete values.
use vault_engine.Base.{
  ℕ, Text, codes, Bool, true, false, ◌&&◌, Option, none, some, List, [], ◌∷◌, ◌++◌, ◌==◌, ◌≡◌, ◌⊎◌,
  refl, if◌then◌else◌, inl, inr, All, arith,
}
use vault_engine.Base.Dict
use vault_engine.Base.Dict.{Dict}
use vault_engine.Value.{Value, str, undefined}
use vault_engine.Store.{Node, NodeField, GlobalField, Snapshot, Database, DeletionSource, find_node}
use vault_engine.Validation.Types.{FieldType, OverridesAllowed}
use vault_engine.Pipeline.ClassifyValue.{FieldColumns}
use vault_engine.Pipeline.FieldOrdering.{compute_field_ordering, names_in}
use vault_engine.Pipeline.FieldOrdering.Complete.{compute_field_ordering-AreDistinct}
use vault_engine.Renderer.FrontMatter.{AreDistinct}
use vault_engine.Pipeline.World.{World, returned}
use vault_engine.Pipeline.Delete.{ProposedDeletion, DeletionResult, deletion_row, execute_deletion}
use vault_engine.Pipeline.Delete.Gone.{IsGone, execute_deletion-IsGone}
use vault_engine.Pipeline.SchemaContext.{find_global_field}
use vault_engine.GlobalFields.Crud.{
  Crud, done, CreateInput, UpdateInput, OverridesInput, Affected, create_global_field,
  new_definition, rename_global_field, has_row,
}
use vault_engine.GlobalFields.Crud.Sound.{IsDefined, create_global_field-IsDefined}
use vault_engine.GlobalFields.Crud.Renamed.{IsRenamed, rename_global_field-IsRenamed}
use vault_engine.GlobalFields.TypeChange.{
  Platform, Changed, TypeChangeResult, Split, update_global_field,
}
use vault_engine.GlobalFields.TypeChange.Kept.{IsKept, update_global_field-keeps}
use vault_engine.Undo.Conflicts.{detect_conflicts}
use vault_engine.Undo.Conflicts.Clear.{IsAccounted, detect_conflicts-IsAccounted}
use vault_engine.Examples.{
  ascii, constant_chrono, note, low, high, task, page, note_field, empty_store,
}
use vault_engine.Examples.Writes.{env, world}

abbrev fields : Dict Value
fields = (note, str low) ∷ (high, str low) ∷ []

compute_field_ordering-AreDistinct_example :
    AreDistinct (compute_field_ordering [] (note ∷ high ∷ []) fields)
    × ((f : Text)
        → Dict.contains (names_in (compute_field_ordering [] (note ∷ high ∷ []) fields)) f
          ≡ Dict.has fields f)
unfolding ◌==◌ Dict.contains Dict.has note high
compute_field_ordering-AreDistinct_example =
    compute_field_ordering-AreDistinct [] (note ∷ high ∷ []) fields tt (refl, (refl, tt))
      (λ f h. refl)

abbrev removal : ProposedDeletion
removal = record {
  source = DeletionSource.tool;
  node_id = task;
  file_path = note;
  unlink_file = true;
  reason = none;
  expected_version = some 1;
}

abbrev unlinked : DeletionResult
unlinked = record { node_id = task; file_path = note; file_unlinked = true; unlink_error = none }

abbrev task_row : Node
task_row = record {
  id = task;
  file_path = note;
  title = none;
  body = none;
  content_hash = none;
  file_mtime = 0;
  indexed_at = 0;
  created_at = none;
  version = 1;
}

execute_deletion-IsGone_example :
    IsGone task (execute_deletion env removal none world).0.db
    × ((execute_deletion env removal none world).0.db.edits_log
        ≡ world.db.edits_log ++ deletion_row env removal none ∷ [])
unfolding find_node ◌==◌ task execute_deletion vault_engine.Pipeline.World.safe_vault_path
    vault_engine.Base.starts_with Dict.has Dict.get vault_engine.Sync.WriteLock.with_lock
    vault_engine.Pipeline.Delete.delete_row vault_engine.Pipeline.Delete.behind
    vault_engine.Pipeline.Delete.delete_in_database vault_engine.Pipeline.Delete.is_stale
    vault_engine.Pipeline.Delete.captured_before vault_engine.Pipeline.Delete.remove_file
    vault_engine.Pipeline.Delete.remove_at vault_engine.Pipeline.Delete.unlink_locked
    vault_engine.Pipeline.Delete.unlink vault_engine.Pipeline.Delete.deletion_result
execute_deletion-IsGone_example =
    execute_deletion-IsGone env removal none world task_row unlinked refl refl

abbrev no_overrides : OverridesAllowed
no_overrides = record { required = false; default_value = false; enum_values = false }

abbrev new_list : CreateInput
new_list = record {
  name = high;
  field_type = FieldType.list;
  enum_values = none;
  reference_target = none;
  description = none;
  default_value = undefined;
  required = false;
  list_item_type = some FieldType.string;
  overrides_allowed = no_overrides;
  ui = undefined;
}

abbrev note_global : GlobalField
note_global = record { definition = note_field; ui_hints = none }

abbrev text_row : Text → NodeField
text_row name = record {
  node_id = task;
  field_name = name;
  columns = record {
    value_text = some low;
    value_number = none;
    value_date = none;
    value_json = none;
  };
  value_raw_text = none;
}

abbrev fielded : Database
fielded = record empty_store {
  global_fields = note_global ∷ [];
  node_fields = text_row note ∷ text_row page ∷ [];
}

abbrev with_list : Database
with_list = record fielded {
  global_fields =
      note_global ∷ record { definition = new_definition new_list; ui_hints = none } ∷ [];
}

create_global_field-IsDefined_example :
    (find_global_field fielded.global_fields high ≡ none)
    × IsDefined high (new_definition new_list) fielded with_list
unfolding vault_engine.GlobalFields.Crud.Sound.all_sound
    vault_engine.GlobalFields.Crud.Sound.is_sound create_global_field
    vault_engine.GlobalFields.Crud.and_then vault_engine.GlobalFields.Crud.check_create
    vault_engine.GlobalFields.Crud.hints_for vault_engine.GlobalFields.Crud.insert_global_field
    find_global_field ◌==◌ note new_definition
create_global_field-IsDefined_example =
    create_global_field-IsDefined fielded new_list with_list refl refl

abbrev moved : Affected
moved = record {
  db = record fielded {
    global_fields = record note_global { definition = record note_field { name = high } } ∷ [];
    node_fields = text_row high ∷ text_row page ∷ [];
  };
  affected_nodes = 1;
  affected_schemas = 0;
}

rename_global_field-IsRenamed_example : IsRenamed note high note_global fielded moved.db
unfolding find_global_field ◌==◌ note rename_global_field
    vault_engine.GlobalFields.Crud.rows_collide has_row vault_engine.GlobalFields.Crud.renamed
    vault_engine.GlobalFields.Crud.rename_rows vault_engine.GlobalFields.Crud.rename_claims
rename_global_field-IsRenamed_example =
    rename_global_field-IsRenamed fielded note high note_global moved refl refl

abbrev platform : Platform
platform = record { fuel = 2; rt = ascii; chrono = constant_chrono; parse = λ t. str t; now = 0 }

abbrev to_reference : UpdateInput
to_reference = record {
  field_type = some FieldType.reference;
  enum_values = none;
  reference_target = none;
  description = none;
  default_value = none;
  required = none;
  list_item_type = none;
  overrides_allowed = record { required = none; default_value = none; enum_values = none };
  ui = none;
  confirm = true;
  discard_uncoercible = false;
}

abbrev referring : Changed
referring = record {
  db = record fielded {
    global_fields =
        record note_global { definition = record note_field { field_type = FieldType.reference } }
        ∷ [];
  };
  result = some (record {
    preview = false;
    applied = true;
    affected_nodes = 1;
    split = record {
      coercible = record { node_id = task; old_value = str low; new_value = str low } ∷ [];
      uncoercible = [];
    };
  });
}

update_global_field-keeps_example :
    IsKept platform note_global to_reference note fielded.node_fields referring.db.node_fields
unfolding find_global_field ◌==◌ codes note task low high page ascii
    vault_engine.GlobalFields.TypeChange.classify_coerced_value
    vault_engine.GlobalFields.TypeChange.add_split vault_engine.GlobalFields.TypeChange.split_rows
    vault_engine.GlobalFields.TypeChange.options_for
    vault_engine.GlobalFields.TypeChange.set_columns
    vault_engine.GlobalFields.TypeChange.store_coerced
    vault_engine.GlobalFields.TypeChange.drop_rows vault_engine.GlobalFields.TypeChange.removal_rows
    vault_engine.GlobalFields.TypeChange.retyped vault_engine.GlobalFields.TypeChange.apply_change
    vault_engine.GlobalFields.TypeChange.change_result
    vault_engine.GlobalFields.TypeChange.confirmed vault_engine.GlobalFields.TypeChange.or_diverge
    vault_engine.GlobalFields.TypeChange.change_type
    vault_engine.GlobalFields.TypeChange.changed_type
    vault_engine.GlobalFields.TypeChange.update_found
    vault_engine.GlobalFields.TypeChange.update_global_field vault_engine.GlobalFields.Crud.and_then
    vault_engine.GlobalFields.Crud.new_hints vault_engine.GlobalFields.Crud.replace_global_field
    vault_engine.Validation.Coerce.string_to_number vault_engine.Validation.Coerce.string_to_boolean
    vault_engine.Validation.Coerce.before_bar vault_engine.Validation.Coerce.string_to_reference
    vault_engine.Validation.Coerce.cannot_coerce vault_engine.Validation.Coerce.coerce_scalar
    vault_engine.Validation.Coerce.gather vault_engine.Validation.Coerce.gather_all
    vault_engine.Validation.Coerce.list_result vault_engine.Validation.Coerce.wrapped
    vault_engine.Validation.Coerce.coerce_list vault_engine.Validation.Coerce.coerce_step
    vault_engine.Validation.Coerce.coerce_value
    vault_engine.Pipeline.ClassifyValue.reconstruct_value
    vault_engine.Validation.Coerce.Result.field_type_name vault_engine.Base.starts_with
    vault_engine.Base.trim
update_global_field-keeps_example =
    update_global_field-keeps platform fielded note note_global to_reference referring refl refl

-- The node has another content than the operation left.
abbrev snapshot : Snapshot
snapshot = record {
  operation_id = page;
  node_id = task;
  file_path = note;
  title = none;
  body = none;
  types = some [];
  fields = some [];
  relationships = some [];
  was_deleted = false;
  post_mutation_hash = some high;
}

detect_conflicts-IsAccounted_example :
    All
      (IsAccounted ascii world.db page [] (detect_conflicts ascii world.db page [] (snapshot ∷ [])))
      (snapshot ∷ [])
detect_conflicts-IsAccounted_example =
    detect_conflicts-IsAccounted ascii world.db page [] (snapshot ∷ [])
