-- ===== src/Examples/Writes.antt =====
-- The theorems on writes, deletions and undoing at concrete values.
use vault_engine.Base.{
  ℕ, Text, codes, Bool, true, false, none, some, List, [], ◌∷◌, ◌++◌, ◌==◌, ◌≡◌, refl,
  if◌then◌else◌,
}
use vault_engine.Base.Dict
use vault_engine.Base.Dict.{Dict}
use vault_engine.Value.{str}
use vault_engine.Store.{Node, Database, HasSameNode, find_node}
use vault_engine.Pipeline.EditsLog.{WriteSource}
use vault_engine.Pipeline.World.{
  Env, File, World, ProposedMutation, PipelineResult, returned, thrown, stale_node,
}
use vault_engine.Pipeline.Execute.{execute_mutation}
use vault_engine.Pipeline.Execute.Atomic.{
  IsAtomic, execute-IsAtomic, IsUnchanged, execute-IsUnchanged,
}
use vault_engine.Pipeline.Execute.Reversible.{IsReversible, execute-IsReversible}
use vault_engine.Pipeline.Execute.Rows.Upsert.{IsKeyed}
use vault_engine.Pipeline.Execute.Written.{
  IsWritten, execute-IsWritten, execute-HasSameNode, execute-IsKeyed, HasVersion,
  execute-HasVersion,
}
use vault_engine.Sync.WriteLock
use vault_engine.Examples.{constant_chrono, note, low, high, task, page, node_row, empty_store}
use vault_engine.Examples.Engine.{host}

-- A hash is the text itself, and YAML is empty.
abbrev pub env : Env
env = record {
  host = host;
  chrono = constant_chrono;
  clock = record {
    now = 0;
    local = λ ms. record { year = 2026; month = 3; day = 5; hours = 0; minutes = 0; seconds = 0 };
  };
  fuel = 2;
  sha256 = λ t. t;
  stringify_yaml = λ d. [];
  try_parse = λ t. none;
  parse = λ t. str t;
  body_links = λ t. [];
  resolve = λ root path. root ++ b'/' ∷ path;
  resolve_root = λ root. root;
  sep = b'/' ∷ [];
  vault_path = low;
  writable = λ path. true;
  nanoid = page;
  unlink_error = λ path. none;
}

abbrev pub world : World
world = record {
  db = record empty_store { nodes = node_row task note none ∷ node_row page low none ∷ [] };
  files = [];
  locks = WriteLock.fresh;
  rollbacks = [];
}

abbrev edit : ℕ → ProposedMutation
edit expected = record {
  source = WriteSource.tool;
  node_id = some task;
  file_path = note;
  title = high;
  types = [];
  fields = [];
  body = low;
  raw_field_texts = [];
  source_content_hash = none;
  db_only = false;
  expected_version = some expected;
}

execute-HasSameNode_example :
    HasSameNode page (execute_mutation env (edit 1) none world).0.db world.db
unfolding ◌==◌ vault_engine.Pipeline.Execute.Rows.id_for task page
execute-HasSameNode_example = execute-HasSameNode env (edit 1) none world page refl

execute-IsKeyed_example : IsKeyed (execute_mutation env (edit 1) none world).0.db.nodes
unfolding ◌==◌ Dict.contains task page note low
execute-IsKeyed_example =
    execute-IsKeyed env (edit 1) none world ((refl, (refl, tt)), (refl, (refl, tt)))

execute-IsReversible_example : IsReversible env world (execute_mutation env (edit 1) none world).0
execute-IsReversible_example = execute-IsReversible env (edit 1) none world

edit_7-stale : (execute_mutation env (edit 7) none world).1 ≡ thrown (stale_node task 7 1)
unfolding ◌==◌ codes vault_engine.Base.ends_with vault_engine.Base.Dict.get
    vault_engine.Pipeline.Execute.row_of vault_engine.Pipeline.Execute.captured_for
    vault_engine.Pipeline.Execute.render_input vault_engine.Pipeline.Execute.draft_for
    vault_engine.Pipeline.Execute.is_noop vault_engine.Pipeline.Execute.result_for
    vault_engine.Pipeline.Execute.check_version vault_engine.Pipeline.Execute.next_step
    vault_engine.Pipeline.Execute.validated vault_engine.Pipeline.Execute.planned_with
    vault_engine.Pipeline.Execute.planned vault_engine.Pipeline.Execute.put_rows
    vault_engine.Pipeline.Execute.write_draft vault_engine.Pipeline.Execute.write_locked
    vault_engine.Pipeline.Execute.run_step vault_engine.Pipeline.Execute.execute_mutation
    vault_engine.Pipeline.Execute.Rows.id_for vault_engine.Pipeline.Execute.Rows.content_hash_for
    vault_engine.Pipeline.Execute.Rows.path_taken vault_engine.Pipeline.Execute.Rows.upsert_node
    vault_engine.Pipeline.Execute.Rows.has_twice vault_engine.Pipeline.Execute.Rows.replace_types
    vault_engine.Pipeline.Execute.Rows.log_entries vault_engine.Pipeline.Execute.Rows.store_rows
    vault_engine.Pipeline.World.and_then vault_engine.Pipeline.World.or_throw
    vault_engine.Pipeline.World.or_diverge vault_engine.Pipeline.World.safe_vault_path
    vault_engine.Pipeline.World.read_file_or_null vault_engine.Pipeline.World.has_hash
    vault_engine.Pipeline.Absorb.has_blocking vault_engine.Pipeline.Absorb.absorb
    vault_engine.Pipeline.EditsLog.coerced_entries vault_engine.Pipeline.EditsLog.defaulted_entries
    vault_engine.Pipeline.EditsLog.with_node vault_engine.Pipeline.EditsLog.build_deviation_entries
    vault_engine.Renderer.render_node vault_engine.Validation.Merge.collect
    vault_engine.Validation.Merge.build vault_engine.Validation.Merge.merge_field_claims
    vault_engine.Validation.Validate.check_fields vault_engine.Validation.Validate.orphan_names
    vault_engine.Validation.Validate.keep_orphans vault_engine.Validation.Validate.finish
    vault_engine.Validation.Validate.validate_proposed_state
    vault_engine.Validation.Validate.defaulted_fields
    vault_engine.Validation.Validate.defaulted_fields_from vault_engine.Store.find_node
    vault_engine.Sync.WriteLock.with_lock
edit_7-stale = refl

execute-IsAtomic_example :
    IsAtomic env
      (edit 7)
      none
      world
      (execute_mutation env (edit 7) none world).0
      (stale_node task 7 1)
execute-IsAtomic_example =
    execute-IsAtomic env (edit 7) none world (stale_node task 7 1) edit_7-stale

abbrev stored : PipelineResult
stored = record {
  node_id = task;
  file_path = note;
  validation = record {
    valid = true;
    effective_fields = [];
    coerced_state = [];
    issues = [];
    orphan_fields = [];
  };
  rendered_hash = codes "---" ++ 10 ∷ (codes "---" ++ 10 ∷ low);
  edits_logged = 0;
  file_written = true;
}

edit_1-written : (execute_mutation env (edit 1) none world).1 ≡ returned stored
unfolding ◌==◌ codes vault_engine.Base.ends_with vault_engine.Base.Dict.get
    vault_engine.Pipeline.Execute.row_of vault_engine.Pipeline.Execute.captured_for
    vault_engine.Pipeline.Execute.render_input vault_engine.Pipeline.Execute.draft_for
    vault_engine.Pipeline.Execute.is_noop vault_engine.Pipeline.Execute.result_for
    vault_engine.Pipeline.Execute.check_version vault_engine.Pipeline.Execute.next_step
    vault_engine.Pipeline.Execute.validated vault_engine.Pipeline.Execute.planned_with
    vault_engine.Pipeline.Execute.planned vault_engine.Pipeline.Execute.put_rows
    vault_engine.Pipeline.Execute.write_draft vault_engine.Pipeline.Execute.write_locked
    vault_engine.Pipeline.Execute.run_step vault_engine.Pipeline.Execute.execute_mutation
    vault_engine.Pipeline.Execute.Rows.id_for vault_engine.Pipeline.Execute.Rows.content_hash_for
    vault_engine.Pipeline.Execute.Rows.path_taken vault_engine.Pipeline.Execute.Rows.upsert_node
    vault_engine.Pipeline.Execute.Rows.has_twice vault_engine.Pipeline.Execute.Rows.replace_types
    vault_engine.Pipeline.Execute.Rows.log_entries vault_engine.Pipeline.Execute.Rows.store_rows
    vault_engine.Pipeline.World.and_then vault_engine.Pipeline.World.or_throw
    vault_engine.Pipeline.World.or_diverge vault_engine.Pipeline.World.safe_vault_path
    vault_engine.Pipeline.World.read_file_or_null vault_engine.Pipeline.World.has_hash
    vault_engine.Pipeline.Absorb.has_blocking vault_engine.Pipeline.Absorb.absorb
    vault_engine.Pipeline.EditsLog.coerced_entries vault_engine.Pipeline.EditsLog.defaulted_entries
    vault_engine.Pipeline.EditsLog.with_node vault_engine.Pipeline.EditsLog.build_deviation_entries
    vault_engine.Renderer.render_node vault_engine.Validation.Merge.collect
    vault_engine.Validation.Merge.build vault_engine.Validation.Merge.merge_field_claims
    vault_engine.Validation.Validate.check_fields vault_engine.Validation.Validate.orphan_names
    vault_engine.Validation.Validate.keep_orphans vault_engine.Validation.Validate.finish
    vault_engine.Validation.Validate.validate_proposed_state
    vault_engine.Validation.Validate.defaulted_fields
    vault_engine.Validation.Validate.defaulted_fields_from vault_engine.Store.find_node
    vault_engine.Sync.WriteLock.with_lock
edit_1-written = refl

execute-IsWritten_example :
    IsWritten env (edit 1) none world (execute_mutation env (edit 1) none world).0 stored
execute-IsWritten_example = execute-IsWritten env (edit 1) none world stored edit_1-written refl

execute-HasVersion_example :
    HasVersion env
      (edit 1)
      none
      1
      (find_node world.db.nodes task)
      (find_node (execute_mutation env (edit 1) none world).0.db.nodes task)
execute-HasVersion_example =
    execute-HasVersion env (edit 1) none world stored task 1 edit_1-written refl refl refl

-- The file and the row have the hash already.
abbrev settled : World
settled = record world {
  db = record empty_store {
    nodes = record (node_row task note none) { content_hash = some stored.rendered_hash } ∷ [];
  };
  files = (low ++ b'/' ∷ note, record { content = stored.rendered_hash; mtime = 0 }) ∷ [];
}

edit_1-noop :
    (execute_mutation env (edit 1) none settled).1
    ≡ returned (record stored { file_written = false })
unfolding ◌==◌ codes vault_engine.Base.ends_with vault_engine.Base.Dict.get
    vault_engine.Pipeline.Execute.row_of vault_engine.Pipeline.Execute.captured_for
    vault_engine.Pipeline.Execute.render_input vault_engine.Pipeline.Execute.draft_for
    vault_engine.Pipeline.Execute.is_noop vault_engine.Pipeline.Execute.result_for
    vault_engine.Pipeline.Execute.check_version vault_engine.Pipeline.Execute.next_step
    vault_engine.Pipeline.Execute.validated vault_engine.Pipeline.Execute.planned_with
    vault_engine.Pipeline.Execute.planned vault_engine.Pipeline.Execute.put_rows
    vault_engine.Pipeline.Execute.write_draft vault_engine.Pipeline.Execute.write_locked
    vault_engine.Pipeline.Execute.run_step vault_engine.Pipeline.Execute.execute_mutation
    vault_engine.Pipeline.Execute.Rows.id_for vault_engine.Pipeline.Execute.Rows.content_hash_for
    vault_engine.Pipeline.Execute.Rows.path_taken vault_engine.Pipeline.Execute.Rows.upsert_node
    vault_engine.Pipeline.Execute.Rows.has_twice vault_engine.Pipeline.Execute.Rows.replace_types
    vault_engine.Pipeline.Execute.Rows.log_entries vault_engine.Pipeline.Execute.Rows.store_rows
    vault_engine.Pipeline.World.and_then vault_engine.Pipeline.World.or_throw
    vault_engine.Pipeline.World.or_diverge vault_engine.Pipeline.World.safe_vault_path
    vault_engine.Pipeline.World.read_file_or_null vault_engine.Pipeline.World.has_hash
    vault_engine.Pipeline.Absorb.has_blocking vault_engine.Pipeline.Absorb.absorb
    vault_engine.Pipeline.EditsLog.coerced_entries vault_engine.Pipeline.EditsLog.defaulted_entries
    vault_engine.Pipeline.EditsLog.with_node vault_engine.Pipeline.EditsLog.build_deviation_entries
    vault_engine.Renderer.render_node vault_engine.Validation.Merge.collect
    vault_engine.Validation.Merge.build vault_engine.Validation.Merge.merge_field_claims
    vault_engine.Validation.Validate.check_fields vault_engine.Validation.Validate.orphan_names
    vault_engine.Validation.Validate.keep_orphans vault_engine.Validation.Validate.finish
    vault_engine.Validation.Validate.validate_proposed_state
    vault_engine.Validation.Validate.defaulted_fields
    vault_engine.Validation.Validate.defaulted_fields_from vault_engine.Store.find_node
    vault_engine.Sync.WriteLock.with_lock
edit_1-noop = refl

execute-IsUnchanged_example :
    IsUnchanged env
      (edit 1)
      none
      settled
      (execute_mutation env (edit 1) none settled).0
      (record stored { file_written = false })
execute-IsUnchanged_example =
    execute-IsUnchanged env (edit 1) none settled (record stored { file_written = false })
      edit_1-noop refl refl
