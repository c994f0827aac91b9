-- ===== src/Pipeline/Execute.antt =====
-- src/pipeline/execute.ts: `executeMutation`. The stages up to the write give a draft; the write puts the
-- file, and then the rows, which a failure of the database takes back alone. Closures of `fsRollback` that
-- the caller does not ask for are kept all the same; nobody runs them.
pub mod Rows
pub mod Cases
pub mod Atomic
pub mod Stored
pub mod Written
pub mod Reversible
use vault_engine.Base.{
  ℕ, Text, Bool, true, false, not, ◌&&◌, ◌||◌, Option, none, some, List, [], ◌∷◌, ◌++◌, length, eqb,
  if◌then◌else◌, ◌==◌,
}
use vault_engine.Base.Dict
use vault_engine.Base.Dict.{Dict}
use vault_engine.Store.{Node, Database, find_node}
use vault_engine.Validation.ResolveDefault.{FileContext}
use vault_engine.Validation.Types.{GlobalFieldDefinition, is_reference, is_list}
use vault_engine.Validation.Validate.{validate_proposed_state, defaulted_fields_from}
use vault_engine.Validation.Validate.Issues.{ValidationResult}
use vault_engine.Pipeline.EditsLog.{EditsLogEntry, build_deviation_entries}
use vault_engine.Pipeline.FieldOrdering.{compute_field_ordering}
use vault_engine.Pipeline.Relationships.{derive_relationships, is_reference_item}
use vault_engine.Pipeline.SchemaContext.{SchemaContext, load_schema_context}
use vault_engine.Pipeline.World.{
  Env, surroundings, File, Rollback, World, ProposedMutation, PipelineResult, Failure,
  validation_failed, stale_node, constraint_failed, write_failed, Outcome, returned, thrown,
  diverges, and_then, or_throw, or_diverge, safe_vault_path, read_file_or_null, atomic_write_file,
  has_hash,
}
use vault_engine.Pipeline.Snapshot.{
  Captured, not_captured, with_snapshots, capture, delete_snapshot,
}
use vault_engine.Pipeline.Absorb.{Absorbed, is_re_render, absorb, set_text}
use vault_engine.Renderer.{RenderInput, render_node}
use vault_engine.Sync.WriteLock.{Locks, with_lock}
use Rows.{Draft, store_rows, id_for, content_hash_for, is_undo, log_entries}

abbrev context_of : Option Node → Option File → Option FileContext
context_of n none = none
context_of none (some f) = some (record { mtime_ms = f.mtime; created_at_ms = none })
context_of (some n) (some f) = some (record { mtime_ms = f.mtime; created_at_ms = n.created_at })

unfoldable pub row_of : Database → Option Text → Option Node
row_of db none = none
row_of db (some id) = find_node db.nodes id

-- `fileCtx`: none where there is no file
unfoldable pub file_context : World → Option Text → Text → Option FileContext
file_context w id path = context_of (row_of w.db id) (Dict.get w.files path)

unfoldable pub captured_for : Database → ProposedMutation → Option Text → Option Captured
captured_for db m none = some (not_captured db)
captured_for db m (some op) =
    if is_undo m.source then some (not_captured db) else capture db op m.node_id m.file_path

abbrev is_list_of_references : GlobalFieldDefinition → Bool
is_list_of_references gf = is_list gf.field_type && is_reference_item gf.list_item_type

unfoldable pub names_where : (GlobalFieldDefinition → Bool) → Dict GlobalFieldDefinition → List Text
names_where p [] = []
names_where p ((name, gf) ∷ gfs) =
    let rest = names_where p gfs in if p gf then name ∷ rest else rest

abbrev or_text : Option Text → Option Text → Option Text
or_text none t = t
or_text (some s) t = some s

unfoldable pub orphan_raw : Dict Text → Dict Text → List Text → Dict Text → Dict Text
orphan_raw finals raws [] m = m
orphan_raw finals raws (name ∷ names) m =
    orphan_raw finals raws names
      (set_text m name (or_text (Dict.get finals name) (Dict.get raws name)))

unfoldable pub render_input :
    ProposedMutation
    → Dict GlobalFieldDefinition
    → ValidationResult
    → Absorbed
    → Dict Text
    → RenderInput
render_input m gfs v a raws = record {
  types = m.types;
  fields = a.fields;
  body = m.body;
  field_ordering = compute_field_ordering v.effective_fields v.orphan_fields a.fields;
  reference_fields = names_where (λ gf. is_reference gf.field_type) gfs;
  list_reference_fields = names_where is_list_of_references gfs;
  orphan_raw_values = raws;
}

module _ (env : Env) (m : ProposedMutation) (op : Option Text) where
  -- Stages 4 and 5
  unfoldable pub draft_for :
      World → Text → Captured → SchemaContext → ValidationResult → Absorbed → Draft
  draft_for w path c ctx v a =
      let raws = orphan_raw a.raw_texts m.raw_field_texts v.orphan_fields [] in
      let content =
        render_node env.try_parse env.stringify_yaml (render_input m ctx.global_fields v a raws) in
      record {
        db = c.db;
        path = path;
        existing = read_file_or_null w.files path;
        global_fields = ctx.global_fields;
        validation = v;
        absorbed = a;
        orphan_raw_values = raws;
        content = content;
        rendered_hash = env.sha256 content;
      }

  abbrev pub is_stored : Option Node → Text → Bool
  is_stored none hash = false
  is_stored (some n) hash = elim n.content_hash [ none ↦ false | some h ↦ h == hash ]

  -- The file and the row both have the hash already.
  unfoldable pub is_noop : Draft → Bool
  is_noop d =
      has_hash env.sha256 d.rendered_hash d.existing
      && is_stored (row_of d.db m.node_id) d.rendered_hash

  unfoldable pub result_for : Draft → Text → Text → ℕ → Bool → PipelineResult
  result_for d id hash logged written = record {
    node_id = id;
    file_path = m.file_path;
    validation = d.validation;
    rendered_hash = hash;
    edits_logged = logged;
    file_written = written;
  }

  -- The database of a write that changes nothing: a snapshot of its own goes again.
  unfoldable pub without_capture : Captured → Option Text → Database
  without_capture c none = c.db
  without_capture c (some o) =
      if c.here
      then with_snapshots c.db (delete_snapshot c.db.undo_snapshots o (id_for env m))
      else c.db

  pub data Step : Type 0 where
    noop : Database → PipelineResult → Step
    write : Draft → Step

  abbrev stale_row : Draft → ℕ → Option Node → Outcome Step
  stale_row d expected none = returned (write d)
  stale_row d expected (some n) =
      if eqb n.version expected
      then returned (write d)
      else thrown (stale_node n.id expected n.version)

  unfoldable pub check_version : Draft → Outcome Step
  check_version d = elim m.expected_version [
    | none ↦ returned (write d)
    | some expected ↦ stale_row d expected (row_of d.db m.node_id)
  ]

  unfoldable pub next_step : Captured → Draft → Outcome Step
  next_step c d =
      if is_noop d
      then returned
          (noop (without_capture c op) (result_for d (id_for env m) d.rendered_hash 0 false))
      else check_version d

  unfoldable pub validated : World → Text → Captured → SchemaContext → Outcome ValidationResult
  validated w path c ctx = or_diverge (
      validate_proposed_state (surroundings env) m.fields m.types ctx.claims_by_type
        ctx.global_fields (file_context w m.node_id path) (is_re_render m.source))

  unfoldable pub planned_with : World → Text → Captured → Outcome Step
  planned_with w path c =
      let ctx = load_schema_context w.db m.types in
      and_then (validated w path c ctx) λ v.
        and_then (or_throw (validation_failed v) (absorb env.parse m c.db.node_fields v))
          λ a. next_step c (draft_for w path c ctx v a)

  -- The stages before the write
  unfoldable pub planned : World → Outcome Step
  planned w = and_then (safe_vault_path env m.file_path) λ path.
      and_then (or_throw constraint_failed (captured_for w.db m op)) λ c. planned_with w path c

  -- The files and the closures of `fsRollback` behind the write of the file.
  unfoldable pub put_file : Draft → World → World
  put_file d w = record w {
    files = if m.db_only then w.files else atomic_write_file env.clock.now w.files d.path d.content;
    rollbacks =
        if m.db_only
        then w.rollbacks
        else w.rollbacks
          ++ record { path = d.path; previous = d.existing; rendered_hash = d.rendered_hash } ∷ [];
  }

  unfoldable pub put_rows : Draft → World → World × Outcome PipelineResult
  put_rows d w = elim (store_rows env m op d) [
    | none ↦ (w, thrown constraint_failed)
    | some db ↦ (
      record w { db = db },
      returned (
          result_for d (id_for env m) (content_hash_for m d)
            (length (log_entries env.host.rt m d (id_for env m))) (not m.db_only)),
    )
  ]

  -- What runs under the lock.
  unfoldable pub write_draft : Draft → World → World × Outcome PipelineResult
  write_draft d w =
      if m.db_only || env.writable d.path
      then put_rows d (put_file d w)
      else (w, thrown write_failed)

  abbrev pub with_world_locks : World → Locks → World
  with_world_locks w locks = record w { locks = locks }

  unfoldable pub write_locked : Draft → World → World × Outcome PipelineResult
  write_locked d w =
      let (locks, (after, o)) =
        with_lock d.path (λ l. (l, write_draft d (with_world_locks w l))) w.locks in
      (with_world_locks after locks, o)

  unfoldable pub run_step : World → Outcome Step → World × Outcome PipelineResult
  run_step w (thrown e) = (w, thrown e)
  run_step w diverges = (w, diverges)
  run_step w (returned (noop db r)) = (record w { db = db }, returned r)
  run_step w (returned (write d)) = write_locked d w

  unfoldable pub execute_mutation : World → World × Outcome PipelineResult
  execute_mutation w = run_step w (planned w)
