-- ===== src/Pipeline/Delete.antt =====
-- src/pipeline/delete.ts: `executeDeletion`. The foreign keys on `nodes` delete the rows of the node and
-- reset what resolved to it. The file goes behind the transaction.
pub mod Gone
use vault_engine.Base.{
  ℕ, Text, Bool, true, false, not, ◌&&◌, Option, none, some, List, [], ◌∷◌, ◌++◌, filter, eqb,
  if◌then◌else◌, ◌==◌,
}
use vault_engine.Base.Dict
use vault_engine.Base.Dict.{Dict}
use vault_engine.Store.{
  Node, NodeType, NodeField, Relationship, DeletionSource, LogEvent, LogRow, Database, find_node,
}
use vault_engine.Resolver.Refresh.{update_where, resolves_to, refresh_on_delete}
use vault_engine.Pipeline.World.{
  Env, World, Outcome, returned, thrown, diverges, stale_node, constraint_failed, safe_vault_path,
}
use vault_engine.Pipeline.Snapshot.{Captured, not_captured, insert_snapshot, node_snapshot}
use vault_engine.Sync.WriteLock.{Locks, with_lock}

pub record ProposedDeletion : Type 0 where
  pub source : DeletionSource
  pub node_id : Text
  pub file_path : Text
  pub unlink_file : Bool
  pub reason : Option Text
  pub expected_version : Option ℕ

pub record DeletionResult : Type 0 where
  pub node_id : Text
  pub file_path : Text
  pub file_unlinked : Bool
  pub unlink_error : Option Text

-- `DELETE FROM nodes WHERE id = ?`, with what the foreign keys do
unfoldable pub delete_node : Text → Database → Database
delete_node id db = record db {
  nodes = filter (λ n. not (n.id == id)) db.nodes;
  node_types = filter (λ t. not (t.node_id == id)) db.node_types;
  node_fields = filter (λ f. not (f.node_id == id)) db.node_fields;
  relationships =
      update_where (resolves_to id) none (filter (λ r. not (r.source_id == id)) db.relationships);
}

module _ (env : Env) (del : ProposedDeletion) (op : Option Text) where
  unfoldable pub is_stale : Node → Bool
  is_stale n = elim del.expected_version [
    | none ↦ false
    | some expected ↦ not (eqb n.version expected)
  ]

  abbrev pub expected_or_zero : Option ℕ → ℕ
  expected_or_zero none = 0
  expected_or_zero (some v) = v

  unfoldable pub captured_before : Database → Node → Option Captured
  captured_before db n = elim op [
    | none ↦ some (not_captured db)
    | some o ↦ insert_snapshot db (node_snapshot db o n)
  ]

  unfoldable pub deletion_row : LogRow
  deletion_row = record {
    node_id = del.node_id;
    timestamp = env.clock.now;
    event = LogEvent.file_deleted del.file_path del.source del.reason;
  }

  unfoldable pub log_deletion : Database → Database
  log_deletion db = record db {
    nodes_fts = Dict.delete db.nodes_fts del.node_id;
    edits_log = db.edits_log ++ deletion_row ∷ [];
  }

  -- The statements behind the snapshot
  unfoldable pub delete_rows : Database → Database
  delete_rows db = delete_node del.node_id (log_deletion db)

  -- The transaction
  unfoldable pub delete_in_database : Database → Node → Outcome Database
  delete_in_database db n =
      if is_stale n
      then thrown (stale_node del.node_id (expected_or_zero del.expected_version) n.version)
      else elim (captured_before db n) [
        | none ↦ thrown constraint_failed
        | some c ↦ returned (refresh_on_delete (delete_rows c.db) del.node_id)
      ]

  unfoldable pub deletion_result : Bool → Option Text → DeletionResult
  deletion_result unlinked error = record {
    node_id = del.node_id;
    file_path = del.file_path;
    file_unlinked = unlinked;
    unlink_error = error;
  }

  -- A file that is not there counts as unlinked.
  unfoldable pub unlink : Text → World → World × DeletionResult
  unlink path w =
      if Dict.has w.files path
      then elim (env.unlink_error path) [
        | none ↦ (record w { files = Dict.delete w.files path }, deletion_result true none)
        | some error ↦ (w, deletion_result false (some error))
      ]
      else (w, deletion_result true none)

  unfoldable pub unlink_locked : Text → World → World × DeletionResult
  unlink_locked path w =
      let (locks, (after, r)) =
        with_lock path (λ l. (l, unlink path (record w { locks = l }))) w.locks in
      (record after { locks = locks }, r)

  unfoldable pub remove_at : World → Outcome Text → World × Outcome DeletionResult
  remove_at w (returned path) = let (after, r) = unlink_locked path w in (after, returned r)
  remove_at w (thrown e) = (w, thrown e)
  remove_at w diverges = (w, diverges)

  unfoldable pub remove_file : World → World × Outcome DeletionResult
  remove_file w =
      if del.unlink_file
      then remove_at w (safe_vault_path env del.file_path)
      else (w, returned (deletion_result false none))

  unfoldable pub behind : World → Outcome Database → World × Outcome DeletionResult
  behind w (returned db) = remove_file (record w { db = db })
  behind w (thrown e) = (w, thrown e)
  behind w diverges = (w, diverges)

  unfoldable pub delete_row : World → Option Node → World × Outcome DeletionResult
  delete_row w none = (w, returned (deletion_result false none))
  delete_row w (some n) = behind w (delete_in_database w.db n)

  unfoldable pub execute_deletion : World → World × Outcome DeletionResult
  execute_deletion w = delete_row w (find_node w.db.nodes del.node_id)
