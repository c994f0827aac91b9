-- ===== src/Pipeline/Snapshot.antt =====
-- The undo snapshots that src/pipeline/execute.ts and delete.ts write before a change and complete behind
-- it. A snapshot of an operation and a node is written once.
pub mod Capture
use vault_engine.Base.{
  Text, codes, Bool, true, false, not, ◌&&◌, Option, none, some, List, [], ◌∷◌, ◌++◌, filter,
  if◌then◌else◌, ◌==◌,
}
use vault_engine.Store.{
  Node, Snapshot, Operation, Database, find_node, types_of, fields_of, links_of,
}

abbrev pub with_snapshots : Database → List Snapshot → Database
with_snapshots db ss = record db { undo_snapshots = ss }

abbrev pub is_snapshot : Text → Text → Snapshot → Bool
is_snapshot op node s = s.operation_id == op && s.node_id == node

unfoldable pub find_snapshot : List Snapshot → Text → Text → Option Snapshot
find_snapshot [] op node = none
find_snapshot (s ∷ ss) op node =
    let rest = find_snapshot ss op node in if is_snapshot op node s then some s else rest

unfoldable pub has_operation : List Operation → Text → Bool
has_operation [] op = false
has_operation (o ∷ os) op =
    let rest = has_operation os op in if o.operation_id == op then true else rest

pub record Captured : Type 0 where
  pub db : Database
  pub here : Bool

abbrev pub not_captured : Database → Captured
not_captured db = record { db = db; here = false }

abbrev pub captured : Database → Snapshot → Captured
captured db s = record { db = with_snapshots db (db.undo_snapshots ++ s ∷ []); here = true }

-- `INSERT OR IGNORE`: none where the operation is not there, which the foreign key refuses.
unfoldable pub insert_snapshot : Database → Snapshot → Option Captured
insert_snapshot db s = elim (find_snapshot db.undo_snapshots s.operation_id s.node_id) [
  | some t ↦ some (not_captured db)
  | none ↦ if has_operation db.undo_operations s.operation_id then some (captured db s) else none
]

-- `pending:<path>`, the id of a node that is about to be created
unfoldable pub pending : Text → Text
pending path = codes "pending:" ++ path

unfoldable pub creation_snapshot : Text → Text → Snapshot
creation_snapshot op path = record {
  operation_id = op;
  node_id = pending path;
  file_path = path;
  title = none;
  body = none;
  types = none;
  fields = none;
  relationships = none;
  was_deleted = true;
  post_mutation_hash = none;
}

unfoldable pub node_snapshot : Database → Text → Node → Snapshot
node_snapshot db op n = record {
  operation_id = op;
  node_id = n.id;
  file_path = n.file_path;
  title = n.title;
  body = n.body;
  types = some (types_of db.node_types n.id);
  fields = some (fields_of db.node_fields n.id);
  relationships = some (links_of db.relationships n.id);
  was_deleted = false;
  post_mutation_hash = none;
}

unfoldable pub capture_row : Database → Text → Option Node → Option Captured
capture_row db op none = some (not_captured db)
capture_row db op (some n) = insert_snapshot db (node_snapshot db op n)

unfoldable pub capture : Database → Text → Option Text → Text → Option Captured
capture db op none path = insert_snapshot db (creation_snapshot op path)
capture db op (some id) path = capture_row db op (find_node db.nodes id)

-- `DELETE FROM undo_snapshots WHERE operation_id = ? AND node_id = ?`
unfoldable pub delete_snapshot : List Snapshot → Text → Text → List Snapshot
delete_snapshot ss op node = filter (λ s. not (is_snapshot op node s)) ss

abbrev finalized : Text → Text → Snapshot → Snapshot
finalized node hash s = record s { node_id = node; post_mutation_hash = some hash }

-- `UPDATE undo_snapshots SET node_id = ?, post_mutation_hash = ? WHERE …`
unfoldable pub finalize_snapshots : List Snapshot → Text → Text → Text → Text → List Snapshot
finalize_snapshots [] op old node hash = []
finalize_snapshots (s ∷ ss) op old node hash =
    (if is_snapshot op old s then finalized node hash s else s)
    ∷ finalize_snapshots ss op old node hash
