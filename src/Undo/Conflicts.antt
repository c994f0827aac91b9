-- ===== src/Undo/Conflicts.antt =====
-- src/undo/restore.ts: `detectConflicts`, what would be lost by undoing an operation, and the order in
-- which `restoreOperation` takes its snapshots.
pub mod Clear
use vault_engine.Base.{
  ℕ, ◌+◌, suc, Text, codes, Bool, true, false, not, ◌&&◌, ◌||◌, Option, none, some, List, [], ◌∷◌,
  ◌++◌, filter, ltb, is_empty, if◌then◌else◌, ◌==◌,
}
use vault_engine.Base.Dict
use vault_engine.Base.Dict.{Dict}
use vault_engine.Value.{Value, Runtime}
use vault_engine.Store.{
  Node, NodeField, Operation, Snapshot, Status, Database, find_node, find_path,
}
use vault_engine.Pipeline.ClassifyValue.{reconstruct_value}
use vault_engine.Pipeline.EditsLog.{WriteSource}
use vault_engine.Pipeline.World.{ProposedMutation}
use vault_engine.Undo.Operation.{find_operation, status_eq}

pub data ConflictReason : Type 0 where
  path_occupied modified_after_operation superseded_by_later_op : ConflictReason

pub record Conflict : Type 0 where
  pub operation_id : Text
  pub node_id : Text
  pub file_path : Text
  pub reason : ConflictReason
  pub modified_by : Option (List Text)
  pub would_restore_title : Option Text

unfoldable pub build_conflict : Snapshot → ConflictReason → Option (List Text) → Conflict
build_conflict s reason by = record {
  operation_id = s.operation_id;
  node_id = s.node_id;
  file_path = s.file_path;
  reason = reason;
  modified_by = by;
  would_restore_title = s.title;
}

-- Two hashes that are there and are not empty
abbrev pub hashes_differ : Option Text → Option Text → Bool
hashes_differ none b = false
hashes_differ (some a) none = false
hashes_differ (some a) (some b) = not (is_empty a) && not (is_empty b) && not (b == a)

abbrev pub is_taken_by_other : Text → Option Node → Bool
is_taken_by_other id none = false
is_taken_by_other id (some n) = not (n.id == id)

-- The operation is active and later than the time given.
abbrev pub is_later : Option ℕ → Operation → Bool
is_later none o = false
is_later (some t) o = status_eq o.status Status.active && ltb t o.timestamp

abbrev pub timestamp_of : Option Operation → Option ℕ
timestamp_of none = none
timestamp_of (some o) = some o.timestamp

abbrev pub later_part : Option ℕ → Option Operation → List Operation
later_part t none = []
later_part t (some o) = if is_later t o then o ∷ [] else []

-- The join of the snapshots of the node with their operations
unfoldable pub later_operations : List Operation → Option ℕ → Text → List Snapshot → List Operation
later_operations os t node [] = []
later_operations os t node (s ∷ ss) =
    let rest = later_operations os t node ss in
    let found = later_part t (find_operation os s.operation_id) in
    if s.node_id == node then found ++ rest else rest

unfoldable pub superseding : Database → Text → Text → List Text → List Operation
superseding db op node in_call =
    filter (λ o. not (Dict.contains in_call o.operation_id))
      (later_operations db.undo_operations (timestamp_of (find_operation db.undo_operations op))
        node db.undo_snapshots)

abbrev is_superseded : ConflictReason → Bool
is_superseded superseded_by_later_op = true
is_superseded _ = false

unfoldable pub has_superseded : List Conflict → Text → Bool
has_superseded [] node = false
has_superseded (c ∷ cs) node =
    let rest = has_superseded cs node in
    if c.node_id == node && is_superseded c.reason then true else rest

unfoldable pub modifiers : Runtime → List Operation → List Text
modifiers rt [] = []
modifiers rt (o ∷ os) =
    (o.source_tool ++ codes " at " ++ rt.to_iso_string o.timestamp) ∷ modifiers rt os

unfoldable pub add_superseded : Runtime → Snapshot → List Operation → List Conflict → List Conflict
add_superseded rt s os conflicts =
    if is_empty os || has_superseded conflicts s.node_id
    then conflicts
    else conflicts ++ build_conflict s superseded_by_later_op (some (modifiers rt os)) ∷ []

module _ (rt : Runtime) (db : Database) (op : Text) (in_call : List Text) where
  unfoldable pub check_later : Snapshot → List Conflict → List Conflict
  check_later s conflicts = add_superseded rt s (superseding db op s.node_id in_call) conflicts

  -- What one round adds for a node that is there, or is not
  unfoldable pub check_node : Snapshot → Option Node → List Conflict → List Conflict
  check_node s none conflicts =
      if is_taken_by_other s.node_id (find_path db.nodes s.file_path)
      then conflicts ++ build_conflict s path_occupied none ∷ []
      else check_later s conflicts
  check_node s (some n) conflicts = check_later s (
      if hashes_differ s.post_mutation_hash n.content_hash
      then conflicts ++ build_conflict s modified_after_operation none ∷ []
      else conflicts)

  unfoldable pub check_snapshot : Snapshot → List Conflict → List Conflict
  check_snapshot s conflicts =
      if s.was_deleted then conflicts else check_node s (find_node db.nodes s.node_id) conflicts

  unfoldable pub detect_from : List Snapshot → List Conflict → List Conflict
  detect_from [] conflicts = conflicts
  detect_from (s ∷ ss) conflicts = detect_from ss (check_snapshot s conflicts)

  unfoldable pub detect_conflicts : List Snapshot → List Conflict
  detect_conflicts ss = detect_from ss []

pub data Resolution : Type 0 where
  revert skip : Resolution

pub record Buckets : Type 0 where
  pub creates : List Snapshot
  pub updates : List Snapshot
  pub deletes : List Snapshot
  pub skipped : ℕ

abbrev pub is_revert : Option Resolution → Bool
is_revert none = false
is_revert (some revert) = true
is_revert (some skip) = false

abbrev skip_count : Option Resolution → ℕ
skip_count (some skip) = 1
skip_count _ = 0

abbrev pub node_ids : List Conflict → List Text
node_ids [] = []
node_ids (c ∷ cs) = c.node_id ∷ node_ids cs

-- A snapshot of the operation goes into the bucket of what it needs.
abbrev place : Snapshot → Option Node → Buckets → Buckets
place s there b = if s.was_deleted then record b { deletes = s ∷ b.deletes } else elim there [
  | none ↦ record b { creates = s ∷ b.creates }
  | some n ↦ record b { updates = s ∷ b.updates }
]

unfoldable pub fill_buckets : Database → List Text → Dict Resolution → List Snapshot → Buckets
fill_buckets db conflicted resolutions [] = record {
  creates = [];
  updates = [];
  deletes = [];
  skipped = 0;
}
fill_buckets db conflicted resolutions (s ∷ ss) =
    let rest = fill_buckets db conflicted resolutions ss in
    let resolution = Dict.get resolutions s.node_id in
    if Dict.contains conflicted s.node_id && not (is_revert resolution)
    then record rest { skipped = skip_count resolution + rest.skipped }
    else place s (find_node db.nodes s.node_id) rest

unfoldable pub restored_fields : (Text → Value) → List NodeField → Dict Value → Dict Value
restored_fields parse [] m = m
restored_fields parse (r ∷ rows) m =
    restored_fields parse rows (Dict.set m r.field_name (reconstruct_value parse r.columns))

abbrev or_nothing {ℓ} : {A : Type ℓ} → Option (List A) → List A
or_nothing none = []
or_nothing (some xs) = xs

abbrev proposal : (Text → Value) → Snapshot → List Text → ProposedMutation
proposal parse s types = record {
  source = WriteSource.undo;
  node_id = some s.node_id;
  file_path = s.file_path;
  title = or_nothing s.title;
  types = types;
  fields = restored_fields parse (or_nothing s.fields) [];
  body = or_nothing s.body;
  raw_field_texts = [];
  source_content_hash = none;
  db_only = true;
  expected_version = none;
}

-- What `restoreCreate` and `restoreUpdate` propose, none where the snapshot holds no types.
unfoldable pub restoring_mutation : (Text → Value) → Snapshot → Option ProposedMutation
restoring_mutation parse s = elim s.types [
  | none ↦ none
  | some types ↦ some (proposal parse s types)
]
