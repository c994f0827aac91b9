-- ===== src/Pipeline/Execute/Rows.antt =====
-- src/pipeline/execute.ts, stage 6: the rows of a write.
pub mod Frame
pub mod Links
pub mod Upsert
use vault_engine.Base.{
  ℕ, suc, ◌+◌, Text, Bool, true, false, not, ◌&&◌, ◌||◌, Option, none, some, List, [], ◌∷◌, ◌++◌,
  filter, length, if◌then◌else◌, ◌==◌,
}
use vault_engine.Base.Dict
use vault_engine.Base.Dict.{Dict}
use vault_engine.Value.{Value, Runtime, is_null}
use vault_engine.Store.{
  Node, NodeType, NodeField, Relationship, LogEvent, LogRow, Database, find_node,
}
use vault_engine.Resolver.{Host}
use vault_engine.Resolver.Refresh.{refresh_on_create, refresh_on_rename}
use vault_engine.Resolver.Resolve.{ResolvedTarget, resolve_target}
use vault_engine.Validation.Types.{GlobalFieldDefinition}
use vault_engine.Validation.Validate.{defaulted_fields_from}
use vault_engine.Validation.Validate.Issues.{ValidationResult}
use vault_engine.Pipeline.ClassifyValue.{classify_value}
use vault_engine.Pipeline.EditsLog.{WriteSource, EditsLogEntry, build_deviation_entries}
use vault_engine.Pipeline.Relationships.{DerivedRelationship, derive_relationships}
use vault_engine.Pipeline.World.{Env, ProposedMutation}
use vault_engine.Pipeline.Absorb.{Absorbed}
use vault_engine.Pipeline.Snapshot.{with_snapshots, finalize_snapshots, pending}

-- What the stages before the write have worked out; `db` has the snapshot.
pub record Draft : Type 0 where
  pub db : Database
  pub path : Text
  pub existing : Option Text
  pub global_fields : Dict GlobalFieldDefinition
  pub validation : ValidationResult
  pub absorbed : Absorbed
  pub orphan_raw_values : Dict Text
  pub content : Text
  pub rendered_hash : Text

abbrev pub is_undo : WriteSource → Bool
is_undo WriteSource.undo = true
is_undo _ = false

abbrev pub is_there : Option Node → Bool
is_there none = false
is_there (some n) = true

-- An undo that brings a deleted node back gives its id.
unfoldable pub is_create : Database → ProposedMutation → Bool
is_create db m = elim m.node_id [
  | none ↦ true
  | some id ↦ is_undo m.source && not (is_there (find_node db.nodes id))
]

unfoldable pub id_for : Env → ProposedMutation → Text
id_for env m = elim m.node_id [ none ↦ env.nanoid | some id ↦ id ]

unfoldable pub same_title : Option Text → Text → Bool
same_title none title = false
same_title (some t) title = t == title

unfoldable pub is_moved : ProposedMutation → Option Node → Bool
is_moved m none = false
is_moved m (some prior) =
    not (prior.file_path == m.file_path) || not (same_title prior.title m.title)

unfoldable pub is_rename : Env → Database → ProposedMutation → Bool
is_rename env db m = not (is_create db m) && is_moved m (find_node db.nodes (id_for env m))

unfoldable pub content_hash_for : ProposedMutation → Draft → Text
content_hash_for m d =
    if m.db_only
    then elim m.source_content_hash [ none ↦ d.rendered_hash | some hash ↦ hash ]
    else d.rendered_hash

module _ (env : Env) (m : ProposedMutation) where
  abbrev pub new_row : Text → Text → Node
  new_row id hash = record {
    id = id;
    file_path = m.file_path;
    title = some m.title;
    body = some m.body;
    content_hash = some hash;
    file_mtime = env.clock.now;
    indexed_at = env.clock.now;
    created_at = some env.clock.now;
    version = 1;
  }

  abbrev pub changed_row : Text → Node → Node
  changed_row hash n = record n {
    file_path = m.file_path;
    title = some m.title;
    body = some m.body;
    content_hash = some hash;
    file_mtime = env.clock.now;
    indexed_at = env.clock.now;
    version = suc n.version;
  }

  unfoldable pub put_row : Text → Text → List Node → List Node
  put_row id hash [] = new_row id hash ∷ []
  put_row id hash (n ∷ ns) =
      let rest = put_row id hash ns in if n.id == id then changed_row hash n ∷ ns else n ∷ rest

-- Another node has the path, which is UNIQUE.
unfoldable pub path_taken : Text → Text → List Node → Bool
path_taken id path [] = false
path_taken id path (n ∷ ns) =
    let rest = path_taken id path ns in
    if n.file_path == path && not (n.id == id) then true else rest

-- `INSERT INTO nodes … ON CONFLICT(id) DO UPDATE`; none where a constraint fails
unfoldable pub upsert_node : Env → ProposedMutation → Text → Text → List Node → Option (List Node)
upsert_node env m id hash nodes =
    if path_taken id m.file_path nodes then none else some (put_row env m id hash nodes)

abbrev pub type_row : Text → ℕ → Text → NodeType
type_row id i type = record { node_id = id; schema_type = type; sort_order = i }

unfoldable pub type_rows : Text → ℕ → List Text → List NodeType
type_rows id i [] = []
type_rows id i (type ∷ types) = type_row id i type ∷ type_rows id (suc i) types

-- A type that stands twice breaks the primary key.
unfoldable pub has_twice : List Text → Bool
has_twice [] = false
has_twice (x ∷ xs) = let rest = has_twice xs in if Dict.contains xs x then true else rest

unfoldable pub replace_types : Text → List Text → List NodeType → Option (List NodeType)
replace_types id types rows =
    if has_twice types
    then none
    else some (filter (λ r. not (r.node_id == id)) rows ++ type_rows id 0 types)

abbrev or_text : Option Text → Option Text → Option Text
or_text none t = t
or_text (some s) t = some s

-- `value_raw_text`, which only orphans have
unfoldable pub raw_text_for : ProposedMutation → Draft → Text → Option Text
raw_text_for m d name =
    if Dict.contains d.validation.orphan_fields name
    then or_text (Dict.get d.absorbed.raw_texts name) (Dict.get m.raw_field_texts name)
    else none

unfoldable pub field_rows : Runtime → ProposedMutation → Draft → Text → Dict Value → List NodeField
field_rows rt m d id [] = []
field_rows rt m d id ((name, v) ∷ fields) =
    let rest = field_rows rt m d id fields in
    if is_null v
    then rest
    else record {
      node_id = id;
      field_name = name;
      columns = classify_value rt v;
      value_raw_text = raw_text_for m d name;
    }
      ∷ rest

-- The keys of an object are distinct, so the primary key of `node_fields` holds.
unfoldable pub replace_fields :
    Runtime → ProposedMutation → Draft → Text → List NodeField → List NodeField
replace_fields rt m d id rows =
    filter (λ r. not (r.node_id == id)) rows ++ field_rows rt m d id d.absorbed.fields

abbrev pub found_id : Option ResolvedTarget → Option Text
found_id none = none
found_id (some t) = some t.id

unfoldable pub has_link : Text → DerivedRelationship → List Relationship → Bool
has_link id l [] = false
has_link id l (r ∷ rs) =
    let rest = has_link id l rs in
    if r.source_id == id && r.target == l.target && r.rel_type == l.rel_type then true else rest

-- `INSERT OR IGNORE INTO relationships`
unfoldable pub insert_link : Host → Text → DerivedRelationship → Database → Database
insert_link h id l db = if has_link id l db.relationships then db else record db {
  relationships =
      db.relationships
      ++ record {
        id = db.next_relationship;
        source_id = id;
        target = l.target;
        rel_type = l.rel_type;
        context = l.context;
        resolved_target_id = found_id (resolve_target h db l.target);
      }
        ∷ [];
  next_relationship = suc db.next_relationship;
}

unfoldable pub insert_links : Host → Text → List DerivedRelationship → Database → Database
insert_links h id [] db = db
insert_links h id (l ∷ ls) db = insert_links h id ls (insert_link h id l db)

unfoldable pub replace_links : Host → Text → List DerivedRelationship → Database → Database
replace_links h id ls db =
    insert_links h id ls
      (record db { relationships = filter (λ r. not (r.source_id == id)) db.relationships })

unfoldable pub replace_fts : ProposedMutation → Text → Database → Database
replace_fts m id db = elim (find_node db.nodes id) [
  | none ↦ db
  | some n ↦ record db {
    nodes_fts =
        Dict.set (Dict.delete db.nodes_fts id) id (record { title = m.title; body = m.body });
  }
]

unfoldable pub log_rows : ℕ → List EditsLogEntry → List LogRow
log_rows now [] = []
log_rows now (e ∷ es) =
    record { node_id = e.node_id; timestamp = now; event = LogEvent.deviates e } ∷ log_rows now es

-- `writeEditsLogEntries`
unfoldable pub write_edits_log_entries : ℕ → List EditsLogEntry → Database → Database
write_edits_log_entries now es db = record db { edits_log = db.edits_log ++ log_rows now es }

abbrev non_empty {ℓ} : {A : Type ℓ} → List A → Option (List A)
non_empty [] = none
non_empty (x ∷ xs) = some (x ∷ xs)

unfoldable pub log_entries : Runtime → ProposedMutation → Draft → Text → List EditsLogEntry
log_entries rt m d id =
    build_deviation_entries rt id m.source d.validation.coerced_state d.validation.issues m.types
      (non_empty d.absorbed.retained) (non_empty (defaulted_fields_from d.validation))

unfoldable pub refresh : Env → ProposedMutation → Draft → Text → Database → Database
refresh env m d id db =
    if is_create d.db m
    then refresh_on_create env.host db id
    else if is_rename env d.db m
    then refresh_on_rename env.host db id
    else db

-- The undo snapshot gets the hash, and the id of a node that is created.
unfoldable pub finalize : Option Text → ProposedMutation → Draft → Text → Text → Database → Database
finalize none m d id hash db = db
finalize (some op) m d id hash db =
    if is_undo m.source
    then db
    else with_snapshots db (
        finalize_snapshots db.undo_snapshots op
          (if is_create d.db m then pending m.file_path else id) id hash)

-- The first statements; those on `nodes` and `node_types` can fail.
unfoldable pub start_rows : Env → ProposedMutation → Draft → List Node → List NodeType → Database
start_rows env m d nodes types = record d.db {
  nodes = nodes;
  node_types = types;
  node_fields = replace_fields env.host.rt m d (id_for env m) d.db.node_fields;
}

unfoldable pub derived : Env → ProposedMutation → Draft → List DerivedRelationship
derived env m d =
    derive_relationships env.host.rt env.body_links d.absorbed.fields m.body d.global_fields
      d.orphan_raw_values

-- The statements behind them
unfoldable pub fill_in : Env → ProposedMutation → Option Text → Draft → Database → Database
fill_in env m op d start =
    let id = id_for env m in
    let linked = replace_links env.host id (derived env m d) start in
    let searchable = replace_fts m id linked in
    let logged =
      write_edits_log_entries env.clock.now (log_entries env.host.rt m d id) searchable in
    finalize op m d id (content_hash_for m d) (refresh env m d id logged)

-- none where a constraint fails
unfoldable pub store_rows : Env → ProposedMutation → Option Text → Draft → Option Database
store_rows env m op d = elim (upsert_node env m (id_for env m) (content_hash_for m d) d.db.nodes) [
  | none ↦ none
  | some nodes ↦ elim (replace_types (id_for env m) m.types d.db.node_types) [
    | none ↦ none
    | some types ↦ some (fill_in env m op d (start_rows env m d nodes types))
  ]
]
