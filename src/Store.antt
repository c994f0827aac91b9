-- ===== src/Store.antt =====
-- src/db/schema.ts and the undo tables of migrate.ts: the tables that the writes go to, as lists of rows
-- in the order of insertion. JSON columns hold the values that are written to them. The rows of
-- `nodes_fts` have the rowid of a node; here they have its id.
use vault_engine.Base.{
  ℕ, Text, Bool, ◌&&◌, Option, none, some, List, [], ◌∷◌, filter, if◌then◌else◌, ◌==◌, ◌≡◌,
}
use vault_engine.Base.Dict.{Dict}
use vault_engine.Value.{Value}
use vault_engine.Validation.Types.{GlobalFieldDefinition, FieldClaim, FieldType}
use vault_engine.GlobalFields.UiHints.{UiHints}
use vault_engine.Pipeline.ClassifyValue.{FieldColumns}
use vault_engine.Pipeline.EditsLog.{EditsLogEntry}

pub record Node : Type 0 where
  pub id : Text
  pub file_path : Text
  pub title : Option Text
  pub body : Option Text
  pub content_hash : Option Text
  pub file_mtime : ℕ
  pub indexed_at : ℕ
  pub created_at : Option ℕ
  pub version : ℕ

pub record NodeType : Type 0 where
  pub node_id : Text
  pub schema_type : Text
  pub sort_order : ℕ

pub record NodeField : Type 0 where
  pub node_id : Text
  pub field_name : Text
  pub columns : FieldColumns
  pub value_raw_text : Option Text

-- none is NULL.
pub record Relationship : Type 0 where
  pub id : ℕ
  pub source_id : Text
  pub target : Text
  pub rel_type : Text
  pub context : Text
  pub resolved_target_id : Option Text

pub record FtsRow : Type 0 where
  pub title : Text
  pub body : Text

pub data DeletionSource : Type 0 where
  tool watcher reconciler full_index batch undo : DeletionSource

-- The entries of `edits_log`, by their `event_type`.
pub data LogEvent : Type 0 where
  deviates : EditsLogEntry → LogEvent
  file_deleted : Text → DeletionSource → Option Text → LogEvent
  value_removed : FieldType → FieldType → Text → Value → Text → LogEvent

pub record LogRow : Type 0 where
  pub node_id : Text
  pub timestamp : ℕ
  pub event : LogEvent

-- What a snapshot keeps of a relationship.
pub record LinkShape : Type 0 where
  pub target : Text
  pub rel_type : Text
  pub context : Text

pub record Snapshot : Type 0 where
  pub operation_id : Text
  pub node_id : Text
  pub file_path : Text
  pub title : Option Text
  pub body : Option Text
  pub types : Option (List Text)
  pub fields : Option (List NodeField)
  pub relationships : Option (List LinkShape)
  pub was_deleted : Bool
  pub post_mutation_hash : Option Text

pub data Status : Type 0 where
  active undone expired : Status

pub record Operation : Type 0 where
  pub operation_id : Text
  pub timestamp : ℕ
  pub source_tool : Text
  pub description : Text
  pub node_count : ℕ
  pub schema_count : ℕ
  pub global_field_count : ℕ
  pub status : Status

pub record GlobalField : Type 0 where
  pub definition : GlobalFieldDefinition
  pub ui_hints : Option UiHints

pub record Database : Type 0 where
  pub nodes : List Node
  pub node_types : List NodeType
  pub node_fields : List NodeField
  pub relationships : List Relationship
  pub next_relationship : ℕ
  pub nodes_fts : Dict FtsRow
  pub edits_log : List LogRow
  pub undo_operations : List Operation
  pub undo_snapshots : List Snapshot
  pub global_fields : List GlobalField
  pub schema_field_claims : List FieldClaim

-- `SELECT … FROM nodes WHERE id = ?`
unfoldable pub find_node : List Node → Text → Option Node
find_node [] id = none
find_node (n ∷ ns) id = if n.id == id then some n else find_node ns id

-- `SELECT … FROM nodes WHERE file_path = ?`
unfoldable pub find_path : List Node → Text → Option Node
find_path [] path = none
find_path (n ∷ ns) path = if n.file_path == path then some n else find_path ns path

-- `SELECT schema_type FROM node_types WHERE node_id = ?`
unfoldable pub types_of : List NodeType → Text → List Text
types_of [] id = []
types_of (t ∷ ts) id = if t.node_id == id then t.schema_type ∷ types_of ts id else types_of ts id

-- `SELECT … FROM node_fields WHERE node_id = ?`
unfoldable pub fields_of : List NodeField → Text → List NodeField
fields_of rows id = filter (λ r. r.node_id == id) rows

unfoldable pub find_field : List NodeField → Text → Text → Option NodeField
find_field [] id name = none
find_field (r ∷ rows) id name =
    if r.node_id == id && r.field_name == name then some r else find_field rows id name

-- `SELECT target, rel_type, context FROM relationships WHERE source_id = ?`
unfoldable pub links_of : List Relationship → Text → List LinkShape
links_of [] id = []
links_of (r ∷ rs) id =
    let rest = links_of rs id in
    if r.source_id == id
    then record { target = r.target; rel_type = r.rel_type; context = r.context } ∷ rest
    else rest

-- The rows of a node, its fields and its links but for what they resolve to
abbrev pub HasSameNode : Text → Database → Database → Type 0
HasSameNode q a b =
    (find_node a.nodes q ≡ find_node b.nodes q)
    × (types_of a.node_types q ≡ types_of b.node_types q)
    × (fields_of a.node_fields q ≡ fields_of b.node_fields q)
    × (links_of a.relationships q ≡ links_of b.relationships q)
