-- ===== src/Undo/Operation.antt =====
-- src/undo/operation.ts: the log of operations. Times are time values; the texts of `since` and `until`
-- are read as such before.
pub mod Listed
use vault_engine.Base.{
  ℕ, suc, max, Text, Bool, true, false, not, ◌&&◌, Option, none, some, List, [], ◌∷◌, ◌++◌, filter,
  length, take, leb, ltb, min, is_empty, if◌then◌else◌, ◌==◌,
}
use vault_engine.Base.Sort.{sort_by}
use vault_engine.Store.{Operation, Snapshot, Status, Database}

abbrev pub with_operations : Database → List Operation → Database
with_operations db os = record db { undo_operations = os }

-- `SELECT MAX(timestamp)`, or 0
unfoldable pub last_timestamp : List Operation → ℕ
last_timestamp [] = 0
last_timestamp (o ∷ os) = max o.timestamp (last_timestamp os)

unfoldable pub new_operation : Text → ℕ → Text → Text → Operation
new_operation id timestamp tool description = record {
  operation_id = id;
  timestamp = timestamp;
  source_tool = tool;
  description = description;
  node_count = 0;
  schema_count = 0;
  global_field_count = 0;
  status = Status.active;
}

-- `id` is what `nanoid` gives, `now` is `Date.now()`.
unfoldable pub create_operation : Database → Text → ℕ → Text → Text → Database
create_operation db id now tool description = with_operations db (
    db.undo_operations
    ++ new_operation id (max now (suc (last_timestamp db.undo_operations))) tool description ∷ [])

unfoldable pub update_operation : (Operation → Operation) → Text → List Operation → List Operation
update_operation f id [] = []
update_operation f id (o ∷ os) =
    (if o.operation_id == id then f o else o) ∷ update_operation f id os

-- `SELECT * FROM undo_snapshots WHERE operation_id = ?`
unfoldable pub get_snapshots : Database → Text → List Snapshot
get_snapshots db id = filter (λ s. s.operation_id == id) db.undo_snapshots

unfoldable pub finalize_operation : Database → Text → Database
finalize_operation db id = with_operations db (
    update_operation (λ o. record o { node_count = length (get_snapshots db id) }) id
      db.undo_operations)

unfoldable pub mark_undone : Database → Text → Database
mark_undone db id =
    with_operations db
      (update_operation (λ o. record o { status = Status.undone }) id db.undo_operations)

unfoldable pub find_operation : List Operation → Text → Option Operation
find_operation [] id = none
find_operation (o ∷ os) id =
    let rest = find_operation os id in if o.operation_id == id then some o else rest

unfoldable pub get_operation : Database → Text → Option Operation
get_operation db id = find_operation db.undo_operations id

pub data StatusFilter : Type 0 where
  all : StatusFilter
  only : Status → StatusFilter

pub record ListParams : Type 0 where
  pub since : Option ℕ
  pub until : Option ℕ
  pub source_tool : Option Text
  pub status : Option StatusFilter
  pub limit : Option ℕ

pub record ListResult : Type 0 where
  pub operations : List Operation
  pub truncated : Bool

abbrev pub status_eq : Status → Status → Bool
status_eq Status.active Status.active = true
status_eq Status.undone Status.undone = true
status_eq Status.expired Status.expired = true
status_eq _ _ = false

abbrev pub has_status : Option StatusFilter → Operation → Bool
has_status none o = status_eq o.status Status.active
has_status (some all) o = true
has_status (some (only s)) o = status_eq o.status s

-- An empty name filters nothing.
abbrev pub has_tool : Option Text → Operation → Bool
has_tool none o = true
has_tool (some t) o = if is_empty t then true else o.source_tool == t

abbrev pub is_since : Option ℕ → Operation → Bool
is_since none o = true
is_since (some t) o = leb t o.timestamp

abbrev pub is_until : Option ℕ → Operation → Bool
is_until none o = true
is_until (some t) o = leb o.timestamp t

-- The WHERE clause
unfoldable pub is_listed : ListParams → Operation → Bool
is_listed p o =
    has_status p.status o && has_tool p.source_tool o && is_since p.since o && is_until p.until o

abbrev limit_or_default : Option ℕ → ℕ
limit_or_default none = 20
limit_or_default (some n) = n

unfoldable pub limit_of : ListParams → ℕ
limit_of p = min (limit_or_default p.limit) 100

-- `ORDER BY timestamp DESC`
abbrev pub is_newer : Operation → Operation → Bool
is_newer a b = leb b.timestamp a.timestamp

-- One row more than the limit is read, to tell whether there is one.
unfoldable pub list_operations : Database → ListParams → ListResult
list_operations db p =
    let rows =
      take (suc (limit_of p)) (sort_by is_newer (filter (is_listed p) db.undo_operations)) in
    record { operations = take (limit_of p) rows; truncated = ltb (limit_of p) (length rows) }
