-- ===== src/Pipeline/World.antt =====
-- What a write works on (src/pipeline/types.ts, safe-path.ts, file-writer.ts): the proposal, the database,
-- the files by absolute path, and the calls of the platform, which are parameters. One call reads the
-- clock once and asks `nanoid` once, for an id that no row has.
pub mod Files
use vault_engine.Base.{
  ℕ, Text, Bool, true, false, not, ◌&&◌, ◌||◌, Option, none, some, List, [], ◌∷◌, ◌++◌, starts_with,
  if◌then◌else◌, ◌==◌,
}
use vault_engine.Base.Dict
use vault_engine.Base.Dict.{Dict}
use vault_engine.Value.{Value, Runtime}
use vault_engine.Store.{Database}
use vault_engine.Resolver.{Host}
use vault_engine.Validation.Coerce.Dates.{Chrono}
use vault_engine.Validation.ResolveDefault.{Clock}
use vault_engine.Validation.Validate.{Surroundings}
use vault_engine.Validation.Validate.Issues.{ValidationResult}
use vault_engine.Pipeline.EditsLog.{WriteSource}
use vault_engine.Pipeline.Relationships.{BodyLink}
use vault_engine.Sync.WriteLock.{Locks}

-- `writable` tells the paths whose directories can be made and written to; `unlink_error` is the error, but
-- for a missing file, with which a file cannot be unlinked.
pub record Env : Type 0 where
  pub host : Host
  pub chrono : Chrono
  pub clock : Clock
  pub fuel : ℕ
  pub sha256 : Text → Text
  pub stringify_yaml : Dict Value → Text
  pub try_parse : Text → Option Value
  pub parse : Text → Value
  pub body_links : Text → List BodyLink
  pub resolve : Text → Text → Text
  pub resolve_root : Text → Text
  pub sep : Text
  pub vault_path : Text
  pub writable : Text → Bool
  pub nanoid : Text
  pub unlink_error : Text → Option Text

abbrev pub surroundings : Env → Surroundings
surroundings env = record {
  fuel = env.fuel;
  rt = env.host.rt;
  chrono = env.chrono;
  clock = env.clock;
}

pub record File : Type 0 where
  pub content : Text
  pub mtime : ℕ

-- What `fsRollback` holds of a write: the path, the content before it, and the hash it wrote.
pub record Rollback : Type 0 where
  pub path : Text
  pub previous : Option Text
  pub rendered_hash : Text

pub record World : Type 0 where
  pub db : Database
  pub files : Dict File
  pub locks : Locks
  pub rollbacks : List Rollback

-- A missing `raw_field_texts` is an empty one; both read alike.
pub record ProposedMutation : Type 0 where
  pub source : WriteSource
  pub node_id : Option Text
  pub file_path : Text
  pub title : Text
  pub types : List Text
  pub fields : Dict Value
  pub body : Text
  pub raw_field_texts : Dict Text
  pub source_content_hash : Option Text
  pub db_only : Bool
  pub expected_version : Option ℕ

pub record PipelineResult : Type 0 where
  pub node_id : Text
  pub file_path : Text
  pub validation : ValidationResult
  pub rendered_hash : Text
  pub edits_logged : ℕ
  pub file_written : Bool

-- The errors: the path escapes the vault, `PipelineError`, `StaleNodeError`, a constraint of the database,
-- and a file that cannot be written.
pub data Failure : Type 0 where
  path_escapes : Text → Failure
  validation_failed : ValidationResult → Failure
  stale_node : Text → ℕ → ℕ → Failure
  constraint_failed write_failed : Failure

-- A coercion that does not return diverges.
pub data Outcome {ℓ} (A : Type ℓ) : Type ℓ where
  returned : A → Outcome A
  thrown : Failure → Outcome A
  diverges : Outcome A

unfoldable pub and_then {ℓ κ} : {A : Type ℓ} {B : Type κ} → Outcome A → (A → Outcome B) → Outcome B
and_then (returned a) f = f a
and_then (thrown e) f = thrown e
and_then diverges f = diverges

unfoldable pub or_throw {ℓ} : {A : Type ℓ} → Failure → Option A → Outcome A
or_throw e none = thrown e
or_throw e (some a) = returned a

unfoldable pub or_diverge {ℓ} : {A : Type ℓ} → Option A → Outcome A
or_diverge none = diverges
or_diverge (some a) = returned a

unfoldable pub safe_vault_path : Env → Text → Outcome Text
safe_vault_path env relative =
    let root = env.resolve_root env.vault_path in
    let resolved = env.resolve root relative in
    if not (resolved == root) && not (starts_with resolved (root ++ env.sep))
    then thrown (path_escapes relative)
    else returned resolved

abbrev pub content_or_none : Option File → Option Text
content_or_none none = none
content_or_none (some f) = some f.content

unfoldable pub read_file_or_null : Dict File → Text → Option Text
read_file_or_null files path = content_or_none (Dict.get files path)

-- The rename of the temporary file is all or nothing.
unfoldable pub atomic_write_file : ℕ → Dict File → Text → Text → Dict File
atomic_write_file now files path content =
    Dict.set files path (record { content = content; mtime = now })

unfoldable pub restore_content : ℕ → Dict File → Text → Option Text → Dict File
restore_content now files path none = Dict.delete files path
restore_content now files path (some content) = atomic_write_file now files path content

unfoldable pub has_hash : (Text → Text) → Text → Option Text → Bool
has_hash sha256 hash none = false
has_hash sha256 hash (some content) = sha256 content == hash

-- The closure that `executeMutation` pushes: it leaves a file alone that was changed since.
unfoldable pub roll_back : Env → Rollback → Dict File → Dict File
roll_back env r files =
    if has_hash env.sha256 r.rendered_hash (read_file_or_null files r.path)
    then restore_content env.clock.now files r.path r.previous
    else files
