-- ===== src/Lib.antt =====
-- A model of vault-engine: a vault of markdown files whose front matter is held in a database, typed by
-- schemas and kept up with the files.
--
-- Types claim global fields. A write merges the claims of a node's types (src/validation/merge.ts) into
-- effective fields, checks and coerces the proposed values against them (validate.ts, coerce.ts), fills
-- in defaults (resolve-default.ts), sums up what the caller can fix (fixable.ts), and stores and logs the
-- outcome (src/pipeline). The resolver (src/resolver) turns the raw targets of links into nodes and keeps
-- the stored resolutions up when nodes come or are renamed. The watcher's events go through a mutex and
-- the program's own writes through a lock (src/sync).
--
-- Files and what they model:
--   Base                        shared helpers: Boolean tests, lists, JavaScript strings as lists of UTF-16
--                               units, maps as association lists in insertion order, stable sorting,
--                               lists in which no text stands twice
--   Value                       the values of YAML and JSON, with numbers as the bits of a double, and the
--                               parts of the runtime that are parameters
--   Store                       the tables of src/db/schema.ts and the undo tables of migrate.ts
--   Validation/Types            src/validation/types.ts
--   Validation/Coerce           src/validation/coerce.ts
--   Validation/Merge            src/validation/merge.ts
--   Validation/ResolveDefault   src/validation/resolve-default.ts
--   Validation/Validate         src/validation/validate.ts
--   Validation/Fixable          src/validation/fixable.ts
--   Validation/Conformance      src/validation/conformance.ts
--   Resolver                    src/resolver/candidate-keys.ts, resolve.ts and refresh.ts
--   Sync/Mutex, Sync/WriteLock  src/sync/mutex.ts and write-lock.ts
--   Schema/Paths, Schema/Diff   src/schema/paths.ts, and diffClaims of propagate.ts
--   GlobalFields/UiHints        src/global-fields/ui-hints.ts
--   GlobalFields/Crud           src/global-fields/crud.ts; TypeChange is its change of a field's type
--   Pipeline                    src/pipeline/classify-value.ts, edits-log.ts and relationships.ts
--   Pipeline/World              what a write works on: the proposal, database, files, locks and errors
--   Pipeline/Execute            src/pipeline/execute.ts, with the rows of its last stage in Execute/Rows,
--                               stage 3 in Absorb, the undo snapshots in Snapshot, computeFieldOrdering
--                               in FieldOrdering and schema-context.ts in SchemaContext
--   Pipeline/Delete             src/pipeline/delete.ts
--   Undo                        src/undo/operation.ts and cleanup.ts, and of restore.ts the conflicts and
--                               the choice of what is restored
--   Renderer                    src/renderer/render.ts
--   Search/Chunker              pack of src/search/chunker.ts
--   Examples                    a concrete runtime and data for every theorem
--
-- A function keeps its name in snake case (coerceValue is coerce_value); a loop is a function by
-- recursion on its list, with what one round adds as a function of its own (field_outcome,
-- fixable_entry). coerce_value runs on fuel, one unit for each level of calls: a list calls it for its
-- items, which takes two levels. Errors are values of the result types. Conversions of the platform that
-- throw (String on an object with a toString of its own, toISOString on an invalid date) are total here.
-- A `Date` before 1970 is no value of the model.
-- Tables of the database are lists of rows, and a transaction is one function on them. The mutex is a
-- state machine whose steps are what runs between two turns of the event loop.
--
-- A write takes a world to a world and an outcome: a result, an error, or no end, where a coercion has no
-- fuel. The stages before the write give a draft; the write puts the file and then the rows.
--
-- Parameters: Unicode case and normalisation, number and date conversion, JSON text, node:path, LOWER of
-- SQLite, chrono-node, the clock and the local calendar, SHA-256, YAML text, the links in a body, nanoid, and
-- which paths can be written or unlinked.
--
-- Not modelled: SQL text and migrations, the file system beyond the contents of files, the protocol handlers
-- and the user interface, authentication, document extraction and embeddings, which are input and output or
-- calls of services; and the splits of the chunker, the restoring of undone operations, the indexer, and the
-- watcher.
pub mod Base
pub mod Value
pub mod Store
pub mod Validation
pub mod Resolver
pub mod Sync
pub mod Schema
pub mod GlobalFields
pub mod Pipeline
pub mod Undo
pub mod Examples
pub mod Renderer
pub mod Search
