-- ===== src/Undo/Cleanup.antt =====
-- src/undo/cleanup.ts: `runUndoCleanup`. The foreign key on `undo_operations` deletes the snapshots of the
-- operations that go. A cut-off before the time 0 is 0 here, as no operation is older.
pub mod Once
use vault_engine.Base.{
  ℕ, ◌-◌, ◌*◌, Text, Bool, true, false, not, ◌&&◌, ◌||◌, Option, none, some, List, [], ◌∷◌, filter,
  eqb, ltb, if◌then◌else◌,
}
use vault_engine.Store.{Operation, Snapshot, Status, Database}
use vault_engine.Undo.Operation.{status_eq}
use vault_engine.Pipeline.Snapshot.{has_operation}

pub record CleanupOptions : Type 0 where
  pub retention_hours : Option ℕ
  pub orphan_grace_ms : Option ℕ

abbrev or_default : Option ℕ → ℕ → ℕ
or_default none n = n
or_default (some k) n = k

unfoldable pub cutoff : CleanupOptions → ℕ → ℕ
cutoff opts now = now - or_default opts.retention_hours 24 * 60 * 60 * 1000

unfoldable pub orphan_cutoff : CleanupOptions → ℕ → ℕ
orphan_cutoff opts now = now - or_default opts.orphan_grace_ms 60000

abbrev pub is_old : ℕ → Status → Operation → Bool
is_old limit s o = status_eq o.status s && ltb o.timestamp limit

abbrev pub expire : ℕ → Operation → Operation
expire limit o = if is_old limit Status.active o then record o { status = Status.expired } else o

unfoldable pub expire_all : ℕ → List Operation → List Operation
expire_all limit [] = []
expire_all limit (o ∷ os) = expire limit o ∷ expire_all limit os

abbrev pub is_orphan : ℕ → Operation → Bool
is_orphan limit o =
    eqb o.node_count 0
    && eqb o.schema_count 0
    && eqb o.global_field_count 0
    && ltb o.timestamp limit

-- The four statements
unfoldable pub clean_operations : ℕ → ℕ → List Operation → List Operation
clean_operations limit orphan_limit os =
    let without_expired = filter (λ o. not (status_eq o.status Status.expired)) os in
    let flipped = expire_all limit without_expired in
    let without_undone = filter (λ o. not (is_old limit Status.undone o)) flipped in
    filter (λ o. not (is_orphan orphan_limit o)) without_undone

unfoldable pub run_undo_cleanup : Database → CleanupOptions → ℕ → Database
run_undo_cleanup db opts now =
    let os = clean_operations (cutoff opts now) (orphan_cutoff opts now) db.undo_operations in
    record db {
      undo_operations = os;
      undo_snapshots = filter (λ s. has_operation os s.operation_id) db.undo_snapshots;
    }
