-- ===== src/Pipeline/Execute/Cases.antt =====
-- The ways through `executeMutation` (src/pipeline/execute.ts), by which the laws go.
use vault_engine.Base.{
  Text, true, false, not, ◌||◌, Option, none, some, ◌≡◌, refl, sym, ap, subst, ◌⊎◌, inl, inr,
  Bool-cases, Option-cases, length, eqb, if◌then◌else◌, arith,
}
use vault_engine.Pipeline.World.{
  Env, World, ProposedMutation, PipelineResult, Failure, Outcome, returned, thrown, diverges,
  and_then, or_throw, or_diverge, constraint_failed, write_failed, validation_failed, stale_node,
  safe_vault_path, surroundings, read_file_or_null,
}
use vault_engine.Pipeline.SchemaContext.{load_schema_context}
use vault_engine.Pipeline.Snapshot.{Captured, captured, not_captured, find_snapshot}
use vault_engine.Pipeline.Snapshot.Capture.{capture-cases, snapshot_id, some-injective}
use vault_engine.Pipeline.Absorb.{Absorbed, is_re_render, absorb}
use vault_engine.Pipeline.Execute.{
  captured_for, row_of, file_context, validated, draft_for, is_noop, without_capture, result_for,
  write, check_version, put_file, write_draft, put_rows, next_step, planned_with, planned,
  write_locked, run_step, execute_mutation,
}
use vault_engine.Pipeline.Execute.Rows.{
  Draft, is_undo, id_for, content_hash_for, log_entries, store_rows,
}
use vault_engine.Store.{Database, Snapshot}
use vault_engine.Sync.WriteLock.{with_lock, acquire, release}
use vault_engine.Validation.Validate.{validate_proposed_state}
use vault_engine.Validation.Validate.Issues.{ValidationResult}

-- A chain goes on with a result, or ends in the error or in the loop.
and_then-cases {ℓ κ μ} :
    {A : Type ℓ} {B : Type κ} (P : Outcome B → Type μ) (o : Outcome A) (f : A → Outcome B)
    → ((e : Failure) → P (thrown e))
    → P diverges
    → ((a : A) → o ≡ returned a → P (f a))
    → P (and_then o f)
unfolding and_then
and_then-cases P (returned a) f th dv go = go a refl
and_then-cases P (thrown e) f th dv go = th e
and_then-cases P diverges f th dv go = dv

pub returned-injective {ℓ} : {A : Type ℓ} (a b : A) → returned a ≡ returned b → a ≡ b
returned-injective a b h = ap (λ (o : Outcome _). elim o [ returned x ↦ x | _ ↦ a ]) h

returned-or_throw {ℓ} :
    {A : Type ℓ} (e : Failure) (o : Option A) (a : A) → or_throw e o ≡ returned a → o ≡ some a
unfolding or_throw
returned-or_throw e o a h = ground (arith, h)

returned-or_diverge {ℓ} :
    {A : Type ℓ} (o : Option A) (a : A) → or_diverge o ≡ returned a → o ≡ some a
unfolding or_diverge
returned-or_diverge o a h = ground (arith, h)

module _ (env : Env) (m : ProposedMutation) (op : Option Text) where
  check_version-cases :
      (d : Draft)
      → (check_version env m op d ≡ returned (write d))
        ⊎ ((e : Failure) × (check_version env m op d ≡ thrown e))
  unfolding check_version
  check_version-cases d = elim (Option-cases m.expected_version) [
    | inl e ↦ inl (rw e refl)
    | inr (v, e) ↦ elim (Option-cases (row_of d.db m.node_id)) [
      | inl none_there ↦ inl (rw (e, none_there) refl)
      | inr (n, there) ↦ elim (Bool-cases (eqb n.version v)) [
        | inl same ↦ inl (rw (e, there, same) refl)
        | inr other ↦ inr (stale_node n.id v n.version, rw (e, there, other) refl)
      ]
    ]
  ]

  -- How a draft comes from the world and the proposal.
  pub record IsDrafted (w : World) (d : Draft) : Type 0 where
    pub at_path : safe_vault_path env m.file_path ≡ returned d.path
    pub at_capture : (c : Captured) × (captured_for w.db m op ≡ some c) × (d.db ≡ c.db)
    pub at_existing : d.existing ≡ read_file_or_null w.files d.path
    pub at_hash : d.rendered_hash ≡ env.sha256 d.content
    pub at_validation :
        validate_proposed_state
          (surroundings env)
          m.fields
          m.types
          (load_schema_context w.db m.types).claims_by_type
          (load_schema_context w.db m.types).global_fields
          (file_context w m.node_id d.path)
          (is_re_render m.source)
        ≡ some d.validation
    pub at_absorbed : absorb env.parse m d.db.node_fields d.validation ≡ some d.absorbed

  draft_for-IsDrafted :
      (w : World) (path : Text) (c : Captured) (v : ValidationResult) (a : Absorbed)
      → safe_vault_path env m.file_path ≡ returned path
      → captured_for w.db m op ≡ some c
      → validated env m op w path c (load_schema_context w.db m.types) ≡ returned v
      → absorb env.parse m c.db.node_fields v ≡ some a
      → IsDrafted w (draft_for env m op w path c (load_schema_context w.db m.types) v a)
  unfolding draft_for validated
  draft_for-IsDrafted w path c v a at_path at_c at_v at_a = record {
    at_path = at_path;
    at_capture = (c, at_c, refl);
    at_existing = refl;
    at_hash = refl;
    at_validation = returned-or_diverge _ v at_v;
    at_absorbed = at_a;
  }

  draft_for-db :
      (w : World) (path : Text) (c : Captured) (v : ValidationResult) (a : Absorbed)
      → (draft_for env m op w path c (load_schema_context w.db m.types) v a).db ≡ c.db
  unfolding draft_for
  draft_for-db w path c v a = refl

  -- The world with the lock on the path released again.
  abbrev pub unlocked : World → Text → World
  unlocked w path = record w { locks = release (acquire w.locks path) path }

  -- What is given back by a write that stores its rows.
  abbrev pub stored_result : Draft → PipelineResult
  stored_result d =
      result_for env m op d (id_for env m) (content_hash_for m d)
        (length (log_entries env.host.rt m d (id_for env m))) (not m.db_only)

  -- What holds of a file that cannot be written, of a constraint that fails and of rows that are stored,
  -- holds of every write.
  write_locked-cases {ℓ} :
      (P : World × Outcome PipelineResult → Type ℓ) (d : Draft) (w : World)
      → P (unlocked w d.path, thrown write_failed)
      → (store_rows env m op d ≡ none
          → P (unlocked (put_file env m op d w) d.path, thrown constraint_failed))
      → ((db : Database)
          → store_rows env m op d ≡ some db
          → P (
            record (unlocked (put_file env m op d w) d.path) { db = db },
            returned (stored_result d),
          ))
      → P (write_locked env m op d w)
  unfolding write_locked with_lock write_draft put_rows put_file
  write_locked-cases P d w failed broken fine =
      elim (Bool-cases (m.db_only || env.writable d.path)) [
        | inl can ↦ rw can elim (Option-cases (store_rows env m op d)) [
          | inl e ↦ rw (e, put_rows, if◌then◌else◌) (broken e)
          | inr (db, e) ↦ rw (e, put_rows, if◌then◌else◌) (fine db e)
        ]
        | inr cannot ↦ rw cannot failed
      ]

  module _ {ℓ} (P : World × Outcome PipelineResult → Type ℓ) (w : World) where
    -- What holds of an error before the write, of a loop, of a write that finds all as it is, and of the
    -- three ends of a write, holds of every call.
    pub execute-cases :
        ((e : Failure) → P (w, thrown e))
        → P (w, diverges)
        → ((d : Draft) (c : Captured)
            → IsDrafted w d
            → captured_for w.db m op ≡ some c
            → d.db ≡ c.db
            → is_noop env m op d ≡ true
            → P (
              record w { db = without_capture env m op c op },
              returned (result_for env m op d (id_for env m) d.rendered_hash 0 false),
            ))
        → ((d : Draft) → P (unlocked w d.path, thrown write_failed))
        → ((d : Draft)
            → IsDrafted w d
            → store_rows env m op d ≡ none
            → P (unlocked (put_file env m op d w) d.path, thrown constraint_failed))
        → ((d : Draft) (db : Database)
            → IsDrafted w d
            → check_version env m op d ≡ returned (write d)
            → store_rows env m op d ≡ some db
            → P (
              record (unlocked (put_file env m op d w) d.path) { db = db },
              returned (stored_result d),
            ))
        → P (execute_mutation env m op w)
    unfolding execute_mutation planned planned_with next_step run_step
    execute-cases th dv same failed broken fine =
        and_then-cases (λ o. P (run_step env m op w o)) (safe_vault_path env m.file_path) _ th dv
          λ path at_path.
            and_then-cases (λ o. P (run_step env m op w o))
              (or_throw constraint_failed (captured_for w.db m op)) _ th dv
              λ c at_c.
                and_then-cases (λ o. P (run_step env m op w o))
                  (validated env m op w path c (load_schema_context w.db m.types)) _ th dv
                  λ v at_v.
                    and_then-cases (λ o. P (run_step env m op w o))
                      (or_throw (validation_failed v) (absorb env.parse m c.db.node_fields v)) _ th
                      dv
                      λ a at_a.
                        let d =
                          draft_for env m op w path c (load_schema_context w.db m.types) v a in
                        let drafted =
                          draft_for-IsDrafted w path c v a at_path (returned-or_throw _ _ c at_c)
                            at_v (returned-or_throw _ _ a at_a) in
                        elim (Bool-cases (is_noop env m op d)) [
                          | inl found ↦ rw found (
                              same d c drafted (returned-or_throw _ _ c at_c)
                                (draft_for-db w path c v a) found)
                          | inr other ↦ rw other elim (check_version-cases d) [
                            | inl current ↦ rw current (
                                write_locked-cases P d w (failed d) (broken d drafted)
                                  (λ db. fine d db drafted current))
                            | inr (e, stale) ↦ rw stale (th e)
                          ]
                        ]

-- The database with its snapshot differs from the one before by that snapshot, the first of its kind.
pub captured_for-cases {ℓ} :
    (P : Captured → Type ℓ) (db : Database) (m : ProposedMutation) (op : Option Text) (c : Captured)
    → captured_for db m op ≡ some c
    → P (not_captured db)
    → ((s : Snapshot)
        → op ≡ some s.operation_id
        → s.node_id ≡ snapshot_id m.node_id m.file_path
        → find_snapshot db.undo_snapshots s.operation_id s.node_id ≡ none
        → P (captured db s))
    → P c
unfolding captured_for
captured_for-cases P db m none c h same new = subst P (some-injective (not_captured db) c h) same
captured_for-cases P db m (some op) c h same new = elim (Bool-cases (is_undo m.source)) [
  | inl e ↦ subst P (some-injective (not_captured db) c (rw (e, captured_for) at h)) same
  | inr e ↦
      capture-cases P db op m.node_id m.file_path c (rw (e, captured_for) at h) same
        λ s at_op. new s (ap some (sym at_op))
]

-- A capture leaves every table but its own.
pub captured_for-rows :
    (db : Database) (m : ProposedMutation) (op : Option Text) (c : Captured)
    → captured_for db m op ≡ some c
    → record c.db { undo_snapshots = db.undo_snapshots } ≡ db
captured_for-rows db m op c h =
    captured_for-cases (λ k. record k.db { undo_snapshots = db.undo_snapshots } ≡ db) db m op c h
      refl (λ s at_op at_node first. refl)
