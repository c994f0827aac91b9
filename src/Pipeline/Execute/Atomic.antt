-- ===== src/Pipeline/Execute/Atomic.antt =====
-- What `executeMutation` (src/pipeline/execute.ts) leaves behind where it throws or finds all as it is.
use vault_engine.Base.{
  Text, Bool, true, false, ◌&&◌, Option, none, some, [], ◌∷◌, ◌++◌, ◌≡◌, ◌⊎◌, refl, sym, ap, subst,
  ◌∙◌, inl, inr, Option-cases, eq_iff, arith,
}
use vault_engine.Store.{Node, Database, Snapshot, find_node}
use vault_engine.Pipeline.World.{
  Env, World, ProposedMutation, PipelineResult, Failure, returned, thrown, constraint_failed,
  safe_vault_path, read_file_or_null, has_hash,
}
use vault_engine.Pipeline.Snapshot.{
  Captured, captured, not_captured, with_snapshots, find_snapshot, delete_snapshot,
}
use vault_engine.Pipeline.Snapshot.Capture.{delete_snapshot-inserted, snapshot_id}
use vault_engine.Pipeline.Execute.{
  captured_for, row_of, is_noop, is_stored, result_for, without_capture, put_file, execute_mutation,
}
use vault_engine.Pipeline.Execute.Rows.{Draft, id_for}
use vault_engine.Pipeline.Execute.Cases.{
  execute-cases, IsDrafted, returned-injective, stored_result, captured_for-cases,
}

and-true : (a b : Bool) → a && b ≡ true → (a ≡ true) × (b ≡ true)
and-true a b h = ground (arith, h)

module _ (env : Env) (m : ProposedMutation) (op : Option Text) where
  has_hash-some :
      (o : Option Text) (hash : Text)
      → has_hash env.sha256 hash o ≡ true
      → (content : Text) × (o ≡ some content) × (env.sha256 content ≡ hash)
  unfolding has_hash
  has_hash-some none hash h = ground (arith, h)
  has_hash-some (some content) hash h = (content, refl, (eq_iff (env.sha256 content) hash).0 h)

  -- What an error leaves of the world.
  abbrev pub IsAtomic : World → World → Failure → Type 0
  IsAtomic w after e =
      (after.db ≡ w.db)
      × (((after.files ≡ w.files) × (after.rollbacks ≡ w.rollbacks)) ⊎ (e ≡ constraint_failed))

  -- A call that throws leaves the database as it was; it leaves the files and the pending rollbacks too,
  -- unless a constraint of the database failed.
  pub execute-IsAtomic :
      (w : World) (e : Failure)
      → (execute_mutation env m op w).1 ≡ thrown e
      → IsAtomic w (execute_mutation env m op w).0 e
  unfolding put_file
  execute-IsAtomic w e =
      execute-cases env m op (λ r. r.1 ≡ thrown e → IsAtomic w r.0 e) w
        (λ f h. (refl, inl (refl, refl))) (λ h. ground (arith, h))
        (λ d c drafted at_c at_db found h. ground (arith, h)) (λ d h. (refl, inl (refl, refl)))
        (λ d drafted nothing h. (refl, inr (ground (arith, h))))
        (λ d db drafted current stored h. ground (arith, h))

  is_stored-row :
      (o : Option Node) (hash : Text)
      → is_stored env m op o hash ≡ true
      → (n : Node) × (o ≡ some n) × (n.content_hash ≡ some hash)
  is_stored-row none hash h = ground (arith, h)
  is_stored-row (some n) hash h = elim (Option-cases n.content_hash) [
    | inl e ↦ ground (arith, rw e at h)
    | inr (k, e) ↦ (n, refl, e ∙ ap some ((eq_iff k hash).0 (rw e at h)))
  ]

  row_of-some :
      (db : Database) (o : Option Text) (n : Node)
      → row_of db o ≡ some n
      → (id : Text) × (o ≡ some id) × (find_node db.nodes id ≡ some n)
  unfolding row_of
  row_of-some db none n h = ground (arith, h)
  row_of-some db (some id) n h = (id, refl, h)

  without_capture-none :
      (db : Database) (o : Option Text) → without_capture env m op (not_captured db) o ≡ db
  unfolding without_capture
  without_capture-none db none = refl
  without_capture-none db (some o) = refl

  without_capture-new :
      (db : Database) (s : Snapshot)
      → s.node_id ≡ id_for env m
      → find_snapshot db.undo_snapshots s.operation_id s.node_id ≡ none
      → without_capture env m op (captured db s) (some s.operation_id) ≡ db
  unfolding without_capture
  without_capture-new db s at_node first =
      ap (λ id. with_snapshots db (delete_snapshot (db.undo_snapshots ++ s ∷ []) s.operation_id id))
        (sym at_node)
      ∙ ap (λ ss. with_snapshots db ss) (delete_snapshot-inserted db.undo_snapshots s first)

  pub id_for-some : (id : Text) → m.node_id ≡ some id → id_for env m ≡ id
  unfolding id_for
  id_for-some id e = ap (λ (o : Option Text). elim o [ none ↦ env.nanoid | some i ↦ i ]) e

  without_capture-lem :
      (w : World) (c : Captured) (id : Text)
      → captured_for w.db m op ≡ some c
      → m.node_id ≡ some id
      → without_capture env m op c op ≡ w.db
  without_capture-lem w c id at_c at_id =
      captured_for-cases (λ k. without_capture env m op k op ≡ w.db) w.db m op c at_c
        (without_capture-none w.db op)
        (λ s at_op at_node first.
          ap (λ o. without_capture env m op (captured w.db s) o) at_op
          ∙ without_capture-new w.db s
              (at_node ∙ ap (λ o. snapshot_id o m.file_path) at_id ∙ sym (id_for-some id at_id))
              first)

  -- The world is as it was, and its file and the row of its node have the hash already.
  abbrev pub IsUnchanged : World → World → PipelineResult → Type 0
  IsUnchanged w after r =
      (after ≡ w)
      × ((path : Text) × (content : Text) × (safe_vault_path env m.file_path ≡ returned path)
          × (read_file_or_null w.files path ≡ some content)
          × (env.sha256 content ≡ r.rendered_hash))
      × ((id : Text) × (n : Node) × (m.node_id ≡ some id)
          × (find_node w.db.nodes id ≡ some n)
          × (n.content_hash ≡ some r.rendered_hash))

  captured_for-nodes :
      (w : World) (c : Captured) → captured_for w.db m op ≡ some c → c.db.nodes ≡ w.db.nodes
  captured_for-nodes w c at_c =
      captured_for-cases (λ k. k.db.nodes ≡ w.db.nodes) w.db m op c at_c refl
        (λ s at_op at_node first. refl)

  pub is_noop-IsUnchanged :
      (w : World) (d : Draft) (c : Captured)
      → IsDrafted env m op w d
      → captured_for w.db m op ≡ some c
      → d.db ≡ c.db
      → is_noop env m op d ≡ true
      → IsUnchanged w
          (record w { db = without_capture env m op c op })
          (result_for env m op d (id_for env m) d.rendered_hash 0 false)
  unfolding is_noop result_for
  is_noop-IsUnchanged w d c drafted at_c at_db found =
      let (on_disk, in_row) = and-true _ _ found in
      let (content, at_content, same) = has_hash-some d.existing d.rendered_hash on_disk in
      let (n, at_row, at_hash) = is_stored-row (row_of d.db m.node_id) d.rendered_hash in_row in
      let (id, at_id, at_node) = row_of-some d.db m.node_id n at_row in
      (
        ap (λ db. record w { db = db }) (without_capture-lem w c id at_c at_id),
        (d.path, content, drafted.at_path, sym drafted.at_existing ∙ at_content, same),
        (
          id,
          n,
          at_id,
          ap (λ ns. find_node ns id) (sym (ap (λ db. db.nodes) at_db ∙ captured_for-nodes w c at_c))
              ∙ at_node,
          at_hash,
        ),
      )

  -- A write that returns without having written its file, and was not told to leave the file, has changed
  -- nothing, the undo snapshots included; the file and the row of the node have the returned hash already.
  pub execute-IsUnchanged :
      (w : World) (r : PipelineResult)
      → (execute_mutation env m op w).1 ≡ returned r
      → r.file_written ≡ false
      → m.db_only ≡ false
      → IsUnchanged w (execute_mutation env m op w).0 r
  unfolding result_for
  execute-IsUnchanged w r h unwritten both =
      execute-cases env m op (λ x. x.1 ≡ returned r → IsUnchanged w x.0 r) w
        (λ e h. ground (arith, h)) (λ h. ground (arith, h))
        (λ d c drafted at_c at_db found h.
          subst (λ q. IsUnchanged w (record w { db = without_capture env m op c op }) q)
            (returned-injective _ r h) (is_noop-IsUnchanged w d c drafted at_c at_db found))
        (λ d h. ground (arith, h)) (λ d drafted nothing h. ground (arith, h))
        (λ d db drafted current stored h. ground (
          arith,
          both,
          unwritten,
          ap (λ q. q.file_written) (returned-injective (stored_result env m op d) r h),
        ))
        h
