-- ===== src/Pipeline/Delete/Gone.antt =====
-- What `executeDeletion` (src/pipeline/delete.ts) leaves of a node, and of the others.
use vault_engine.Base.{
  Text, Bool, true, false, not, Option, none, some, List, [], ◌∷◌, ◌++◌, ◌≡◌, refl, sym, ap, subst,
  ◌∙◌, inl, inr, Bool-cases, Option-cases, filter, if◌then◌else◌, ◌==◌, eq_iff, eq_refl, arith,
}
use vault_engine.Base.Dict
use vault_engine.Base.Dict.{Dict}
use vault_engine.Store.{
  Node, NodeField, Relationship, Database, find_node, types_of, fields_of, links_of, HasSameNode,
}
use vault_engine.Resolver.Refresh.{update_where, assign, assign_if, resolves_to}
use vault_engine.Pipeline.World.{
  Env, World, Failure, Outcome, returned, thrown, diverges, stale_node, constraint_failed,
  safe_vault_path,
}
use vault_engine.Sync.WriteLock.{with_lock, acquire}
use vault_engine.Pipeline.Snapshot.{Captured, not_captured, node_snapshot, with_snapshots}
use vault_engine.Pipeline.Snapshot.Capture.{insert_snapshot-cases, some-injective}
use vault_engine.Pipeline.Execute.Rows.Links.{update_where-links, filter-links}
use vault_engine.Pipeline.Execute.Rows.Upsert.{types_of-filter, fields_of-filter}
use vault_engine.Pipeline.Delete.{
  ProposedDeletion, DeletionResult, delete_node, is_stale, captured_before, deletion_row,
  delete_rows, log_deletion, delete_in_database, remove_file, execute_deletion, unlink,
  unlink_locked, deletion_result, delete_row, behind, remove_at, expected_or_zero,
}

has-delete {ℓ} : {V : Type ℓ} (m : Dict V) (k : Text) → Dict.has (Dict.delete m k) k ≡ false
unfolding Dict.has
has-delete m k = ground (arith, Dict.get-delete m k k, eq_refl k)

find_node-filter :
    (id : Text) (nodes : List Node) (q : Text)
    → find_node (filter (λ n. not (n.id == id)) nodes) q
      ≡ (if id == q then none else find_node nodes q)
unfolding find_node
find_node-filter id [] q = ground arith
find_node-filter id (n ∷ ns) q =
    ground (arith, find_node-filter id ns q, eq_iff n.id id, eq_iff n.id q, eq_iff id q)

fields_of-filter_self :
    (id : Text) (rows : List NodeField)
    → fields_of (filter (λ f. not (f.node_id == id)) rows) id ≡ []
unfolding fields_of
fields_of-filter_self id [] = refl
fields_of-filter_self id (r ∷ rows) = ground (arith, fields_of-filter_self id rows)

links_of-filter_self :
    (id : Text) (rs : List Relationship)
    → links_of (filter (λ r. not (r.source_id == id)) rs) id ≡ []
unfolding links_of
links_of-filter_self id [] = refl
links_of-filter_self id (r ∷ rs) = ground (arith, links_of-filter_self id rs)

assign_by :
    (id : Text) (b : Bool) (r : Relationship)
    → resolves_to id r ≡ b
    → resolves_to id (if b then assign none r else r) ≡ false
assign_by id true r h = refl
assign_by id false r h = h

resolves-assign :
    (id : Text) (r : Relationship) → resolves_to id (assign_if (resolves_to id) none r) ≡ false
resolves-assign id r = assign_by id (resolves_to id r) r refl

unresolved :
    (id : Text) (rs : List Relationship)
    → filter (resolves_to id) (update_where (resolves_to id) none rs) ≡ []
unfolding update_where
unresolved id [] = refl
unresolved id (r ∷ rs) = rw (resolves-assign id r) (unresolved id rs)

-- The node has no row in `nodes`, `node_types`, `node_fields`, `relationships` and `nodes_fts`, and no
-- link resolves to it.
abbrev pub IsGone : Text → Database → Type 0
IsGone id db =
    (find_node db.nodes id ≡ none)
    × (types_of db.node_types id ≡ [])
    × (fields_of db.node_fields id ≡ [])
    × (links_of db.relationships id ≡ [])
    × (filter (resolves_to id) db.relationships ≡ [])
    × (Dict.has db.nodes_fts id ≡ false)

delete_node-IsGone :
    (id : Text) (db : Database) → Dict.has db.nodes_fts id ≡ false → IsGone id (delete_node id db)
unfolding delete_node
delete_node-IsGone id db indexed = (
  find_node-filter id db.nodes id ∙ rw (eq_refl id) refl,
  types_of-filter id db.node_types id ∙ rw (eq_refl id) refl,
  fields_of-filter_self id db.node_fields,
  update_where-links id (resolves_to id) none _ ∙ links_of-filter_self id db.relationships,
  unresolved id (filter (λ r. not (r.source_id == id)) db.relationships),
  indexed,
)

delete_node-HasSameNode :
    (id : Text) (db : Database) (q : Text) → id == q ≡ false → HasSameNode q (delete_node id db) db
unfolding delete_node
delete_node-HasSameNode id db q other = (
  find_node-filter id db.nodes q ∙ rw other refl,
  types_of-filter id db.node_types q ∙ rw other refl,
  fields_of-filter id db.node_fields q other,
  update_where-links q (resolves_to id) none _ ∙ filter-links q id other db.relationships,
)

module _ (env : Env) (del : ProposedDeletion) (op : Option Text) where
  unlink-db : (path : Text) (w : World) → (unlink env del op path w).0.db ≡ w.db
  unfolding unlink
  unlink-db path w = elim (Bool-cases (Dict.has w.files path)) [
    | inl e ↦ elim (Option-cases (env.unlink_error path)) [
      | inl f ↦ rw (e, f) refl
      | inr (error, f) ↦ rw (e, f) refl
    ]
    | inr e ↦ rw e refl
  ]

  remove_at-db : (w : World) (o : Outcome Text) → (remove_at env del op w o).0.db ≡ w.db
  unfolding remove_at unlink_locked with_lock
  remove_at-db w (returned path) = unlink-db path (record w { locks = acquire w.locks path })
  remove_at-db w (thrown e) = refl
  remove_at-db w diverges = refl

  if-db :
      (b : Bool) (x y : World × Outcome DeletionResult) (db : Database)
      → x.0.db ≡ db
      → y.0.db ≡ db
      → (if b then x else y).0.db ≡ db
  if-db true x y db f g = f
  if-db false x y db f g = g

  remove_file-db : (w : World) → (remove_file env del op w).0.db ≡ w.db
  unfolding remove_file
  remove_file-db w =
      if-db del.unlink_file _ _ w.db (remove_at-db w (safe_vault_path env del.file_path)) refl

  execute_deletion-cases {ℓ} :
      (P : World × Outcome DeletionResult → Type ℓ) (w : World)
      → (find_node w.db.nodes del.node_id ≡ none
          → P (w, returned (deletion_result env del op false none)))
      → ((e : Failure) → P (w, thrown e))
      → ((n : Node) (c : Captured)
          → find_node w.db.nodes del.node_id ≡ some n
          → is_stale env del op n ≡ false
          → captured_before env del op w.db n ≡ some c
          → P (remove_file env del op (record w { db = delete_rows env del op c.db })))
      → P (execute_deletion env del op w)
  unfolding execute_deletion delete_row behind delete_in_database
  execute_deletion-cases P w absent th fine =
      elim (Option-cases (find_node w.db.nodes del.node_id)) [
        | inl e ↦ rw e (absent e)
        | inr (n, e) ↦ elim (Bool-cases (is_stale env del op n)) [
          | inl stale ↦
              rw (e, stale)
                (th (
                  stale_node del.node_id (expected_or_zero env del op del.expected_version)
                    n.version))
          | inr current ↦ elim (Option-cases (captured_before env del op w.db n)) [
            | inl broken ↦ rw (e, current, broken) (th constraint_failed)
            | inr (c, at_c) ↦ rw (e, current, at_c) (fine n c e current at_c)
          ]
        ]
      ]

  captured_before-rows :
      (db : Database) (n : Node) (c : Captured)
      → captured_before env del op db n ≡ some c
      → with_snapshots c.db db.undo_snapshots ≡ db
  unfolding captured_before
  captured_before-rows db n c h = elim (Option-cases op) [
    | inl e ↦
        ap (λ (k : Captured). with_snapshots k.db db.undo_snapshots)
          (sym (some-injective (not_captured db) c (rw (e, captured_before) at h)))
    | inr (o, e) ↦
        insert_snapshot-cases (λ k. with_snapshots k.db db.undo_snapshots ≡ db) db
          (node_snapshot db o n) c (rw (e, captured_before) at h) refl (λ first. refl)
  ]

  -- Where a node was there and its deletion returns, none of the tables `nodes`, `node_types`,
  -- `node_fields`, `relationships` (by its source) and `nodes_fts` has a row of it any more, no link
  -- resolves to it, and the log has one entry more, on its deletion. (The call may have stored an undo
  -- snapshot of it.)
  pub execute_deletion-IsGone :
      (w : World) (n : Node) (r : DeletionResult)
      → find_node w.db.nodes del.node_id ≡ some n
      → (execute_deletion env del op w).1 ≡ returned r
      → IsGone del.node_id (execute_deletion env del op w).0.db
        × ((execute_deletion env del op w).0.db.edits_log
            ≡ w.db.edits_log ++ deletion_row env del op ∷ [])
  unfolding delete_rows delete_node log_deletion
  execute_deletion-IsGone w n r there h =
      execute_deletion-cases
        (λ x.
          x.1 ≡ returned r
          → IsGone del.node_id x.0.db
            × (x.0.db.edits_log ≡ w.db.edits_log ++ deletion_row env del op ∷ []))
        w (λ e h. ground (arith, sym e ∙ there)) (λ e h. ground (arith, h))
        (λ k c at_k current at_c h.
          let same = remove_file-db (record w { db = delete_rows env del op c.db }) in
          (
            subst (λ db. IsGone del.node_id db) (sym same)
                (delete_node-IsGone del.node_id (log_deletion env del op c.db)
                  (has-delete c.db.nodes_fts del.node_id)),
            ap (λ (db : Database). db.edits_log) same
                ∙ ap (λ (db : Database). db.edits_log ++ deletion_row env del op ∷ [])
                    (captured_before-rows w.db k c at_c),
          ))
        h

  pub execute_deletion-HasSameNode :
      (w : World) (q : Text)
      → del.node_id == q ≡ false
      → HasSameNode q (execute_deletion env del op w).0.db w.db
  unfolding delete_rows log_deletion
  execute_deletion-HasSameNode w q other =
      execute_deletion-cases (λ x. HasSameNode q x.0.db w.db) w (λ e. (refl, refl, refl, refl))
        (λ e. (refl, refl, refl, refl))
        (λ k c at_k current at_c.
          subst (λ db. HasSameNode q db w.db)
            (sym (remove_file-db (record w { db = delete_rows env del op c.db })))
            (subst (λ db. HasSameNode q (delete_rows env del op c.db) db)
              (captured_before-rows w.db k c at_c)
              (delete_node-HasSameNode del.node_id (log_deletion env del op c.db) q other)))
