-- ===== src/Pipeline/Execute/Written.antt =====
-- What `executeMutation` (src/pipeline/execute.ts) has written where it returns.
use vault_engine.Base.{
  ℕ, suc, Text, true, false, Option, none, some, ◌≡◌, refl, sym, ap, subst, ◌∙◌, inl, inr,
  Bool-cases, Option-cases, if◌then◌else◌, ◌==◌, eq_refl, arith, eqb, eqb_iff,
}
use vault_engine.Store.{Node, Database, find_node, types_of, HasSameNode}
use vault_engine.Pipeline.World.{
  Env, World, ProposedMutation, PipelineResult, returned, thrown, stale_node, safe_vault_path,
  read_file_or_null, atomic_write_file,
}
use vault_engine.Pipeline.World.Files.{read-atomic_write_file}
use vault_engine.Pipeline.Snapshot.{Captured}
use vault_engine.Pipeline.Execute.Atomic.{id_for-some, is_noop-IsUnchanged}
use vault_engine.Pipeline.Execute.{
  captured_for, is_noop, row_of, result_for, put_file, check_version, write, execute_mutation,
  without_capture,
}
use vault_engine.Pipeline.Execute.Cases.{
  execute-cases, IsDrafted, returned-injective, stored_result, unlocked,
}
use vault_engine.Pipeline.Execute.Rows.{Draft, store_rows, id_for, content_hash_for}
use vault_engine.Pipeline.Execute.Rows.Upsert.{written_row, IsKeyed, written_row-fields}
use vault_engine.Pipeline.Execute.Stored.{
  drafted-db, find_node-stored, types_of-stored, others-stored, stored-IsKeyed,
}

module _ (env : Env) (m : ProposedMutation) (op : Option Text) where
  -- Behind a write of a file: the row of the node, its types and the file.
  pub record IsWritten (w after : World) (r : PipelineResult) : Type 0 where
    pub path : Text
    pub at_path : safe_vault_path env m.file_path ≡ returned path
    pub row : Node
    pub at_row : find_node after.db.nodes r.node_id ≡ some row
    pub at_file_path : row.file_path ≡ m.file_path
    pub at_title : row.title ≡ some m.title
    pub at_body : row.body ≡ some m.body
    pub at_hash : row.content_hash ≡ some r.rendered_hash
    pub at_types : types_of after.db.node_types r.node_id ≡ m.types
    pub content : Text
    pub at_content : read_file_or_null after.files path ≡ some content
    pub same_hash : env.sha256 content ≡ r.rendered_hash

  content_hash_for-file : (d : Draft) → m.db_only ≡ false → content_hash_for m d ≡ d.rendered_hash
  unfolding content_hash_for
  content_hash_for-file d both =
      ap
        (λ b.
          if b
          then elim m.source_content_hash [ none ↦ d.rendered_hash | some h ↦ h ]
          else d.rendered_hash)
        both

  pub read-put_file :
      (d : Draft) (w : World) (q : Text)
      → m.db_only ≡ false
      → read_file_or_null (put_file env m op d w).files q
        ≡ (if d.path == q then some d.content else read_file_or_null w.files q)
  unfolding put_file
  read-put_file d w q both =
      ap
        (λ b.
          read_file_or_null
            (if b then w.files else atomic_write_file env.clock.now w.files d.path d.content) q)
        both
      ∙ read-atomic_write_file env.clock.now w.files d.path d.content q

  stored-IsWritten :
      (w : World) (d : Draft) (db : Database)
      → IsDrafted env m op w d
      → store_rows env m op d ≡ some db
      → m.db_only ≡ false
      → IsWritten w
          (record (unlocked env m op (put_file env m op d w) d.path) { db = db })
          (stored_result env m op d)
  unfolding result_for
  stored-IsWritten w d db drafted stored both =
      let id = id_for env m in
      let o = find_node w.db.nodes id in
      let hash = content_hash_for m d in
      let fields = written_row-fields env m id hash o in
      record {
        path = d.path;
        at_path = drafted.at_path;
        row = written_row env m id hash o;
        at_row = find_node-stored env m op w d db drafted stored id ∙ rw (eq_refl id) refl;
        at_file_path = fields.0.0;
        at_title = fields.0.1;
        at_body = fields.1.0;
        at_hash = fields.1.1;
        at_types = types_of-stored env m op w d db drafted stored id ∙ rw (eq_refl id) refl;
        content = d.content;
        at_content = read-put_file d w d.path both ∙ rw (eq_refl d.path) refl;
        same_hash = sym drafted.at_hash ∙ sym (content_hash_for-file d both);
      }

  -- A write that says it wrote the file has done so: the row of the node has the proposed path, title and
  -- body and the hash that is returned, its types are the proposed ones, and the file at the node's path
  -- has a content with that hash.
  pub execute-IsWritten :
      (w : World) (r : PipelineResult)
      → (execute_mutation env m op w).1 ≡ returned r
      → r.file_written ≡ true
      → IsWritten w (execute_mutation env m op w).0 r
  unfolding result_for
  execute-IsWritten w r h written =
      execute-cases env m op (λ x. x.1 ≡ returned r → IsWritten w x.0 r) w
        (λ e h. ground (arith, h)) (λ h. ground (arith, h))
        (λ d c drafted at_c at_db found h.
          ground (arith, written, ap (λ q. q.file_written) (returned-injective _ r h)))
        (λ d h. ground (arith, h)) (λ d drafted nothing h. ground (arith, h))
        (λ d db drafted current stored h.
          let same = returned-injective (stored_result env m op d) r h in
          let both : m.db_only ≡ false = ground (arith, written, ap (λ q. q.file_written) same) in
          subst
            (λ q.
              IsWritten w (record (unlocked env m op (put_file env m op d w) d.path) { db = db }) q)
            same (stored-IsWritten w d db drafted stored both))
        h

  noop-db :
      (w : World) (d : Draft) (c : Captured)
      → IsDrafted env m op w d
      → captured_for w.db m op ≡ some c
      → d.db ≡ c.db
      → is_noop env m op d ≡ true
      → without_capture env m op c op ≡ w.db
  noop-db w d c drafted at_c at_db found =
      ap (λ (k : World). k.db) (is_noop-IsUnchanged env m op w d c drafted at_c at_db found).0

  -- Whatever a call of `executeMutation` does, another node keeps its row, types and fields, and its links
  -- but for what they resolve to.
  pub execute-HasSameNode :
      (w : World) (q : Text)
      → id_for env m == q ≡ false
      → HasSameNode q (execute_mutation env m op w).0.db w.db
  unfolding put_file
  execute-HasSameNode w q other =
      execute-cases env m op (λ x. HasSameNode q x.0.db w.db) w (λ e. (refl, refl, refl, refl))
        (refl, refl, refl, refl)
        (λ d c drafted at_c at_db found.
          subst (λ k. HasSameNode q k w.db) (sym (noop-db w d c drafted at_c at_db found))
            (refl, refl, refl, refl))
        (λ d. (refl, refl, refl, refl)) (λ d drafted nothing. (refl, refl, refl, refl))
        (λ d db drafted current stored.
          let (fields, links) = others-stored env m op w d db drafted stored q other in
          (
            find_node-stored env m op w d db drafted stored q ∙ rw other refl,
            types_of-stored env m op w d db drafted stored q ∙ rw other refl,
            fields,
            links,
          ))

  -- Whatever a call does, no id and no path stands twice among the nodes if none did before.
  pub execute-IsKeyed :
      (w : World) → IsKeyed w.db.nodes → IsKeyed (execute_mutation env m op w).0.db.nodes
  unfolding put_file
  execute-IsKeyed w keyed =
      execute-cases env m op (λ x. IsKeyed x.0.db.nodes) w (λ e. keyed) keyed
        (λ d c drafted at_c at_db found.
          subst (λ k. IsKeyed k.nodes) (sym (noop-db w d c drafted at_c at_db found)) keyed)
        (λ d. keyed) (λ d drafted nothing. keyed)
        (λ d db drafted current stored. stored-IsKeyed env m op w d db drafted stored keyed)

  -- No row had the id, or the row had the version that was expected; the version goes up by one.
  abbrev pub HasVersion : ℕ → Option Node → Option Node → Type 0
  HasVersion expected before none = ⊥
  HasVersion expected none (some n) = n.version ≡ 1
  HasVersion expected (some k) (some n) = (k.version ≡ expected) × (n.version ≡ suc expected)

  check_version-written :
      (d : Draft) (expected : ℕ) (id hash : Text)
      → m.node_id ≡ some id
      → m.expected_version ≡ some expected
      → check_version env m op d ≡ returned (write d)
      → HasVersion expected
          (find_node d.db.nodes id)
          (some (written_row env m id hash (find_node d.db.nodes id)))
  unfolding check_version row_of
  check_version-written d expected id hash at_id at_expected h =
      elim (Option-cases (find_node d.db.nodes id)) [
        | inl e ↦ rw e refl
        | inr (n, e) ↦ elim (Bool-cases (eqb n.version expected)) [
          | inl same ↦
              rw e
                ((eqb_iff n.version expected).0 same, ap suc ((eqb_iff n.version expected).0 same))
          | inr other ↦
              let there : row_of d.db m.node_id ≡ some n = ap (λ o. row_of d.db o) at_id ∙ e in
              let stale : check_version env m op d ≡ thrown (stale_node n.id expected n.version) =
                rw (at_expected, there, other) refl in
              ground (arith, sym stale ∙ h)
        ]
      ]

  -- Where a write of a given node expects a version and says it wrote the file, the node had no row, and
  -- has version 1 now, or it had the expected version, and has the next one now.
  pub execute-HasVersion :
      (w : World) (r : PipelineResult) (id : Text) (expected : ℕ)
      → (execute_mutation env m op w).1 ≡ returned r
      → r.file_written ≡ true
      → m.node_id ≡ some id
      → m.expected_version ≡ some expected
      → HasVersion expected
          (find_node w.db.nodes id)
          (find_node (execute_mutation env m op w).0.db.nodes id)
  unfolding result_for
  execute-HasVersion w r id expected h written at_id at_expected =
      execute-cases env m op
        (λ x.
          x.1 ≡ returned r
          → HasVersion expected (find_node w.db.nodes id) (find_node x.0.db.nodes id))
        w (λ e h. ground (arith, h)) (λ h. ground (arith, h))
        (λ d c drafted at_c at_db found h.
          ground (arith, written, ap (λ q. q.file_written) (returned-injective _ r h)))
        (λ d h. ground (arith, h)) (λ d drafted nothing h. ground (arith, h))
        (λ d db drafted current stored h.
          let hash = content_hash_for m d in
          let same : find_node d.db.nodes id ≡ find_node w.db.nodes id =
            ap (λ (k : Database). find_node k.nodes id) (drafted-db env m op w d drafted) in
          let row : find_node db.nodes id
              ≡ some (written_row env m id hash (find_node w.db.nodes id)) =
            find_node-stored env m op w d db drafted stored id
            ∙ ap
                (λ i.
                  if i == id
                  then some (written_row env m i hash (find_node w.db.nodes i))
                  else find_node w.db.nodes id)
                (id_for-some env m op id at_id)
            ∙ rw (eq_refl id) refl in
          subst (λ o. HasVersion expected (find_node w.db.nodes id) o) (sym row)
            (subst (λ o. HasVersion expected o (some (written_row env m id hash o))) same
              (check_version-written d expected id hash at_id at_expected current)))
        h
