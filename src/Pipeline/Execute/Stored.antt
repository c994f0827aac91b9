-- ===== src/Pipeline/Execute/Stored.antt =====
-- The rows behind `executeMutation` (src/pipeline/execute.ts).
use vault_engine.Base.{
  Text, false, Option, some, List, ◌≡◌, sym, ap, subst, ◌∙◌, inl, inr, Option-cases, if◌then◌else◌,
  ◌==◌,
}
use vault_engine.Store.{Node, NodeType, Database, find_node, types_of, fields_of, links_of}
use vault_engine.Pipeline.World.{Env, World, ProposedMutation}
use vault_engine.Pipeline.Snapshot.{with_snapshots}
use vault_engine.Pipeline.Snapshot.Capture.{some-injective, none-absurd}
use vault_engine.Pipeline.Execute.Cases.{IsDrafted, captured_for-rows}
use vault_engine.Pipeline.Execute.Rows.{
  Draft, store_rows, start_rows, fill_in, id_for, content_hash_for, upsert_node, replace_types,
}
use vault_engine.Pipeline.Execute.Rows.Frame.{fill_in-rows}
use vault_engine.Pipeline.Execute.Rows.Links.{fill_in-links}
use vault_engine.Pipeline.Execute.Rows.Upsert.{
  written_row, types_of-replace_types, upsert_node-IsKeyed, IsKeyed, find_node-upsert_node,
  fields_of-replace_fields,
}

module _ (env : Env) (m : ProposedMutation) (op : Option Text) where
  -- The rows that are put, and the database behind the last statement.
  store_rows-some :
      (d : Draft) (db : Database)
      → store_rows env m op d ≡ some db
      → (nodes : List Node) × (types : List NodeType) × (upsert_node env m
            (id_for env m)
            (content_hash_for m d)
            d.db.nodes
          ≡ some nodes)
        × (replace_types (id_for env m) m.types d.db.node_types ≡ some types)
        × (fill_in env m op d (start_rows env m d nodes types) ≡ db)
  unfolding store_rows
  store_rows-some d db h =
      elim (Option-cases (upsert_node env m (id_for env m) (content_hash_for m d) d.db.nodes)) [
        | inl e ↦ none-absurd db (rw (e, store_rows) at h)
        | inr (nodes, at_nodes) ↦
            elim (Option-cases (replace_types (id_for env m) m.types d.db.node_types)) [
              | inl e ↦ none-absurd db (rw (at_nodes, e, store_rows) at h)
              | inr (types, at_types) ↦ (
                nodes,
                types,
                at_nodes,
                at_types,
                some-injective _ db (rw (at_nodes, at_types, store_rows) at h),
              )
            ]
      ]

  pub drafted-db :
      (w : World) (d : Draft)
      → IsDrafted env m op w d
      → with_snapshots d.db w.db.undo_snapshots ≡ w.db
  drafted-db w d drafted =
      let (c, at_c, at_db) = drafted.at_capture in
      ap (λ (k : Database). with_snapshots k w.db.undo_snapshots) at_db
      ∙ captured_for-rows w.db m op c at_c

  module _ (w : World) (d : Draft) (db : Database) (drafted : IsDrafted env m op w d)
      (stored : store_rows env m op d ≡ some db) where
    pub find_node-stored :
        (q : Text)
        → find_node db.nodes q ≡ (
            if id_for env m == q
            then some (
                written_row env m
                  (id_for env m)
                  (content_hash_for m d)
                  (find_node w.db.nodes (id_for env m)))
            else find_node w.db.nodes q)
    unfolding start_rows
    find_node-stored q =
        let (nodes, types, at_nodes, at_types, at_db) = store_rows-some d db stored in
        ap (λ (k : Database). find_node k.nodes q) (sym at_db)
        ∙ ap (λ ns. find_node ns q) (fill_in-rows env m op d (start_rows env m d nodes types)).0
        ∙ find_node-upsert_node env m (id_for env m) (content_hash_for m d) d.db.nodes nodes q
            at_nodes
        ∙ ap
            (λ (k : Database).
              if id_for env m == q
              then some (
                  written_row env m (id_for env m) (content_hash_for m d)
                    (find_node k.nodes (id_for env m)))
              else find_node k.nodes q)
            (drafted-db w d drafted)

    pub types_of-stored :
        (q : Text)
        → types_of db.node_types q
          ≡ (if id_for env m == q then m.types else types_of w.db.node_types q)
    unfolding start_rows
    types_of-stored q =
        let (nodes, types, at_nodes, at_types, at_db) = store_rows-some d db stored in
        ap (λ (k : Database). types_of k.node_types q) (sym at_db)
        ∙ ap (λ ts. types_of ts q) (fill_in-rows env m op d (start_rows env m d nodes types)).1
        ∙ types_of-replace_types (id_for env m) m.types d.db.node_types types q at_types
        ∙ ap (λ (k : Database). if id_for env m == q then m.types else types_of k.node_types q)
            (drafted-db w d drafted)

    pub others-stored :
        (q : Text)
        → id_for env m == q ≡ false
        → (fields_of db.node_fields q ≡ fields_of w.db.node_fields q)
          × (links_of db.relationships q ≡ links_of w.db.relationships q)
    unfolding start_rows
    others-stored q other =
        let (nodes, types, at_nodes, at_types, at_db) = store_rows-some d db stored in
        let start = start_rows env m d nodes types in
        (
          ap (λ (k : Database). fields_of k.node_fields q) (sym at_db)
              ∙ ap (λ ts. fields_of ts q) (fill_in-rows env m op d start).2
              ∙ fields_of-replace_fields env.host.rt m d (id_for env m) d.db.node_fields q other
              ∙ ap (λ (k : Database). fields_of k.node_fields q) (drafted-db w d drafted),
          ap (λ (k : Database). links_of k.relationships q) (sym at_db)
              ∙ fill_in-links env m op d start q other
              ∙ ap (λ (k : Database). links_of k.relationships q) (drafted-db w d drafted),
        )

    pub stored-IsKeyed : IsKeyed w.db.nodes → IsKeyed db.nodes
    unfolding start_rows
    stored-IsKeyed keyed =
        let (nodes, types, at_nodes, at_types, at_db) = store_rows-some d db stored in
        subst (λ (k : Database). IsKeyed k.nodes) at_db
          (subst IsKeyed (sym (fill_in-rows env m op d (start_rows env m d nodes types)).0) (
            upsert_node-IsKeyed env m (id_for env m) (content_hash_for m d) d.db.nodes nodes
              at_nodes
              (subst (λ (k : Database). IsKeyed k.nodes) (sym (drafted-db w d drafted)) keyed)))
