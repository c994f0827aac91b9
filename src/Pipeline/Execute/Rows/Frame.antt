-- ===== src/Pipeline/Execute/Rows/Frame.antt =====
-- What the statements of a write (src/pipeline/execute.ts, stage 6) leave alone.
use vault_engine.Base.{
  ℕ, Text, not, Option, none, some, List, [], ◌∷◌, ◌≡◌, refl, ◌∙◌, inl, inr, Bool-cases,
  Option-cases, ◌==◌, filter,
}
use vault_engine.Store.{Database, find_node}
use vault_engine.Resolver.{Host}
use vault_engine.Resolver.Refresh.{refresh_on_create, refresh_on_rename}
use vault_engine.Pipeline.Relationships.{DerivedRelationship}
use vault_engine.Pipeline.EditsLog.{EditsLogEntry}
use vault_engine.Pipeline.World.{Env, ProposedMutation}
use vault_engine.Pipeline.Execute.Rows.{
  Draft, is_undo, is_create, is_rename, insert_link, insert_links, replace_links, replace_fts,
  has_link, write_edits_log_entries, refresh, finalize, fill_in, id_for, derived, log_entries,
  content_hash_for,
}

-- The rows of the nodes, their types and their fields are the same.
abbrev pub HasSameRows : Database → Database → Type 0
HasSameRows a b =
    (a.nodes ≡ b.nodes) × (a.node_types ≡ b.node_types) × (a.node_fields ≡ b.node_fields)

trans_rows : (a b c : Database) → HasSameRows a b → HasSameRows b c → HasSameRows a c
trans_rows a b c (n, t, f) (n', t', f') = (n ∙ n', t ∙ t', f ∙ f')

insert_link-rows :
    (h : Host) (id : Text) (l : DerivedRelationship) (db : Database)
    → HasSameRows (insert_link h id l db) db
unfolding insert_link
insert_link-rows h id l db = elim (Bool-cases (has_link id l db.relationships)) [
  | inl e ↦ rw e (refl, refl, refl)
  | inr e ↦ rw e (refl, refl, refl)
]

insert_links-rows :
    (h : Host) (id : Text) (ls : List DerivedRelationship) (db : Database)
    → HasSameRows (insert_links h id ls db) db
unfolding insert_links
insert_links-rows h id [] db = (refl, refl, refl)
insert_links-rows h id (l ∷ ls) db =
    trans_rows (insert_links h id ls (insert_link h id l db)) (insert_link h id l db) db
      (insert_links-rows h id ls (insert_link h id l db)) (insert_link-rows h id l db)

replace_links-rows :
    (h : Host) (id : Text) (ls : List DerivedRelationship) (db : Database)
    → HasSameRows (replace_links h id ls db) db
unfolding replace_links
replace_links-rows h id ls db =
    insert_links-rows h id ls
      (record db { relationships = filter (λ r. not (r.source_id == id)) db.relationships })

replace_fts-rows :
    (m : ProposedMutation) (id : Text) (db : Database) → HasSameRows (replace_fts m id db) db
unfolding replace_fts
replace_fts-rows m id db = elim (Option-cases (find_node db.nodes id)) [
  | inl e ↦ rw (e, replace_fts) (refl, refl, refl)
  | inr (n, e) ↦ rw (e, replace_fts) (refl, refl, refl)
]

refresh-rows :
    (env : Env) (m : ProposedMutation) (d : Draft) (id : Text) (db : Database)
    → HasSameRows (refresh env m d id db) db
unfolding refresh refresh_on_create refresh_on_rename
refresh-rows env m d id db = elim (Bool-cases (is_create d.db m)) [
  | inl e ↦ rw e (refl, refl, refl)
  | inr e ↦ elim (Bool-cases (is_rename env d.db m)) [
    | inl r ↦ rw (e, r) (refl, refl, refl)
    | inr r ↦ rw (e, r) (refl, refl, refl)
  ]
]

finalize-rows :
    (op : Option Text) (m : ProposedMutation) (d : Draft) (id hash : Text) (db : Database)
    → HasSameRows (finalize op m d id hash db) db
unfolding finalize
finalize-rows none m d id hash db = (refl, refl, refl)
finalize-rows (some op) m d id hash db = elim (Bool-cases (is_undo m.source)) [
  | inl e ↦ rw e (refl, refl, refl)
  | inr e ↦ rw e (refl, refl, refl)
]

write_edits_log_entries-rows :
    (now : ℕ) (es : List EditsLogEntry) (db : Database)
    → HasSameRows (write_edits_log_entries now es db) db
unfolding write_edits_log_entries
write_edits_log_entries-rows now es db = (refl, refl, refl)

-- The rows of the nodes, their types and their fields are those that the first statements put.
pub fill_in-rows :
    (env : Env) (m : ProposedMutation) (op : Option Text) (d : Draft) (start : Database)
    → HasSameRows (fill_in env m op d start) start
unfolding fill_in
fill_in-rows env m op d start =
    let id = id_for env m in
    let linked = replace_links env.host id (derived env m d) start in
    let searchable = replace_fts m id linked in
    let logged =
      write_edits_log_entries env.clock.now (log_entries env.host.rt m d id) searchable in
    let fresh = refresh env m d id logged in
    let ends = finalize op m d id (content_hash_for m d) fresh in
    trans_rows ends fresh start (finalize-rows op m d id (content_hash_for m d) fresh) (
      trans_rows fresh logged start (refresh-rows env m d id logged) (
        trans_rows logged searchable start
          (write_edits_log_entries-rows env.clock.now (log_entries env.host.rt m d id) searchable)
          (trans_rows searchable linked start (replace_fts-rows m id linked)
            (replace_links-rows env.host id (derived env m d) start))))
