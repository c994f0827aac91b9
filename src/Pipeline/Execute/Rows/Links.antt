-- ===== src/Pipeline/Execute/Rows/Links.antt =====
-- The links of the other nodes in a write (src/pipeline/execute.ts, stage 6; src/resolver/refresh.ts).
use vault_engine.Base.{
  Text, Bool, true, false, not, Option, none, some, List, [], ◌∷◌, ◌++◌, ◌≡◌, refl, ap, ◌∙◌, inl,
  inr, Bool-cases, Option-cases, if◌then◌else◌, ◌==◌, eq_iff, arith, filter, append-nil,
}
use vault_engine.Store.{Node, Relationship, Database, find_node, links_of}
use vault_engine.Resolver.{Host, CandidateKeys, fold_nfc}
use vault_engine.Resolver.Refresh.{
  update_where, link_rows, link_node, link_found, resolve_again, assign_resolved, refresh_on_create,
  refresh_on_rename,
}
use vault_engine.Resolver.Resolve.{resolve_target, ResolvedTarget}
use vault_engine.Pipeline.Relationships.{DerivedRelationship}
use vault_engine.Pipeline.World.{Env, ProposedMutation}
use vault_engine.Pipeline.Execute.Rows.{
  Draft, is_undo, is_create, is_rename, insert_link, insert_links, replace_links, replace_fts,
  has_link, write_edits_log_entries, refresh, finalize, fill_in, id_for, derived, log_entries,
  content_hash_for,
}

-- The links of a node but for what they resolve to
module _ (q : Text) where
  abbrev HasSameLinks : List Relationship → List Relationship → Type 0
  HasSameLinks a b = links_of a q ≡ links_of b q

  pub update_where-links :
      (p : Relationship → Bool) (v : Option Text) (rs : List Relationship)
      → HasSameLinks (update_where p v rs) rs
  unfolding update_where links_of
  update_where-links p v [] = refl
  update_where-links p v (r ∷ rs) = ground (arith, update_where-links p v rs)

  if-links :
      (b : Bool) (a rs : List Relationship)
      → HasSameLinks a rs
      → HasSameLinks (if b then a else rs) rs
  if-links true a rs h = h
  if-links false a rs h = refl

  link_rows-links :
      (h : Host) (id key : Text) (rows rs : List Relationship)
      → HasSameLinks (link_rows h id key rows rs) rs
  unfolding link_rows
  link_rows-links h id key [] rs = refl
  link_rows-links h id key (r ∷ rows) rs =
      link_rows-links h id key rows _
      ∙ if-links (fold_nfc h r.target == key) _ rs (update_where-links _ _ rs)

  link_node-links :
      (h : Host) (id : Text) (keys : CandidateKeys) (rs : List Relationship)
      → HasSameLinks (link_node h id keys rs) rs
  unfolding link_node
  link_node-links h id keys rs =
      link_rows-links h id keys.basename_nfc_lower _ _
      ∙ update_where-links _ _ _
      ∙ update_where-links _ _ _
      ∙ update_where-links _ _ _
      ∙ update_where-links _ _ _

  link_found-links :
      (h : Host) (rs : List Relationship) (o : Option Node) → HasSameLinks (link_found h rs o) rs
  link_found-links h rs none = refl
  link_found-links h rs (some n) = link_node-links h n.id _ rs

  assign_resolved-links :
      (t : Text) (o : Option ResolvedTarget) (rs : List Relationship)
      → HasSameLinks (assign_resolved t o rs) rs
  assign_resolved-links t none rs = refl
  assign_resolved-links t (some found) rs = update_where-links _ _ rs

  resolve_again-links :
      (h : Host) (db : Database) (ts : List Text) (rs : List Relationship)
      → HasSameLinks (resolve_again h db ts rs) rs
  unfolding resolve_again
  resolve_again-links h db [] rs = refl
  resolve_again-links h db (t ∷ ts) rs =
      resolve_again-links h db ts _ ∙ assign_resolved-links t (resolve_target h db t) rs

  refresh-links :
      (env : Env) (m : ProposedMutation) (d : Draft) (id : Text) (db : Database)
      → HasSameLinks (refresh env m d id db).relationships db.relationships
  unfolding refresh refresh_on_create refresh_on_rename
  refresh-links env m d id db = elim (Bool-cases (is_create d.db m)) [
    | inl e ↦ rw e (link_found-links env.host db.relationships (find_node db.nodes id))
    | inr e ↦ elim (Bool-cases (is_rename env d.db m)) [
      | inl r ↦
          rw (e, r)
            (link_found-links env.host _ (find_node db.nodes id)
              ∙ resolve_again-links env.host db _ _
              ∙ update_where-links _ _ _)
      | inr r ↦ rw (e, r) refl
    ]
  ]

  links_of-append : (a b : List Relationship) → links_of (a ++ b) q ≡ links_of a q ++ links_of b q
  unfolding links_of
  links_of-append [] b = refl
  links_of-append (r ∷ a) b = ground (arith, links_of-append a b)

  module _ (id : Text) (other : id == q ≡ false) where
    pub filter-links :
        (rs : List Relationship) → HasSameLinks (filter (λ r. not (r.source_id == id)) rs) rs
    unfolding links_of
    filter-links [] = refl
    filter-links (r ∷ rs) =
        ground
          (arith, filter-links rs, eq_iff r.source_id id, eq_iff r.source_id q, eq_iff id q, other)

    insert_link-links :
        (h : Host) (l : DerivedRelationship) (db : Database)
        → HasSameLinks (insert_link h id l db).relationships db.relationships
    unfolding insert_link links_of
    insert_link-links h l db = elim (Bool-cases (has_link id l db.relationships)) [
      | inl e ↦ rw e refl
      | inr e ↦
          rw e (
            links_of-append db.relationships _
            ∙ rw other (append-nil (links_of db.relationships q)))
    ]

    insert_links-links :
        (h : Host) (ls : List DerivedRelationship) (db : Database)
        → HasSameLinks (insert_links h id ls db).relationships db.relationships
    unfolding insert_links
    insert_links-links h [] db = refl
    insert_links-links h (l ∷ ls) db =
        insert_links-links h ls (insert_link h id l db) ∙ insert_link-links h l db

    replace_links-links :
        (h : Host) (ls : List DerivedRelationship) (db : Database)
        → HasSameLinks (replace_links h id ls db).relationships db.relationships
    unfolding replace_links
    replace_links-links h ls db =
        insert_links-links h ls
          (record db { relationships = filter (λ r. not (r.source_id == id)) db.relationships })
        ∙ filter-links db.relationships

replace_fts-relationships :
    (m : ProposedMutation) (id : Text) (db : Database)
    → (replace_fts m id db).relationships ≡ db.relationships
unfolding replace_fts
replace_fts-relationships m id db = elim (Option-cases (find_node db.nodes id)) [
  | inl e ↦ rw (e, replace_fts) refl
  | inr (n, e) ↦ rw (e, replace_fts) refl
]

finalize-relationships :
    (op : Option Text) (m : ProposedMutation) (d : Draft) (id hash : Text) (db : Database)
    → (finalize op m d id hash db).relationships ≡ db.relationships
unfolding finalize
finalize-relationships none m d id hash db = refl
finalize-relationships (some op) m d id hash db = elim (Bool-cases (is_undo m.source)) [
  | inl e ↦ rw e refl
  | inr e ↦ rw e refl
]

-- The links of the other nodes stay, but for what they resolve to.
pub fill_in-links :
    (env : Env) (m : ProposedMutation) (op : Option Text) (d : Draft) (start : Database) (q : Text)
    → id_for env m == q ≡ false
    → links_of (fill_in env m op d start).relationships q ≡ links_of start.relationships q
unfolding fill_in write_edits_log_entries
fill_in-links env m op d start q other =
    let id = id_for env m in
    let linked = replace_links env.host id (derived env m d) start in
    let searchable = replace_fts m id linked in
    let logged =
      write_edits_log_entries env.clock.now (log_entries env.host.rt m d id) searchable in
    let fresh = refresh env m d id logged in
    ap (λ rs. links_of rs q) (finalize-relationships op m d id (content_hash_for m d) fresh)
    ∙ refresh-links q env m d id logged
    ∙ ap (λ rs. links_of rs q) (replace_fts-relationships m id linked)
    ∙ replace_links-links q id other env.host (derived env m d) start
