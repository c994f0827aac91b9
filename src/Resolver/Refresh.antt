-- ===== src/Resolver/Refresh.antt =====
-- src/resolver/refresh.ts: the stored resolutions, kept up with the nodes.
use vault_engine.Base.{
  ℕ, ◌+◌, Text, Bool, true, false, ◌&&◌, Option, none, some, List, [], ◌∷◌, ◌++◌, filter, length,
  eqb, if◌then◌else◌, ◌==◌,
}
use vault_engine.Base.Dict
use vault_engine.Base.Dict.{Dict}
use vault_engine.Store.{Node, Relationship, Database, find_node}
use vault_engine.Resolver.{Host, CandidateKeys, candidate_keys_for_node, fold_nfc}
use vault_engine.Resolver.Resolve.{ResolvedTarget, resolve_target}

-- `UPDATE relationships SET resolved_target_id = v WHERE p`
abbrev pub assign : Option Text → Relationship → Relationship
assign v r = record r { resolved_target_id = v }

abbrev pub assign_if : (Relationship → Bool) → Option Text → Relationship → Relationship
assign_if p v r = if p r then assign v r else r

unfoldable pub update_where :
    (Relationship → Bool) → Option Text → List Relationship → List Relationship
update_where p v [] = []
update_where p v (r ∷ rs) = assign_if p v r ∷ update_where p v rs

-- `resolved_target_id IS NULL`
abbrev pub is_unresolved : Relationship → Bool
is_unresolved r = elim r.resolved_target_id [ none ↦ true | some _ ↦ false ]

abbrev pub targets : Text → Relationship → Bool
targets t r = r.target == t

abbrev pub is_row : ℕ → Relationship → Bool
is_row id r = eqb r.id id

-- Tier 5: the scan over the rows that were NULL when it began.
unfoldable pub link_rows :
    Host → Text → Text → List Relationship → List Relationship → List Relationship
link_rows h id key [] rs = rs
link_rows h id key (r ∷ rows) rs =
    link_rows h id key rows
      (if fold_nfc h r.target == key then update_where (is_row r.id) (some id) rs else rs)

abbrev pub matches_title : Option Text → Relationship → Bool
matches_title none r = false
matches_title (some t) r = targets t r

-- The five updates, which `refreshOnCreate` and `refreshOnRename` both write out.
unfoldable pub link_node : Host → Text → CandidateKeys → List Relationship → List Relationship
link_node h id keys rs0 =
    let rs1 = update_where (λ r. is_unresolved r && targets keys.file_path r) (some id) rs0 in
    let rs2 = update_where (λ r. is_unresolved r && matches_title keys.title r) (some id) rs1 in
    let rs3 = update_where (λ r. is_unresolved r && targets keys.basename r) (some id) rs2 in
    let rs4 =
      update_where (λ r. is_unresolved r && h.lower r.target == keys.basename_lower) (some id)
        rs3 in
    link_rows h id keys.basename_nfc_lower (filter is_unresolved rs4) rs4

abbrev pub with_relationships : Database → List Relationship → Database
with_relationships db rs = record db { relationships = rs }

abbrev pub link_found : Host → List Relationship → Option Node → List Relationship
link_found h rs none = rs
link_found h rs (some n) = link_node h n.id (candidate_keys_for_node h n) rs

unfoldable pub refresh_on_create : Host → Database → Text → Database
refresh_on_create h db id =
    with_relationships db (link_found h db.relationships (find_node db.nodes id))

-- `SELECT DISTINCT target FROM relationships WHERE resolved_target_id = ?`
abbrev pub resolves_to : Text → Relationship → Bool
resolves_to id r = elim r.resolved_target_id [ none ↦ false | some t ↦ t == id ]

unfoldable pub distinct_targets : List Text → List Relationship → List Text
distinct_targets seen [] = []
distinct_targets seen (r ∷ rs) =
    let rest = distinct_targets (r.target ∷ seen) rs in
    if Dict.contains seen r.target then distinct_targets seen rs else r.target ∷ rest

abbrev pub assign_resolved : Text → Option ResolvedTarget → List Relationship → List Relationship
assign_resolved t none rs = rs
assign_resolved t (some found) rs =
    update_where (λ r. targets t r && is_unresolved r) (some found.id) rs

-- Step 2 of the rename: each target that resolved to the node is resolved again.
unfoldable pub resolve_again : Host → Database → List Text → List Relationship → List Relationship
resolve_again h db [] rs = rs
resolve_again h db (t ∷ ts) rs =
    resolve_again h db ts (assign_resolved t (resolve_target h db t) rs)

unfoldable pub refresh_on_rename : Host → Database → Text → Database
refresh_on_rename h db id =
    let affected = distinct_targets [] (filter (resolves_to id) db.relationships) in
    let cleared = update_where (resolves_to id) none db.relationships in
    let again = resolve_again h db affected cleared in
    with_relationships db (link_found h again (find_node db.nodes id))

-- The foreign key's ON DELETE SET NULL does the work.
abbrev pub refresh_on_delete : Database → Text → Database
refresh_on_delete db id = db

-- `byTarget`: the ids of the rows, by target in the order of first occurrence
abbrev ids_or_none : Option (List ℕ) → List ℕ
ids_or_none none = []
ids_or_none (some ids) = ids

unfoldable pub by_target : Dict (List ℕ) → List Relationship → Dict (List ℕ)
by_target m [] = m
by_target m (r ∷ rs) =
    by_target (Dict.set m r.target (ids_or_none (Dict.get m r.target) ++ r.id ∷ [])) rs

unfoldable pub update_rows : Text → List ℕ → List Relationship → List Relationship
update_rows v [] rs = rs
update_rows v (id ∷ ids) rs = update_rows v ids (update_where (is_row id) (some v) rs)

pub record BackfillStats : Type 0 where
  pub scanned : ℕ
  pub unique_targets : ℕ
  pub updated : ℕ

abbrev pub Filled : Type 0
Filled = List Relationship × ℕ

abbrev fill_target : Option ResolvedTarget → List ℕ → Filled → Filled
fill_target none ids (rs, n) = (rs, n)
fill_target (some found) ids (rs, n) = (update_rows found.id ids rs, n + length ids)

unfoldable pub fill : Host → Database → Dict (List ℕ) → Filled → Filled
fill h db [] p = p
fill h db ((t, ids) ∷ m) p = fill h db m (fill_target (resolve_target h db t) ids p)

abbrev none_found : BackfillStats
none_found = record { scanned = 0; unique_targets = 0; updated = 0 }

-- The new database and the statistics.
unfoldable pub backfill_resolved_targets : Host → Database → Database × BackfillStats
backfill_resolved_targets h db = elim (filter is_unresolved db.relationships) [
  | [] ↦ (db, none_found)
  | r ∷ rows ↦
      let m = by_target [] (r ∷ rows) in
      let filled = fill h db m (db.relationships, 0) in
      (
        with_relationships db filled.0,
        record { scanned = length (r ∷ rows); unique_targets = length m; updated = filled.1 },
      )
]
