-- ===== src/Pipeline/Snapshot/Capture.antt =====
-- Laws of the capture of undo snapshots (src/pipeline/execute.ts and delete.ts).
use vault_engine.Base.{
  Text, Option, none, some, List, [], ◌∷◌, ◌++◌, ◌≡◌, refl, ap, subst, inl, inr, Bool-cases,
  Option-cases, eq_iff, arith,
}
use vault_engine.Store.{Node, Database, Snapshot, find_node}
use vault_engine.Pipeline.Snapshot.{
  Captured, captured, not_captured, find_snapshot, has_operation, insert_snapshot, pending, capture,
  capture_row, node_snapshot, creation_snapshot, delete_snapshot,
}

pub find_node-id :
    (nodes : List Node) (id : Text) (n : Node) → find_node nodes id ≡ some n → n.id ≡ id
unfolding find_node
find_node-id [] id n h = ground (arith, h)
find_node-id (k ∷ ks) id n h = ground (arith, h, eq_iff k.id id, find_node-id ks id n)

-- The id that a snapshot of the node is kept under.
abbrev pub snapshot_id : Option Text → Text → Text
snapshot_id none path = pending path
snapshot_id (some id) path = id

pub some-injective {ℓ} : {A : Type ℓ} (a b : A) → some a ≡ some b → a ≡ b
some-injective a b h = ap (λ (o : Option _). elim o [ none ↦ a | some x ↦ x ]) h

pub none-absurd {ℓ κ} : {A : Type ℓ} {B : Type κ} (a : A) → none ≡ some a → B
none-absurd a h =
    absurd (subst (λ (o : Option _). elim o as (λ _. Type 0) [ none ↦ Unit | some x ↦ ⊥ ]) h tt)

module _ {ℓ} (P : Captured → Type ℓ) (db : Database) where
  pub insert_snapshot-cases :
      (s : Snapshot) (c : Captured)
      → insert_snapshot db s ≡ some c
      → P (not_captured db)
      → (find_snapshot db.undo_snapshots s.operation_id s.node_id ≡ none → P (captured db s))
      → P c
  unfolding insert_snapshot
  insert_snapshot-cases s c h same new =
      elim (Option-cases (find_snapshot db.undo_snapshots s.operation_id s.node_id)) [
        | inr (t, e) ↦
            subst P (some-injective (not_captured db) c (rw (e, insert_snapshot) at h)) same
        | inl e ↦ elim (Bool-cases (has_operation db.undo_operations s.operation_id)) [
          | inl known ↦
              subst P (some-injective (captured db s) c (rw (e, insert_snapshot, known) at h))
                (new e)
          | inr unknown ↦ none-absurd c (rw (e, insert_snapshot, unknown) at h)
        ]
      ]

  -- A capture does nothing, or adds the first snapshot of the operation and the node.
  pub capture-cases :
      (op : Text) (node : Option Text) (path : Text) (c : Captured)
      → capture db op node path ≡ some c
      → P (not_captured db)
      → ((s : Snapshot)
          → s.operation_id ≡ op
          → s.node_id ≡ snapshot_id node path
          → find_snapshot db.undo_snapshots s.operation_id s.node_id ≡ none
          → P (captured db s))
      → P c
  unfolding capture creation_snapshot node_snapshot capture_row
  capture-cases op none path c h same new =
      insert_snapshot-cases (creation_snapshot op path) c h same
        (new (creation_snapshot op path) refl refl)
  capture-cases op (some id) path c h same new = elim (Option-cases (find_node db.nodes id)) [
    | inl e ↦ subst P (some-injective (not_captured db) c (rw e at h)) same
    | inr (n, e) ↦
        insert_snapshot-cases (node_snapshot db op n) c (rw e at h) same
          (new (node_snapshot db op n) refl (find_node-id db.nodes id n e))
  ]

pub delete_snapshot-inserted :
    (ss : List Snapshot) (s : Snapshot)
    → find_snapshot ss s.operation_id s.node_id ≡ none
    → delete_snapshot (ss ++ s ∷ []) s.operation_id s.node_id ≡ ss
unfolding find_snapshot delete_snapshot
delete_snapshot-inserted [] s h =
    ground (arith, eq_iff s.operation_id s.operation_id, eq_iff s.node_id s.node_id)
delete_snapshot-inserted (t ∷ ss) s h = ground (arith, h, delete_snapshot-inserted ss s)
