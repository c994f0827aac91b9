-- ===== src/Undo/Conflicts/Clear.antt =====
-- Laws of `detectConflicts` (src/undo/restore.ts).
use vault_engine.Base.{
  Text, Bool, true, false, Option, none, some, List, [], ◌∷◌, ◌++◌, ◌≡◌, ◌⊎◌, refl, sym, ap, subst,
  ◌∙◌, inl, inr, Bool-cases, if◌then◌else◌, eq_refl, eq_iff, arith, All, filter, not, ltb, ◌≢◌, ◌≤◌,
  ◌==◌,
}
use vault_engine.Base.Dict
use vault_engine.Base.Once.{contains-append}
use vault_engine.Value.{Runtime}
use vault_engine.Store.{Node, Status, Operation, Snapshot, Database, find_node, find_path}
use vault_engine.Undo.Operation.{find_operation, status_eq}
use vault_engine.Undo.Conflicts.{
  timestamp_of, later_part, later_operations, Conflict, path_occupied, modified_after_operation,
  superseded_by_later_op, build_conflict, hashes_differ, is_taken_by_other, superseding,
  has_superseded, modifiers, add_superseded, check_later, check_node, check_snapshot, detect_from,
  detect_conflicts, node_ids,
}

node_ids-append : (a b : List Conflict) → node_ids (a ++ b) ≡ node_ids a ++ node_ids b
node_ids-append [] b = refl
node_ids-append (c ∷ a) b = ap (λ r. c.node_id ∷ r) (node_ids-append a b)

has_superseded-contains :
    (cs : List Conflict) (node : Text)
    → has_superseded cs node ≡ true
    → Dict.contains (node_ids cs) node ≡ true
unfolding has_superseded Dict.contains
has_superseded-contains [] node h = ground (arith, h)
has_superseded-contains (c ∷ cs) node h = ground (arith, h, has_superseded-contains cs node)

-- The node is named by one of the conflicts.
abbrev pub Names : List Conflict → Text → Type 0
Names cs node = Dict.contains (node_ids cs) node ≡ true

Names-snoc : (cs : List Conflict) (c : Conflict) (x : Text) → Names cs x → Names (cs ++ c ∷ []) x
Names-snoc cs c x h =
    ap (λ ids. Dict.contains ids x) (node_ids-append cs (c ∷ []))
    ∙ contains-append (node_ids cs) (c.node_id ∷ []) x
    ∙ ground (arith, h)

Names-new : (cs : List Conflict) (c : Conflict) → Names (cs ++ c ∷ []) c.node_id
unfolding Dict.contains
Names-new cs c =
    ap (λ ids. Dict.contains ids c.node_id) (node_ids-append cs (c ∷ []))
    ∙ contains-append (node_ids cs) (c.node_id ∷ []) c.node_id
    ∙ ground (arith, eq_refl c.node_id)

Names-if :
    (b : Bool) (xs ys : List Conflict) (x : Text)
    → Names xs x
    → Names ys x
    → Names (if b then xs else ys) x
Names-if true xs ys x h k = h
Names-if false xs ys x h k = k

-- No other node is found.
abbrev pub IsFreeFor : Text → Option Node → Type 0
IsFreeFor id none = Unit
IsFreeFor id (some n) = n.id ≡ id

IsFreeFor-of_taken : (id : Text) (o : Option Node) → is_taken_by_other id o ≡ false → IsFreeFor id o
IsFreeFor-of_taken id none h = tt
IsFreeFor-of_taken id (some n) h = ground (arith, eq_iff n.id id)

-- The hashes are equal, where both are there and not empty.
abbrev pub IsSameContent : Option Text → Option Text → Type 0
IsSameContent none b = Unit
IsSameContent (some a) none = Unit
IsSameContent (some a) (some b) = (a ≡ []) ⊎ ((b ≡ []) ⊎ (b ≡ a))

IsSameContent-of_hashes : (a b : Option Text) → hashes_differ a b ≡ false → IsSameContent a b
IsSameContent-of_hashes none b h = tt
IsSameContent-of_hashes (some a) none h = tt
IsSameContent-of_hashes (some []) (some b) h = inl refl
IsSameContent-of_hashes (some (x ∷ a)) (some []) h = inr (inl refl)
IsSameContent-of_hashes (some (x ∷ a)) (some (y ∷ b)) h =
    inr (inr (ground (arith, eq_iff (y ∷ b) (x ∷ a))))

module _ (in_call : List Text) where
  -- The other operation is one of the call, or not active, or not later than the first.
  abbrev pub IsSettled : Option Operation → Option Operation → Type 0
  IsSettled none o = Unit
  IsSettled (some p) none = Unit
  IsSettled (some p) (some o) =
      (Dict.contains in_call o.operation_id ≡ true)
      ⊎ ((o.status ≢ Status.active) ⊎ (o.timestamp ≤ p.timestamp))

  abbrev outside : Operation → Bool
  outside o = not (Dict.contains in_call o.operation_id)

  IsSettled-of_filter :
      (p o : Option Operation) (rest : List Operation)
      → filter outside (later_part (timestamp_of p) o ++ rest) ≡ []
      → IsSettled p o × (filter outside rest ≡ [])
  IsSettled-of_filter none none rest h = (tt, h)
  IsSettled-of_filter none (some o) rest h = (tt, h)
  IsSettled-of_filter (some p) none rest h = (tt, h)
  IsSettled-of_filter (some p) (some o) rest h =
      elim (Bool-cases (Dict.contains in_call o.operation_id)) [
        | inl called ↦ (inl called, ground arith)
        | inr free ↦ elim (Bool-cases (status_eq o.status Status.active)) [
          | inl active ↦ elim (Bool-cases (ltb p.timestamp o.timestamp)) [
            | inl later ↦ absurd (ground arith)
            | inr early ↦ (inr (inr (ground arith)), ground arith)
          ]
          | inr other ↦ (
            inr (inl (λ e. cc (sym (ap (λ st. status_eq st Status.active) e) ∙ other))),
            ground arith,
          )
        ]
      ]

  -- The snapshot is of another node, or its operation is settled.
  abbrev pub IsHarmless : List Operation → Option Operation → Text → Snapshot → Type 0
  IsHarmless os p node s = (s.node_id ≢ node) ⊎ IsSettled p (find_operation os s.operation_id)

  later_operations-settled :
      (os : List Operation) (p : Option Operation) (node : Text) (ss : List Snapshot)
      → filter outside (later_operations os (timestamp_of p) node ss) ≡ []
      → All (IsHarmless os p node) ss
  unfolding later_operations
  later_operations-settled os p node [] h = tt
  later_operations-settled os p node (s ∷ ss) h = elim (Bool-cases (s.node_id == node)) [
    | inl e ↦
        let (settled, rest) =
          IsSettled-of_filter p (find_operation os s.operation_id)
            (later_operations os (timestamp_of p) node ss)
            (rw (e, later_operations, if◌then◌else◌) at h) in
        (inr settled, later_operations-settled os p node ss rest)
    | inr e ↦ (
      inl (λ same. cc ((eq_iff s.node_id node).1 same)),
      later_operations-settled os p node ss (rw (e, later_operations, if◌then◌else◌) at h),
    )
  ]

-- Every snapshot of the node is of an operation of the call, of one that is not active, or of one that
-- is not later than the given one.
abbrev pub IsLatest : Database → Text → Text → List Text → Type 0
IsLatest db op node in_call =
    All (IsHarmless in_call db.undo_operations (find_operation db.undo_operations op) node)
      db.undo_snapshots

IsLatest-of_none :
    (db : Database) (op node : Text) (in_call : List Text)
    → superseding db op node in_call ≡ []
    → IsLatest db op node in_call
unfolding superseding
IsLatest-of_none db op node in_call h =
    later_operations-settled in_call db.undo_operations (find_operation db.undo_operations op) node
      db.undo_snapshots h

module _ (rt : Runtime) (db : Database) (op : Text) (in_call : List Text) where
  check_later-keeps :
      (s : Snapshot) (cs : List Conflict) (x : Text)
      → Names cs x
      → Names (check_later rt db op in_call s cs) x
  unfolding check_later add_superseded
  check_later-keeps s cs x h = Names-if _ cs _ x h (Names-snoc cs _ x h)

  check_node-keeps :
      (s : Snapshot) (o : Option Node) (cs : List Conflict) (x : Text)
      → Names cs x
      → Names (check_node rt db op in_call s o cs) x
  unfolding check_node
  check_node-keeps s none cs x h =
      Names-if _ _ _ x (Names-snoc cs _ x h) (check_later-keeps s cs x h)
  check_node-keeps s (some n) cs x h =
      check_later-keeps s _ x (Names-if _ _ cs x (Names-snoc cs _ x h) h)

  check_snapshot-keeps :
      (s : Snapshot) (cs : List Conflict) (x : Text)
      → Names cs x
      → Names (check_snapshot rt db op in_call s cs) x
  unfolding check_snapshot
  check_snapshot-keeps s cs x h = Names-if s.was_deleted cs _ x h (check_node-keeps s _ cs x h)

  detect_from-keeps :
      (ss : List Snapshot) (cs : List Conflict) (x : Text)
      → Names cs x
      → Names (detect_from rt db op in_call ss cs) x
  unfolding detect_from
  detect_from-keeps [] cs x h = h
  detect_from-keeps (s ∷ ss) cs x h = detect_from-keeps ss _ x (check_snapshot-keeps s cs x h)

  -- No other node has the path, where the node is gone; its content is as the operation left it, where it
  -- is there; and no later operation beside those of the call has a snapshot of it.
  abbrev pub IsUntouched : Snapshot → Option Node → Type 0
  IsUntouched s none =
      IsFreeFor s.node_id (find_path db.nodes s.file_path) × IsLatest db op s.node_id in_call
  IsUntouched s (some n) =
      IsSameContent s.post_mutation_hash n.content_hash × IsLatest db op s.node_id in_call

  add_superseded-flags :
      (s : Snapshot) (os : List Operation) (cs : List Conflict)
      → Names (add_superseded rt s os cs) s.node_id ⊎ (os ≡ [])
  unfolding add_superseded build_conflict
  add_superseded-flags s [] cs = inr refl
  add_superseded-flags s (o ∷ os) cs = elim (Bool-cases (has_superseded cs s.node_id)) [
    | inl e ↦ rw e (inl (has_superseded-contains cs s.node_id e))
    | inr e ↦ rw e (
        inl (Names-new cs (build_conflict s superseded_by_later_op (some (modifiers rt (o ∷ os))))))
  ]

  check_node-flags :
      (s : Snapshot) (o : Option Node) (cs : List Conflict)
      → Names (check_node rt db op in_call s o cs) s.node_id ⊎ IsUntouched s o
  unfolding check_node check_later build_conflict
  check_node-flags s none cs =
      elim (Bool-cases (is_taken_by_other s.node_id (find_path db.nodes s.file_path))) [
        | inl e ↦ inl (rw e (Names-new cs (build_conflict s path_occupied none)))
        | inr e ↦ elim (add_superseded-flags s (superseding db op s.node_id in_call) cs) [
          | inl named ↦ inl (rw e named)
          | inr clear ↦
              inr (IsFreeFor-of_taken s.node_id _ e, IsLatest-of_none db op s.node_id in_call clear)
        ]
      ]
  check_node-flags s (some n) cs =
      elim (Bool-cases (hashes_differ s.post_mutation_hash n.content_hash)) [
        | inl e ↦ inl (
            rw e (
              check_later-keeps s _ s.node_id
                (Names-new cs (build_conflict s modified_after_operation none))))
        | inr e ↦ elim (add_superseded-flags s (superseding db op s.node_id in_call) cs) [
          | inl named ↦ inl (rw e named)
          | inr clear ↦
              inr (IsSameContent-of_hashes _ _ e, IsLatest-of_none db op s.node_id in_call clear)
        ]
      ]

  -- A snapshot of a node that the operation created, a conflict that names the node, or nothing to lose
  abbrev pub IsAccounted : List Conflict → Snapshot → Type 0
  IsAccounted cs s =
      (s.was_deleted ≡ true) ⊎ (Names cs s.node_id ⊎ IsUntouched s (find_node db.nodes s.node_id))

  detect_from-IsAccounted :
      (ss : List Snapshot) (cs : List Conflict)
      → All (IsAccounted (detect_from rt db op in_call ss cs)) ss
  unfolding detect_from check_snapshot
  detect_from-IsAccounted [] cs = tt
  detect_from-IsAccounted (s ∷ ss) cs = (
    elim (Bool-cases s.was_deleted) [
      | inl e ↦ inl e
      | inr e ↦ elim (check_node-flags s (find_node db.nodes s.node_id) cs) [
        | inl named ↦ inr (
            inl (
              detect_from-keeps ss _ s.node_id (
                subst
                  (λ b.
                    Names
                      (if b
                        then cs
                        else check_node rt db op in_call s (find_node db.nodes s.node_id) cs)
                      s.node_id)
                  (sym e) named)))
        | inr clear ↦ inr (inr clear)
      ]
    ],
    detect_from-IsAccounted ss (check_snapshot rt db op in_call s cs),
  )

  -- Of each snapshot of an operation that is undone: it is of a node that the operation created, or a conflict
  -- names its node, or both of these hold. First, where the node is there and its hash and the hash after
  -- the operation are recorded and not empty, the two are equal; where the node is gone, no other node has
  -- its path. Second, where the undone operation is on record, every operation with a snapshot of the node
  -- is one of the call, or not active, or not later than the undone one.
  pub detect_conflicts-IsAccounted :
      (ss : List Snapshot) → All (IsAccounted (detect_conflicts rt db op in_call ss)) ss
  unfolding detect_conflicts
  detect_conflicts-IsAccounted ss = detect_from-IsAccounted ss []
