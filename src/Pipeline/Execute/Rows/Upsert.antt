-- ===== src/Pipeline/Execute/Rows/Upsert.antt =====
-- The rows of `nodes`, `node_types` and `node_fields` behind a write (src/pipeline/execute.ts, stage 6).
use vault_engine.Base.{
  ℕ, suc, Text, true, false, not, Option, none, some, List, [], ◌∷◌, ◌++◌, ◌≡◌, refl, sym, ap,
  subst, ◌∙◌, inl, inr, Bool-cases, if◌then◌else◌, ◌==◌, eq_iff, arith, filter, append-nil,
}
use vault_engine.Base.Once.{IsOnce}
use vault_engine.Base.Dict
use vault_engine.Base.Dict.{Dict}
use vault_engine.Value.{Value, Runtime, is_null}
use vault_engine.Store.{Node, NodeType, NodeField, find_node, types_of, fields_of}
use vault_engine.Pipeline.Snapshot.Capture.{some-injective, none-absurd}
use vault_engine.Pipeline.World.{Env, ProposedMutation}
use vault_engine.Pipeline.Execute.Rows.{
  Draft, put_row, new_row, changed_row, path_taken, upsert_node, type_rows, has_twice,
  replace_types, field_rows, replace_fields,
}

module _ (env : Env) (m : ProposedMutation) (id hash : Text) where
  abbrev pub written_row : Option Node → Node
  written_row none = new_row env m id hash
  written_row (some n) = changed_row env m hash n

  pub find_node-put_row :
      (nodes : List Node) (q : Text)
      → find_node (put_row env m id hash nodes) q
        ≡ (if id == q then some (written_row (find_node nodes id)) else find_node nodes q)
  unfolding put_row find_node
  find_node-put_row [] q = ground (arith, eq_iff id q)
  find_node-put_row (n ∷ ns) q =
      ground (arith, find_node-put_row ns q, eq_iff n.id id, eq_iff n.id q, eq_iff id q)

  pub find_node-upsert_node :
      (nodes after : List Node) (q : Text)
      → upsert_node env m id hash nodes ≡ some after
      → find_node after q
        ≡ (if id == q then some (written_row (find_node nodes id)) else find_node nodes q)
  unfolding upsert_node
  find_node-upsert_node nodes after q h = elim (Bool-cases (path_taken id m.file_path nodes)) [
    | inl e ↦ none-absurd after (rw (e, upsert_node) at h)
    | inr e ↦
        ap (λ ns. find_node ns q) (sym (some-injective _ after (rw (e, upsert_node) at h)))
        ∙ find_node-put_row nodes q
  ]

pub types_of-append :
    (a b : List NodeType) (q : Text) → types_of (a ++ b) q ≡ types_of a q ++ types_of b q
unfolding types_of
types_of-append [] b q = refl
types_of-append (t ∷ a) b q = ground (arith, types_of-append a b q)

pub types_of-filter :
    (id : Text) (rows : List NodeType) (q : Text)
    → types_of (filter (λ r. not (r.node_id == id)) rows) q
      ≡ (if id == q then [] else types_of rows q)
unfolding types_of
types_of-filter id [] q = ground arith
types_of-filter id (r ∷ rows) q =
    ground (arith, types_of-filter id rows q, eq_iff r.node_id id, eq_iff r.node_id q, eq_iff id q)

types_of-type_rows :
    (id : Text) (i : ℕ) (types : List Text) (q : Text)
    → types_of (type_rows id i types) q ≡ (if id == q then types else [])
unfolding types_of type_rows
types_of-type_rows id i [] q = ground arith
types_of-type_rows id i (t ∷ ts) q = ground (arith, types_of-type_rows id (suc i) ts q)

pub types_of-replace_types :
    (id : Text) (types : List Text) (rows after : List NodeType) (q : Text)
    → replace_types id types rows ≡ some after
    → types_of after q ≡ (if id == q then types else types_of rows q)
unfolding replace_types
types_of-replace_types id types rows after q h = elim (Bool-cases (has_twice types)) [
  | inl e ↦ ground (arith, rw (e, replace_types) at h)
  | inr e ↦
      ap (λ rs. types_of rs q) (sym (some-injective _ after (rw (e, replace_types) at h)))
      ∙ types_of-append (filter (λ r. not (r.node_id == id)) rows) (type_rows id 0 types) q
      ∙ ground (
        arith,
        types_of-filter id rows q,
        types_of-type_rows id 0 types q,
        append-nil (types_of rows q),
      )
]

fields_of-append :
    (a b : List NodeField) (q : Text) → fields_of (a ++ b) q ≡ fields_of a q ++ fields_of b q
unfolding fields_of
fields_of-append [] b q = refl
fields_of-append (r ∷ a) b q = ground (arith, fields_of-append a b q)

pub fields_of-filter :
    (id : Text) (rows : List NodeField) (q : Text)
    → id == q ≡ false
    → fields_of (filter (λ r. not (r.node_id == id)) rows) q ≡ fields_of rows q
unfolding fields_of
fields_of-filter id [] q other = refl
fields_of-filter id (r ∷ rows) q other = ground (
  arith,
  fields_of-filter id rows q other,
  eq_iff r.node_id id,
  eq_iff r.node_id q,
  eq_iff id q,
  other,
)

fields_of-field_rows :
    (rt : Runtime) (m : ProposedMutation) (d : Draft) (id : Text) (fields : Dict Value) (q : Text)
    → id == q ≡ false
    → fields_of (field_rows rt m d id fields) q ≡ []
unfolding fields_of field_rows
fields_of-field_rows rt m d id [] q other = refl
fields_of-field_rows rt m d id ((name, v) ∷ fields) q other = elim (Bool-cases (is_null v)) [
  | inl e ↦ rw e (fields_of-field_rows rt m d id fields q other)
  | inr e ↦ rw (e, other) (fields_of-field_rows rt m d id fields q other)
]

-- The fields of the other nodes stay.
pub fields_of-replace_fields :
    (rt : Runtime) (m : ProposedMutation) (d : Draft) (id : Text) (rows : List NodeField) (q : Text)
    → id == q ≡ false
    → fields_of (replace_fields rt m d id rows) q ≡ fields_of rows q
unfolding replace_fields
fields_of-replace_fields rt m d id rows q other =
    fields_of-append (filter (λ r. not (r.node_id == id)) rows)
      (field_rows rt m d id d.absorbed.fields) q
    ∙ ap (λ rest. fields_of (filter (λ r. not (r.node_id == id)) rows) q ++ rest)
        (fields_of-field_rows rt m d id d.absorbed.fields q other)
    ∙ append-nil (fields_of (filter (λ r. not (r.node_id == id)) rows) q)
    ∙ fields_of-filter id rows q other

-- What every written row has.
pub written_row-fields :
    (env : Env) (m : ProposedMutation) (id hash : Text) (o : Option Node)
    → (((written_row env m id hash o).file_path ≡ m.file_path)
        × ((written_row env m id hash o).title ≡ some m.title))
      × (((written_row env m id hash o).body ≡ some m.body)
          × ((written_row env m id hash o).content_hash ≡ some hash))
written_row-fields env m id hash none = ((refl, refl), (refl, refl))
written_row-fields env m id hash (some n) = ((refl, refl), (refl, refl))

abbrev pub ids : List Node → List Text
ids [] = []
ids (n ∷ ns) = n.id ∷ ids ns

abbrev pub paths : List Node → List Text
paths [] = []
paths (n ∷ ns) = n.file_path ∷ paths ns

-- The primary key of `nodes` and the constraint on its paths
abbrev pub IsKeyed : List Node → Type 0
IsKeyed nodes = IsOnce (ids nodes) × IsOnce (paths nodes)

module _ (env : Env) (m : ProposedMutation) (id hash : Text) where
  contains-ids-put_row :
      (nodes : List Node) (x : Text)
      → Dict.contains (ids (put_row env m id hash nodes)) x
        ≡ (if id == x then true else Dict.contains (ids nodes) x)
  unfolding put_row Dict.contains
  contains-ids-put_row [] x = ground (arith, eq_iff id x)
  contains-ids-put_row (n ∷ ns) x =
      ground (arith, contains-ids-put_row ns x, eq_iff n.id id, eq_iff n.id x, eq_iff id x)

  ids-put_row :
      (nodes : List Node) → IsOnce (ids nodes) → IsOnce (ids (put_row env m id hash nodes))
  unfolding put_row Dict.contains
  ids-put_row [] h = (refl, tt)
  ids-put_row (n ∷ ns) (new, once) = elim (Bool-cases (n.id == id)) [
    | inl e ↦ rw e (new, once)
    | inr e ↦ rw e (
      ground (arith, contains-ids-put_row ns n.id, eq_iff id n.id, eq_iff n.id id, e, new),
      ids-put_row ns once,
    )
  ]

  contains-paths-put_row :
      (nodes : List Node) (x : Text)
      → x == m.file_path ≡ false
      → Dict.contains (paths nodes) x ≡ false
      → Dict.contains (paths (put_row env m id hash nodes)) x ≡ false
  unfolding put_row Dict.contains
  contains-paths-put_row [] x other h =
      ground (arith, eq_iff x m.file_path, eq_iff m.file_path x, other)
  contains-paths-put_row (n ∷ ns) x other h =
      ground
        (arith, contains-paths-put_row ns x, eq_iff x m.file_path, eq_iff m.file_path x, other, h)

  path_taken-lem :
      (nodes : List Node)
      → path_taken id m.file_path nodes ≡ false
      → Dict.contains (ids nodes) id ≡ false
      → Dict.contains (paths nodes) m.file_path ≡ false
  unfolding path_taken Dict.contains
  path_taken-lem [] free new = refl
  path_taken-lem (n ∷ ns) free new = ground (arith, path_taken-lem ns, free, new)

  paths-put_row :
      (nodes : List Node)
      → path_taken id m.file_path nodes ≡ false
      → IsKeyed nodes
      → IsOnce (paths (put_row env m id hash nodes))
  unfolding put_row Dict.contains path_taken
  paths-put_row [] free h = (refl, tt)
  paths-put_row (n ∷ ns) free ((new, once), (new_path, once_paths)) =
      elim (Bool-cases (n.id == id)) [
        | inl e ↦ rw e (
          path_taken-lem ns (ground (arith, free))
              (subst (λ i. Dict.contains (ids ns) i ≡ false) ((eq_iff n.id id).0 e) new),
          once_paths,
        )
        | inr e ↦ rw e (
          contains-paths-put_row ns n.file_path (ground (arith, e, free)) new_path,
          paths-put_row ns (ground (arith, free)) (once, once_paths),
        )
      ]

pub upsert_node-IsKeyed :
    (env : Env) (m : ProposedMutation) (id hash : Text) (nodes after : List Node)
    → upsert_node env m id hash nodes ≡ some after
    → IsKeyed nodes
    → IsKeyed after
unfolding upsert_node
upsert_node-IsKeyed env m id hash nodes after h keyed =
    elim (Bool-cases (path_taken id m.file_path nodes)) [
      | inl e ↦ ground (arith, rw (e, upsert_node) at h)
      | inr e ↦
          subst IsKeyed (some-injective _ after (rw (e, upsert_node) at h))
            (ids-put_row env m id hash nodes keyed.0, paths-put_row env m id hash nodes e keyed)
    ]
