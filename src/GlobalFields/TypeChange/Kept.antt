-- ===== src/GlobalFields/TypeChange/Kept.antt =====
-- What `updateGlobalField` (src/global-fields/crud.ts) keeps of the stored values.
use vault_engine.Base.{
  Text, true, false, not, ◌&&◌, ◌||◌, Option, none, some, List, [], ◌∷◌, ◌≡◌, ◌⊎◌, refl, ap, subst,
  ◌∙◌, inl, inr, Bool-cases, if◌then◌else◌, ◌==◌, eq_iff, arith, filter, is_empty,
}
use vault_engine.Value.{Runtime}
use vault_engine.GlobalFields.TypeChange.Cells.{recoerced}
use vault_engine.GlobalFields.TypeChange.Recoerced.{find_field-recoerced}
use vault_engine.Store.{GlobalField, NodeField, Database, find_field}
use vault_engine.Validation.Types.{FieldType}
use vault_engine.Pipeline.ClassifyValue.{FieldColumns}
use vault_engine.Pipeline.SchemaContext.{find_global_field}
use vault_engine.GlobalFields.Crud.{done, Uncoercible, UpdateInput, is_field, has_row}
use vault_engine.GlobalFields.TypeChange.{
  split_rows, options_for, Platform, Coercible, Split, set_columns, store_coerced, drop_rows,
  classify_coerced_value, Changed, apply_change, changed_type, update_global_field,
}
use vault_engine.GlobalFields.TypeChange.Cases.{found-name, update-cases, coercion}

-- The rows of the other fields
module _ (name id q : Text) (other : name == q ≡ false) where
  set_columns-other :
      (node : Text) (columns : FieldColumns) (rows : List NodeField)
      → find_field (set_columns name node columns rows) id q ≡ find_field rows id q
  unfolding set_columns find_field
  set_columns-other node columns [] = refl
  set_columns-other node columns (r ∷ rs) = ground (
    arith,
    set_columns-other node columns rs,
    eq_iff r.field_name name,
    eq_iff r.field_name q,
    eq_iff name q,
    other,
  )

  store_coerced-other :
      (rt : Runtime) (cs : List Coercible) (rows : List NodeField)
      → find_field (store_coerced rt name cs rows) id q ≡ find_field rows id q
  unfolding store_coerced
  store_coerced-other rt [] rows = refl
  store_coerced-other rt (c ∷ cs) rows =
      store_coerced-other rt cs
        (set_columns name c.node_id (classify_coerced_value rt c.new_value) rows)
      ∙ set_columns-other c.node_id (classify_coerced_value rt c.new_value) rows

  filter-other :
      (node : Text) (rows : List NodeField)
      → find_field (filter (λ r. not (r.node_id == node && is_field name r)) rows) id q
        ≡ find_field rows id q
  unfolding find_field
  filter-other node [] = refl
  filter-other node (r ∷ rs) = ground (
    arith,
    filter-other node rs,
    eq_iff r.field_name name,
    eq_iff r.field_name q,
    eq_iff name q,
    other,
  )

  drop_rows-other :
      (us : List Uncoercible) (rows : List NodeField)
      → find_field (drop_rows name us rows) id q ≡ find_field rows id q
  unfolding drop_rows
  drop_rows-other [] rows = refl
  drop_rows-other (u ∷ us) rows =
      drop_rows-other us (filter (λ r. not (r.node_id == u.node_id && is_field name r)) rows)
      ∙ filter-other u.node_id rows

has_row-set_columns :
    (name node : Text) (columns : FieldColumns) (rows : List NodeField) (id q : Text)
    → has_row id q (set_columns name node columns rows) ≡ has_row id q rows
unfolding set_columns has_row
has_row-set_columns name node columns [] id q = refl
has_row-set_columns name node columns (r ∷ rs) id q =
    ground (arith, has_row-set_columns name node columns rs id q)

has_row-store_coerced :
    (rt : Runtime) (name : Text) (cs : List Coercible) (rows : List NodeField) (id q : Text)
    → has_row id q (store_coerced rt name cs rows) ≡ has_row id q rows
unfolding store_coerced
has_row-store_coerced rt name [] rows id q = refl
has_row-store_coerced rt name (c ∷ cs) rows id q =
    has_row-store_coerced rt name cs
      (set_columns name c.node_id (classify_coerced_value rt c.new_value) rows) id q
    ∙ has_row-set_columns name c.node_id (classify_coerced_value rt c.new_value) rows id q

drop_rows-empty :
    (name : Text) (us : List Uncoercible) (rows : List NodeField)
    → is_empty us ≡ true
    → drop_rows name us rows ≡ rows
unfolding drop_rows
drop_rows-empty name [] rows h = refl
drop_rows-empty name (u ∷ us) rows h = ground (arith, h)

module _ (p : Platform) where
  -- The row of the node and the field behind an update: where the type changes and the caller confirms it,
  -- the coerced one.
  abbrev pub expected_row :
      GlobalField → UpdateInput → Text → List NodeField → Text → Option NodeField
  expected_row g input name rows id =
      elim (changed_type p g.definition.field_type input.field_type) [
        | none ↦ find_field rows id name
        | some new ↦
            if input.confirm
            then recoerced (coercion p g input new) p.rt p.parse name id rows
            else find_field rows id name
      ]

  -- What an update of the field leaves of the rows
  abbrev pub IsKept : GlobalField → UpdateInput → Text → List NodeField → List NodeField → Type 0
  IsKept g input name rows after =
      ((id q : Text) → name == q ≡ false → find_field after id q ≡ find_field rows id q)
      × ((id : Text) → find_field after id name ≡ expected_row g input name rows id)
      × ((input.discard_uncoercible ≡ true)
          ⊎ ((id q : Text) → has_row id q after ≡ has_row id q rows))

  changed-IsKept :
      (g : GlobalField) (name : Text) (rows : List NodeField) (input : UpdateInput)
      (new : FieldType) (s : Split)
      → g.definition.name ≡ name
      → changed_type p g.definition.field_type input.field_type ≡ some new
      → input.confirm ≡ true
      → split_rows (coercion p g input new) p.parse (filter (is_field g.definition.name) rows)
        ≡ some s
      → (is_empty s.uncoercible || input.discard_uncoercible) ≡ true
      → IsKept g input name rows (
          drop_rows g.definition.name s.uncoercible
            (store_coerced p.rt g.definition.name s.coercible rows))
  unfolding options_for
  changed-IsKept g name rows input new s named at_new sure at_s ok =
      let key = g.definition.name in
      let stored = store_coerced p.rt key s.coercible rows in
      (
        λ id q other.
            let apart : key == q ≡ false = ap (λ n. n == q) named ∙ other in
            drop_rows-other key id q apart s.uncoercible stored
            ∙ store_coerced-other key id q apart p.rt s.coercible rows,
        λ id.
            rw (expected_row, at_new, sure)
              (subst
                (λ n.
                  find_field (drop_rows key s.uncoercible stored) id n
                  ≡ recoerced (coercion p g input new) p.rt p.parse n id rows)
                named
                (find_field-recoerced (coercion p g input new) p.rt p.parse key id rows s at_s)),
        elim (Bool-cases input.discard_uncoercible) [
          | inl e ↦ inl e
          | inr e ↦ inr (λ id q.
              ap (λ rs. has_row id q rs)
                (drop_rows-empty key s.uncoercible stored (ground (arith, e, ok)))
              ∙ has_row-store_coerced p.rt key s.coercible rows id q)
        ],
      )

  -- Where a field is updated, the stored values of every other field stay. Of the field itself they stay too,
  -- unless the type changes and the caller confirms it: then each node's row, where it has one, holds the
  -- columns of the value that `coerceValue` gives for its stored value, or is gone where `coerceValue`
  -- fails on that (were there several rows of one node: for the last, and on any). And unless the update
  -- allows values to be discarded, each node has rows of the same fields as before.
  pub update_global_field-keeps :
      (db : Database) (name : Text) (g : GlobalField) (input : UpdateInput) (c : Changed)
      → find_global_field db.global_fields name ≡ some g
      → update_global_field p db name input ≡ done c
      → IsKept g input name db.node_fields c.db.node_fields
  unfolding apply_change
  update_global_field-keeps db name g input c there h =
      update-cases p (λ k. IsKept g input name db.node_fields k.node_fields) db name g input c there
        h (λ gfs e. (λ id q other. refl, λ id. rw (expected_row, e) refl, inr (λ id q. refl)))
        (λ new e unsure.
          (λ id q other. refl, λ id. rw (expected_row, e, unsure) refl, inr (λ id q. refl)))
        (λ new hints s e sure at_s ok.
          changed-IsKept g name db.node_fields input new s
            (found-name db.global_fields name g there) e sure at_s ok)
