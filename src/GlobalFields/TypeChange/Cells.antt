-- ===== src/GlobalFields/TypeChange/Cells.antt =====
-- What a change of a field's type (src/global-fields/crud.ts) stores in each row of the field.
use vault_engine.Base.{
  Text, Bool, true, false, not, ◌&&◌, ◌||◌, Option, none, some, List, [], ◌∷◌, ◌≡◌, refl, ap, ◌∙◌,
  inl, inr, Option-cases, if◌then◌else◌, ◌==◌, eq_iff, arith, filter, some_of,
}
use vault_engine.Value.{Value, Runtime}
use vault_engine.Store.{NodeField, find_field}
use vault_engine.Validation.Coerce.Result.{CoercionResult, success, failure}
use vault_engine.Pipeline.ClassifyValue.{FieldColumns, reconstruct_value}
use vault_engine.GlobalFields.Crud.{Uncoercible, is_field}
use vault_engine.GlobalFields.TypeChange.{
  Coercible, set_columns, store_coerced, drop_rows, classify_coerced_value,
}

abbrev pub with_columns : Option FieldColumns → NodeField → NodeField
with_columns none r = r
with_columns (some c) r = record r { columns = c }

abbrev pub or_else_columns : Option FieldColumns → Option FieldColumns → Option FieldColumns
or_else_columns none d = d
or_else_columns (some c) d = some c

-- The columns of a coerced value
abbrev pub new_columns : Runtime → Option CoercionResult → Option FieldColumns
new_columns rt none = none
new_columns rt (some (success v changed code)) = some (classify_coerced_value rt v)
new_columns rt (some (failure f)) = none

abbrev pub is_failure : Option CoercionResult → Bool
is_failure none = false
is_failure (some (success v changed code)) = false
is_failure (some (failure f)) = true

-- What becomes of a row: it goes where the coercion failed, and takes the new columns otherwise.
abbrev pub replaced : Bool → Option FieldColumns → Option NodeField → Option NodeField
replaced failed columns none = none
replaced true columns (some r) = none
replaced false columns (some r) = some (with_columns columns r)

module _ (coerce : Value → Option CoercionResult) (rt : Runtime) (parse : Text → Value)
    (name id : Text) where
  abbrev pub is_at : NodeField → Bool
  is_at r = r.node_id == id && is_field name r

  -- The coercion of a stored value of the field of the node fails.
  abbrev pub fails_at : List NodeField → Bool
  fails_at [] = false
  fails_at (r ∷ rows) =
      (is_at r && is_failure (coerce (reconstruct_value parse r.columns))) || fails_at rows

  -- The columns of the coercion of the stored value of the field of the node: of the last one, where
  -- there are several rows of it.
  abbrev pub columns_at : List NodeField → Option FieldColumns
  columns_at [] = none
  columns_at (r ∷ rows) =
      or_else_columns (columns_at rows)
        (if is_at r then new_columns rt (coerce (reconstruct_value parse r.columns)) else none)

  -- The row of the node behind the change
  abbrev pub recoerced : List NodeField → Option NodeField
  recoerced rows = replaced (fails_at rows) (columns_at rows) (find_field rows id name)

module _ (rt : Runtime) (name id : Text) where
  -- The columns of the last value for the node in a list of coerced ones
  abbrev pub last_of : List Coercible → Option FieldColumns
  last_of [] = none
  last_of (c ∷ cs) =
      or_else_columns (last_of cs)
        (if c.node_id == id then some (classify_coerced_value rt c.new_value) else none)

  abbrev rewritten : Option FieldColumns → Option NodeField → Option NodeField
  rewritten c o = replaced false c o

  find_field-set_columns :
      (node : Text) (columns : FieldColumns) (rows : List NodeField)
      → find_field (set_columns name node columns rows) id name
        ≡ rewritten (if node == id then some columns else none) (find_field rows id name)
  unfolding set_columns find_field
  find_field-set_columns node columns [] = refl
  find_field-set_columns node columns (r ∷ rows) = ground (
    arith,
    find_field-set_columns node columns rows,
    eq_iff r.node_id node,
    eq_iff r.node_id id,
    eq_iff node id,
  )

  rewritten-twice :
      (a b : Option FieldColumns) (o : Option NodeField)
      → rewritten a (rewritten b o) ≡ rewritten (or_else_columns a b) o
  rewritten-twice a b none = refl
  rewritten-twice none b (some r) = refl
  rewritten-twice (some a) none (some r) = refl
  rewritten-twice (some a) (some b) (some r) = refl

  pub find_field-store_coerced :
      (cs : List Coercible) (rows : List NodeField)
      → find_field (store_coerced rt name cs rows) id name
        ≡ rewritten (last_of cs) (find_field rows id name)
  unfolding store_coerced
  find_field-store_coerced [] rows = elim (Option-cases (find_field rows id name)) [
    | inl e ↦ rw e refl
    | inr (r, e) ↦ rw e refl
  ]
  find_field-store_coerced (c ∷ cs) rows =
      let columns = classify_coerced_value rt c.new_value in
      find_field-store_coerced cs (set_columns name c.node_id columns rows)
      ∙ ap (rewritten (last_of cs)) (find_field-set_columns c.node_id columns rows)
      ∙ rewritten-twice (last_of cs) _ (find_field rows id name)

  find_field-drop_row :
      (node : Text) (rows : List NodeField)
      → find_field (filter (λ r. not (r.node_id == node && is_field name r)) rows) id name
        ≡ (if node == id then none else find_field rows id name)
  unfolding find_field
  find_field-drop_row node [] = ground arith
  find_field-drop_row node (r ∷ rows) = ground (
    arith,
    find_field-drop_row node rows,
    eq_iff r.node_id node,
    eq_iff r.node_id id,
    eq_iff node id,
  )

  abbrev pub is_for : Uncoercible → Bool
  is_for u = u.node_id == id

  pub find_field-drop_rows :
      (us : List Uncoercible) (rows : List NodeField)
      → find_field (drop_rows name us rows) id name
        ≡ (if some_of is_for us then none else find_field rows id name)
  unfolding drop_rows
  find_field-drop_rows [] rows = refl
  find_field-drop_rows (u ∷ us) rows =
      find_field-drop_rows us (filter (λ r. not (r.node_id == u.node_id && is_field name r)) rows)
      ∙ ground (arith, find_field-drop_row u.node_id rows)
