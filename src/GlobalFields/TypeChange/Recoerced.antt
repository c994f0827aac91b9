-- ===== src/GlobalFields/TypeChange/Recoerced.antt =====
-- The rows of a field behind a change of its type (src/global-fields/crud.ts), from the split of the
-- stored values.
use vault_engine.Base.{
  Text, Bool, true, false, ◌&&◌, Option, none, some, List, [], ◌∷◌, ◌≡◌, ◌≢◌, refl, sym, subst, ◌∙◌,
  inl, inr, Bool-cases, Option-cases, if◌then◌else◌, ◌==◌, filter, some_of,
}
use vault_engine.Value.{Value, Runtime}
use vault_engine.Store.{NodeField, find_field}
use vault_engine.Validation.Coerce.Result.{CoercionResult, success, failure}
use vault_engine.Pipeline.ClassifyValue.{FieldColumns, reconstruct_value}
use vault_engine.Pipeline.Snapshot.Capture.{some-injective}
use vault_engine.GlobalFields.Crud.{is_field}
use vault_engine.GlobalFields.TypeChange.{Split, store_coerced, drop_rows, split_rows, add_split}
use vault_engine.GlobalFields.TypeChange.Cells.{
  or_else_columns, replaced, columns_at, fails_at, recoerced, last_of, is_for,
  find_field-store_coerced, find_field-drop_rows,
}

module _ (rt : Runtime) (name id : Text) where
  -- The split of the rows of the field holds the new columns and the failures of the node.
  unfoldable Splits :
      (Value → Option CoercionResult) → (Text → Value) → List NodeField → Split → Type 0
  Splits coerce parse rows s =
      (last_of rt name id s.coercible ≡ columns_at coerce rt parse name id rows)
      × (some_of (is_for rt name id) s.uncoercible ≡ fails_at coerce rt parse name id rows)

none_ne_some {ℓ} : {A : Type ℓ} (a : A) → none ≢ some a
none_ne_some a e = cc

and_false : (b : Bool) → (b && false) ≡ false
and_false true = refl
and_false false = refl

or_else_columns-none : (a : Option FieldColumns) → or_else_columns a none ≡ a
or_else_columns-none none = refl
or_else_columns-none (some a) = refl

replaced-if :
    (b : Bool) (columns : Option FieldColumns) (o : Option NodeField)
    → (if b then none else replaced false columns o) ≡ replaced b columns o
replaced-if true columns none = refl
replaced-if true columns (some r) = refl
replaced-if false columns o = refl

module _ (coerce : Value → Option CoercionResult) (rt : Runtime) (parse : Text → Value)
    (name id : Text) where
  Splits-skip :
      (r : NodeField) (rows : List NodeField) (s : Split)
      → is_field name r ≡ false
      → Splits rt name id coerce parse rows s
      → Splits rt name id coerce parse (r ∷ rows) s
  unfolding Splits
  Splits-skip r rows s e h =
      rw (e, and_false (r.node_id == id))
        (h.0 ∙ sym (or_else_columns-none (columns_at coerce rt parse name id rows)), h.1)

  Splits-add :
      (r : NodeField) (rows : List NodeField) (result : CoercionResult) (s : Split)
      → is_field name r ≡ true
      → coerce (reconstruct_value parse r.columns) ≡ some result
      → Splits rt name id coerce parse rows s
      → Splits rt name id coerce parse
          (r ∷ rows)
          (add_split r.node_id (reconstruct_value parse r.columns) result s)
  unfolding Splits add_split
  Splits-add r rows (success v changed code) s e at_result h = elim (Bool-cases (r.node_id == id)) [
    | inl same ↦ rw (e, at_result, same, h.0) (refl, h.1)
    | inr other ↦ rw (e, at_result, other, h.0) (refl, h.1)
  ]
  Splits-add r rows (failure f) s e at_result h = elim (Bool-cases (r.node_id == id)) [
    | inl same ↦
        rw (e, at_result, same)
          (h.0 ∙ sym (or_else_columns-none (columns_at coerce rt parse name id rows)), refl)
    | inr other ↦
        rw (e, at_result, other)
          (h.0 ∙ sym (or_else_columns-none (columns_at coerce rt parse name id rows)), h.1)
  ]

  split_rows-Splits :
      (rows : List NodeField) (s : Split)
      → split_rows coerce parse (filter (is_field name) rows) ≡ some s
      → Splits rt name id coerce parse rows s
  unfolding split_rows
  split_rows-Splits [] s h =
      subst (Splits rt name id coerce parse []) (some-injective _ s h)
        (unfold Splits in (refl, refl))
  split_rows-Splits (r ∷ rows) s h = elim (Bool-cases (is_field name r)) [
    | inl e ↦ elim (Option-cases (split_rows coerce parse (filter (is_field name) rows))) [
      | inl stuck ↦ absurd (none_ne_some s (rw (e, split_rows, stuck) at h))
      | inr (rest, at_rest) ↦ elim (Option-cases (coerce (reconstruct_value parse r.columns))) [
        | inl stuck ↦ absurd (none_ne_some s (rw (e, split_rows, at_rest, stuck) at h))
        | inr (result, at_result) ↦
            subst (Splits rt name id coerce parse (r ∷ rows))
              (some-injective _ s (rw (e, split_rows, at_rest, at_result) at h))
              (Splits-add r rows result rest e at_result (split_rows-Splits rows rest at_rest))
      ]
    ]
    | inr e ↦ Splits-skip r rows s e (split_rows-Splits rows s (rw (e, filter, if◌then◌else◌) at h))
  ]

  -- The row of the node behind the statements of the change
  pub find_field-recoerced :
      (rows : List NodeField) (s : Split)
      → split_rows coerce parse (filter (is_field name) rows) ≡ some s
      → find_field (drop_rows name s.uncoercible (store_coerced rt name s.coercible rows)) id name
        ≡ recoerced coerce rt parse name id rows
  find_field-recoerced rows s h =
      let found : (last_of rt name id s.coercible ≡ columns_at coerce rt parse name id rows)
          × (some_of (is_for rt name id) s.uncoercible ≡ fails_at coerce rt parse name id rows) =
        unfold Splits in split_rows-Splits rows s h in
      find_field-drop_rows rt name id s.uncoercible (store_coerced rt name s.coercible rows)
      ∙ rw (find_field-store_coerced rt name id s.coercible rows, found.0, found.1)
          (replaced-if (fails_at coerce rt parse name id rows)
            (columns_at coerce rt parse name id rows) (find_field rows id name))
