-- ===== src/GlobalFields/TypeChange/Cases.antt =====
-- The ways through `updateGlobalField` (src/global-fields/crud.ts).
use vault_engine.Base.{
  ℕ, Text, Bool, true, false, not, ◌&&◌, ◌||◌, Option, none, some, List, [], ◌∷◌, ◌≡◌, ◌⊎◌, refl,
  ap, subst, inl, inr, Option-cases, if◌then◌else◌, eq_iff, arith, filter, is_empty, length,
}
use vault_engine.Value.{Value}
use vault_engine.Validation.Coerce.{coerce_value}
use vault_engine.Validation.Coerce.Result.{CoercionResult}
use vault_engine.Store.{GlobalField, Database}
use vault_engine.Validation.Types.{FieldType}
use vault_engine.Pipeline.SchemaContext.{find_global_field}
use vault_engine.GlobalFields.UiHints.{UiHints}
use vault_engine.GlobalFields.Crud.{
  Crud, done, diverges, requires_discard, UpdateInput, is_field, new_hints, check_update,
  update_attributes, with_global_fields,
}
use vault_engine.GlobalFields.Crud.Sound.{and_then-done, done-injective, failed-done}
use vault_engine.GlobalFields.TypeChange.{
  split_rows, options_for, Platform, Split, Changed, apply_change, confirmed, or_diverge,
  change_type, changed_type, update_found, update_global_field,
}

pub found-name :
    (gs : List GlobalField) (name : Text) (g : GlobalField)
    → find_global_field gs name ≡ some g
    → g.definition.name ≡ name
unfolding find_global_field
found-name [] name g h = ground (arith, h)
found-name (k ∷ ks) name g h =
    ground (arith, h, eq_iff k.definition.name name, found-name ks name g)

if-done {ℓ} :
    {A : Type ℓ} (b : Bool) (x y : Crud A) (a : A)
    → (if b then x else y) ≡ done a
    → ((b ≡ true) × (x ≡ done a)) ⊎ ((b ≡ false) × (y ≡ done a))
if-done true x y a h = inl (refl, h)
if-done false x y a h = inr (refl, h)

diverges-done {ℓ κ} : {A : Type ℓ} {B : Type κ} (a : A) → diverges ≡ done a → B
diverges-done a h =
    absurd (subst (λ (c : Crud _). elim c as (λ _. Type 0) [ diverges ↦ Unit | _ ↦ ⊥ ]) h tt)

module _ (p : Platform) where
  -- What holds of the database itself where the change is not confirmed, and of the changed one where it
  -- is, holds behind a change of the type.
  confirmed-cases {ℓ} :
      (P : Database → Type ℓ) (db : Database) (g : GlobalField) (new : FieldType)
      (input : UpdateInput) (n : ℕ) (s : Split) (c : Changed)
      → confirmed p db g new input n s ≡ done c
      → (input.confirm ≡ false → P db)
      → ((hints : Option UiHints)
          → input.confirm ≡ true
          → (is_empty s.uncoercible || input.discard_uncoercible) ≡ true
          → P (apply_change p db g new input hints s))
      → P c.db
  unfolding confirmed
  confirmed-cases P db g new input n s c h same changed =
      elim (if-done (not input.confirm) _ _ c h) [
        | inl (e, h1) ↦
            subst (λ (k : Changed). P k.db) (done-injective _ c h1) (same (ground (arith, e)))
        | inr (e, h1) ↦
            elim (if-done (not (is_empty s.uncoercible) && not input.discard_uncoercible) _ _ c
              h1) [
                | inl (refused, h2) ↦
                    failed-done (requires_discard n (length s.coercible) s.uncoercible) c h2
                | inr (allowed, h2) ↦
                    let (hints, at_hints, h3) =
                      and_then-done (new_hints input.ui g.ui_hints) _ c h2 in
                    subst (λ (k : Changed). P k.db) (done-injective _ c h3)
                      (changed hints (ground (arith, e)) (ground (arith, allowed)))
              ]
      ]

  or_diverge-done : (o : Option Split) (s : Split) → or_diverge p o ≡ done s → o ≡ some s
  unfolding or_diverge
  or_diverge-done none s h = diverges-done s h
  or_diverge-done (some t) s h = ap some (done-injective t s h)

  -- The coercion of the stored values
  abbrev pub coercion : GlobalField → UpdateInput → FieldType → Value → Option CoercionResult
  coercion g input new v = coerce_value p.fuel p.rt p.chrono v new (options_for g.definition input)

  update_attributes-db :
      (db : Database) (g : GlobalField) (input : UpdateInput) (after : Database)
      → update_attributes db g input ≡ done after
      → (gfs : List GlobalField) × (with_global_fields db gfs ≡ after)
  unfolding update_attributes
  update_attributes-db db g input after h =
      let (ok, checked, h1) = and_then-done (check_update g.definition input) _ after h in
      let (hints, at_hints, h2) = and_then-done (new_hints input.ui g.ui_hints) _ after h1 in
      (_, done-injective _ after h2)

  pub update-cases {ℓ} :
      (P : Database → Type ℓ) (db : Database) (name : Text) (g : GlobalField) (input : UpdateInput)
      (c : Changed)
      → find_global_field db.global_fields name ≡ some g
      → update_global_field p db name input ≡ done c
      → ((gfs : List GlobalField)
          → changed_type p g.definition.field_type input.field_type ≡ none
          → P (with_global_fields db gfs))
      → ((new : FieldType)
          → changed_type p g.definition.field_type input.field_type ≡ some new
          → input.confirm ≡ false
          → P db)
      → ((new : FieldType) (hints : Option UiHints) (s : Split)
          → changed_type p g.definition.field_type input.field_type ≡ some new
          → input.confirm ≡ true
          → split_rows
              (coercion g input new)
              p.parse
              (filter (is_field g.definition.name) db.node_fields)
            ≡ some s
          → (is_empty s.uncoercible || input.discard_uncoercible) ≡ true
          → P (apply_change p db g new input hints s))
      → P c.db
  unfolding update_global_field update_found change_type
  update-cases P db name g input c there h same preview changed =
      elim (Option-cases (changed_type p g.definition.field_type input.field_type)) [
        | inl e ↦
            let (after, at_after, h1) =
              and_then-done (update_attributes db g input) _ c
                (rw (there, e, update_global_field, update_found) at h) in
            let (gfs, at_gfs) = update_attributes-db db g input after at_after in
            subst (λ (k : Changed). P k.db) (done-injective _ c h1) (subst P at_gfs (same gfs e))
        | inr (new, e) ↦
            let (s, at_s, h1) =
              and_then-done (or_diverge p _) _ c
                (rw (there, e, update_global_field, update_found, change_type) at h) in
            confirmed-cases P db g new input _ s c h1 (preview new e)
              (λ hints sure ok. changed new hints s e sure (or_diverge-done _ s at_s) ok)
      ]
