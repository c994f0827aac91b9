-- ===== src/Validation/Coerce/Total.antt =====
-- When `coerceValue` returns.
use vault_engine.Base.{
  ℕ, zero, suc, Text, true, Option, none, some, List, [], ◌∷◌, ◌≡◌, ◌≢◌, refl, inl, inr,
  Option-cases, ◌∙◌, ap,
}
use vault_engine.Value.{Value, undefined, null, str, arr, elems, Runtime, is_plain}
use vault_engine.Validation.Types.{FieldType}
use vault_engine.Validation.Coerce.Result.{CoercionResult, CoercionOptions}
use vault_engine.Validation.Coerce.Dates.{Chrono}
use vault_engine.Validation.Coerce.{
  Gathered, gathered, gather, gather_all, gathered_result, wrapped_result, coerce_list, coerce_step,
  coerce_value,
}

-- The call returns.
abbrev pub Returns {ℓ} : {A : Type ℓ} → Option A → Type 0
Returns none = ⊥
Returns (some a) = Unit

coerce_step-Returns :
    (rec : Value → FieldType → Option CoercionResult) (rt : Runtime) (chrono : Chrono) (v : Value)
    (t : FieldType) (o : CoercionOptions)
    → t ≢ FieldType.list
    → Returns (coerce_step rec rt chrono v t o)
unfolding coerce_step
coerce_step-Returns rec rt chrono undefined t o n = tt
coerce_step-Returns rec rt chrono null t o n = tt
coerce_step-Returns rec rt chrono v FieldType.list o n = absurd (n refl)
coerce_step-Returns rec rt chrono v t o n = tt

module _ (rec : Value → Option CoercionResult) where
  gather_all-Returns :
      ((v : Value) → Returns (rec v))
      → (i : ℕ) (vs : List Value) (g : Gathered) → Returns (gather_all rec i vs g)
  unfolding gather_all
  gather_all-Returns good i [] g = tt
  gather_all-Returns good i (v ∷ vs) g = elim (Option-cases (rec v)) [
    | inl e ↦ absurd (rw e at (good v))
    | inr (r, e) ↦ rw (e, gather_all, Returns) (gather_all-Returns good (suc i) vs (gather i v r g))
  ]

gathered_result-Returns :
    (t : FieldType) (g : Option Gathered) → Returns g → Returns (gathered_result t g)
gathered_result-Returns t none h = h
gathered_result-Returns t (some g) h = tt

wrapped_result-Returns :
    (v : Value) (r : Option CoercionResult) → Returns r → Returns (wrapped_result v r)
wrapped_result-Returns v none h = h
wrapped_result-Returns v (some r) h = tt

coerce_list-Returns :
    (rec : Value → FieldType → Option CoercionResult) (v : Value) (item : Option FieldType)
    → ((t : FieldType) → item ≡ some t → (w : Value) → Returns (rec w t))
    → Returns (coerce_list rec v item)
unfolding coerce_list
coerce_list-Returns rec (arr vs) none good = tt
coerce_list-Returns rec (arr vs) (some t) good =
    gathered_result-Returns t (gather_all (λ w. rec w t) 0 (elems vs) gathered)
      (gather_all-Returns (λ w. rec w t) (good t refl) 0 (elems vs) gathered)
coerce_list-Returns rec v none good = tt
coerce_list-Returns rec v (some t) good = wrapped_result-Returns v (rec v t) (good t refl v)

coerce_step-Returns_flat :
    (rec : Value → FieldType → Option CoercionResult) (rt : Runtime) (chrono : Chrono) (v : Value)
    (t : FieldType) (o : CoercionOptions)
    → ((s : FieldType) → o.list_item_type ≡ some s → (w : Value) → Returns (rec w s))
    → Returns (coerce_step rec rt chrono v t o)
unfolding coerce_step
coerce_step-Returns_flat rec rt chrono undefined t o good = tt
coerce_step-Returns_flat rec rt chrono null t o good = tt
coerce_step-Returns_flat rec rt chrono v FieldType.list o good =
    coerce_list-Returns rec v o.list_item_type good
coerce_step-Returns_flat rec rt chrono v t o good = tt

-- Unless list items are lists themselves, `coerceValue` returns at every type and every value on which
-- the conversions to text of the platform do not throw (no object in it has a member `toString`, and its
-- dates are valid): two levels of calls are enough.
pub coerce_value-Returns :
    (rt : Runtime) (chrono : Chrono) (o : CoercionOptions) (fuel : ℕ) (v : Value) (t : FieldType)
    → o.list_item_type ≢ some FieldType.list
    → is_plain v ≡ true
    → Returns (coerce_value (suc (suc fuel)) rt chrono v t o)
unfolding coerce_value
coerce_value-Returns rt chrono o fuel v t flat plain =
    coerce_step-Returns_flat (λ w s. coerce_value (suc fuel) rt chrono w s o) rt chrono v t o
      λ s e w.
        coerce_step-Returns (λ x r. coerce_value fuel rt chrono x r o) rt chrono w s o
          (λ l. flat (e ∙ ap some l))

-- With lists of lists, `coerceValue` never returns at a text: it wraps the text into a list, whose
-- item it wraps into a list, and so on.
pub coerce_value-diverges :
    (rt : Runtime) (chrono : Chrono) (o : CoercionOptions) (fuel : ℕ) (s : Text)
    → o.list_item_type ≡ some FieldType.list
    → coerce_value fuel rt chrono (str s) FieldType.list o ≡ none
unfolding coerce_value coerce_step coerce_list
coerce_value-diverges rt chrono o zero s h = refl
coerce_value-diverges rt chrono o (suc fuel) s h =
    rw (h, coerce_list) (rw (coerce_value-diverges rt chrono o fuel s h) refl)
