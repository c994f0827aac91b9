-- ===== src/Validation/Coerce/Lists.antt =====
-- Laws of `coerceList` and `coerceValue` (src/validation/coerce.ts): the types of their results.
use vault_engine.Base.{
  ℕ, zero, suc, Text, Bool, Option, none, some, List, [], ◌∷◌, ◌≡◌, ◌≢◌, refl, arith, All,
  All-append, inl, inr, Option-cases, is_empty, Bool-cases, if◌then◌else◌, ◌∙◌, ap,
}
use vault_engine.Value.{Value, undefined, null, arr, elems, of_elems, elems-of_elems, Runtime}
use vault_engine.Validation.Types.{FieldType}
use vault_engine.Validation.Coerce.Result.{
  CoercionCode, CoercionResult, success, failure, CoercionOptions,
}
use vault_engine.Validation.Coerce.Dates.{Chrono}
use vault_engine.Validation.Coerce.{
  coerce_scalar, Gathered, gathered, gather, gather_all, list_result, gathered_result, wrapped,
  wrapped_result, coerce_list, coerce_step, coerce_value,
}
use vault_engine.Validation.Coerce.Sound.{
  is_some, FitsScalar, NullOr, FitsItems, Fits, Ensures, Scalar, coerce_scalar-Scalar,
}

-- What a call promises, where it returns a success.
abbrev pub Returned : (Value → Bool → Option CoercionCode → Type 0) → Option CoercionResult → Type 0
Returned P none = Unit
Returned P (some r) = Ensures P r

abbrev Item : Option (List Text) → FieldType → Value → Bool → Option CoercionCode → Type 0
Item values t w changed code = NullOr (FitsScalar values t) w × (changed ≡ is_some code)

NullOr-of : (P : Value → Type 0) (w : Value) → P w → NullOr P w
NullOr-of P null h = tt
NullOr-of P undefined h = h
NullOr-of P _ h = h

Item-of_Scalar :
    (values : Option (List Text)) (t : FieldType) (r : CoercionResult)
    → Ensures (Scalar values t) r
    → Ensures (Item values t) r
Item-of_Scalar values t (success w c k) h = (NullOr-of (FitsScalar values t) w h.0, h.1)
Item-of_Scalar values t (failure f) h = tt

-- A list whose items have the item type.
abbrev Listed : Option (List Text) → Option FieldType → Value → Bool → Option CoercionCode → Type 0
Listed values item (arr vs) changed code =
    FitsItems values item (elems vs) × (changed ≡ is_some code)
Listed values item _ changed code = ⊥

is_some-if : (b : Bool) (k : CoercionCode) → b ≡ is_some (if b then some k else none)
is_some-if b k = ground arith

-- The contract of one item, whatever the recursive call does.
coerce_step-Item :
    (rec : Value → FieldType → Option CoercionResult) (rt : Runtime) (chrono : Chrono) (v : Value)
    (t : FieldType) (o : CoercionOptions)
    → t ≢ FieldType.list
    → Returned (Item o.enum_values t) (coerce_step rec rt chrono v t o)
unfolding coerce_step
coerce_step-Item rec rt chrono undefined t o h = (tt, refl)
coerce_step-Item rec rt chrono null t o h = (tt, refl)
coerce_step-Item rec rt chrono v FieldType.list o h = absurd (h refl)
coerce_step-Item rec rt chrono v t o h =
    Item-of_Scalar o.enum_values t (coerce_scalar rt chrono v t o)
      (coerce_scalar-Scalar rt chrono v t o)

module _ (values : Option (List Text)) (t : FieldType) where
  abbrev Keeps : Gathered → Type 0
  Keeps g = All (NullOr (FitsScalar values t)) g.coerced

  abbrev Kept : Option Gathered → Type 0
  Kept none = Unit
  Kept (some g) = Keeps g

  gather-Keeps :
      (i : ℕ) (v : Value) (r : CoercionResult) (g : Gathered)
      → Ensures (Item values t) r
      → Keeps g
      → Keeps (gather i v r g)
  unfolding gather
  gather-Keeps i v (success w c k) g h keeps =
      All-append (NullOr (FitsScalar values t)) g.coerced (w ∷ []) keeps (h.0, tt)
  gather-Keeps i v (failure f) g h keeps = keeps

  module _ (rec : Value → Option CoercionResult)
      (good : (v : Value) → Returned (Item values t) (rec v)) where
    gather_all-Kept :
        (i : ℕ) (vs : List Value) (g : Gathered) → Keeps g → Kept (gather_all rec i vs g)
    unfolding gather_all
    gather_all-Kept i [] g keeps = keeps
    gather_all-Kept i (v ∷ vs) g keeps = elim (Option-cases (rec v)) [
      | inl e ↦ rw (e, gather_all, Kept) tt
      | inr (r, e) ↦
          rw (e, gather_all, Kept)
            (gather_all-Kept (suc i) vs (gather i v r g)
              (gather-Keeps i v r g (rw e at (good v)) keeps))
    ]

  list_result-Listed : (g : Gathered) → Keeps g → Ensures (Listed values (some t)) (list_result t g)
  unfolding list_result
  list_result-Listed g keeps = elim (Bool-cases (is_empty g.errors)) [
    | inl e ↦ rw e (rw elems-of_elems keeps, is_some-if g.any_changed _)
    | inr e ↦ rw e tt
  ]

  gathered_result-Listed :
      (o : Option Gathered) → Kept o → Returned (Listed values (some t)) (gathered_result t o)
  gathered_result-Listed none h = tt
  gathered_result-Listed (some g) h = list_result-Listed g h

  wrapped-Listed :
      (v : Value) (r : CoercionResult)
      → Ensures (Item values t) r
      → Ensures (Listed values (some t)) (wrapped v r)
  unfolding wrapped elems of_elems
  wrapped-Listed v (success w c k) h = ((h.0, tt), refl)
  wrapped-Listed v (failure f) h = tt

  wrapped_result-Listed :
      (v : Value) (r : Option CoercionResult)
      → Returned (Item values t) r
      → Returned (Listed values (some t)) (wrapped_result v r)
  wrapped_result-Listed v none h = tt
  wrapped_result-Listed v (some r) h = wrapped-Listed v r h

coerce_list-Listed :
    (values : Option (List Text)) (rec : Value → FieldType → Option CoercionResult) (v : Value)
    (item : Option FieldType)
    → ((t : FieldType) → item ≡ some t → (w : Value) → Returned (Item values t) (rec w t))
    → Returned (Listed values item) (coerce_list rec v item)
unfolding coerce_list
coerce_list-Listed values rec (arr vs) none good = (tt, refl)
coerce_list-Listed values rec (arr vs) (some t) good =
    gathered_result-Listed values t (gather_all (λ w. rec w t) 0 (elems vs) gathered)
      (gather_all-Kept values t (λ w. rec w t) (good t refl) 0 (elems vs) gathered tt)
coerce_list-Listed values rec v none good = tt
coerce_list-Listed values rec v (some t) good =
    wrapped_result-Listed values t v (rec v t) (good t refl v)

-- The contract of `coerceValue`.
abbrev pub Sound : CoercionOptions → FieldType → Value → Bool → Option CoercionCode → Type 0
Sound o t w changed code = NullOr (Fits o t) w × (changed ≡ is_some code)

Fits_of_scalar :
    (o : CoercionOptions) (t : FieldType) (r : Option CoercionResult)
    → t ≢ FieldType.list
    → Returned (Item o.enum_values t) r
    → Returned (Sound o t) r
Fits_of_scalar o FieldType.list r n h = absurd (n refl)
Fits_of_scalar o _ r n h = h

Sound-of_Listed :
    (o : CoercionOptions) (r : Option CoercionResult)
    → Returned (Listed o.enum_values o.list_item_type) r
    → Returned (Sound o FieldType.list) r
Sound-of_Listed o none h = tt
Sound-of_Listed o (some (success (arr vs) c k)) h = h
Sound-of_Listed o (some (success _ c k)) h = absurd h
Sound-of_Listed o (some (failure f)) h = tt

coerce_step-Sound :
    (rec : Value → FieldType → Option CoercionResult) (rt : Runtime) (chrono : Chrono) (v : Value)
    (t : FieldType) (o : CoercionOptions)
    → ((s : FieldType)
        → o.list_item_type ≡ some s
        → (w : Value) → Returned (Item o.enum_values s) (rec w s))
    → Returned (Sound o t) (coerce_step rec rt chrono v t o)
unfolding coerce_step
coerce_step-Sound rec rt chrono undefined t o good = (tt, refl)
coerce_step-Sound rec rt chrono null t o good = (tt, refl)
coerce_step-Sound rec rt chrono v FieldType.list o good =
    Sound-of_Listed o (coerce_list rec v o.list_item_type)
      (coerce_list-Listed o.enum_values rec v o.list_item_type good)
coerce_step-Sound rec rt chrono v t o good =
    Fits_of_scalar o t (some (coerce_scalar rt chrono v t o)) (λ e. cc)
      (Item-of_Scalar o.enum_values t (coerce_scalar rt chrono v t o)
        (coerce_scalar-Scalar rt chrono v t o))

module _ (rt : Runtime) (chrono : Chrono) (o : CoercionOptions) where
  coerce_value-Item :
      (fuel : ℕ) (v : Value) (t : FieldType)
      → t ≢ FieldType.list
      → Returned (Item o.enum_values t) (coerce_value fuel rt chrono v t o)
  unfolding coerce_value
  coerce_value-Item zero v t n = tt
  coerce_value-Item (suc fuel) v t n =
      coerce_step-Item (λ w s. coerce_value fuel rt chrono w s o) rt chrono v t o n

  pub coerce_value-Sound :
      (fuel : ℕ) (v : Value) (t : FieldType)
      → o.list_item_type ≢ some FieldType.list
      → Returned (Sound o t) (coerce_value fuel rt chrono v t o)
  unfolding coerce_value
  coerce_value-Sound zero v t flat = tt
  coerce_value-Sound (suc fuel) v t flat =
      coerce_step-Sound (λ w s. coerce_value fuel rt chrono w s o) rt chrono v t o
        λ s e w. coerce_value-Item fuel w s (λ l. flat (e ∙ ap some l))

-- Unless list items are lists themselves, a value that `coerceValue` returns is null or has the
-- field's type: an enum value is one of the allowed texts, a number is finite, and the items of a
-- list are null or have the item type. It is marked as changed exactly when a code comes with it.
pub coerce_value-Fits :
    (rt : Runtime) (chrono : Chrono) (o : CoercionOptions) (fuel : ℕ) (v w : Value) (t : FieldType)
    (changed : Bool) (code : Option CoercionCode)
    → o.list_item_type ≢ some FieldType.list
    → coerce_value fuel rt chrono v t o ≡ some (success w changed code)
    → NullOr (Fits o t) w × (changed ≡ is_some code)
coerce_value-Fits rt chrono o fuel v w t changed code flat h =
    rw h at (coerce_value-Sound rt chrono o fuel v t flat)
