-- ===== src/Validation/Coerce/Items.antt =====
-- The items of a list are coerced one by one, and one failure fails the list.
use vault_engine.Base.{
  ℕ, suc, Bool, true, false, Option, none, some, List, [], ◌∷◌, ◌++◌, ◌≡◌, refl, arith, inl, inr,
  is_empty, append_assoc, append-nil, ◌∙◌, ap, sym, ◌⊎◌, ◌↔◌, Option-cases, if◌then◌else◌,
}
use vault_engine.Value.{Value, arr, Values, elems, of_elems, Runtime}
use vault_engine.Validation.Types.{FieldType}
use vault_engine.Validation.Coerce.Result.{
  CoercionCode, CoercionResult, success, failure, CoercionFailure, CoercionOptions,
}
use vault_engine.Validation.Coerce.Dates.{Chrono}
use vault_engine.Validation.Coerce.{
  Gathered, gathered, gather, gather_all, list_result, gathered_result, coerce_list, coerce_step,
  coerce_value,
}

-- The call succeeds with the value.
abbrev pub Gives : Option CoercionResult → Value → Type 0
Gives r w = (changed : Bool) × (code : Option CoercionCode) × (r ≡ some (success w changed code))

-- The second list holds what the calls give for the items of the first, all of them successes.
abbrev pub Each : (Value → Option CoercionResult) → List Value → List Value → Type 0
Each rec [] [] = Unit
Each rec (v ∷ vs) (w ∷ ws) = Gives (rec v) w × Each rec vs ws
Each rec _ _ = ⊥

is_empty-snoc {ℓ} : {A : Type ℓ} (xs : List A) (x : A) → is_empty (xs ++ x ∷ []) ≡ false
is_empty-snoc [] x = refl
is_empty-snoc (y ∷ xs) x = refl

-- How a call for one item ends.
abbrev Fails : Option CoercionResult → Type 0
Fails r = (f : CoercionFailure) × (r ≡ some (failure f))

Outcome-cases : (r : Option CoercionResult) → (r ≡ none) ⊎ (Fails r ⊎ ((w : Value) × Gives r w))
Outcome-cases none = inl refl
Outcome-cases (some (failure f)) = inr (inl (f, refl))
Outcome-cases (some (success w c k)) = inr (inr (w, (c, k, refl)))

module _ (rec : Value → Option CoercionResult) where
  gather-errors :
      (i : ℕ) (v : Value) (r : CoercionResult) (g : Gathered)
      → is_empty g.errors ≡ false
      → is_empty (gather i v r g).errors ≡ false
  unfolding gather
  gather-errors i v (success w c k) g h = h
  gather-errors i v (failure f) g h = is_empty-snoc g.errors _

  gather_all-errors :
      (i : ℕ) (vs : List Value) (g g' : Gathered)
      → is_empty g.errors ≡ false
      → gather_all rec i vs g ≡ some g'
      → is_empty g'.errors ≡ false
  unfolding gather_all
  gather_all-errors i [] g g' e h = cc
  gather_all-errors i (v ∷ vs) g g' e h = elim (Option-cases (rec v)) [
    | inl p ↦ absurd (ground arith)
    | inr (r, p) ↦
        gather_all-errors (suc i) vs (gather i v r g) g' (gather-errors i v r g e)
          (rw (p, gather_all) at h)
  ]

  gather_all-Each :
      (i : ℕ) (vs : List Value) (g g' : Gathered)
      → gather_all rec i vs g ≡ some g'
      → is_empty g'.errors ≡ true
      → (ws : List Value) × (g'.coerced ≡ g.coerced ++ ws) × Each rec vs ws
  unfolding gather_all gather
  gather_all-Each i [] g g' h e =
      let same : g ≡ g' = cc in
      ([], ap (λ (x : Gathered). x.coerced) (sym same) ∙ sym (append-nil g.coerced), tt)
  gather_all-Each i (v ∷ vs) g g' h e = elim (Outcome-cases (rec v)) [
    | inl p ↦ absurd (ground arith)
    | inr (inl (f, p)) ↦ absurd (
        ground (
          arith,
          gather_all-errors (suc i) vs (gather i v (failure f) g) g' (is_empty-snoc g.errors _)
              (rw (p, gather_all) at h),
        ))
    | inr (inr (w, (c, k, p))) ↦
        let (ws, same, each) =
          gather_all-Each (suc i) vs (gather i v (success w c k) g) g' (rw (p, gather_all) at h)
            e in
        (w ∷ ws, same ∙ append_assoc g.coerced (w ∷ []) ws, ((c, k, p), each))
  ]

  gather_all_of_Each :
      (i : ℕ) (vs ws : List Value) (g : Gathered)
      → Each rec vs ws
      → (g' : Gathered) × (gather_all rec i vs g ≡ some g')
        × (g'.coerced ≡ g.coerced ++ ws)
        × (g'.errors ≡ g.errors)
  unfolding gather_all gather
  gather_all_of_Each i [] [] g e = (g, refl, sym (append-nil g.coerced), refl)
  gather_all_of_Each i [] (w ∷ ws) g e = elim e [ ]
  gather_all_of_Each i (v ∷ vs) [] g e = elim e [ ]
  gather_all_of_Each i (v ∷ vs) (w ∷ ws) g ((c, k, p), es) =
      let (g', run, same, clean) =
        gather_all_of_Each (suc i) vs ws (gather i v (success w c k) g) es in
      (g', rw (p, gather_all) run, same ∙ append_assoc g.coerced (w ∷ []) ws, clean)

-- The successful results of coercing a list.
abbrev pub GivesList : Option CoercionResult → List Value → Type 0
GivesList r ws = Gives r (arr (of_elems ws))

gathered_result-Gives :
    (t : FieldType) (g : Gathered)
    → is_empty g.errors ≡ true
    → GivesList (gathered_result t (some g)) g.coerced
unfolding list_result
gathered_result-Gives t g e =
    (g.any_changed, (if g.any_changed then some CoercionCode.list_element_coercion else none), rw e)

Gives-gathered_result :
    (t : FieldType) (o : Option Gathered) (w : Value)
    → Gives (gathered_result t o) w
    → (g : Gathered) × (o ≡ some g) × (is_empty g.errors ≡ true) × (w ≡ arr (of_elems g.coerced))
unfolding list_result
Gives-gathered_result t none w (c, k, e) = cc
Gives-gathered_result t (some g) w (c, k, e) = (g, refl, ground arith, ground arith)

module _ (rt : Runtime) (chrono : Chrono) (o : CoercionOptions) (fuel : ℕ) (vs : Values)
    (t : FieldType) (item : o.list_item_type ≡ some t) where
  abbrev one : Value → Option CoercionResult
  one v = coerce_value fuel rt chrono v t o

  abbrev run : Option Gathered
  run = gather_all one 0 (elems vs) gathered

  coerce_value-eq-run :
      coerce_value (suc fuel) rt chrono (arr vs) FieldType.list o ≡ gathered_result t run
  unfolding coerce_value coerce_step coerce_list
  coerce_value-eq-run = ap (coerce_list (λ v s. coerce_value fuel rt chrono v s o) (arr vs)) item

  list_there :
      (w : Value)
      → Gives (coerce_value (suc fuel) rt chrono (arr vs) FieldType.list o) w
      → (ws : List Value) × (w ≡ arr (of_elems ws)) × Each one (elems vs) ws
  list_there w (c, k, e) =
      let (g, ran, clean, same) =
        Gives-gathered_result t run w (c, k, sym coerce_value-eq-run ∙ e) in
      let (ws, split, each) = gather_all-Each one 0 (elems vs) gathered g ran clean in
      (ws, same ∙ ap (λ l. arr (of_elems l)) split, each)

  list_back :
      (w : Value)
      → ((ws : List Value) × (w ≡ arr (of_elems ws)) × Each one (elems vs) ws)
      → Gives (coerce_value (suc fuel) rt chrono (arr vs) FieldType.list o) w
  list_back w (ws, same, each) =
      let (g, ran, split, clean) = gather_all_of_Each one 0 (elems vs) ws gathered each in
      let (c, k, e) = gathered_result-Gives t g (ap is_empty clean) in
      (
        c,
        k,
        coerce_value-eq-run
            ∙ ap (gathered_result t) ran
            ∙ e
            ∙ ap (λ x. some (success x c k)) (ap (λ l. arr (of_elems l)) split ∙ sym same),
      )

-- Coercing an array to a list with an item type succeeds exactly when coercing each of its items to
-- that type does, and gives the array of their results in order.
pub coerce_value-list_iff :
    (rt : Runtime) (chrono : Chrono) (o : CoercionOptions) (fuel : ℕ) (vs : Values) (w : Value)
    (t : FieldType)
    → o.list_item_type ≡ some t
    → Gives (coerce_value (suc fuel) rt chrono (arr vs) FieldType.list o) w ↔ (
        (ws : List Value) × (w ≡ arr (of_elems ws))
        × Each (λ v. coerce_value fuel rt chrono v t o) (elems vs) ws)
coerce_value-list_iff rt chrono o fuel vs w t item =
    (list_there rt chrono o fuel vs t item w, list_back rt chrono o fuel vs t item w)
