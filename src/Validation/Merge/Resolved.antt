-- ===== src/Validation/Merge/Resolved.antt =====
-- How `required` and the default are resolved: by agreement, and by falling back to the global field
-- where the claims disagree.
use vault_engine.Base.{
  Bool, true, false, not, ◌||◌, none, some, List, [], ◌∷◌, ◌≡◌, refl, arith, eq_iff, every, All,
  ◌⊎◌, inl, inr, ap, sym, Bool-cases,
}
use vault_engine.Value.{Value, Runtime}
use vault_engine.Validation.Types.{
  GlobalFieldDefinition, DefaultSource, Override, inherit, override,
}
use vault_engine.Validation.Merge.{
  ClaimEntry, overrides, agreed, bool_eq, required_of, default_of, same_json, resolve_required,
  resolve_default, with_source,
}

-- Some claim overrides `required` with the value.
abbrev pub some_requires : Bool → List ClaimEntry → Bool
some_requires b [] = false
some_requires b (e ∷ es) =
    (elim e.claim.required_override [ none ↦ false | some c ↦ bool_eq c b ]) || some_requires b es

-- Agreement, from whether `true` and `false` are among the overrides.
abbrev pub by_vote : Bool → Bool → Bool → Bool
by_vote true false d = true
by_vote false true d = false
by_vote _ _ d = d

overrides-every :
    (b : Bool) (es : List ClaimEntry)
    → every (bool_eq b) (overrides required_of es) ≡ not (some_requires (not b) es)
unfolding overrides
overrides-every b [] = refl
overrides-every b (e ∷ es) = ground (arith, overrides-every b es)

-- `required` is resolved by the set of overrides alone: true or false where all of them say so, the
-- global value where there is none or where they disagree. No order of types or claims matters.
pub resolve_required-by_vote :
    (gf : GlobalFieldDefinition) (es : List ClaimEntry)
    → resolve_required gf es ≡ by_vote (some_requires true es) (some_requires false es) gf.required
unfolding resolve_required agreed overrides
resolve_required-by_vote gf [] = refl
resolve_required-by_vote gf (e ∷ es) =
    ground
      (arith, resolve_required-by_vote gf es, overrides-every true es, overrides-every false es)

Override-cases {ℓ} : {A : Type ℓ} (o : Override A) → (o ≡ inherit) ⊎ ((a : A) × (o ≡ override a))
Override-cases inherit = inl refl
Override-cases (override a) = inr (a, refl)

-- Every override has the JSON text of the value.
abbrev pub AgreeOn : Runtime → Value → List Value → Type 0
AgreeOn rt v ws = All (λ w. rt.stringify v ≡ rt.stringify w) ws

module _ (rt : Runtime) where
  AgreeOn-of_every :
      (v : Value) (ws : List Value) → every (same_json rt v) ws ≡ true → AgreeOn rt v ws
  AgreeOn-of_every v [] h = tt
  AgreeOn-of_every v (w ∷ ws) h =
      let same = eq_iff (rt.stringify v) (rt.stringify w) in
      (ground arith, AgreeOn-of_every v ws (ground arith))

  every_of_AgreeOn :
      (v : Value) (ws : List Value) → AgreeOn rt v ws → every (same_json rt v) ws ≡ true
  every_of_AgreeOn v [] h = refl
  every_of_AgreeOn v (w ∷ ws) h =
      ground (arith, eq_iff (rt.stringify v) (rt.stringify w), every_of_AgreeOn v ws h.1)

  -- The default of the global field is `d`, and the claims override it by the values.
  abbrev pub IsDefault : Value → List Value → Value × DefaultSource → Type 0
  IsDefault d [] r = r ≡ (d, DefaultSource.global)
  IsDefault d (w ∷ ws) r =
      (AgreeOn rt w ws × (r ≡ (w, DefaultSource.claim)))
      ⊎ (¬ AgreeOn rt w ws × (r ≡ (d, DefaultSource.global)))

  agreed-IsDefault :
      (d : Value) (ws : List Value) → IsDefault d ws (with_source d (agreed (same_json rt) ws))
  unfolding agreed
  agreed-IsDefault d [] = refl
  agreed-IsDefault d (w ∷ ws) = elim (Bool-cases (every (same_json rt w) ws)) [
    | inl e ↦ inl (AgreeOn-of_every w ws e, rw e refl)
    | inr e ↦ inr ((λ h. cc (every_of_AgreeOn w ws h)), rw e refl)
  ]

-- The defaults by which claims override that of the global field, in order.
abbrev pub default_overrides : List ClaimEntry → List Value
default_overrides [] = []
default_overrides (e ∷ es) = elim e.claim.default_value_override [
  | inherit ↦ default_overrides es
  | override v ↦ v ∷ default_overrides es
]

default_overrides-eq : (es : List ClaimEntry) → overrides default_of es ≡ default_overrides es
unfolding overrides
default_overrides-eq [] = refl
default_overrides-eq (e ∷ es) = elim (Override-cases e.claim.default_value_override) [
  | inl h ↦ rw h (default_overrides-eq es)
  | inr (v, h) ↦ rw h (ap (λ ws. v ∷ ws) (default_overrides-eq es))
]

-- Where no claim overrides the default, it is the global field's. Otherwise it is the override of the
-- first claim that has one if all later overrides have the JSON text of that, and then its source is the
-- claims, and the global field's if some later override has another one.
pub resolve_default-IsDefault :
    (rt : Runtime) (gf : GlobalFieldDefinition) (es : List ClaimEntry)
    → IsDefault rt gf.default_value (default_overrides es) (resolve_default rt gf es)
unfolding resolve_default
resolve_default-IsDefault rt gf es =
    rw (sym (default_overrides-eq es))
      (agreed-IsDefault rt gf.default_value (overrides default_of es))
