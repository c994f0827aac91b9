-- ===== src/Validation/Merge.antt =====
-- src/validation/merge.ts: `mergeFieldClaims`. The function always answers `ok: true`, so the model
-- gives the effective fields alone.
pub mod Collected
pub mod Resolved
use vault_engine.Base.{
  Text, Bool, true, false, not, Option, none, some, List, [], ◌∷◌, ◌++◌, map, if◌then◌else◌, every,
  some_of, filter, ℤ, pos, int_eq, ◌==◌, ◌&&◌, ◌||◌,
}
use vault_engine.Base.Dict
use vault_engine.Base.Dict.{Dict}
use vault_engine.Value.{Value, Runtime}
use vault_engine.Validation.Types.{
  GlobalFieldDefinition, FieldClaim, EffectiveField, EffectiveFieldSet, PerTypeEnumValues,
  DefaultSource, inherit, override,
}

-- A claim with the type that makes it.
pub record ClaimEntry : Type 0 where
  pub type : Text
  pub claim : FieldClaim

abbrev pub or_empty {ℓ} : {A : Type ℓ} → Option (List A) → List A
or_empty none = []
or_empty (some xs) = xs

-- `entries.push(e)` at the key
unfoldable pub push : Dict (List ClaimEntry) → Text → ClaimEntry → Dict (List ClaimEntry)
push m k e = Dict.set m k (or_empty (Dict.get m k) ++ e ∷ [])

module _ (global_fields : Dict GlobalFieldDefinition) where
  -- Step 1, the claims of one type
  unfoldable pub collect_claims :
      Text → List FieldClaim → Dict (List ClaimEntry) → Dict (List ClaimEntry)
  collect_claims type [] m = m
  collect_claims type (claim ∷ claims) m = collect_claims type claims (
      if Dict.has global_fields claim.field
      then push m claim.field (record { type = type; claim = claim })
      else m)

  -- Step 1
  unfoldable pub collect :
      Dict (List FieldClaim) → List Text → Dict (List ClaimEntry) → Dict (List ClaimEntry)
  collect claims_by_type [] m = m
  collect claims_by_type (type ∷ types) m =
      collect claims_by_type types (collect_claims type (or_empty (Dict.get claims_by_type type)) m)

abbrev pub or_else {ℓ} : {A : Type ℓ} → Option A → A → A
or_else none d = d
or_else (some a) d = a

-- The first value that is defined.
unfoldable pub first_defined {ℓ} :
    {A : Type ℓ} → (FieldClaim → Option A) → List ClaimEntry → Option A
first_defined f [] = none
first_defined f (e ∷ es) = elim (f e.claim) [ some a ↦ some a | none ↦ first_defined f es ]

-- The first order that is not the default.
unfoldable pub resolve_order : List ClaimEntry → ℤ
resolve_order [] = pos 1000
resolve_order (e ∷ es) =
    if int_eq e.claim.sort_order (pos 1000) then resolve_order es else e.claim.sort_order

-- The overrides that claims make, in order: `filter` and `map` of the source in one.
unfoldable pub overrides {ℓ} : {A : Type ℓ} → (FieldClaim → Option A) → List ClaimEntry → List A
overrides f [] = []
overrides f (e ∷ es) = elim (f e.claim) [ none ↦ overrides f es | some a ↦ a ∷ overrides f es ]

abbrev pub bool_eq : Bool → Bool → Bool
bool_eq true b = b
bool_eq false b = not b

-- The value on which all overrides agree, where there is one.
unfoldable pub agreed {ℓ} : {A : Type ℓ} → (A → A → Bool) → List A → Option A
agreed same [] = none
agreed same (a ∷ rest) = if every (same a) rest then some a else none

abbrev pub required_of : FieldClaim → Option Bool
required_of c = c.required_override

abbrev pub default_of : FieldClaim → Option Value
default_of c = elim c.default_value_override [ inherit ↦ none | override v ↦ some v ]

unfoldable pub resolve_required : GlobalFieldDefinition → List ClaimEntry → Bool
resolve_required gf es = or_else (agreed bool_eq (overrides required_of es)) gf.required

-- Defaults are compared by their JSON texts.
abbrev pub same_json : Runtime → Value → Value → Bool
same_json rt v w = rt.stringify v == rt.stringify w

abbrev pub with_source : Value → Option Value → Value × DefaultSource
with_source d none = (d, DefaultSource.global)
with_source d (some v) = (v, DefaultSource.claim)

unfoldable pub resolve_default :
    Runtime → GlobalFieldDefinition → List ClaimEntry → Value × DefaultSource
resolve_default rt gf es =
    with_source gf.default_value (agreed (same_json rt) (overrides default_of es))

abbrev has_values : ClaimEntry → Bool
has_values e = elim e.claim.enum_values_override [ none ↦ false | some vs ↦ true ]

abbrev or_global : GlobalFieldDefinition → Option (List Text) → Option (List Text)
or_global gf none = gf.enum_values
or_global gf (some vs) = some vs

unfoldable pub resolve_enum_values :
    GlobalFieldDefinition → List ClaimEntry → Option (List PerTypeEnumValues)
resolve_enum_values gf es =
    if some_of has_values es
    then some
        (map (λ e. record { type = e.type; values = or_global gf e.claim.enum_values_override }) es)
    else none

-- Steps 2 and 3, for one field
unfoldable pub effective_field :
    Runtime → Text → GlobalFieldDefinition → List ClaimEntry → EffectiveField
effective_field rt name gf es = record {
  field = name;
  global_field = gf;
  resolved_label = first_defined (λ c. c.label) es;
  resolved_description = first_defined (λ c. c.description) es;
  resolved_order = resolve_order es;
  resolved_required = resolve_required gf es;
  resolved_default_value = (resolve_default rt gf es).0;
  default_source = (resolve_default rt gf es).1;
  claiming_types = map (λ (e : ClaimEntry). e.type) es;
  per_type_enum_values = resolve_enum_values gf es;
}

-- Steps 2 and 3. A collected field is always a global one.
abbrev pub build_round :
    Runtime
    → Dict GlobalFieldDefinition
    → Text
    → List ClaimEntry
    → EffectiveFieldSet
    → EffectiveFieldSet
build_round rt gfs name es out = elim (Dict.get gfs name) [
  | none ↦ out
  | some gf ↦ Dict.set out name (effective_field rt name gf es)
]

unfoldable pub build :
    Runtime
    → Dict GlobalFieldDefinition
    → Dict (List ClaimEntry)
    → EffectiveFieldSet
    → EffectiveFieldSet
build rt gfs [] out = out
build rt gfs ((name, es) ∷ m) out = build rt gfs m (build_round rt gfs name es out)

unfoldable pub merge_field_claims :
    Runtime → List Text → Dict (List FieldClaim) → Dict GlobalFieldDefinition → EffectiveFieldSet
merge_field_claims rt types claims_by_type gfs =
    build rt gfs (collect gfs claims_by_type types []) []
