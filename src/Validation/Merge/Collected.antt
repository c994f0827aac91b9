-- ===== src/Validation/Merge/Collected.antt =====
-- The merge against a direct definition: the entry of a field is built from its claims, taken type
-- by type.
use vault_engine.Base.{
  Text, Bool, true, false, Option, none, some, List, [], ◌∷◌, ◌++◌, ◌≡◌, refl, arith, inl, inr,
  Bool-cases, Option-cases, if◌then◌else◌, ◌==◌, eq_iff, append-nil, append_assoc, ap, sym, ◌∙◌,
  is_empty,
}
use vault_engine.Base.Dict
use vault_engine.Base.Dict.{Dict, get-set, Unique, Unique-set, has_of_get, get_of_has-false}
use vault_engine.Value.{Runtime}
use vault_engine.Validation.Types.{
  GlobalFieldDefinition, FieldClaim, EffectiveField, EffectiveFieldSet,
}
use vault_engine.Validation.Merge.{
  ClaimEntry, or_empty, push, collect_claims, collect, build, build_round, effective_field,
  merge_field_claims,
}

-- The claims that one type makes on the field.
unfoldable pub claims_of : Text → Text → List FieldClaim → List ClaimEntry
claims_of f type [] = []
claims_of f type (claim ∷ claims) =
    if claim.field == f
    then record { type = type; claim = claim } ∷ claims_of f type claims
    else claims_of f type claims

-- The claims that the types make on the field, in the order of the types.
unfoldable pub claims_on : Text → Dict (List FieldClaim) → List Text → List ClaimEntry
claims_on f claims_by_type [] = []
claims_on f claims_by_type (type ∷ types) =
    claims_of f type (or_empty (Dict.get claims_by_type type)) ++ claims_on f claims_by_type types

abbrev entries : Dict (List ClaimEntry) → Text → List ClaimEntry
entries m f = or_empty (Dict.get m f)

or_empty-if :
    (b : Bool) (xs : List ClaimEntry) (o : Option (List ClaimEntry))
    → or_empty (if b then some xs else o) ≡ (if b then xs else or_empty o)
or_empty-if true xs o = refl
or_empty-if false xs o = refl

entries-push :
    (m : Dict (List ClaimEntry)) (k f : Text) (e : ClaimEntry)
    → entries (push m k e) f ≡ (if k == f then entries m f ++ e ∷ [] else entries m f)
unfolding push
entries-push m k f e = rw get-set (ground (arith, eq_iff k f))

module _ (gfs : Dict GlobalFieldDefinition) (f : Text) (known : Dict.has gfs f ≡ true) where
  -- One round of the inner loop, at the field `f`.
  entries-round :
      (type : Text) (c : FieldClaim) (m : Dict (List ClaimEntry))
      → entries
          (if Dict.has gfs c.field then push m c.field (record { type = type; claim = c }) else m)
          f
        ≡ entries m f ++ (if c.field == f then record { type = type; claim = c } ∷ [] else [])
  entries-round type c m = elim (Bool-cases (c.field == f)) [
    | inl e ↦
        let same : c.field ≡ f = (eq_iff c.field f).0 e in
        let here : Dict.has gfs c.field ≡ true = ap (Dict.has gfs) same ∙ known in
        rw (here, e) (entries-push m c.field f _ ∙ rw e refl)
    | inr e ↦ elim (Bool-cases (Dict.has gfs c.field)) [
      | inl here ↦ rw (here, e) (entries-push m c.field f _ ∙ rw e (sym (append-nil _)))
      | inr gone ↦ rw (gone, e) (sym (append-nil _))
    ]
  ]

  claims_of-cons :
      (type : Text) (c : FieldClaim) (cs : List FieldClaim)
      → claims_of f type (c ∷ cs)
        ≡ (if c.field == f then record { type = type; claim = c } ∷ [] else [])
          ++ claims_of f type cs
  unfolding claims_of
  claims_of-cons type c cs = elim (Bool-cases (c.field == f)) [ inl e ↦ rw e | inr e ↦ rw e ]

  entries-collect_claims :
      (type : Text) (claims : List FieldClaim) (m : Dict (List ClaimEntry))
      → entries (collect_claims gfs type claims m) f ≡ entries m f ++ claims_of f type claims
  unfolding collect_claims
  entries-collect_claims type [] m = unfold claims_of in sym (append-nil (entries m f))
  entries-collect_claims type (c ∷ cs) m =
      entries-collect_claims type cs _
      ∙ ap (λ es. es ++ claims_of f type cs) (entries-round type c m)
      ∙ append_assoc (entries m f) _ (claims_of f type cs)
      ∙ ap (λ es. entries m f ++ es) (sym (claims_of-cons type c cs))

  entries-collect :
      (claims_by_type : Dict (List FieldClaim)) (types : List Text) (m : Dict (List ClaimEntry))
      → entries (collect gfs claims_by_type types m) f
        ≡ entries m f ++ claims_on f claims_by_type types
  unfolding collect claims_on
  entries-collect claims_by_type [] m = sym (append-nil (entries m f))
  entries-collect claims_by_type (type ∷ types) m =
      entries-collect claims_by_type types _
      ∙ ap (λ es. es ++ claims_on f claims_by_type types) (entries-collect_claims type _ m)
      ∙ append_assoc (entries m f) _ (claims_on f claims_by_type types)

is_empty-snoc : (xs : List ClaimEntry) (x : ClaimEntry) → is_empty (xs ++ x ∷ []) ≡ false
is_empty-snoc [] x = refl
is_empty-snoc (y ∷ xs) x = refl

-- The claims on a field, where there are any.
abbrev present : List ClaimEntry → Option (List ClaimEntry)
present es = if is_empty es then none else some es

-- A key that is there has claims.
abbrev IsFilled : Text → Dict (List ClaimEntry) → Type 0
IsFilled f m = Dict.get m f ≡ present (entries m f)

IsFilled-push :
    (m : Dict (List ClaimEntry)) (k f : Text) (e : ClaimEntry)
    → IsFilled f m
    → IsFilled f (push m k e)
unfolding push
IsFilled-push m k f e h = elim (Bool-cases (k == f)) [
  | inl p ↦ rw (get-set, p) (rw is_empty-snoc refl)
  | inr p ↦ rw (get-set, p) h
]

module _ (gfs : Dict GlobalFieldDefinition) (f : Text) where
  IsFilled-collect_claims :
      (type : Text) (claims : List FieldClaim) (m : Dict (List ClaimEntry))
      → IsFilled f m
      → IsFilled f (collect_claims gfs type claims m)
  unfolding collect_claims
  IsFilled-collect_claims type [] m h = h
  IsFilled-collect_claims type (c ∷ cs) m h =
      IsFilled-collect_claims type cs _ (elim (Bool-cases (Dict.has gfs c.field)) [
        | inl p ↦ rw p (IsFilled-push m c.field f _ h)
        | inr p ↦ rw p h
      ])

  IsFilled-collect :
      (claims_by_type : Dict (List FieldClaim)) (types : List Text) (m : Dict (List ClaimEntry))
      → IsFilled f m
      → IsFilled f (collect gfs claims_by_type types m)
  unfolding collect
  IsFilled-collect claims_by_type [] m h = h
  IsFilled-collect claims_by_type (type ∷ types) m h =
      IsFilled-collect claims_by_type types _ (IsFilled-collect_claims type _ m h)

Unique-push :
    (m : Dict (List ClaimEntry)) (k : Text) (e : ClaimEntry) → Unique m → Unique (push m k e)
unfolding push
Unique-push m k e h = Unique-set m k _ h

module _ (gfs : Dict GlobalFieldDefinition) where
  Unique-collect_claims :
      (type : Text) (claims : List FieldClaim) (m : Dict (List ClaimEntry))
      → Unique m
      → Unique (collect_claims gfs type claims m)
  unfolding collect_claims
  Unique-collect_claims type [] m h = h
  Unique-collect_claims type (c ∷ cs) m h =
      Unique-collect_claims type cs _ (elim (Bool-cases (Dict.has gfs c.field)) [
        | inl p ↦ rw p (Unique-push m c.field _ h)
        | inr p ↦ rw p h
      ])

  Unique-collect :
      (claims_by_type : Dict (List FieldClaim)) (types : List Text) (m : Dict (List ClaimEntry))
      → Unique m
      → Unique (collect gfs claims_by_type types m)
  unfolding collect
  Unique-collect claims_by_type [] m h = h
  Unique-collect claims_by_type (type ∷ types) m h =
      Unique-collect claims_by_type types _ (Unique-collect_claims type _ m h)

-- The effective field that the claims on `f` make, where there are any.
abbrev pub expected :
    Runtime → Dict GlobalFieldDefinition → Text → List ClaimEntry → Option EffectiveField
expected rt gfs f es = elim (Dict.get gfs f) [
  | none ↦ none
  | some gf ↦ if is_empty es then none else some (effective_field rt f gf es)
]

module _ (rt : Runtime) (gfs : Dict GlobalFieldDefinition) (f : Text) where
  get-build_round_other :
      (name : Text) (es : List ClaimEntry) (out : EffectiveFieldSet)
      → (name == f) ≡ false
      → Dict.get (build_round rt gfs name es out) f ≡ Dict.get out f
  get-build_round_other name es out e = elim (Option-cases (Dict.get gfs name)) [
    | inl p ↦ rw (p, build_round) refl
    | inr (gf, p) ↦ rw (p, build_round) (get-set out name f _ ∙ rw e refl)
  ]

  get-build_unknown :
      (m : Dict (List ClaimEntry)) (out : EffectiveFieldSet)
      → Dict.get gfs f ≡ none
      → Dict.get (build rt gfs m out) f ≡ Dict.get out f
  unfolding build
  get-build_unknown [] out k = refl
  get-build_unknown ((name, es) ∷ m) out k = elim (Bool-cases (name == f)) [
    | inl e ↦
        let gone : Dict.get gfs name ≡ none = ap (Dict.get gfs) ((eq_iff name f).0 e) ∙ k in
        get-build_unknown m (build_round rt gfs name es out) k ∙ rw (gone, build_round) refl
    | inr e ↦
        get-build_unknown m (build_round rt gfs name es out) k ∙ get-build_round_other name es out e
  ]

  module _ (gf : GlobalFieldDefinition) (known : Dict.get gfs f ≡ some gf) where
    get-build_round_self :
        (name : Text) (es : List ClaimEntry) (out : EffectiveFieldSet)
        → (name == f) ≡ true
        → Dict.get (build_round rt gfs name es out) f ≡ some (effective_field rt f gf es)
    get-build_round_self name es out e =
        let same : name ≡ f = (eq_iff name f).0 e in
        let here : Dict.get gfs name ≡ some gf = ap (Dict.get gfs) same ∙ known in
        rw (here, build_round)
          (get-set out name f _ ∙ rw e (ap (λ n. some (effective_field rt n gf es)) same))

    abbrev after : Option (List ClaimEntry) → Option EffectiveField → Option EffectiveField
    after none old = old
    after (some es) old = some (effective_field rt f gf es)

    after-present :
        (es : List ClaimEntry) → after (present es) (Dict.get [] f) ≡ expected rt gfs f es
    unfolding Dict.get
    after-present [] = rw (known, expected)
    after-present (e ∷ es) = rw (known, expected)

    get-build :
        (m : Dict (List ClaimEntry)) (out : EffectiveFieldSet)
        → Unique m
        → Dict.get (build rt gfs m out) f ≡ after (Dict.get m f) (Dict.get out f)
    unfolding build
    get-build [] out h = unfold Dict.get in refl
    get-build ((name, es) ∷ m) out h = elim (Bool-cases (name == f)) [
      | inl e ↦
          let same : name ≡ f = (eq_iff name f).0 e in
          let gone : Dict.get m f ≡ none =
            ap (Dict.get m) (sym same) ∙ get_of_has-false m name h.0 in
          get-build m (build_round rt gfs name es out) h.1
          ∙ rw gone (get-build_round_self name es out e ∙ (unfold Dict.get in rw e refl))
      | inr e ↦
          get-build m (build_round rt gfs name es out) h.1
          ∙ rw (get-build_round_other name es out e) (unfold Dict.get in rw e refl)
    ]

-- The merged entry of a field, by direct definition: a global field that some of the types claim
-- has the effective field of its claims, taken type by type and in order; any other has no entry.
pub get-merge_field_claims :
    (rt : Runtime) (types : List Text) (claims_by_type : Dict (List FieldClaim))
    (gfs : Dict GlobalFieldDefinition) (f : Text)
    → Dict.get (merge_field_claims rt types claims_by_type gfs) f
      ≡ expected rt gfs f (claims_on f claims_by_type types)
unfolding merge_field_claims
get-merge_field_claims rt types claims_by_type gfs f = elim (Option-cases (Dict.get gfs f)) [
  | inl p ↦ rw (p, expected) (get-build_unknown rt gfs f _ [] p ∙ (unfold Dict.get in refl))
  | inr (gf, p) ↦
      let m = collect gfs claims_by_type types [] in
      let listed : entries m f ≡ claims_on f claims_by_type types =
        entries-collect gfs f (has_of_get gfs f gf p) claims_by_type types []
        ∙ (unfold Dict.get in refl) in
      let filled : IsFilled f m =
        IsFilled-collect gfs f claims_by_type types [] (unfold Dict.get in refl) in
      get-build rt gfs f gf p m [] (Unique-collect gfs claims_by_type types [] tt)
      ∙ ap (λ o. after rt gfs f gf p o (Dict.get [] f)) (filled ∙ ap present listed)
      ∙ after-present rt gfs f gf p (claims_on f claims_by_type types)
]

Unique-build :
    (rt : Runtime) (gfs : Dict GlobalFieldDefinition) (m : Dict (List ClaimEntry))
    (out : EffectiveFieldSet)
    → Unique out
    → Unique (build rt gfs m out)
unfolding build
Unique-build rt gfs [] out h = h
Unique-build rt gfs ((name, es) ∷ m) out h =
    Unique-build rt gfs m (build_round rt gfs name es out)
      (elim (Option-cases (Dict.get gfs name)) [
        | inl p ↦ rw (p, build_round) h
        | inr (gf, p) ↦ rw (p, build_round) (Unique-set out name _ h)
      ])

pub Unique-merge_field_claims :
    (rt : Runtime) (types : List Text) (claims_by_type : Dict (List FieldClaim))
    (gfs : Dict GlobalFieldDefinition)
    → Unique (merge_field_claims rt types claims_by_type gfs)
unfolding merge_field_claims
Unique-merge_field_claims rt types claims_by_type gfs = Unique-build rt gfs _ [] tt
