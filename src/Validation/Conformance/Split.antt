-- ===== src/Validation/Conformance/Split.antt =====
-- Laws of `getNodeConformance` (src/validation/conformance.ts).
use vault_engine.Base.{
  Text, Bool, false, not, ◌&&◌, ◌||◌, none, some, List, [], ◌∷◌, ◌++◌, eq_iff, ◌≡◌, refl, sym,
  arith, some_of, Option,
}
use vault_engine.Base.Dict
use vault_engine.Base.Dict.{Dict}
use vault_engine.Validation.Conformance.{
  Tables, ClaimedField, texts_or_none, add_claims, with_schemas, claims_map, claimed_fields,
  orphans, get_node_conformance,
}

-- The names of the claimed fields.
abbrev pub names : List ClaimedField → List Text
names [] = []
names (c ∷ cs) = c.field ∷ names cs

abbrev no_claims : Dict (List Text)
no_claims = []

has-no_claims : (f : Text) → Dict.has no_claims f ≡ false
unfolding Dict.has Dict.get
has-no_claims f = refl

contains-claimed_fields :
    (claims : Dict (List Text)) (fields : List Text) (f : Text)
    → Dict.contains (names (claimed_fields claims fields)) f
      ≡ (Dict.contains fields f && Dict.has claims f)
unfolding claimed_fields Dict.contains Dict.has
contains-claimed_fields claims [] f = refl
contains-claimed_fields claims (g ∷ fields) f =
    ground (arith, eq_iff g f, contains-claimed_fields claims fields f)

contains-orphans :
    (claims : Dict (List Text)) (fields : List Text) (f : Text)
    → Dict.contains (orphans claims fields) f ≡ (Dict.contains fields f && not (Dict.has claims f))
unfolding orphans Dict.contains
contains-orphans claims [] f = refl
contains-orphans claims (g ∷ fields) f =
    ground (arith, eq_iff g f, contains-orphans claims fields f)

has-add_claims :
    (t : Text) (fields : List Text) (m : Dict (List Text)) (f : Text)
    → Dict.has (add_claims t fields m) f ≡ (Dict.contains fields f || Dict.has m f)
unfolding add_claims Dict.contains
has-add_claims t [] m f = refl
has-add_claims t (g ∷ fields) m f =
    let next = Dict.set m g (texts_or_none (Dict.get m g) ++ t ∷ []) in
    ground (
      arith,
      eq_iff g f,
      has-add_claims t fields next f,
      Dict.has-set m g f (texts_or_none (Dict.get m g) ++ t ∷ []),
    )

-- The schema of the type claims the field.
abbrev pub schema_has : Dict (List Text) → Text → Text → Bool
schema_has claims f t = elim (Dict.get claims t) [ none ↦ false | some fs ↦ Dict.contains fs f ]

contains-texts_or_none :
    (f : Text) (o : Option (List Text))
    → Dict.contains (texts_or_none o) f ≡ (elim o [ none ↦ false | some fs ↦ Dict.contains fs f ])
unfolding Dict.contains
contains-texts_or_none f none = refl
contains-texts_or_none f (some fs) = refl

has-claims_map :
    (claims : Dict (List Text)) (types : List Text) (m : Dict (List Text)) (f : Text)
    → Dict.has (claims_map claims types m) f ≡ (some_of (schema_has claims f) types || Dict.has m f)
unfolding claims_map
has-claims_map claims [] m f = refl
has-claims_map claims (t ∷ types) m f =
    let fields = texts_or_none (Dict.get claims t) in
    ground (
      arith,
      contains-texts_or_none f (Dict.get claims t),
      has-claims_map claims types (add_claims t fields m) f,
      has-add_claims t fields m f,
    )

-- Some type of the node has a schema, and this claims the field.
abbrev pub is_claimed : Tables → List Text → Text → Bool
is_claimed db types f =
    some_of (λ t. Dict.contains db.schemas t && schema_has db.schema_claims f t) types

some_of-with_schemas :
    (db : Tables) (f : Text) (types : List Text)
    → some_of (schema_has db.schema_claims f) (with_schemas db.schemas types)
      ≡ is_claimed db types f
unfolding with_schemas
some_of-with_schemas db f [] = refl
some_of-with_schemas db f (t ∷ types) = ground (arith, some_of-with_schemas db f types)

has-claims :
    (db : Tables) (types : List Text) (f : Text)
    → Dict.has (claims_map db.schema_claims (with_schemas db.schemas types) []) f
      ≡ is_claimed db types f
has-claims db types f = ground (
  arith,
  has-claims_map db.schema_claims (with_schemas db.schemas types) [] f,
  some_of-with_schemas db f types,
  has-no_claims f,
)

-- A field of the node is listed as claimed exactly when some type of the node has a schema that claims
-- it, and as an orphan exactly when none has; no other field is listed as either.
pub get_node_conformance-lem :
    (db : Tables) (types : List Text) (f : Text)
    → (Dict.contains (names (get_node_conformance db types).claimed_fields) f
        ≡ (Dict.contains db.node_fields f && is_claimed db types f))
      × (Dict.contains (get_node_conformance db types).orphan_fields f
          ≡ (Dict.contains db.node_fields f && not (is_claimed db types f)))
unfolding get_node_conformance
get_node_conformance-lem db types f =
    let claims = claims_map db.schema_claims (with_schemas db.schemas types) [] in
    rw (sym (has-claims db types f))
      (contains-claimed_fields claims db.node_fields f, contains-orphans claims db.node_fields f)
