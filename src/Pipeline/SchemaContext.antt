-- ===== src/Pipeline/SchemaContext.antt =====
-- src/pipeline/schema-context.ts: `loadSchemaContext`. A claim is the row of `schema_field_claims` with its
-- columns read, a definition what `getGlobalField` reads.
use vault_engine.Base.{Text, Option, none, some, List, [], ◌∷◌, ◌++◌, filter, if◌then◌else◌, ◌==◌}
use vault_engine.Base.Dict
use vault_engine.Base.Dict.{Dict}
use vault_engine.Base.Once.{new_ones}
use vault_engine.Store.{Database, GlobalField}
use vault_engine.Validation.Types.{FieldClaim, GlobalFieldDefinition}

pub record SchemaContext : Type 0 where
  pub claims_by_type : Dict (List FieldClaim)
  pub global_fields : Dict GlobalFieldDefinition

-- `getGlobalField` of src/global-fields/crud.ts
unfoldable pub find_global_field : List GlobalField → Text → Option GlobalField
find_global_field [] name = none
find_global_field (g ∷ gs) name =
    let rest = find_global_field gs name in if g.definition.name == name then some g else rest

abbrev add_claims : Dict (List FieldClaim) → Text → List FieldClaim → Dict (List FieldClaim)
add_claims m type [] = m
add_claims m type (c ∷ cs) = Dict.set m type (c ∷ cs)

-- The loop over the types
unfoldable pub claims_for :
    List FieldClaim → List Text → Dict (List FieldClaim) → Dict (List FieldClaim)
claims_for rows [] m = m
claims_for rows (type ∷ types) m =
    claims_for rows types (add_claims m type (filter (λ c. c.schema_name == type) rows))

unfoldable pub claimed_names : List FieldClaim → List Text
claimed_names [] = []
claimed_names (c ∷ cs) = c.field ∷ claimed_names cs

unfoldable pub all_claimed : Dict (List FieldClaim) → List Text
all_claimed [] = []
all_claimed ((type, claims) ∷ m) = claimed_names claims ++ all_claimed m

abbrev set_found :
    Dict GlobalFieldDefinition → Text → Option GlobalField → Dict GlobalFieldDefinition
set_found m name none = m
set_found m name (some g) = Dict.set m name g.definition

unfoldable pub known_definitions :
    List GlobalField → List Text → Dict GlobalFieldDefinition → Dict GlobalFieldDefinition
known_definitions gfs [] m = m
known_definitions gfs (name ∷ names) m =
    known_definitions gfs names (set_found m name (find_global_field gfs name))

unfoldable pub load_schema_context : Database → List Text → SchemaContext
load_schema_context db types =
    let claims = claims_for db.schema_field_claims types [] in
    record {
      claims_by_type = claims;
      global_fields = known_definitions db.global_fields (new_ones [] (all_claimed claims)) [];
    }
