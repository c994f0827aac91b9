-- ===== src/Validation/Conformance.antt =====
-- src/validation/conformance.ts: `getNodeConformance`, over the tables that it reads.
pub mod Split
use vault_engine.Base.{
  Text, Bool, true, false, Option, none, some, List, [], ◌∷◌, ◌++◌, if◌then◌else◌,
}
use vault_engine.Base.Dict
use vault_engine.Base.Dict.{Dict}

-- `schema_claims` holds the fields that each schema claims, `required_fields` the flag of the global
-- fields, `node_fields` the distinct fields of the node in the order of their rows.
pub record Tables : Type 0 where
  pub schemas : List Text
  pub schema_claims : Dict (List Text)
  pub required_fields : Dict Bool
  pub node_fields : List Text

pub record ClaimedField : Type 0 where
  pub field : Text
  pub claiming_types : List Text

pub record UnfilledClaim : Type 0 where
  pub field : Text
  pub claiming_types : List Text
  pub required : Bool

pub record ConformanceResult : Type 0 where
  pub claimed_fields : List ClaimedField
  pub orphan_fields : List Text
  pub unfilled_claims : List UnfilledClaim
  pub types_with_schemas : List Text
  pub types_without_schemas : List Text

-- Step 1
unfoldable pub with_schemas : List Text → List Text → List Text
with_schemas schemas [] = []
with_schemas schemas (t ∷ ts) =
    let rest = with_schemas schemas ts in if Dict.contains schemas t then t ∷ rest else rest

unfoldable pub without_schemas : List Text → List Text → List Text
without_schemas schemas [] = []
without_schemas schemas (t ∷ ts) =
    let rest = without_schemas schemas ts in if Dict.contains schemas t then rest else t ∷ rest

abbrev pub texts_or_none : Option (List Text) → List Text
texts_or_none none = []
texts_or_none (some ts) = ts

-- Step 2: the claims of one type, and of all of them
unfoldable pub add_claims : Text → List Text → Dict (List Text) → Dict (List Text)
add_claims type [] m = m
add_claims type (field ∷ fields) m =
    add_claims type fields (Dict.set m field (texts_or_none (Dict.get m field) ++ type ∷ []))

unfoldable pub claims_map : Dict (List Text) → List Text → Dict (List Text) → Dict (List Text)
claims_map schema_claims [] m = m
claims_map schema_claims (type ∷ types) m =
    claims_map schema_claims types (add_claims type (texts_or_none (Dict.get schema_claims type)) m)

abbrev claimed_by : Text → Option (List Text) → List ClaimedField → List ClaimedField
claimed_by field none rest = rest
claimed_by field (some types) rest = record { field = field; claiming_types = types } ∷ rest

-- The classification of the fields of the node
unfoldable pub claimed_fields : Dict (List Text) → List Text → List ClaimedField
claimed_fields claims [] = []
claimed_fields claims (field ∷ fields) =
    claimed_by field (Dict.get claims field) (claimed_fields claims fields)

unfoldable pub orphans : Dict (List Text) → List Text → List Text
orphans claims [] = []
orphans claims (field ∷ fields) =
    let rest = orphans claims fields in if Dict.has claims field then rest else field ∷ rest

abbrev flag_or_false : Option Bool → Bool
flag_or_false none = false
flag_or_false (some b) = b

unfoldable pub unfilled_claims : Dict Bool → List Text → Dict (List Text) → List UnfilledClaim
unfilled_claims required node_fields [] = []
unfilled_claims required node_fields ((field, types) ∷ claims) =
    let rest = unfilled_claims required node_fields claims in
    if Dict.contains node_fields field
    then rest
    else record {
      field = field;
      claiming_types = types;
      required = flag_or_false (Dict.get required field);
    }
      ∷ rest

unfoldable pub get_node_conformance : Tables → List Text → ConformanceResult
get_node_conformance db types =
    let known = with_schemas db.schemas types in
    let claims = claims_map db.schema_claims known [] in
    record {
      claimed_fields = claimed_fields claims db.node_fields;
      orphan_fields = orphans claims db.node_fields;
      unfilled_claims = unfilled_claims db.required_fields db.node_fields claims;
      types_with_schemas = known;
      types_without_schemas = without_schemas db.schemas types;
    }
