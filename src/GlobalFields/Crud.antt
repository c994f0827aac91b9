-- ===== src/GlobalFields/Crud.antt =====
-- src/global-fields/crud.ts: the definitions of fields, created, updated, renamed and deleted. A type is
-- always one of the seven here. A change of the type is in TypeChange.
pub mod Sound
pub mod Renamed
use vault_engine.Base.{
  ℕ, Text, Bool, true, false, not, ◌&&◌, ◌||◌, Option, none, some, List, [], ◌∷◌, ◌++◌, filter,
  length, is_empty, if◌then◌else◌, ◌==◌,
}
use vault_engine.Value.{Value, undefined, null}
use vault_engine.Store.{NodeField, GlobalField, Database}
use vault_engine.Validation.Types.{
  FieldType, GlobalFieldDefinition, FieldClaim, OverridesAllowed, is_enum, is_list,
}
use vault_engine.GlobalFields.UiHints.{
  UiHints, ValidateResult, valid, invalid, validate_ui_hints, normalize_ui_hints,
}
use vault_engine.Pipeline.SchemaContext.{find_global_field}

pub record Uncoercible : Type 0 where
  pub node_id : Text
  pub value : Value
  pub reason : Text

-- The errors of this file
pub data CrudError : Type 0 where
  enum_without_values list_without_item nested_list already_exists not_found : CrudError
  bad_hints : Text → CrudError
  requires_discard : ℕ → ℕ → List Uncoercible → CrudError
  constraint_failed : CrudError

pub data Crud {ℓ} (A : Type ℓ) : Type ℓ where
  done : A → Crud A
  failed : CrudError → Crud A
  diverges : Crud A

unfoldable pub and_then {ℓ κ} : {A : Type ℓ} {B : Type κ} → Crud A → (A → Crud B) → Crud B
and_then (done a) f = f a
and_then (failed e) f = failed e
and_then diverges f = diverges

-- A flag that is not given is false; `ui` that is not given is undefined.
pub record CreateInput : Type 0 where
  pub name : Text
  pub field_type : FieldType
  pub enum_values : Option (List Text)
  pub reference_target : Option Text
  pub description : Option Text
  pub default_value : Value
  pub required : Bool
  pub list_item_type : Option FieldType
  pub overrides_allowed : OverridesAllowed
  pub ui : Value

abbrev pub has_values : Option (List Text) → Bool
has_values none = false
has_values (some vs) = not (is_empty vs)

abbrev pub is_given {ℓ} : {A : Type ℓ} → Option A → Bool
is_given none = false
is_given (some a) = true

abbrev pub is_list_item : Option FieldType → Bool
is_list_item none = false
is_list_item (some t) = is_list t

abbrev is_undefined : Value → Bool
is_undefined undefined = true
is_undefined _ = false

abbrev stored_default : Value → Value
stored_default undefined = null
stored_default v = v

unfoldable pub hints_of : ValidateResult UiHints → Crud (Option UiHints)
hints_of (valid h) = done (normalize_ui_hints (some h))
hints_of (invalid reason) = failed (bad_hints reason)

-- The column `ui_hints` of a new field
unfoldable pub hints_for : Value → Crud (Option UiHints)
hints_for ui = if is_undefined ui then done none else hints_of (validate_ui_hints ui)

unfoldable pub check_create : CreateInput → Crud {0} Unit
check_create input =
    if is_enum input.field_type && not (has_values input.enum_values)
    then failed enum_without_values
    else if is_list input.field_type && not (is_given input.list_item_type)
    then failed list_without_item
    else if is_list input.field_type && is_list_item input.list_item_type
    then failed nested_list
    else done tt

unfoldable pub new_definition : CreateInput → GlobalFieldDefinition
new_definition input = record {
  name = input.name;
  field_type = input.field_type;
  enum_values = input.enum_values;
  reference_target = input.reference_target;
  description = input.description;
  default_value = stored_default input.default_value;
  required = input.required;
  overrides_allowed = input.overrides_allowed;
  list_item_type = input.list_item_type;
}

abbrev pub with_global_fields : Database → List GlobalField → Database
with_global_fields db gfs = record db { global_fields = gfs }

-- `INSERT INTO global_fields`
unfoldable pub insert_global_field : Database → GlobalField → Crud Database
insert_global_field db g = elim (find_global_field db.global_fields g.definition.name) [
  | none ↦ done (with_global_fields db (db.global_fields ++ g ∷ []))
  | some old ↦ failed already_exists
]

unfoldable pub create_global_field : Database → CreateInput → Crud Database
create_global_field db input = and_then (check_create input) λ ok.
    and_then (hints_for input.ui) λ hints.
      insert_global_field db (record { definition = new_definition input; ui_hints = hints })

pub record OverridesInput : Type 0 where
  pub required : Option Bool
  pub default_value : Option Bool
  pub enum_values : Option Bool

pub record UpdateInput : Type 0 where
  pub field_type : Option FieldType
  pub enum_values : Option (List Text)
  pub reference_target : Option Text
  pub description : Option Text
  pub default_value : Option Value
  pub required : Option Bool
  pub list_item_type : Option FieldType
  pub overrides_allowed : OverridesInput
  pub ui : Option Value
  pub confirm : Bool
  pub discard_uncoercible : Bool

-- `a ?? b` where both may be missing, and where b is not
abbrev pub given_or {ℓ} : {A : Type ℓ} → Option A → A → A
given_or none b = b
given_or (some a) b = a

abbrev pub first_given {ℓ} : {A : Type ℓ} → Option A → Option A → Option A
first_given none b = b
first_given (some a) b = some a

unfoldable pub check_update : GlobalFieldDefinition → UpdateInput → Crud {0} Unit
check_update current input =
    let values = first_given input.enum_values current.enum_values in
    let item = first_given input.list_item_type current.list_item_type in
    if is_enum current.field_type && not (has_values values)
    then failed enum_without_values
    else if is_list current.field_type && not (is_given item)
    then failed list_without_item
    else if is_list_item item
    then failed nested_list
    else done tt

unfoldable pub new_hints : Option Value → Option UiHints → Crud (Option UiHints)
new_hints none old = done old
new_hints (some ui) old = hints_of (validate_ui_hints ui)

unfoldable pub updated_overrides : OverridesAllowed → OverridesInput → OverridesAllowed
updated_overrides o input = record {
  required = given_or input.required o.required;
  default_value = given_or input.default_value o.default_value;
  enum_values = given_or input.enum_values o.enum_values;
}

unfoldable pub updated_definition : GlobalFieldDefinition → UpdateInput → GlobalFieldDefinition
updated_definition d input = record d {
  enum_values = first_given input.enum_values d.enum_values;
  reference_target = first_given input.reference_target d.reference_target;
  description = first_given input.description d.description;
  default_value = given_or input.default_value d.default_value;
  required = given_or input.required d.required;
  overrides_allowed = updated_overrides d.overrides_allowed input.overrides_allowed;
  list_item_type = first_given input.list_item_type d.list_item_type;
}

-- `UPDATE global_fields SET … WHERE name = ?`
unfoldable pub replace_global_field : Text → GlobalField → List GlobalField → List GlobalField
replace_global_field name new [] = []
replace_global_field name new (g ∷ gs) =
    let rest = replace_global_field name new gs in
    if g.definition.name == name then new ∷ rest else g ∷ rest

-- An update that keeps the type
unfoldable pub update_attributes : Database → GlobalField → UpdateInput → Crud Database
update_attributes db g input = and_then (check_update g.definition input) λ ok.
    and_then (new_hints input.ui g.ui_hints) λ hints. done (
      with_global_fields db (
        replace_global_field g.definition.name
          (record { definition = updated_definition g.definition input; ui_hints = hints })
          db.global_fields))

pub record Affected : Type 0 where
  pub db : Database
  pub affected_nodes : ℕ
  pub affected_schemas : ℕ

abbrev pub claims_field : Text → FieldClaim → Bool
claims_field name c = c.field == name

abbrev pub is_field : Text → NodeField → Bool
is_field name r = r.field_name == name

abbrev rename_claim : Text → Text → FieldClaim → FieldClaim
rename_claim old new c = if claims_field old c then record c { field = new } else c

unfoldable pub rename_claims : Text → Text → List FieldClaim → List FieldClaim
rename_claims old new [] = []
rename_claims old new (c ∷ cs) = rename_claim old new c ∷ rename_claims old new cs

abbrev rename_row : Text → Text → NodeField → NodeField
rename_row old new r = if is_field old r then record r { field_name = new } else r

unfoldable pub rename_rows : Text → Text → List NodeField → List NodeField
rename_rows old new [] = []
rename_rows old new (r ∷ rs) = rename_row old new r ∷ rename_rows old new rs

unfoldable pub has_row : Text → Text → List NodeField → Bool
has_row node name [] = false
has_row node name (r ∷ rs) =
    let rest = has_row node name rs in if r.node_id == node && is_field name r then true else rest

-- A node has a row of both names, which the primary key of `node_fields` refuses under one.
unfoldable pub rows_collide : Text → Text → List NodeField → List NodeField → Bool
rows_collide old new all [] = false
rows_collide old new all (r ∷ rs) =
    let rest = rows_collide old new all rs in
    if is_field old r && has_row r.node_id new all then true else rest

-- As no field has the new name, no claim has it (a foreign key), and the claims cannot collide.
unfoldable pub renamed : Database → Text → Text → GlobalField → Affected
renamed db old new g = record {
  db = record db {
    global_fields =
        filter (λ k. not (k.definition.name == old))
          (db.global_fields ++ record g { definition = record g.definition { name = new } } ∷ []);
    schema_field_claims = rename_claims old new db.schema_field_claims;
    node_fields = rename_rows old new db.node_fields;
  };
  affected_nodes = length (filter (is_field old) db.node_fields);
  affected_schemas = length (filter (claims_field old) db.schema_field_claims);
}

unfoldable pub rename_global_field : Database → Text → Text → Crud Affected
rename_global_field db old new = elim (find_global_field db.global_fields old) [
  | none ↦ failed not_found
  | some g ↦
      if is_given (find_global_field db.global_fields new)
        || rows_collide old new db.node_fields db.node_fields
      then failed constraint_failed
      else done (renamed db old new g)
]

-- The values that nodes have of the field stay.
unfoldable pub delete_global_field : Database → Text → Affected
delete_global_field db name = record {
  db = record db {
    global_fields = filter (λ g. not (g.definition.name == name)) db.global_fields;
    schema_field_claims = filter (λ c. not (claims_field name c)) db.schema_field_claims;
  };
  affected_nodes = length (filter (is_field name) db.node_fields);
  affected_schemas = length (filter (claims_field name) db.schema_field_claims);
}
