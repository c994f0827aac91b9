-- ===== src/Examples.antt =====
-- A concrete runtime and concrete data, on which the theorems of the other files are applied.
pub mod Coercion
pub mod Merging
pub mod Engine
pub mod Files
pub mod Writes
pub mod Tables
use vault_engine.Base.{
  ℕ, ◌+◌, Text, codes, Bool, true, false, ◌&&◌, Option, none, some, List, [], ◌∷◌, leb, map,
  if◌then◌else◌, ℤ,
}
use vault_engine.Base.Dict.{Dict}
use vault_engine.Value.{Value, null, Runtime}
use vault_engine.Validation.Types.{FieldType, GlobalFieldDefinition, FieldClaim, Override}
use vault_engine.Validation.Coerce.Dates.{Chrono, Moment}
use vault_engine.Validation.Coerce.Result.{CoercionOptions}
use vault_engine.Validation.Merge.{ClaimEntry}
use vault_engine.Store.{Node, Database}

abbrev lower_unit : ℕ → ℕ
lower_unit c = if leb b'A' c && leb c b'Z' then c + 32 else c

-- Lower case of ASCII; the other conversions are constant.
abbrev pub ascii : Runtime
unfolding codes
ascii = record {
  to_lower_case = map lower_unit;
  normalize_nfc = λ s. s;
  number_of = λ s. 0x4045000000000000;
  number_to_string = λ n. codes "42";
  date_to_string = λ t. codes "date";
  to_iso_string = λ t. codes "iso";
  stringify = λ v. codes "json";
}

abbrev pub moment : Moment
moment = record { year = 2026; month = 3; day = 5; hour = 14; minute = 30 }

-- Every text is the same moment.
abbrev pub constant_chrono : Chrono
constant_chrono = record { parse_date = λ s. some moment; certain_hour = λ s. true }

abbrev pub note : Text
unfolding codes
note = codes "note"

abbrev pub low : Text
unfolding codes
low = codes "Low"

abbrev pub high : Text
unfolding codes
high = codes "high"

abbrev pub task : Text
unfolding codes
task = codes "task"

abbrev pub page : Text
unfolding codes
page = codes "page"

abbrev pub levels : List Text
levels = low ∷ high ∷ []

abbrev pub plain_options : CoercionOptions
plain_options = record { enum_values = none; list_item_type = none }

abbrev pub list_options : CoercionOptions
list_options = record { enum_values = none; list_item_type = some FieldType.string }

abbrev pub nested_options : CoercionOptions
nested_options = record { enum_values = none; list_item_type = some FieldType.list }

abbrev pub note_field : GlobalFieldDefinition
note_field = record {
  name = note;
  field_type = FieldType.string;
  enum_values = none;
  reference_target = none;
  description = none;
  default_value = null;
  required = false;
  overrides_allowed = record { required = true; default_value = true; enum_values = true };
  list_item_type = none;
}

abbrev pub note_claim : Text → FieldClaim
note_claim type = record {
  schema_name = type;
  field = note;
  label = none;
  description = none;
  sort_order = ℤ.pos 1;
  required_override = some true;
  default_value_override = Override.inherit;
  enum_values_override = none;
}

abbrev pub note_claims : Dict (List FieldClaim)
note_claims = (task, note_claim task ∷ []) ∷ (page, note_claim page ∷ []) ∷ []

abbrev pub note_entries : List ClaimEntry
note_entries =
    record { type = task; claim = note_claim task }
    ∷ record { type = page; claim = note_claim page }
    ∷ []

abbrev pub known_fields : Dict GlobalFieldDefinition
known_fields = (note, note_field) ∷ []

abbrev pub node_row : Text → Text → Option Text → Node
node_row id path title = record {
  id = id;
  file_path = path;
  title = title;
  body = none;
  content_hash = none;
  file_mtime = 0;
  indexed_at = 0;
  created_at = none;
  version = 1;
}

abbrev pub empty_store : Database
empty_store = record {
  nodes = [];
  node_types = [];
  node_fields = [];
  relationships = [];
  next_relationship = 1;
  nodes_fts = [];
  edits_log = [];
  undo_operations = [];
  undo_snapshots = [];
  global_fields = [];
  schema_field_claims = [];
}
