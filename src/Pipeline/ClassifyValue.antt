-- ===== src/Pipeline/ClassifyValue.antt =====
-- src/pipeline/classify-value.ts: a field's value in the typed columns of `node_fields`.
use vault_engine.Base.{ℕ, Text, Option, none, some}
use vault_engine.Value.{Value, undefined, null, str, num, date, Runtime}

-- none is NULL.
pub record FieldColumns : Type 0 where
  pub value_text : Option Text
  pub value_number : Option ℕ
  pub value_date : Option Text
  pub value_json : Option Text

abbrev text_column : Text → FieldColumns
text_column s = record {
  value_text = some s;
  value_number = none;
  value_date = none;
  value_json = none;
}

abbrev number_column : ℕ → FieldColumns
number_column n = record {
  value_text = none;
  value_number = some n;
  value_date = none;
  value_json = none;
}

abbrev date_column : Text → FieldColumns
date_column s = record {
  value_text = none;
  value_number = none;
  value_date = some s;
  value_json = none;
}

abbrev json_column : Text → FieldColumns
json_column s = record {
  value_text = none;
  value_number = none;
  value_date = none;
  value_json = some s;
}

unfoldable pub classify_value : Runtime → Value → FieldColumns
classify_value rt undefined = json_column (rt.stringify null)
classify_value rt null = json_column (rt.stringify null)
classify_value rt (date t) = date_column (rt.to_iso_string t)
classify_value rt (str s) = text_column s
classify_value rt (num n) = number_column n
classify_value rt v = json_column (rt.stringify v)

-- `parse` is `JSON.parse`.
unfoldable pub reconstruct_value : (Text → Value) → FieldColumns → Value
reconstruct_value parse row = elim row.value_json [
  | some j ↦ parse j
  | none ↦ elim row.value_number [
    | some n ↦ num n
    | none ↦ elim row.value_date [
      | some d ↦ str d
      | none ↦ elim row.value_text [ some s ↦ str s | none ↦ null ]
    ]
  ]
]
