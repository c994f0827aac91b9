-- ===== src/Renderer.antt =====
-- src/renderer/render.ts: the front matter of a node and its file. `stringify` of the yaml library and
-- `JSON.parse` (none where it throws) are parameters. A key that reads as an array index would stand
-- first in the object of the source; here every key keeps its place.
pub mod FrontMatter
use vault_engine.Base.{
  ℕ, Text, codes, Bool, true, false, ◌&&◌, Option, none, some, List, [], ◌∷◌, ◌++◌, starts_with,
  is_empty, map, if◌then◌else◌,
}
use vault_engine.Base.Dict
use vault_engine.Base.Dict.{Dict}
use vault_engine.Value.{Value, null, str, arr, Values, nil, cons, is_null}

pub data Category : Type 0 where
  claimed orphan : Category

pub record FieldOrderEntry : Type 0 where
  pub field : Text
  pub category : Category

pub record RenderInput : Type 0 where
  pub types : List Text
  pub fields : Dict Value
  pub body : Text
  pub field_ordering : List FieldOrderEntry
  pub reference_fields : List Text
  pub list_reference_fields : List Text
  pub orphan_raw_values : Dict Text

unfoldable pub wrap_ref : Value → Value
wrap_ref (str s) = str (b'[' ∷ b'[' ∷ s ++ b']' ∷ b']' ∷ [])
wrap_ref v = v

unfoldable pub wrap_items : Values → Values
wrap_items nil = nil
wrap_items (cons v vs) = cons (wrap_ref v) (wrap_items vs)

unfoldable pub wrap_list_ref : Value → Value
wrap_list_ref (arr vs) = arr (wrap_items vs)
wrap_list_ref v = v

unfoldable pub texts : List Text → Values
texts [] = nil
texts (t ∷ ts) = cons (str t) (texts ts)

unfoldable pub types_value : List Text → Value
types_value [] = null
types_value (t ∷ ts) = arr (texts (t ∷ ts))

module _ (parse : Text → Option Value) where
  abbrev parsed_or_raw : Text → Option Value → Value
  parsed_or_raw raw none = str raw
  parsed_or_raw raw (some v) = v

  unfoldable pub raw_value : Text → Value
  raw_value raw = if starts_with raw (b'[' ∷ []) then parsed_or_raw raw (parse raw) else str raw

  unfoldable pub wrapped_value : RenderInput → Text → Value → Value
  wrapped_value input f v =
      if Dict.contains input.reference_fields f
      then wrap_ref v
      else if Dict.contains input.list_reference_fields f
      then wrap_list_ref v
      else v

  -- `category === 'orphan' && field in orphanRawValues`
  abbrev orphan_raw : Category → Option Text → Option Text
  orphan_raw orphan raw = raw
  orphan_raw claimed raw = none

  unfoldable pub field_value : RenderInput → FieldOrderEntry → Value → Value
  field_value input e v = elim (orphan_raw e.category (Dict.get input.orphan_raw_values e.field)) [
    | none ↦ wrapped_value input e.field v
    | some raw ↦ raw_value raw
  ]

  -- What one round of the loop adds; a null value is left out.
  unfoldable pub rendered : RenderInput → FieldOrderEntry → Option Value → Option Value
  rendered input e none = none
  rendered input e (some v) = if is_null v then none else some (field_value input e v)

  abbrev pub set_if : Dict Value → Text → Option Value → Dict Value
  set_if fm f none = fm
  set_if fm f (some v) = Dict.set fm f v

  unfoldable pub add_fields : RenderInput → List FieldOrderEntry → Dict Value → Dict Value
  add_fields input [] fm = fm
  add_fields input (e ∷ es) fm =
      add_fields input es (set_if fm e.field (rendered input e (Dict.get input.fields e.field)))

  abbrev pub types_key : Text
  types_key = b't' ∷ b'y' ∷ b'p' ∷ b'e' ∷ b's' ∷ []

  unfoldable pub front_matter : RenderInput → Dict Value
  front_matter input =
      add_fields input input.field_ordering ((types_key, types_value input.types) ∷ [])

  unfoldable pub render_node : (Dict Value → Text) → RenderInput → Text
  render_node stringify input =
      codes "---" ++ 10 ∷ stringify (front_matter input) ++ codes "---" ++ 10 ∷ input.body
