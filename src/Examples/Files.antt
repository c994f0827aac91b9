-- ===== src/Examples/Files.antt =====
-- The theorems on the conformance, the renderer, the chunks and the relationships at concrete values.
use vault_engine.Base.{
  Text, true, not, ◌&&◌, Option, none, some, [], List, ◌∷◌, ◌++◌, ◌==◌, length, All, inl, inr, ◌≡◌,
  refl, arith,
}
use vault_engine.Base.Dict
use vault_engine.Value.{Value, str}
use vault_engine.Validation.Conformance.{Tables, get_node_conformance}
use vault_engine.Validation.Conformance.Split.{names, is_claimed, get_node_conformance-lem}
use vault_engine.Renderer.{
  Category, FieldOrderEntry, RenderInput, front_matter, types_key, types_value,
}
use vault_engine.Renderer.FrontMatter.{AreDistinct, AreOthers, written, get-front_matter}
use vault_engine.Search.Chunker.{pack}
use vault_engine.Search.Chunker.Packed.{IsWithin, All-pack}
use vault_engine.Pipeline.Relationships.{BodyLink, field_rels, body_rels, derive_relationships}
use vault_engine.Pipeline.Relationships.Unique.{keys_of, IsOnce, derive_relationships-IsOnce}
use vault_engine.Examples.{note, low, high, task, page, ascii, known_fields}

abbrev tables : Tables
tables = record {
  schemas = task ∷ [];
  schema_claims = (task, note ∷ []) ∷ [];
  required_fields = (note, true) ∷ [];
  node_fields = note ∷ high ∷ [];
}

get_node_conformance-lem_example :
    (Dict.contains (names (get_node_conformance tables (task ∷ page ∷ [])).claimed_fields) note
      ≡ (Dict.contains (note ∷ high ∷ []) note && is_claimed tables (task ∷ page ∷ []) note))
    × (Dict.contains (get_node_conformance tables (task ∷ page ∷ [])).orphan_fields note ≡ (
        Dict.contains (note ∷ high ∷ []) note && not (is_claimed tables (task ∷ page ∷ []) note)))
get_node_conformance-lem_example = get_node_conformance-lem tables (task ∷ page ∷ []) note

-- No text parses.
abbrev no_json : Text → Option Value
no_json s = none

abbrev note_entry : FieldOrderEntry
note_entry = record { field = note; category = Category.claimed }

abbrev high_entry : FieldOrderEntry
high_entry = record { field = high; category = Category.orphan }

abbrev input : RenderInput
input = record {
  types = task ∷ [];
  fields = (note, str low) ∷ (high, str low) ∷ [];
  body = [];
  field_ordering = note_entry ∷ high_entry ∷ [];
  reference_fields = note ∷ [];
  list_reference_fields = [];
  orphan_raw_values = (high, page) ∷ [];
}

entries_distinct : AreDistinct (note_entry ∷ high_entry ∷ [])
unfolding ◌==◌ note high
entries_distinct = ((refl, tt), (tt, tt))

entries_others : AreOthers (types_key no_json) (note_entry ∷ high_entry ∷ [])
unfolding ◌==◌ note high
entries_others = (refl, (refl, tt))

get-front_matter_example :
    (Dict.get (front_matter no_json input) high
      ≡ written no_json input high_entry (Dict.get input.fields high))
    × (Dict.get (front_matter no_json input) (types_key no_json) ≡ some (types_value (task ∷ [])))
get-front_matter_example =
    get-front_matter no_json input high_entry entries_distinct entries_others (inr (inl refl))

within : All (IsWithin length 9) (low ∷ high ∷ note ∷ [])
unfolding low high note
within = (omega arith, (omega arith, (omega arith, tt)))

All-pack_example : All (IsWithin length 9) (pack length (low ∷ high ∷ note ∷ []) 9)
All-pack_example = All-pack length 9 (low ∷ high ∷ note ∷ []) within

abbrev wiki_links : Text → List BodyLink
wiki_links body =
    record { target = low; context = body } ∷ record { target = low; context = [] } ∷ []

derive_relationships-IsOnce_example :
    IsOnce
      (keys_of (derive_relationships ascii wiki_links ((note, str low) ∷ []) high known_fields []))
    × ((k : Text)
        → Dict.contains
            (keys_of
              (derive_relationships ascii wiki_links ((note, str low) ∷ []) high known_fields []))
            k
          ≡ Dict.contains
              (keys_of (
                field_rels ascii known_fields [] ((note, str low) ∷ [])
                ++ body_rels (wiki_links high)))
              k)
derive_relationships-IsOnce_example =
    derive_relationships-IsOnce ascii wiki_links ((note, str low) ∷ []) high known_fields []
