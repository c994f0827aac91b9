-- ===== src/Pipeline/FieldOrdering.antt =====
-- src/pipeline/execute.ts: `computeFieldOrdering`, which undo/restore.ts repeats. `<` and `sort` compare
-- texts by their UTF-16 units.
pub mod Complete
use vault_engine.Base.{
  ℕ, ℤ, int_le, int_eq, Text, Bool, true, false, not, ◌&&◌, ◌||◌, List, [], ◌∷◌, ◌++◌, eqb, ltb,
  filter, map, if◌then◌else◌, ◌==◌,
}
use vault_engine.Base.Dict
use vault_engine.Base.Dict.{Dict}
use vault_engine.Base.Sort.{sort_by}
use vault_engine.Value.{Value}
use vault_engine.Validation.Types.{EffectiveField, EffectiveFieldSet}
use vault_engine.Renderer.{FieldOrderEntry, Category, claimed, orphan}

-- `a <= b` on strings
unfoldable pub text_le : Text → Text → Bool
text_le [] t = true
text_le (x ∷ s) [] = false
text_le (x ∷ s) (y ∷ t) = ltb x y || (eqb x y && text_le s t)

-- The comparator of the claimed fields
unfoldable pub claimed_le : Text × EffectiveField → Text × EffectiveField → Bool
claimed_le (f, a) (g, b) =
    if int_eq a.resolved_order b.resolved_order
    then text_le f g
    else int_le a.resolved_order b.resolved_order

unfoldable pub present_fields : Dict Value → EffectiveFieldSet → EffectiveFieldSet
present_fields fields [] = []
present_fields fields ((name, ef) ∷ efs) =
    let rest = present_fields fields efs in if Dict.has fields name then (name, ef) ∷ rest else rest

unfoldable pub entries_for : Category → List Text → List FieldOrderEntry
entries_for category [] = []
entries_for category (name ∷ names) =
    record { field = name; category = category } ∷ entries_for category names

abbrev pub names_in : List FieldOrderEntry → List Text
names_in [] = []
names_in (e ∷ es) = e.field ∷ names_in es

-- The last loop, over the fields with a value: those that are in the ordering so far are passed over.
unfoldable pub add_missing : List Text → List Text → List FieldOrderEntry
add_missing seen [] = []
add_missing seen (name ∷ names) =
    let added = add_missing (name ∷ seen) names in
    let passed = add_missing seen names in
    if Dict.contains seen name then passed else record { field = name; category = claimed } ∷ added

unfoldable pub compute_field_ordering :
    EffectiveFieldSet → List Text → Dict Value → List FieldOrderEntry
compute_field_ordering efs orphan_names fields =
    let front =
      entries_for claimed (Dict.keys (sort_by claimed_le (present_fields fields efs)))
      ++ entries_for orphan
          (sort_by text_le (filter (λ name. Dict.has fields name) orphan_names)) in
    front ++ add_missing (names_in front) (Dict.keys fields)
