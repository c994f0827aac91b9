-- ===== src/Pipeline/FieldOrdering/Complete.antt =====
-- Laws of `computeFieldOrdering` (src/pipeline/execute.ts).
use vault_engine.Base.{
  Text, true, false, ◌&&◌, List, [], ◌∷◌, ◌++◌, filter, eq_iff, ◌≡◌, refl, arith, inl, inr,
  Bool-cases, if◌then◌else◌, ap, sym, ◌∙◌, subst,
}
use vault_engine.Base.Dict
use vault_engine.Base.Dict.{Dict, Unique, has-eq-contains}
use vault_engine.Base.Once.{
  IsOnce, contains-append, contains-filter, IsOnce-filter, IsOnce-append, contains-sort_by,
  IsOnce-sort_by, keys-eq-map, map_self, IsOnce-keys, new_ones, contains-new_ones, new_ones-IsOnce,
}
use vault_engine.Base.Sort.{sort_by}
use vault_engine.Value.{Value}
use vault_engine.Validation.Types.{EffectiveField, EffectiveFieldSet}
use vault_engine.Renderer.{FieldOrderEntry, Category, claimed, orphan}
use vault_engine.Renderer.FrontMatter.{AreOthers, AreDistinct}
use vault_engine.Pipeline.FieldOrdering.{
  text_le, claimed_le, present_fields, entries_for, names_in, add_missing, compute_field_ordering,
}

names_in-entries_for : (c : Category) (names : List Text) → names_in (entries_for c names) ≡ names
unfolding entries_for
names_in-entries_for c [] = refl
names_in-entries_for c (n ∷ names) = ap (λ r. n ∷ r) (names_in-entries_for c names)

names_in-append : (xs ys : List FieldOrderEntry) → names_in (xs ++ ys) ≡ names_in xs ++ names_in ys
names_in-append [] ys = refl
names_in-append (x ∷ xs) ys = ap (λ r. x.field ∷ r) (names_in-append xs ys)

names_in-add_missing :
    (seen names : List Text) → names_in (add_missing seen names) ≡ new_ones seen names
unfolding add_missing new_ones
names_in-add_missing seen [] = refl
names_in-add_missing seen (n ∷ names) = elim (Bool-cases (Dict.contains seen n)) [
  | inl e ↦ rw e (names_in-add_missing seen names)
  | inr e ↦ rw e (ap (λ r. n ∷ r) (names_in-add_missing (n ∷ seen) names))
]

contains-present_fields :
    (fields : Dict Value) (efs : EffectiveFieldSet) (f : Text)
    → Dict.contains (Dict.keys (present_fields fields efs)) f
      ≡ (Dict.contains (Dict.keys efs) f && Dict.has fields f)
unfolding present_fields Dict.contains
contains-present_fields fields [] f = refl
contains-present_fields fields ((n, ef) ∷ efs) f =
    ground (arith, eq_iff n f, contains-present_fields fields efs f)

present_fields-IsOnce :
    (fields : Dict Value) (efs : EffectiveFieldSet)
    → IsOnce (Dict.keys efs)
    → IsOnce (Dict.keys (present_fields fields efs))
unfolding present_fields
present_fields-IsOnce fields [] h = tt
present_fields-IsOnce fields ((n, ef) ∷ efs) h = elim (Bool-cases (Dict.has fields n)) [
  | inl e ↦
      rw (e, if◌then◌else◌, Dict.keys, IsOnce)
        (
          contains-present_fields fields efs n ∙ ground (arith, h.0),
          present_fields-IsOnce fields efs h.1,
        )
  | inr e ↦ rw (e, if◌then◌else◌) (present_fields-IsOnce fields efs h.1)
]

-- The names of a list of entries that stand once are those of distinct entries.
AreOthers-of_contains :
    (f : Text) (es : List FieldOrderEntry) → Dict.contains (names_in es) f ≡ false → AreOthers f es
unfolding Dict.contains
AreOthers-of_contains f [] h = tt
AreOthers-of_contains f (e ∷ es) h =
    (ground (arith, h), AreOthers-of_contains f es (ground (arith, h)))

AreDistinct-of_IsOnce : (es : List FieldOrderEntry) → IsOnce (names_in es) → AreDistinct es
AreDistinct-of_IsOnce [] h = tt
AreDistinct-of_IsOnce (e ∷ es) h =
    (AreOthers-of_contains e.field es h.0, AreDistinct-of_IsOnce es h.1)

module _ (efs : EffectiveFieldSet) (orphan_names : List Text) (fields : Dict Value) where
  abbrev claimed_names : List Text
  claimed_names = Dict.keys (sort_by claimed_le (present_fields fields efs))

  abbrev orphan_part : List Text
  orphan_part = sort_by text_le (filter (λ name. Dict.has fields name) orphan_names)

  abbrev front_names : List Text
  front_names = claimed_names ++ orphan_part

  contains-claimed_names :
      (f : Text)
      → Dict.contains claimed_names f ≡ (Dict.contains (Dict.keys efs) f && Dict.has fields f)
  contains-claimed_names f =
      ap (λ xs. Dict.contains xs f) (keys-eq-map (sort_by claimed_le (present_fields fields efs)))
      ∙ contains-sort_by claimed_le (λ (p : Text × EffectiveField). p.0) (present_fields fields efs)
          f
      ∙ ap (λ xs. Dict.contains xs f) (sym (keys-eq-map (present_fields fields efs)))
      ∙ contains-present_fields fields efs f

  contains-orphan_part :
      (f : Text) → Dict.contains orphan_part f ≡ (Dict.contains orphan_names f && Dict.has fields f)
  contains-orphan_part f =
      let kept = filter (λ name. Dict.has fields name) orphan_names in
      ap (λ xs. Dict.contains xs f) (sym (map_self (sort_by text_le kept)))
      ∙ contains-sort_by text_le (λ (x : Text). x) kept f
      ∙ ap (λ xs. Dict.contains xs f) (map_self kept)
      ∙ contains-filter (λ name. Dict.has fields name) orphan_names f

  ordering-names :
      names_in (compute_field_ordering efs orphan_names fields)
      ≡ front_names ++ new_ones front_names (Dict.keys fields)
  unfolding compute_field_ordering
  ordering-names =
      let front = entries_for claimed claimed_names ++ entries_for orphan orphan_part in
      let same : names_in front ≡ front_names =
        names_in-append (entries_for claimed claimed_names) (entries_for orphan orphan_part)
        ∙ rw (names_in-entries_for claimed claimed_names, names_in-entries_for orphan orphan_part)
            refl in
      names_in-append front (add_missing (names_in front) (Dict.keys fields))
      ∙ rw (names_in-add_missing (names_in front) (Dict.keys fields), same) refl

  claimed_names-IsOnce : IsOnce (Dict.keys efs) → IsOnce claimed_names
  claimed_names-IsOnce h =
      let kept = present_fields fields efs in
      subst IsOnce (sym (keys-eq-map (sort_by claimed_le kept))) (
        IsOnce-sort_by claimed_le (λ (p : Text × EffectiveField). p.0) kept
          (subst IsOnce (keys-eq-map kept) (present_fields-IsOnce fields efs h)))

  orphan_part-IsOnce : IsOnce orphan_names → IsOnce orphan_part
  orphan_part-IsOnce h =
      let kept = filter (λ name. Dict.has fields name) orphan_names in
      subst IsOnce (map_self (sort_by text_le kept)) (
        IsOnce-sort_by text_le (λ (x : Text). x) kept
          (subst IsOnce (sym (map_self kept))
            (IsOnce-filter (λ name. Dict.has fields name) orphan_names h)))

-- For a merged set of fields, and orphans that stand once and are none of them, the ordering names each
-- field with a value exactly once and no other field; its entries are distinct.
pub compute_field_ordering-AreDistinct :
    (efs : EffectiveFieldSet) (orphan_names : List Text) (fields : Dict Value)
    → Unique efs
    → IsOnce orphan_names
    → ((f : Text) → Dict.contains orphan_names f ≡ true → Dict.has efs f ≡ false)
    → AreDistinct (compute_field_ordering efs orphan_names fields)
      × ((f : Text)
          → Dict.contains (names_in (compute_field_ordering efs orphan_names fields)) f
            ≡ Dict.has fields f)
compute_field_ordering-AreDistinct efs orphan_names fields unique once apart =
    let names = ordering-names efs orphan_names fields in
    let front = front_names efs orphan_names fields in
    let split : (f : Text)
        → Dict.contains (claimed_names efs orphan_names fields) f ≡ true
        → Dict.contains (orphan_part efs orphan_names fields) f ≡ false =
      λ f h.
        contains-orphan_part efs orphan_names fields f
        ∙ ground (
          arith,
          h,
          contains-claimed_names efs orphan_names fields f,
          apart f,
          has-eq-contains efs f,
        ) in
    let front_once : IsOnce front =
      IsOnce-append (claimed_names efs orphan_names fields) (orphan_part efs orphan_names fields)
        (claimed_names-IsOnce efs orphan_names fields (IsOnce-keys efs unique))
        (orphan_part-IsOnce efs orphan_names fields once) split in
    (
      AreDistinct-of_IsOnce (compute_field_ordering efs orphan_names fields) (
          subst IsOnce (sym names) (
            IsOnce-append front (new_ones front (Dict.keys fields)) front_once
              (new_ones-IsOnce front (Dict.keys fields))
              (λ f h. contains-new_ones front (Dict.keys fields) f ∙ ground (arith, h)))),
      λ f.
          ap (λ xs. Dict.contains xs f) names
          ∙ contains-append front (new_ones front (Dict.keys fields)) f
          ∙ ground (
            arith,
            contains-new_ones front (Dict.keys fields) f,
            has-eq-contains fields f,
            contains-append (claimed_names efs orphan_names fields)
                (orphan_part efs orphan_names fields) f,
            contains-claimed_names efs orphan_names fields f,
            contains-orphan_part efs orphan_names fields f,
          ),
    )
