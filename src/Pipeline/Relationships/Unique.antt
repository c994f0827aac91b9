-- ===== src/Pipeline/Relationships/Unique.antt =====
-- Laws of `deriveRelationships` (src/pipeline/relationships.ts).
use vault_engine.Base.{
  Text, false, not, ◌&&◌, List, [], ◌∷◌, ◌++◌, eq_iff, eq_refl, if◌then◌else◌, ◌≡◌, refl, arith,
  inl, inr, Bool-cases, ◌∙◌,
}
use vault_engine.Base.Dict
use vault_engine.Base.Dict.{Dict}
use vault_engine.Value.{Value, Runtime}
use vault_engine.Validation.Types.{GlobalFieldDefinition}
use vault_engine.Pipeline.Relationships.{
  DerivedRelationship, BodyLink, field_rels, body_rels, key_of, add_rels, derive_relationships,
}

abbrev pub keys_of : List DerivedRelationship → List Text
keys_of [] = []
keys_of (r ∷ rs) = key_of r ∷ keys_of rs

-- No key stands twice.
abbrev pub IsOnce : List Text → Type 0
IsOnce [] = Unit
IsOnce (k ∷ ks) = (Dict.contains ks k ≡ false) × IsOnce ks

contains-add_rels :
    (seen : List Text) (rs : List DerivedRelationship) (k : Text)
    → Dict.contains (keys_of (add_rels seen rs)) k
      ≡ (Dict.contains (keys_of rs) k && not (Dict.contains seen k))
unfolding add_rels Dict.contains
contains-add_rels seen [] k = refl
contains-add_rels seen (r ∷ rs) k = ground (
  arith,
  eq_iff (key_of r) k,
  contains-add_rels seen rs k,
  contains-add_rels (key_of r ∷ seen) rs k,
)

add_rels-IsOnce :
    (seen : List Text) (rs : List DerivedRelationship) → IsOnce (keys_of (add_rels seen rs))
unfolding add_rels
add_rels-IsOnce seen [] = tt
add_rels-IsOnce seen (r ∷ rs) = elim (Bool-cases (Dict.contains seen (key_of r))) [
  | inl old ↦ rw (old, if◌then◌else◌, keys_of) (add_rels-IsOnce seen rs)
  | inr new ↦
      rw (new, if◌then◌else◌, keys_of, IsOnce)
        (
          contains-add_rels (key_of r ∷ seen) rs (key_of r)
              ∙ unfold Dict.contains in rw (eq_refl (key_of r)) (ground arith),
          add_rels-IsOnce (key_of r ∷ seen) rs,
        )
]

-- No two derived relationships share their key, the target and the type joined by a bar, and the keys are
-- exactly those of the links in the fields and in the body.
pub derive_relationships-IsOnce :
    (rt : Runtime) (body_links : Text → List BodyLink) (fields : Dict Value) (body : Text)
    (gfs : Dict GlobalFieldDefinition) (raws : Dict Text)
    → IsOnce (keys_of (derive_relationships rt body_links fields body gfs raws))
      × ((k : Text)
          → Dict.contains (keys_of (derive_relationships rt body_links fields body gfs raws)) k
            ≡ Dict.contains
                (keys_of (field_rels rt gfs raws fields ++ body_rels (body_links body)))
                k)
unfolding derive_relationships
derive_relationships-IsOnce rt body_links fields body gfs raws =
    let rs = field_rels rt gfs raws fields ++ body_rels (body_links body) in
    (add_rels-IsOnce [] rs, λ k. contains-add_rels [] rs k ∙ unfold Dict.contains in ground arith)
