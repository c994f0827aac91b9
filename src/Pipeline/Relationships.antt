-- ===== src/Pipeline/Relationships.antt =====
-- src/pipeline/relationships.ts: `deriveRelationships`. The links in the body (parser/wiki-links.ts, over
-- the tree of a markdown library) are a parameter.
pub mod Unique
use vault_engine.Base.{
  ℕ, zero, suc, ◌+◌, Text, codes, Bool, true, false, not, ◌&&◌, ◌||◌, Option, none, some, List, [],
  ◌∷◌, ◌++◌, length, eqb, is_empty, if◌then◌else◌,
}
use vault_engine.Base.Dict
use vault_engine.Base.Dict.{Dict}
use vault_engine.Value.{
  Value, undefined, null, str, num, bool, date, arr, obj, Values, nil, cons, Runtime, is_null,
}
use vault_engine.Validation.Types.{FieldType, GlobalFieldDefinition, is_reference, is_list}

pub record DerivedRelationship : Type 0 where
  pub target : Text
  pub rel_type : Text
  pub context : Text

pub record BodyLink : Type 0 where
  pub target : Text
  pub context : Text

-- The longest prefix whose units pass the test, and the rest.
unfoldable pub span : (ℕ → Bool) → Text → Text × Text
span p [] = ([], [])
span p (c ∷ s) = let (taken, rest) = span p s in if p c then (c ∷ taken, rest) else ([], c ∷ s)

-- `]]`
unfoldable pub closes : Text → Bool
closes (c ∷ d ∷ s) = eqb c b']' && eqb d b']'
closes _ = false

-- `(?:\|([^\]]+))?\]\]`: the length, behind the target
unfoldable pub tail_length : Text → Option ℕ
tail_length [] = none
tail_length (c ∷ s) =
    let (alias, rest) = span (λ d. not (eqb d b']')) s in
    if eqb c b'|'
    then if is_empty alias || not (closes rest) then none else some (length alias + 3)
    else if closes (c ∷ s)
    then some 2
    else none

abbrev with_length : Text → Option ℕ → Option (Text × ℕ)
with_length target none = none
with_length target (some n) = some (target, 2 + length target + n)

-- A match of the pattern at the start of the text: its target and its length.
unfoldable pub link_at : Text → Option (Text × ℕ)
link_at (c ∷ d ∷ s) =
    let (target, rest) = span (λ e. not (eqb e b']' || eqb e b'|')) s in
    if eqb c b'[' && eqb d b'[' && not (is_empty target)
    then with_length target (tail_length rest)
    else none
link_at _ = none

abbrev units_behind : Option (Text × ℕ) → ℕ
units_behind none = 0
units_behind (some (target, zero)) = 0
units_behind (some (target, suc n)) = n

abbrev target_before : Option (Text × ℕ) → List Text → List Text
target_before none rest = rest
target_before (some (target, n)) rest = target ∷ rest

-- The targets of the matches, each looked for behind the one before, to which `skipped` units belong.
unfoldable pub link_targets : ℕ → Text → List Text
link_targets skipped [] = []
link_targets (suc skipped) (c ∷ s) = link_targets skipped s
link_targets zero (c ∷ s) =
    target_before (link_at (c ∷ s)) (link_targets (units_behind (link_at (c ∷ s))) s)

abbrev rel : Text → Text → DerivedRelationship
rel f target = record { target = target; rel_type = f; context = f }

unfoldable pub rels_of : Text → List Text → List DerivedRelationship
rels_of f [] = []
rels_of f (target ∷ targets) = rel f target ∷ rels_of f targets

-- The items of a list that are texts.
unfoldable pub text_items : Values → List Text
text_items nil = []
text_items (cons (str s) vs) = s ∷ text_items vs
text_items (cons v vs) = text_items vs

abbrev pub is_reference_item : Option FieldType → Bool
is_reference_item none = false
is_reference_item (some t) = is_reference t

unfoldable pub reference_targets : GlobalFieldDefinition → Value → List Text
reference_targets gf (str s) = if is_reference gf.field_type then s ∷ [] else []
reference_targets gf (arr vs) =
    if is_list gf.field_type && is_reference_item gf.list_item_type then text_items vs else []
reference_targets gf _ = []

-- The text of a field that no definition knows, as it stands in the file or in the value.
unfoldable pub scanned_text : Runtime → Option Text → Value → Text
scanned_text rt (some raw) v = raw
scanned_text rt none (str s) = s
scanned_text rt none (arr vs) = rt.stringify (arr vs)
scanned_text rt none _ = []

unfoldable pub field_targets :
    Runtime → Option GlobalFieldDefinition → Option Text → Value → List Text
field_targets rt (some gf) raw v = reference_targets gf v
field_targets rt none raw v = link_targets 0 (scanned_text rt raw v)

-- The calls of `addRel` for the fields, in order.
unfoldable pub field_rels :
    Runtime → Dict GlobalFieldDefinition → Dict Text → Dict Value → List DerivedRelationship
field_rels rt gfs raws [] = []
field_rels rt gfs raws ((f, v) ∷ fields) =
    let rest = field_rels rt gfs raws fields in
    if is_null v
    then rest
    else rels_of f (field_targets rt (Dict.get gfs f) (Dict.get raws f) v) ++ rest

unfoldable pub body_rels : List BodyLink → List DerivedRelationship
body_rels [] = []
body_rels (l ∷ ls) =
    record { target = l.target; rel_type = codes "wiki-link"; context = l.context } ∷ body_rels ls

unfoldable pub key_of : DerivedRelationship → Text
key_of r = r.target ++ b'|' ∷ r.rel_type

-- `addRel`, for each call in order
unfoldable pub add_rels : List Text → List DerivedRelationship → List DerivedRelationship
add_rels seen [] = []
add_rels seen (r ∷ rs) =
    let added = add_rels (key_of r ∷ seen) rs in
    let passed = add_rels seen rs in if Dict.contains seen (key_of r) then passed else r ∷ added

unfoldable pub derive_relationships :
    Runtime
    → (Text → List BodyLink)
    → Dict Value
    → Text
    → Dict GlobalFieldDefinition
    → Dict Text
    → List DerivedRelationship
derive_relationships rt body_links fields body gfs raws =
    add_rels [] (field_rels rt gfs raws fields ++ body_rels (body_links body))
