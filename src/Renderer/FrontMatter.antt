-- ===== src/Renderer/FrontMatter.antt =====
-- Laws of `renderNode` (src/renderer/render.ts).
use vault_engine.Base.{
  Text, false, Option, none, some, List, [], ◌∷◌, ◌==◌, eq_iff, eq_refl, ◌≡◌, refl, arith, All,
  IsIn, inl, inr, sym, subst, ◌∙◌,
}
use vault_engine.Base.Dict
use vault_engine.Base.Dict.{Dict, get-set}
use vault_engine.Value.{Value, undefined, null, str, num, bool, date, arr, obj}
use vault_engine.Renderer.{
  FieldOrderEntry, RenderInput, rendered, field_value, set_if, add_fields, types_key, types_value,
  front_matter,
}

-- The entries name another field.
abbrev pub AreOthers : Text → List FieldOrderEntry → Type 0
AreOthers f es = All (λ e. (e.field == f) ≡ false) es

-- No two entries name one field.
abbrev pub AreDistinct : List FieldOrderEntry → Type 0
AreDistinct [] = Unit
AreDistinct (e ∷ es) = AreOthers e.field es × AreDistinct es

get-set_if_other :
    (parse : Text → Option Value) (fm : Dict Value) (g f : Text) (v : Option Value)
    → (g == f) ≡ false
    → Dict.get (set_if parse fm g v) f ≡ Dict.get fm f
get-set_if_other parse fm g f none h = refl
get-set_if_other parse fm g f (some v) h = get-set fm g f v ∙ rw h refl

get-set_if_same :
    (parse : Text → Option Value) (fm : Dict Value) (f : Text) (v : Option Value)
    → Dict.get fm f ≡ none
    → Dict.get (set_if parse fm f v) f ≡ v
get-set_if_same parse fm f none h = h
get-set_if_same parse fm f (some v) h = get-set fm f f v ∙ rw (eq_refl f) refl

differ :
    (es : List FieldOrderEntry) (f : Text) (e : FieldOrderEntry)
    → AreOthers f es
    → IsIn e es
    → (f == e.field) ≡ false
differ [] f e h i = absurd (i.lower)
differ (d ∷ es) f e h (inl same) =
    subst (λ (x : FieldOrderEntry). (f == x.field) ≡ false) same
      (ground (arith, h.0, eq_iff d.field f, eq_iff f d.field))
differ (d ∷ es) f e h (inr later) = differ es f e h.1 later

module _ (parse : Text → Option Value) (input : RenderInput) where
  abbrev value_of : FieldOrderEntry → Option Value
  value_of e = rendered parse input e (Dict.get input.fields e.field)

  get-add_fields_other :
      (es : List FieldOrderEntry) (fm : Dict Value) (f : Text)
      → AreOthers f es
      → Dict.get (add_fields parse input es fm) f ≡ Dict.get fm f
  unfolding add_fields
  get-add_fields_other [] fm f h = refl
  get-add_fields_other (e ∷ es) fm f h =
      get-add_fields_other es (set_if parse fm e.field (value_of e)) f h.1
      ∙ get-set_if_other parse fm e.field f (value_of e) h.0

  get-add_fields :
      (es : List FieldOrderEntry) (fm : Dict Value) (e : FieldOrderEntry)
      → AreDistinct es
      → IsIn e es
      → Dict.get fm e.field ≡ none
      → Dict.get (add_fields parse input es fm) e.field ≡ value_of e
  unfolding add_fields
  get-add_fields [] fm e u i h = absurd (i.lower)
  get-add_fields (d ∷ es) fm e u (inl same) h =
      subst
        (λ (x : FieldOrderEntry).
          Dict.get (add_fields parse input es (set_if parse fm d.field (value_of d))) x.field
          ≡ value_of x)
        same
        (get-add_fields_other es (set_if parse fm d.field (value_of d)) d.field u.0
          ∙ get-set_if_same parse fm d.field (value_of d)
              (subst (λ (x : FieldOrderEntry). Dict.get fm x.field ≡ none) (sym same) h))
  get-add_fields (d ∷ es) fm e u (inr later) h =
      get-add_fields es (set_if parse fm d.field (value_of d)) e u.1 later
        (get-set_if_other parse fm d.field e.field (value_of d) (differ es d.field e u.0 later) ∙ h)

  -- What is written for an entry: nothing for a value that is missing or null.
  abbrev pub written : FieldOrderEntry → Option Value → Option Value
  written e none = none
  written e (some undefined) = none
  written e (some null) = none
  written e (some v) = some (field_value parse input e v)

  rendered-eq-written :
      (e : FieldOrderEntry) (v : Option Value) → rendered parse input e v ≡ written e v
  unfolding rendered
  rendered-eq-written e none = refl
  rendered-eq-written e (some undefined) = refl
  rendered-eq-written e (some null) = refl
  rendered-eq-written e (some (str s)) = refl
  rendered-eq-written e (some (num n)) = refl
  rendered-eq-written e (some (bool b)) = refl
  rendered-eq-written e (some (date t)) = refl
  rendered-eq-written e (some (arr vs)) = refl
  rendered-eq-written e (some (obj ms)) = refl

  -- Where no two entries of the ordering name one field, and none names `types`, the front matter has at
  -- each entry's field what the entry renders: nothing for a value that is missing or null, else
  -- the value with its links wrapped or the raw text of an orphan. At `types` it has the types.
  pub get-front_matter :
      (e : FieldOrderEntry)
      → AreDistinct input.field_ordering
      → AreOthers (types_key parse) input.field_ordering
      → IsIn e input.field_ordering
      → (Dict.get (front_matter parse input) e.field ≡ written e (Dict.get input.fields e.field))
        × (Dict.get (front_matter parse input) (types_key parse) ≡ some (types_value input.types))
  unfolding front_matter Dict.get
  get-front_matter e u o i = (
    get-add_fields input.field_ordering ((types_key parse, types_value input.types) ∷ []) e u i
          (rw (differ input.field_ordering (types_key parse) e o i) refl)
        ∙ rendered-eq-written e (Dict.get input.fields e.field),
    get-add_fields_other input.field_ordering _ (types_key parse) o
        ∙ rw (eq_refl (types_key parse)) refl,
  )
