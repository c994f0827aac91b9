-- ===== src/GlobalFields/Crud/Sound.antt =====
-- What `createGlobalField` and an update that keeps the type (src/global-fields/crud.ts) keep true of the
-- definitions.
use vault_engine.Base.{
  Text, Bool, true, not, ◌&&◌, ◌||◌, Option, none, some, List, [], ◌∷◌, ◌++◌, ◌≡◌, refl, ap, subst,
  ◌∙◌, inl, inr, Bool-cases, Option-cases, if◌then◌else◌, ◌==◌, eq_iff, arith,
}
use vault_engine.Store.{GlobalField, Database}
use vault_engine.Validation.Types.{GlobalFieldDefinition, is_enum, is_list}
use vault_engine.GlobalFields.Crud.{
  CrudError, already_exists, Crud, done, failed, diverges, and_then, has_values, is_given,
  is_list_item, CreateInput, check_create, new_definition, hints_for, insert_global_field,
  with_global_fields, create_global_field, UpdateInput, check_update, updated_definition,
  replace_global_field, new_hints, update_attributes,
}
use vault_engine.Pipeline.SchemaContext.{find_global_field}

-- An enum has values, and a list has items that are no lists.
unfoldable pub is_sound : GlobalFieldDefinition → Bool
is_sound d =
    (not (is_enum d.field_type) || has_values d.enum_values)
    && (not (is_list d.field_type)
        || (is_given d.list_item_type && not (is_list_item d.list_item_type)))

unfoldable pub all_sound : List GlobalField → Bool
all_sound [] = true
all_sound (g ∷ gs) = let rest = all_sound gs in is_sound g.definition && rest

check_create-is_sound :
    (input : CreateInput) → check_create input ≡ done tt → is_sound (new_definition input) ≡ true
unfolding check_create is_sound new_definition
check_create-is_sound input h = ground (arith, h)

check_update-is_sound :
    (d : GlobalFieldDefinition) (input : UpdateInput)
    → check_update d input ≡ done tt
    → is_sound (updated_definition d input) ≡ true
unfolding check_update is_sound updated_definition
check_update-is_sound d input h = ground (arith, h)

pub failed-done {ℓ κ} : {A : Type ℓ} {B : Type κ} (e : CrudError) (a : A) → failed e ≡ done a → B
failed-done e a h =
    absurd (subst (λ (c : Crud _). elim c as (λ _. Type 0) [ failed k ↦ Unit | _ ↦ ⊥ ]) h tt)

-- A chain that is done has done its first part.
pub and_then-done {ℓ κ} :
    {A : Type ℓ} {B : Type κ} (x : Crud A) (f : A → Crud B) (b : B)
    → and_then x f ≡ done b
    → (a : A) × (x ≡ done a) × (f a ≡ done b)
unfolding and_then
and_then-done (done a) f b h = (a, refl, h)
and_then-done (failed e) f b h = failed-done e b h
and_then-done diverges f b h =
    absurd (subst (λ (c : Crud _). elim c as (λ _. Type 0) [ diverges ↦ Unit | _ ↦ ⊥ ]) h tt)

pub done-injective {ℓ} : {A : Type ℓ} (a b : A) → done a ≡ done b → a ≡ b
done-injective a b h = ap (λ (c : Crud _). elim c [ done x ↦ x | _ ↦ a ]) h

all_sound-append : (a b : List GlobalField) → all_sound (a ++ b) ≡ (all_sound a && all_sound b)
unfolding all_sound
all_sound-append [] b = refl
all_sound-append (g ∷ a) b = ground (arith, all_sound-append a b)

all_sound-one :
    (gs : List GlobalField) (g : GlobalField)
    → all_sound gs ≡ true
    → is_sound g.definition ≡ true
    → (all_sound gs && all_sound (g ∷ [])) ≡ true
unfolding all_sound
all_sound-one gs g h good = ground (arith, h, good)

all_sound-replace :
    (name : Text) (new : GlobalField) (gs : List GlobalField)
    → is_sound new.definition ≡ true
    → all_sound gs ≡ true
    → all_sound (replace_global_field name new gs) ≡ true
unfolding all_sound replace_global_field
all_sound-replace name new [] good h = refl
all_sound-replace name new (g ∷ gs) good h =
    ground (arith, all_sound-replace name new gs good, good, h)

-- The definition by its name
abbrev pub defined : Option GlobalField → Option GlobalFieldDefinition
defined none = none
defined (some g) = some g.definition

pub find-append :
    (gs : List GlobalField) (g : GlobalField) (q : Text)
    → find_global_field gs g.definition.name ≡ none
    → defined (find_global_field (gs ++ g ∷ []) q)
      ≡ (if g.definition.name == q then some g.definition else defined (find_global_field gs q))
unfolding find_global_field
find-append [] g q h = ground arith
find-append (k ∷ ks) g q h = ground (
  arith,
  h,
  find-append ks g q,
  eq_iff k.definition.name g.definition.name,
  eq_iff k.definition.name q,
  eq_iff g.definition.name q,
)

find-replace :
    (new : GlobalField) (gs : List GlobalField) (q : Text)
    → defined (find_global_field (replace_global_field new.definition.name new gs) q) ≡ (
        if new.definition.name == q && is_given (find_global_field gs q)
        then some new.definition
        else defined (find_global_field gs q))
unfolding find_global_field replace_global_field
find-replace new [] q = ground arith
find-replace new (k ∷ ks) q = ground (
  arith,
  find-replace new ks q,
  eq_iff k.definition.name new.definition.name,
  eq_iff k.definition.name q,
  eq_iff new.definition.name q,
)

-- The definitions stay sound; `name` is defined as `d` now, and every other field as it was.
abbrev pub IsDefined : Text → GlobalFieldDefinition → Database → Database → Type 0
IsDefined name d before after =
    (all_sound after.global_fields ≡ true)
    × ((q : Text)
        → defined (find_global_field after.global_fields q)
          ≡ (if name == q then some d else defined (find_global_field before.global_fields q)))

insert_global_field-done :
    (db : Database) (g : GlobalField) (after : Database)
    → insert_global_field db g ≡ done after
    → (find_global_field db.global_fields g.definition.name ≡ none)
      × (with_global_fields db (db.global_fields ++ g ∷ []) ≡ after)
unfolding insert_global_field
insert_global_field-done db g after h =
    elim (Option-cases (find_global_field db.global_fields g.definition.name)) [
      | inl e ↦ (e, done-injective _ after (rw (e, insert_global_field) at h))
      | inr (old, e) ↦ failed-done already_exists after (rw (e, insert_global_field) at h)
    ]

-- If every enum has values and every list has items that are no lists, that stays so where a field is
-- created; its name was free, it is defined as proposed, and every other name as before.
pub create_global_field-IsDefined :
    (db : Database) (input : CreateInput) (after : Database)
    → all_sound db.global_fields ≡ true
    → create_global_field db input ≡ done after
    → (find_global_field db.global_fields input.name ≡ none)
      × IsDefined input.name (new_definition input) db after
unfolding create_global_field new_definition
create_global_field-IsDefined db input after sound h =
    let (ok, checked, h1) = and_then-done (check_create input) _ after h in
    let (hints, at_hints, h2) = and_then-done (hints_for input.ui) _ after h1 in
    let g : GlobalField = record { definition = new_definition input; ui_hints = hints } in
    let (new, at_after) = insert_global_field-done db g after h2 in
    (
      new,
      subst (λ (k : Database). IsDefined input.name (new_definition input) db k) at_after
          (
            all_sound-append db.global_fields (g ∷ [])
                ∙ all_sound-one db.global_fields g sound (check_create-is_sound input checked),
            λ q. find-append db.global_fields g q new,
          ),
    )

if-given {ℓ} :
    {A : Type ℓ} (g : GlobalField) (gs : List GlobalField) (q : Text)
    → find_global_field gs g.definition.name ≡ some g
    → (a b : A)
    → (if g.definition.name == q && is_given (find_global_field gs q) then a else b)
      ≡ (if g.definition.name == q then a else b)
if-given g gs q there a b = elim (Bool-cases (g.definition.name == q)) [
  | inl e ↦
      rw
        (
          e,
          subst (λ n. is_given (find_global_field gs n) ≡ true) ((eq_iff g.definition.name q).0 e)
              (ap (λ o. is_given o) there),
        )
        refl
  | inr e ↦ rw e refl
]

-- The same of an update that keeps the type of the field.
pub update_attributes-IsDefined :
    (db : Database) (g : GlobalField) (input : UpdateInput) (after : Database)
    → all_sound db.global_fields ≡ true
    → find_global_field db.global_fields g.definition.name ≡ some g
    → update_attributes db g input ≡ done after
    → IsDefined g.definition.name (updated_definition g.definition input) db after
unfolding update_attributes updated_definition
update_attributes-IsDefined db g input after sound there h =
    let (ok, checked, h1) = and_then-done (check_update g.definition input) _ after h in
    let (hints, at_hints, h2) = and_then-done (new_hints input.ui g.ui_hints) _ after h1 in
    let new : GlobalField = record {
      definition = updated_definition g.definition input;
      ui_hints = hints;
    } in
    subst
      (λ (k : Database). IsDefined g.definition.name (updated_definition g.definition input) db k)
      (done-injective _ after h2)
      (
        all_sound-replace g.definition.name new db.global_fields
            (check_update-is_sound g.definition input checked) sound,
        λ q.
            find-replace new db.global_fields q
            ∙ if-given g db.global_fields q there (some new.definition)
                (defined (find_global_field db.global_fields q)),
      )
