-- ===== src/GlobalFields/Crud/Renamed.antt =====
-- Laws of `renameGlobalField` (src/global-fields/crud.ts).
use vault_engine.Base.{
  Text, true, false, not, ◌&&◌, Option, none, some, List, [], ◌∷◌, ◌++◌, ◌≡◌, refl, sym, ap, subst,
  ◌∙◌, inl, inr, Bool-cases, Option-cases, if◌then◌else◌, ◌==◌, eq_iff, arith, filter,
}
use vault_engine.Store.{GlobalField, NodeField, Database, find_field}
use vault_engine.Pipeline.ClassifyValue.{FieldColumns}
use vault_engine.GlobalFields.Crud.{
  done, constraint_failed, Affected, has_row, rows_collide, rename_rows, renamed,
  rename_global_field,
}
use vault_engine.GlobalFields.Crud.Sound.{defined, done-injective, failed-done, find-append}
use vault_engine.Pipeline.Snapshot.Capture.{none-absurd}
use vault_engine.Pipeline.SchemaContext.{find_global_field}

abbrev pub columns_of : Option NodeField → Option FieldColumns
columns_of none = none
columns_of (some r) = some r.columns

-- The columns of a node at a field
abbrev pub cell : List NodeField → Text → Text → Option FieldColumns
cell rows id name = columns_of (find_field rows id name)

abbrev pub or_cell : Option FieldColumns → Option FieldColumns → Option FieldColumns
or_cell none c = c
or_cell (some c) d = some c

has_row-apart :
    (old new : Text) (all rows : List NodeField) (id : Text)
    → rows_collide old new all rows ≡ false
    → has_row id old rows ≡ true
    → has_row id new all ≡ false
unfolding rows_collide has_row
has_row-apart old new all [] id free there = ground (arith, there)
has_row-apart old new all (r ∷ rs) id free there =
    ground (arith, has_row-apart old new all rs id, free, there, eq_iff r.node_id id)

find_field-no_row :
    (rows : List NodeField) (id name : Text)
    → has_row id name rows ≡ false
    → find_field rows id name ≡ none
unfolding has_row find_field
find_field-no_row [] id name h = refl
find_field-no_row (r ∷ rs) id name h = ground (arith, h, find_field-no_row rs id name)

cell-rename_rows :
    (old new : Text) (rows : List NodeField) (id q : Text)
    → old == new ≡ false
    → (has_row id old rows && has_row id new rows) ≡ false
    → cell (rename_rows old new rows) id q ≡ (
        if q == new
        then or_cell (cell rows id old) (cell rows id new)
        else if q == old
        then none
        else cell rows id q)
unfolding rename_rows find_field has_row
cell-rename_rows old new [] id q apart free = ground arith
cell-rename_rows old new (r ∷ rs) id q apart free = ground (
  arith,
  apart,
  free,
  cell-rename_rows old new rs id q apart,
  find_field-no_row rs id old,
  find_field-no_row rs id new,
  eq_iff r.node_id id,
  eq_iff r.field_name old,
  eq_iff r.field_name new,
  eq_iff r.field_name q,
  eq_iff old q,
  eq_iff new q,
  eq_iff q old,
  eq_iff q new,
  eq_iff old new,
)

find-filter :
    (old : Text) (gs : List GlobalField) (q : Text)
    → defined (find_global_field (filter (λ k. not (k.definition.name == old)) gs) q)
      ≡ (if q == old then none else defined (find_global_field gs q))
unfolding find_global_field
find-filter old [] q = ground arith
find-filter old (k ∷ ks) q = ground (
  arith,
  find-filter old ks q,
  eq_iff k.definition.name old,
  eq_iff k.definition.name q,
  eq_iff q old,
)

-- The value of every node and the definition move from the one name to the other, and all else stays.
abbrev pub IsRenamed : Text → Text → GlobalField → Database → Database → Type 0
IsRenamed old new g before after =
    ((id q : Text)
      → cell after.node_fields id q ≡ (
          if q == new
          then or_cell (cell before.node_fields id old) (cell before.node_fields id new)
          else if q == old
          then none
          else cell before.node_fields id q))
    × ((q : Text)
        → defined (find_global_field after.global_fields q) ≡ (
            if q == new
            then some (record g.definition { name = new })
            else if q == old
            then none
            else defined (find_global_field before.global_fields q)))

some-none {ℓ} : {A : Type ℓ} (a : A) → some a ≡ none → ⊥
some-none a h = none-absurd a (sym h)

renamed-IsRenamed :
    (db : Database) (old new : Text) (g : GlobalField)
    → find_global_field db.global_fields old ≡ some g
    → find_global_field db.global_fields new ≡ none
    → rows_collide old new db.node_fields db.node_fields ≡ false
    → IsRenamed old new g db (renamed db old new g).db
unfolding renamed
renamed-IsRenamed db old new g there absent free =
    let apart : old == new ≡ false = elim (Bool-cases (old == new)) [
      | inr e ↦ e
      | inl e ↦ absurd (
          some-none g (
            sym there
            ∙ ap (λ n. find_global_field db.global_fields n) ((eq_iff old new).0 e)
            ∙ absent))
    ] in
    (
      λ id q.
          cell-rename_rows old new db.node_fields id q apart
            (ground (arith, has_row-apart old new db.node_fields db.node_fields id free)),
      λ q.
          find-filter old
            (db.global_fields ++ record g { definition = record g.definition { name = new } } ∷ [])
            q
          ∙ ground (
            arith,
            find-append db.global_fields
                (record g { definition = record g.definition { name = new } }) q absent,
            apart,
            eq_iff new q,
            eq_iff q new,
            eq_iff q old,
            eq_iff old q,
            eq_iff old new,
          ),
    )

-- Where a field is renamed, every node has under the new name what it had under the old one, or else what
-- it had under the new one, nothing under the old one, and the same under any other; and so the definitions.
pub rename_global_field-IsRenamed :
    (db : Database) (old new : Text) (g : GlobalField) (a : Affected)
    → find_global_field db.global_fields old ≡ some g
    → rename_global_field db old new ≡ done a
    → IsRenamed old new g db a.db
unfolding rename_global_field
rename_global_field-IsRenamed db old new g a there h =
    elim (Option-cases (find_global_field db.global_fields new)) [
      | inr (k, e) ↦ failed-done constraint_failed a (rw (there, e, rename_global_field) at h)
      | inl e ↦ elim (Bool-cases (rows_collide old new db.node_fields db.node_fields)) [
        | inl collide ↦
            failed-done constraint_failed a (rw (there, e, collide, rename_global_field) at h)
        | inr free ↦
            subst (λ (k : Affected). IsRenamed old new g db k.db)
              (done-injective _ a (rw (there, e, free, rename_global_field) at h))
              (renamed-IsRenamed db old new g there e free)
      ]
    ]
