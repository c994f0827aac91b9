-- ===== src/Validation/Validate/Locality.antt =====
-- Laws of `validateProposedState` (src/validation/validate.ts).
use vault_engine.Base.{
  Text, Bool, true, false, Option, none, some, List, [], ◌∷◌, ◌++◌, ◌≡◌, refl, arith, inl, inr,
  Bool-cases, Option-cases, if◌then◌else◌, ◌==◌, eq_iff, append-nil, append_assoc, ap, sym, ◌∙◌,
  is_empty,
}
use vault_engine.Base.Dict
use vault_engine.Base.Dict.{Dict, get-set, Unique, has_of_get, get_of_has-false}
use vault_engine.Value.{Value}
use vault_engine.Validation.Types.{
  GlobalFieldDefinition, FieldClaim, EffectiveField, EffectiveFieldSet,
}
use vault_engine.Validation.Merge.{merge_field_claims}
use vault_engine.Validation.Merge.Collected.{Unique-merge_field_claims}
use vault_engine.Validation.ResolveDefault.{FileContext}
use vault_engine.Validation.Validate.Issues.{CoercedValue, ValidationIssue, ValidationResult}
use vault_engine.Validation.Validate.Outcomes.{FieldOutcome}
use vault_engine.Validation.Validate.{
  Progress, started, add_issue, set_entry, apply_outcome, check_fields, orphan_entry, keep_orphans,
  finish, Surroundings, outcome_at, validate_proposed_state,
}

-- The entry that a round leaves, over the one that was there.
abbrev over : Option CoercedValue → Option CoercedValue → Option CoercedValue
over old none = old
over old (some cv) = some cv

abbrev pub entry_at : Option FieldOutcome → Option CoercedValue
entry_at none = none
entry_at (some o) = o.entry

abbrev pub issues_at : Option FieldOutcome → List ValidationIssue
issues_at none = []
issues_at (some o) = add_issue [] o.issue

get-set_entry :
    (m : Dict CoercedValue) (k f : Text) (entry : Option CoercedValue)
    → Dict.get (set_entry m k entry) f
      ≡ (if k == f then over (Dict.get m f) entry else Dict.get m f)
get-set_entry m k f none = ground arith
get-set_entry m k f (some cv) = get-set m k f cv

add_issue-append :
    (xs : List ValidationIssue) (o : Option ValidationIssue) → add_issue xs o ≡ xs ++ add_issue [] o
add_issue-append xs none = sym (append-nil xs)
add_issue-append xs (some i) = refl

module _ (outcome : Text → EffectiveField → Option FieldOutcome) where
  abbrev outcome_of : Text → Option EffectiveField → Option FieldOutcome
  outcome_of f none = none
  outcome_of f (some ef) = outcome f ef

  -- The issues of the rounds, in order.
  abbrev pub issues_of : EffectiveFieldSet → List ValidationIssue
  issues_of [] = []
  issues_of ((name, ef) ∷ efs) = issues_at (outcome name ef) ++ issues_of efs

  -- The loop goes on behind a round that returns.
  check_fields-cons :
      (name : Text) (ef : EffectiveField) (efs : EffectiveFieldSet) (p q : Progress)
      → check_fields outcome ((name, ef) ∷ efs) p ≡ some q
      → (o : FieldOutcome) × (outcome name ef ≡ some o)
        × (check_fields outcome efs (apply_outcome name o p) ≡ some q)
  unfolding check_fields
  check_fields-cons name ef efs p q run = elim (Option-cases (outcome name ef)) [
    | inl e ↦ absurd (ground arith)
    | inr (o, e) ↦ (o, e, rw (e, check_fields) at run)
  ]

  check_fields-nil : (p q : Progress) → check_fields outcome [] p ≡ some q → p ≡ q
  unfolding check_fields
  check_fields-nil p q run = cc

  get-apply_outcome :
      (name f : Text) (o : FieldOutcome) (p : Progress)
      → Dict.get (apply_outcome name o p).coerced_state f ≡ (
          if name == f
          then over (Dict.get p.coerced_state f) o.entry
          else Dict.get p.coerced_state f)
  unfolding apply_outcome
  get-apply_outcome name f o p = get-set_entry p.coerced_state name f o.entry

  get-check_fields :
      (efs : EffectiveFieldSet) (p q : Progress) (f : Text)
      → Unique efs
      → check_fields outcome efs p ≡ some q
      → Dict.get q.coerced_state f
        ≡ over (Dict.get p.coerced_state f) (entry_at (outcome_of f (Dict.get efs f)))
  get-check_fields [] p q f h run =
      unfold Dict.get in
      ap (λ (x : Progress). Dict.get x.coerced_state f) (sym (check_fields-nil p q run))
  get-check_fields ((name, ef) ∷ efs) p q f h run =
      let (o, e, rest) = check_fields-cons name ef efs p q run in
      get-check_fields efs (apply_outcome name o p) q f h.1 rest ∙ elim (Bool-cases (name == f)) [
        | inl same ↦
            let eq : name ≡ f = (eq_iff name f).0 same in
            let gone : Dict.get efs f ≡ none =
              ap (Dict.get efs) (sym eq) ∙ get_of_has-false efs name h.0 in
            let here : outcome f ef ≡ some o = ap (λ n. outcome n ef) (sym eq) ∙ e in
            rw gone
              (get-apply_outcome name f o p ∙ rw same (unfold Dict.get in rw (same, here) refl))
        | inr other ↦ rw (get-apply_outcome name f o p, other) (unfold Dict.get in rw other refl)
      ]

  apply_outcome-issues :
      (name : Text) (o : FieldOutcome) (p : Progress)
      → (apply_outcome name o p).issues ≡ p.issues ++ issues_at (some o)
  unfolding apply_outcome
  apply_outcome-issues name o p = add_issue-append p.issues o.issue

  check_fields-issues :
      (efs : EffectiveFieldSet) (p q : Progress)
      → check_fields outcome efs p ≡ some q
      → q.issues ≡ p.issues ++ issues_of efs
  check_fields-issues [] p q run =
      ap (λ (x : Progress). x.issues) (sym (check_fields-nil p q run)) ∙ sym (append-nil p.issues)
  check_fields-issues ((name, ef) ∷ efs) p q run =
      let (o, e, rest) = check_fields-cons name ef efs p q run in
      check_fields-issues efs (apply_outcome name o p) q rest
      ∙ ap (λ xs. xs ++ issues_of efs) (apply_outcome-issues name o p)
      ∙ append_assoc p.issues (issues_at (some o)) (issues_of efs)
      ∙ rw e refl

abbrev pub kept : Text → Option Value → Option CoercedValue
kept f none = none
kept f (some v) = some (orphan_entry f v)

module _ (efs : EffectiveFieldSet) (name : Text) (v : Value) (m : Dict CoercedValue)
    (f : Text) where
  abbrev orphan_round : Dict CoercedValue
  orphan_round = if Dict.has efs name then m else Dict.set m name (orphan_entry name v)

  get-orphan_round_other : (name == f) ≡ false → Dict.get orphan_round f ≡ Dict.get m f
  get-orphan_round_other other = elim (Bool-cases (Dict.has efs name)) [
    | inl known ↦ rw known refl
    | inr unknown ↦ rw unknown (get-set m name f _ ∙ rw other refl)
  ]

  get-orphan_round_self :
      (name == f) ≡ true
      → Dict.get orphan_round f ≡ (if Dict.has efs f then Dict.get m f else some (orphan_entry f v))
  get-orphan_round_self same =
      let eq : name ≡ f = (eq_iff name f).0 same in
      elim (Bool-cases (Dict.has efs name)) [
        | inl known ↦
            let there : Dict.has efs f ≡ true = ap (Dict.has efs) (sym eq) ∙ known in
            rw (known, there) refl
        | inr unknown ↦
            let there : Dict.has efs f ≡ false = ap (Dict.has efs) (sym eq) ∙ unknown in
            rw (unknown, there)
              (get-set m name f _ ∙ rw same (ap (λ n. some (orphan_entry n v)) eq))
      ]

-- Step 4 at one field: a field that no type claims is kept as it was proposed.
get-keep_orphans :
    (efs : EffectiveFieldSet) (proposed : Dict Value) (m : Dict CoercedValue) (f : Text)
    → Unique proposed
    → Dict.get (keep_orphans efs proposed m) f ≡ (
        if Dict.has efs f then Dict.get m f else over (Dict.get m f) (kept f (Dict.get proposed f)))
unfolding keep_orphans
get-keep_orphans efs [] m f h = unfold Dict.get in ground arith
get-keep_orphans efs ((name, v) ∷ fields) m f h =
    get-keep_orphans efs fields _ f h.1 ∙ elim (Bool-cases (name == f)) [
      | inl same ↦
          let eq : name ≡ f = (eq_iff name f).0 same in
          let gone : Dict.get fields f ≡ none =
            ap (Dict.get fields) (sym eq) ∙ get_of_has-false fields name h.0 in
          rw (gone, get-orphan_round_self efs name v m f same)
            (unfold Dict.get in
              elim (Bool-cases (Dict.has efs f)) [ inl k ↦ rw k refl | inr k ↦ rw (k, same) refl ])
      | inr other ↦
          rw (get-orphan_round_other efs name v m f other) (unfold Dict.get in rw other refl)
    ]

-- The entry of one field in the result, from its merged definition and its proposed value.
abbrev pub entry_of :
    (Text → EffectiveField → Option FieldOutcome)
    → Text
    → Option EffectiveField
    → Option Value
    → Option CoercedValue
entry_of outcome f none proposed = kept f proposed
entry_of outcome f (some ef) proposed = entry_at (outcome f ef)

finish-some :
    (efs : EffectiveFieldSet) (proposed : Dict Value) (o : Option Progress) (r : ValidationResult)
    → finish efs proposed o ≡ some r
    → (q : Progress) × (o ≡ some q)
      × (r.coerced_state ≡ keep_orphans efs proposed q.coerced_state)
      × (r.issues ≡ q.issues)
      × (r.effective_fields ≡ efs)
      × (r.valid ≡ is_empty q.issues)
unfolding finish
finish-some efs proposed none r h = cc
finish-some efs proposed (some q) r h = (q, refl, cc, cc, cc, cc)

over-none : (o : Option CoercedValue) → over none o ≡ o
over-none none = refl
over-none (some cv) = refl

module _ (s : Surroundings) (proposed : Dict Value) (types : List Text)
    (claims_by_type : Dict (List FieldClaim)) (gfs : Dict GlobalFieldDefinition)
    (ctx : Option FileContext) (skip_defaults : Bool) where
  abbrev efs : EffectiveFieldSet
  efs = merge_field_claims s.rt types claims_by_type gfs

  abbrev outcome : Text → EffectiveField → Option FieldOutcome
  outcome = outcome_at s ctx skip_defaults proposed

  entry-combined :
      (f : Text) (o : Option EffectiveField)
      → Dict.get efs f ≡ o
      → (if Dict.has efs f
          then over none (entry_at (outcome_of outcome f o))
          else over (over none (entry_at (outcome_of outcome f o))) (kept f (Dict.get proposed f)))
        ≡ entry_of outcome f o (Dict.get proposed f)
  unfolding Dict.has
  entry-combined f none e = ground (arith, over-none (kept f (Dict.get proposed f)))
  entry-combined f (some ef) e = rw (has_of_get efs f ef e) (over-none (entry_at (outcome f ef)))

  get-result :
      (q : Progress) (f : Text)
      → Unique proposed
      → check_fields outcome efs started ≡ some q
      → Dict.get (keep_orphans efs proposed q.coerced_state) f
        ≡ entry_of outcome f (Dict.get efs f) (Dict.get proposed f)
  get-result q f h ran =
      let unique = Unique-merge_field_claims s.rt types claims_by_type gfs in
      let here : Dict.get q.coerced_state f
          ≡ over none (entry_at (outcome_of outcome f (Dict.get efs f))) =
        get-check_fields outcome efs started q f unique ran ∙ (unfold Dict.get in refl) in
      get-keep_orphans efs proposed q.coerced_state f h
      ∙ rw here (entry-combined f (Dict.get efs f) refl)

  result_of :
      (r : ValidationResult)
      → validate_proposed_state s proposed types claims_by_type gfs ctx skip_defaults ≡ some r
      → (q : Progress) × (check_fields outcome efs started ≡ some q)
        × (r.coerced_state ≡ keep_orphans efs proposed q.coerced_state)
        × (r.issues ≡ q.issues)
        × (r.effective_fields ≡ efs)
        × (r.valid ≡ is_empty q.issues)
  unfolding validate_proposed_state
  result_of r run = finish-some efs proposed _ r run

-- The result of a validation, field by field: a merged field has the entry of its own round, which
-- reads nothing but its definition and its proposed value; a proposed field that no type claims is
-- kept as it is; any other field has no entry. The issues are those of the rounds, in order, and the
-- result is valid exactly when there is none.
pub validate-entries :
    (s : Surroundings) (proposed : Dict Value) (types : List Text)
    (claims_by_type : Dict (List FieldClaim)) (gfs : Dict GlobalFieldDefinition)
    (ctx : Option FileContext) (skip_defaults : Bool) (r : ValidationResult)
    → Unique proposed
    → validate_proposed_state s proposed types claims_by_type gfs ctx skip_defaults ≡ some r
    → ((f : Text)
        → Dict.get r.coerced_state f
          ≡ entry_of
              (outcome_at s ctx skip_defaults proposed)
              f
              (Dict.get (merge_field_claims s.rt types claims_by_type gfs) f)
              (Dict.get proposed f))
      × (r.issues
          ≡ issues_of
              (outcome_at s ctx skip_defaults proposed)
              (merge_field_claims s.rt types claims_by_type gfs))
      × (r.valid ≡ is_empty r.issues)
validate-entries s proposed types claims_by_type gfs ctx skip_defaults r h run =
    let (q, ran, state, issues, _, valid) =
      result_of s proposed types claims_by_type gfs ctx skip_defaults r run in
    (
      λ f.
          ap (λ m. Dict.get m f) state
          ∙ get-result s proposed types claims_by_type gfs ctx skip_defaults q f h ran,
      issues ∙ check_fields-issues (outcome_at s ctx skip_defaults proposed) _ started q ran,
      valid ∙ ap is_empty (sym issues),
    )
