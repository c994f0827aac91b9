-- ===== src/Validation/Fixable/Order.antt =====
-- Laws of `buildFixable` (src/validation/fixable.ts).
use mathlib.Core.List.{Perm}
use vault_engine.Base.{
  ℤ, int_le_total, int_le_trans, Text, Bool, true, false, ◌||◌, if◌then◌else◌, is_empty, Option,
  none, some, List, [], ◌∷◌, ◌≡◌, refl, subst, arith, ◌⊎◌, inl, inr, Option-cases,
}
use vault_engine.Base.Dict
use vault_engine.Base.Sort.{sort_by-perm, IsSorted, sort_by-IsSorted}
use vault_engine.Validation.Types.{FieldType, EffectiveFieldSet}
use vault_engine.Value.{Value, null, str}
use vault_engine.Validation.Validate.Issues.{
  ValidationIssue, ValidationIssueCode, Details, RequiredMissingDetails, EnumMismatchDetails,
}
use vault_engine.Validation.Fixable.{
  FixableEntry, enum_entry, required_entry, fixable_entry, order_le, order_of, fixable_entries,
  build_fixable,
}

order_le_total : (a b : Option ℤ) → (order_le a b ≡ true) ⊎ (order_le b a ≡ true)
order_le_total none none = inl refl
order_le_total none (some b) = inr refl
order_le_total (some a) none = inl refl
order_le_total (some a) (some b) = int_le_total a b

order_le_trans :
    (a b c : Option ℤ) → order_le a b ≡ true → order_le b c ≡ true → order_le a c ≡ true
order_le_trans a b none p q = refl
order_le_trans none none (some c) p q = q
order_le_trans none (some b) (some c) p q = p
order_le_trans (some a) none (some c) p q = absurd (ground arith)
order_le_trans (some a) (some b) (some c) p q = int_le_trans a b c p q

-- The order of the field, none where the set does not have it
abbrev pub field_order : EffectiveFieldSet → Text → Option ℤ
field_order efs f = elim (Dict.get efs f) [ none ↦ none | some ef ↦ some ef.resolved_order ]

-- One entry may stand before another: the order of its field is at most that of the other's, and a field
-- without one comes last.
abbrev pub is_before : EffectiveFieldSet → FixableEntry → FixableEntry → Bool
is_before efs a b = order_le (field_order efs a.field) (field_order efs b.field)

-- A type whose missing value a caller can choose
abbrev pub has_choice : FieldType → Option (List Text) → Bool
has_choice FieldType.enum none = false
has_choice FieldType.enum (some vs) = true
has_choice FieldType.boolean vs = true
has_choice FieldType.reference vs = true
has_choice _ vs = false

abbrev pub has_default : Option Value → Bool
has_default none = false
has_default (some v) = true

-- The issue names a value that does not match its enum, or a required field that is missing and has a
-- default or a type with a choice.
abbrev pub is_fixable : ValidationIssueCode → Option Details → Bool
is_fixable ValidationIssueCode.enum_mismatch (some (Details.enum_values d)) = true
is_fixable ValidationIssueCode.required_missing (some (Details.required d)) =
    has_default d.default_value || has_choice d.field_type d.allowed_values
is_fixable _ _ = false

abbrev text_or_null : Option Text → Value
text_or_null none = null
text_or_null (some s) = str s

abbrev value_or_null : Option Value → Value
value_or_null none = null
value_or_null (some v) = v

-- The closest match of an enum, the default of a required field, and null where there is none
abbrev pub suggested : Option Details → Value
suggested (some (Details.enum_values d)) = text_or_null d.closest_match
suggested (some (Details.required d)) = value_or_null d.default_value
suggested _ = null

-- The values that stand beside a suggestion: those of an enum that has no closest match or an empty one,
-- and of a required enum without a default
abbrev values_without : Option Text → List Text → Option (List Text)
values_without none vs = some vs
values_without (some s) vs = if is_empty s then some vs else none

abbrev values_of : Option Value → FieldType → Option (List Text) → Option (List Text)
values_of none FieldType.enum vs = vs
values_of _ t vs = none

abbrev pub offered : Option Details → Option (List Text)
offered (some (Details.enum_values d)) = values_without d.closest_match d.allowed_values
offered (some (Details.required d)) = values_of d.default_value d.field_type d.allowed_values
offered _ = none

-- The type to choose a value of: of a required boolean or reference without a default
abbrev type_of : Option Value → FieldType → Option FieldType
type_of none FieldType.boolean = some FieldType.boolean
type_of none FieldType.reference = some FieldType.reference
type_of _ t = none

abbrev pub needed_type : Option Details → Option FieldType
needed_type (some (Details.required d)) = type_of d.default_value d.field_type
needed_type _ = none

-- The entry for a field with the details of an issue
abbrev pub IsFix : Text → Option Details → FixableEntry → Type 0
IsFix f d e =
    (e.field ≡ f)
    × (e.suggestion ≡ suggested d)
    × (e.allowed_values ≡ offered d)
    × (e.field_type ≡ needed_type d)

-- The head of the list is for the issue, where that is fixable.
abbrev FixesNext :
    Bool → ValidationIssue → (List FixableEntry → Type 0) → List FixableEntry → Type 0
FixesNext false i rest es = rest es
FixesNext true i rest [] = ⊥
FixesNext true i rest (e ∷ es) = IsFix i.field i.details e × rest es

-- The list is one of entries for the fixable issues, in order.
abbrev pub Fixes : List ValidationIssue → List FixableEntry → Type 0
Fixes [] [] = Unit
Fixes [] (e ∷ es) = ⊥
Fixes (i ∷ is) es = FixesNext (is_fixable i.code i.details) i (Fixes is) es

-- An entry for the issue exactly where it is fixable
abbrev IsEntry : ValidationIssue → Option FixableEntry → Type 0
IsEntry i none = is_fixable i.code i.details ≡ false
IsEntry i (some e) = (is_fixable i.code i.details ≡ true) × IsFix i.field i.details e

enum_entry-IsFix :
    (f : Text) (d : EnumMismatchDetails) → IsFix f (some (Details.enum_values d)) (enum_entry f d)
unfolding enum_entry
enum_entry-IsFix f d = ground arith

-- The entry of a required field
abbrev IsRequiredEntry : Text → RequiredMissingDetails → Option FixableEntry → Type 0
IsRequiredEntry f d none =
    (has_default d.default_value || has_choice d.field_type d.allowed_values) ≡ false
IsRequiredEntry f d (some e) =
    ((has_default d.default_value || has_choice d.field_type d.allowed_values) ≡ true)
    × IsFix f (some (Details.required d)) e

required_entry-lem :
    (f : Text) (d : RequiredMissingDetails) → IsRequiredEntry f d (required_entry f d)
unfolding required_entry
required_entry-lem f d = ground arith

abbrev issue : Text → ValidationIssueCode → Text → Option Details → ValidationIssue
issue f c m d = record { field = f; code = c; message = m; details = d }

required-IsEntry :
    (f m : Text) (d : RequiredMissingDetails) (o : Option FixableEntry)
    → IsRequiredEntry f d o
    → IsEntry (issue f ValidationIssueCode.required_missing m (some (Details.required d))) o
required-IsEntry f m d none h = h
required-IsEntry f m d (some e) h = h

issue-IsEntry :
    (f : Text) (c : ValidationIssueCode) (m : Text) (d : Option Details)
    → IsEntry (issue f c m d) (fixable_entry (issue f c m d))
unfolding fixable_entry
issue-IsEntry f ValidationIssueCode.enum_mismatch m (some (Details.enum_values d)) =
    (refl, enum_entry-IsFix f d)
issue-IsEntry f ValidationIssueCode.required_missing m (some (Details.required d)) =
    required-IsEntry f m d (required_entry f d) (required_entry-lem f d)
issue-IsEntry f c m d = ground arith

fixable_entry-IsEntry : (i : ValidationIssue) → IsEntry i (fixable_entry i)
fixable_entry-IsEntry i = issue-IsEntry i.field i.code i.message i.details

fixable_entries-Fixes : (issues : List ValidationIssue) → Fixes issues (fixable_entries issues)
unfolding fixable_entries
fixable_entries-Fixes [] = tt
fixable_entries-Fixes (i ∷ is) = elim (Option-cases (fixable_entry i)) [
  | inl e ↦
      let unfixable : (is_fixable i.code i.details) ≡ false =
        subst (IsEntry i) e (fixable_entry-IsEntry i) in
      rw (e, Fixes, unfixable) (fixable_entries-Fixes is)
  | inr (x, e) ↦
      let (fixable, fix) : IsEntry i (some x) = subst (IsEntry i) e (fixable_entry-IsEntry i) in
      rw (e, Fixes, fixable) (fix, fixable_entries-Fixes is)
]

-- `buildFixable` gives one entry for each fixable issue (an enum mismatch, or a required field that is
-- missing and has a default, a boolean or reference type, or an enum with its values) and none for the
-- others, in the order of the fields, those last that the effective set does not have. The entry has the
-- issue's field; the closest match or the default as its suggestion, or null; the values of an enum where
-- no closest match (or an empty one) or no default is suggested; and the type of a boolean or reference
-- without a default.
pub build_fixable-IsSorted :
    (issues : List ValidationIssue) (efs : EffectiveFieldSet)
    → IsSorted (is_before efs) (build_fixable issues efs)
      × ((es : List FixableEntry) × Perm (build_fixable issues efs) es × Fixes issues es)
unfolding build_fixable order_of
build_fixable-IsSorted issues efs = (
  sort_by-IsSorted (is_before efs) (λ a b. order_le_total _ _)
      (λ a b c.
        order_le_trans (field_order efs a.field) (field_order efs b.field)
          (field_order efs c.field))
      (fixable_entries issues),
  (
    fixable_entries issues,
    sort_by-perm (is_before efs) (fixable_entries issues),
    fixable_entries-Fixes issues,
  ),
)
