-- ===== src/Validation/Coerce/Choosing.antt =====
-- Which value `toEnum` (src/validation/coerce.ts) chooses, and what it reports.
use vault_engine.Base.{
  Text, trim, Bool, true, false, Option, none, some, List, [], ◌∷◌, ◌≡◌, refl, arith, inl, inr,
  Bool-cases, ◌==◌, eq_iff, ap, ◌&&◌, if◌then◌else◌, Option-cases,
}
use mathlib.Core.Option
use vault_engine.Value.{Value, str, Runtime, to_string}
use vault_engine.Validation.Coerce.Result.{CoercionCode, CoercionResult, success}
use vault_engine.Validation.Coerce.Enums.{find_enum, to_enum, altered}
use vault_engine.Validation.Coerce.Matching.{is_success, matches_text}

-- The first value that equals the text up to case.
abbrev pub first_match : Runtime → Text → List Text → Option Text
first_match rt trimmed [] = none
first_match rt trimmed (ev ∷ evs) =
    if matches_text rt trimmed ev then some ev else first_match rt trimmed evs

-- The input is the text itself, with no white space around it.
abbrev pub is_text : Value → Text → Bool
is_text (str s) ev = s == ev && s == trim s
is_text _ ev = false

-- The result on the value chosen: changed unless the input was that text.
abbrev pub chosen : Value → Text → CoercionResult
chosen v ev =
    if is_text v ev
    then success (str ev) false none
    else success (str ev) true (some CoercionCode.string_to_enum)

-- A failure, or the success on the value chosen
abbrev pub IsChosen : Value → Option Text → CoercionResult → Type 0
IsChosen v none r = is_success r ≡ false
IsChosen v (some ev) r = r ≡ chosen v ev

chosen_exact :
    (rt : Runtime) (v : Value) (ev : Text)
    → ev ≡ trim (to_string rt v)
    → success
        (str ev)
        (altered rt v)
        (if altered rt v then some CoercionCode.string_to_enum else none)
      ≡ chosen v ev
unfolding to_string
chosen_exact rt (str s) ev h = ground (arith, eq_iff s ev, eq_iff s (trim s))
chosen_exact rt v ev h = refl

chosen_folded :
    (rt : Runtime) (v : Value) (ev : Text)
    → ev == trim (to_string rt v) ≡ false
    → success (str ev) true (some CoercionCode.string_to_enum) ≡ chosen v ev
unfolding to_string
chosen_folded rt (str s) ev h = ground (arith, eq_iff s ev, eq_iff s (trim s), eq_iff ev (trim s))
chosen_folded rt v ev h = refl

find_enum-first_match :
    (rt : Runtime) (v : Value) (values : List Text)
    → find_enum rt (altered rt v) (trim (to_string rt v)) values
      ≡ Option.map (chosen v) (first_match rt (trim (to_string rt v)) values)
unfolding find_enum
find_enum-first_match rt v [] = refl
find_enum-first_match rt v (ev ∷ evs) = elim (Bool-cases (ev == trim (to_string rt v))) [
  | inl e ↦
      let same : (matches_text rt (trim (to_string rt v)) ev) ≡ true =
        (eq_iff _ _).1 (ap rt.to_lower_case ((eq_iff ev (trim (to_string rt v))).0 e)) in
      rw (e, same) (ap some (chosen_exact rt v ev ((eq_iff ev (trim (to_string rt v))).0 e)))
  | inr e ↦ elim (Bool-cases (matches_text rt (trim (to_string rt v)) ev)) [
    | inl m ↦ rw (e, m) (ap some (chosen_folded rt v ev e))
    | inr m ↦ rw (e, m) (find_enum-first_match rt v evs)
  ]
]

-- `toEnum` chooses the first value that equals the trimmed text of the input up to case, also before a
-- later one that equals it exactly, and fails where there is none. The result is reported as unchanged
-- exactly when the input is a text without white space around it that equals the value.
pub to_enum-first_match :
    (rt : Runtime) (v : Value) (values : List Text)
    → IsChosen v (first_match rt (trim (to_string rt v)) values) (to_enum rt v values)
unfolding to_enum
to_enum-first_match rt v values =
    elim (Option-cases (first_match rt (trim (to_string rt v)) values)) [
      | inl e ↦ rw (e, to_enum, find_enum-first_match rt v values, e) refl
      | inr (ev, e) ↦ rw (e, to_enum, find_enum-first_match rt v values, e) refl
    ]
