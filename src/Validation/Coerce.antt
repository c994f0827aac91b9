-- ===== src/Validation/Coerce.antt =====
-- src/validation/coerce.ts: `coerceValue`, `coerceList` and the conversions of scalars. The mutual
-- recursion of the two functions takes fuel; `none` stands for a call that does not return.
pub mod Result
pub mod Choosing
pub mod Dates
pub mod Distance
pub mod Enums
pub mod Sound
pub mod Lists
pub mod Total
pub mod Items
pub mod Matching
pub mod Ranking
use vault_engine.Base.{
  ℕ, zero, suc, ◌+◌, Text, codes, trim, starts_with, ends_with, includes, Bool, true, false, ◌&&◌,
  ◌||◌, not, Option, none, some, List, [], ◌∷◌, ◌++◌, eqb, if◌then◌else◌, length, take, drop, ◌-◌,
  ◌==◌, is_empty,
}
use vault_engine.Value
use vault_engine.Value.{
  Value, undefined, null, str, num, bool, arr, obj, elems, of_elems, is_finite, is_nan, Runtime,
  bool_to_string,
}
use vault_engine.Validation.Types.{FieldType}
use Result.{
  CoercionCode, CoercionResult, success, failure, CoercionFailure, CoercionOptions, ElementError,
  ToType, detect_type, field_type_name,
}
use Dates.{Chrono, string_to_date, decimal}
use Enums.{to_enum}

-- `failure(reason, from_type, to_type)` without extras
abbrev pub plain_failure : Text → Text → ToType → CoercionResult
plain_failure reason from_type to_type = failure (record {
  reason = reason;
  from_type = from_type;
  to_type = to_type;
  closest_matches = none;
  element_errors = none;
})

abbrev cannot_convert : Text → Text → FieldType → CoercionResult
cannot_convert value end t =
    plain_failure (codes "Cannot convert \"" ++ value ++ end) (codes "string") (ToType.to t)

unfoldable pub string_to_number : Runtime → Text → CoercionResult
string_to_number rt value =
    let trimmed = trim value in
    let refused = cannot_convert value (codes "\" to number") FieldType.number in
    if trimmed == []
      || trimmed == codes "Infinity"
      || trimmed == codes "-Infinity"
      || trimmed == codes "NaN"
    then refused
    else let n = rt.number_of trimmed in
      if is_nan n || not (is_finite n)
      then refused
      else success (num n) true (some CoercionCode.string_to_number)

unfoldable pub string_to_boolean : Runtime → Text → CoercionResult
string_to_boolean rt value =
    let lower = rt.to_lower_case (trim value) in
    if lower == codes "true" || lower == codes "yes"
    then success (bool true) true (some CoercionCode.string_to_boolean)
    else if lower == codes "false" || lower == codes "no"
    then success (bool false) true (some CoercionCode.string_to_boolean)
    else cannot_convert value (codes "\" to boolean. Accepted: true/false/yes/no") FieldType.boolean

-- `s.split('|')[0]`, which is all of `s` where it has no bar
unfoldable pub before_bar : Text → Text
before_bar [] = []
before_bar (c ∷ s) = if eqb c b'|' then [] else c ∷ before_bar s

-- `inner` is the text between the brackets; what follows a bar is an alias.
abbrev bracketed : Text → CoercionResult
bracketed inner =
    success (str (if includes inner (b'|' ∷ []) then before_bar inner else inner)) true
      (some CoercionCode.string_to_reference)

unfoldable pub string_to_reference : Text → CoercionResult
string_to_reference value =
    let trimmed = trim value in
    if starts_with trimmed (codes "[[") && ends_with trimmed (codes "]]")
    then bracketed (take (length trimmed - 4) (drop 2 trimmed))
    else success (str trimmed) false none

-- The last lines of `coerceValue`: no conversion fits.
unfoldable pub cannot_coerce : Value → FieldType → CoercionResult
cannot_coerce value t =
    plain_failure (codes "Cannot coerce " ++ detect_type value ++ codes " to " ++ field_type_name t)
      (detect_type value) (ToType.to t)

-- `coerceValue` at a value that is neither null nor undefined and a type that is not a list.
unfoldable pub coerce_scalar :
    Runtime → Chrono → Value → FieldType → CoercionOptions → CoercionResult
coerce_scalar rt chrono value FieldType.enum o = elim o.enum_values [
  | none ↦
      plain_failure (codes "No enum_values provided") (detect_type value) (ToType.to FieldType.enum)
  | some values ↦ to_enum rt value values
]
coerce_scalar rt chrono (str s) FieldType.string o = success (str s) false none
coerce_scalar rt chrono (num n) FieldType.number o =
    if is_finite n
    then success (num n) false none
    else plain_failure (codes "Non-finite number: " ++ rt.number_to_string n) (codes "number")
        (ToType.to FieldType.number)
coerce_scalar rt chrono (bool b) FieldType.boolean o = success (bool b) false none
coerce_scalar rt chrono (str s) FieldType.reference o = string_to_reference s
coerce_scalar rt chrono (str s) FieldType.number o = string_to_number rt s
coerce_scalar rt chrono (str s) FieldType.date o = string_to_date chrono s
coerce_scalar rt chrono (str s) FieldType.boolean o = string_to_boolean rt s
coerce_scalar rt chrono (num n) FieldType.string o =
    success (str (rt.number_to_string n)) true (some CoercionCode.number_to_string)
coerce_scalar rt chrono (Value.date t) FieldType.string o =
    success (str (rt.to_iso_string t)) true (some CoercionCode.date_to_string)
coerce_scalar rt chrono (bool b) FieldType.string o =
    success (str (bool_to_string b)) true (some CoercionCode.boolean_to_string)
coerce_scalar rt chrono value t o = cannot_coerce value t

-- What the loop of `coerceList` has gathered.
pub record Gathered : Type 0 where
  pub coerced : List Value
  pub errors : List ElementError
  pub any_changed : Bool

abbrev pub gathered : Gathered
gathered = record { coerced = []; errors = []; any_changed = false }

-- One round of the loop, behind the call of `coerceValue`.
unfoldable pub gather : ℕ → Value → CoercionResult → Gathered → Gathered
gather i v (success w changed code) g = record g {
  coerced = g.coerced ++ w ∷ [];
  any_changed = if changed then true else g.any_changed;
}
gather i v (failure f) g = record g {
  errors = g.errors ++ record { index = i; value = v; reason = f.reason } ∷ [];
}

unfoldable pub gather_all :
    (Value → Option CoercionResult) → ℕ → List Value → Gathered → Option Gathered
gather_all rec i [] g = some g
gather_all rec i (v ∷ vs) g = elim (rec v) [
  | none ↦ none
  | some r ↦ gather_all rec (suc i) vs (gather i v r g)
]

-- The end of `coerceList`.
unfoldable pub list_result : FieldType → Gathered → CoercionResult
list_result t g =
    if is_empty g.errors
    then success (arr (of_elems g.coerced)) g.any_changed
        (if g.any_changed then some CoercionCode.list_element_coercion else none)
    else failure (record {
      reason = decimal (length g.errors) ++ codes " list element(s) failed coercion";
      from_type = codes "list";
      to_type = ToType.list_of t;
      closest_matches = none;
      element_errors = some g.errors;
    })

-- A single value is wrapped if it can be coerced to the item type.
unfoldable pub wrapped : Value → CoercionResult → CoercionResult
wrapped value (success w changed code) =
    success (arr (of_elems (w ∷ []))) true (some CoercionCode.single_to_list)
wrapped value (failure f) =
    plain_failure (codes "Cannot wrap value into list: " ++ f.reason) (detect_type value)
      (ToType.to FieldType.list)

-- `none` passes on a recursive call that does not return.
abbrev pub gathered_result : FieldType → Option Gathered → Option CoercionResult
gathered_result t none = none
gathered_result t (some g) = some (list_result t g)

abbrev pub wrapped_result : Value → Option CoercionResult → Option CoercionResult
wrapped_result value none = none
wrapped_result value (some r) = some (wrapped value r)

unfoldable pub coerce_list :
    (Value → FieldType → Option CoercionResult) → Value → Option FieldType → Option CoercionResult
coerce_list rec (arr vs) none = some (success (arr vs) false none)
coerce_list rec (arr vs) (some t) =
    gathered_result t (gather_all (λ v. rec v t) 0 (elems vs) gathered)
coerce_list rec value none = some (
    plain_failure (codes "Cannot convert " ++ detect_type value ++ codes " to list")
      (detect_type value) (ToType.to FieldType.list))
coerce_list rec value (some t) = wrapped_result value (rec value t)

-- One call of `coerceValue`; `rec` is the call that `coerceList` makes.
unfoldable pub coerce_step :
    (Value → FieldType → Option CoercionResult)
    → Runtime
    → Chrono
    → Value
    → FieldType
    → CoercionOptions
    → Option CoercionResult
coerce_step rec rt chrono undefined t o = some (success null false none)
coerce_step rec rt chrono null t o = some (success null false none)
coerce_step rec rt chrono value FieldType.list o = coerce_list rec value o.list_item_type
coerce_step rec rt chrono value t o = some (coerce_scalar rt chrono value t o)

unfoldable pub coerce_value :
    ℕ → Runtime → Chrono → Value → FieldType → CoercionOptions → Option CoercionResult
coerce_value zero rt chrono value t o = none
coerce_value (suc fuel) rt chrono value t o =
    coerce_step (λ v s. coerce_value fuel rt chrono v s o) rt chrono value t o
