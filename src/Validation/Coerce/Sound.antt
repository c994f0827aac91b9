-- ===== src/Validation/Coerce/Sound.antt =====
-- Laws of the scalar coercions (src/validation/coerce.ts): the types of their results.
use vault_engine.Base.{
  Text, Bool, true, false, Option, none, some, List, [], ◌∷◌, ◌≡◌, refl, arith, All, ◌==◌, eq_refl,
  inl, inr, Bool-cases, Option-cases, trim,
}
use vault_engine.Base.Dict.{contains}
use vault_engine.Value.{Value, null, str, num, bool, arr, elems, is_finite, Runtime, to_string}
use vault_engine.Validation.Types.{FieldType}
use vault_engine.Validation.Coerce.Result.{
  CoercionCode, CoercionResult, success, failure, CoercionOptions,
}
use vault_engine.Validation.Coerce.Dates.{
  Chrono, DateParts, string_to_date, fuzzy_parse_date, check_date, date_parts,
}
use vault_engine.Validation.Coerce.Enums.{to_enum, find_enum, altered}
use vault_engine.Validation.Coerce.{
  string_to_number, string_to_boolean, string_to_reference, cannot_coerce, coerce_scalar,
}

abbrev pub is_some {ℓ} : {A : Type ℓ} → Option A → Bool
is_some none = false
is_some (some a) = true

-- A text that is one of the enum values, where there are any.
abbrev pub IsListed : Option (List Text) → Text → Type 0
IsListed none s = ⊥
IsListed (some values) s = contains values s ≡ true

-- The value has the type, which is not a list.
abbrev pub FitsScalar : Option (List Text) → FieldType → Value → Type 0
FitsScalar values FieldType.string (str s) = Unit
FitsScalar values FieldType.number (num n) = is_finite n ≡ true
FitsScalar values FieldType.date (str s) = Unit
FitsScalar values FieldType.boolean (bool b) = Unit
FitsScalar values FieldType.reference (str s) = Unit
FitsScalar values FieldType.enum (str s) = IsListed values s
FitsScalar values _ _ = ⊥

abbrev pub NullOr : (Value → Type 0) → Value → Type 0
NullOr P null = Unit
NullOr P v = P v

-- The items of a list have the item type, or are null.
abbrev pub FitsItems : Option (List Text) → Option FieldType → List Value → Type 0
FitsItems values none vs = Unit
FitsItems values (some t) vs = All (NullOr (FitsScalar values t)) vs

abbrev pub Fits : CoercionOptions → FieldType → Value → Type 0
Fits o FieldType.list (arr vs) = FitsItems o.enum_values o.list_item_type (elems vs)
Fits o t v = FitsScalar o.enum_values t v

-- What a result promises, where it is a success.
abbrev pub Ensures : (Value → Bool → Option CoercionCode → Type 0) → CoercionResult → Type 0
Ensures P (success w changed code) = P w changed code
Ensures P (failure f) = Unit

abbrev pub Scalar : Option (List Text) → FieldType → Value → Bool → Option CoercionCode → Type 0
Scalar values t w changed code = FitsScalar values t w × (changed ≡ is_some code)

string_to_number-Scalar :
    (vs : Option (List Text)) (rt : Runtime) (s : Text)
    → Ensures (Scalar vs FieldType.number) (string_to_number rt s)
unfolding string_to_number
string_to_number-Scalar vs rt s = ground arith

string_to_boolean-Scalar :
    (vs : Option (List Text)) (rt : Runtime) (s : Text)
    → Ensures (Scalar vs FieldType.boolean) (string_to_boolean rt s)
unfolding string_to_boolean
string_to_boolean-Scalar vs rt s = ground arith

string_to_reference-Scalar :
    (vs : Option (List Text)) (s : Text)
    → Ensures (Scalar vs FieldType.reference) (string_to_reference s)
unfolding string_to_reference
string_to_reference-Scalar vs s = ground arith

fuzzy_parse_date-Scalar :
    (vs : Option (List Text)) (chrono : Chrono) (s t : Text)
    → Ensures (Scalar vs FieldType.date) (fuzzy_parse_date chrono s t)
unfolding fuzzy_parse_date
fuzzy_parse_date-Scalar vs chrono s t = ground arith

check_date-Scalar :
    (vs : Option (List Text)) (s t : Text) (p : DateParts)
    → Ensures (Scalar vs FieldType.date) (check_date s t p)
unfolding check_date
check_date-Scalar vs s t p = ground arith

string_to_date-Scalar :
    (vs : Option (List Text)) (chrono : Chrono) (s : Text)
    → Ensures (Scalar vs FieldType.date) (string_to_date chrono s)
unfolding string_to_date
string_to_date-Scalar vs chrono s = elim (Option-cases (date_parts (trim s))) [
  | inl e ↦ ground (arith, fuzzy_parse_date-Scalar vs chrono (trim s) s)
  | inr (p, e) ↦
      ground
        (arith, check_date-Scalar vs (trim s) s p, fuzzy_parse_date-Scalar vs chrono (trim s) s)
]

abbrev Found : List Text → Option CoercionResult → Type 0
Found values none = Unit
Found values (some r) = Ensures (Scalar (some values) FieldType.enum) r

contains-cons :
    (ev s : Text) (evs : List Text) → contains evs s ≡ true → contains (ev ∷ evs) s ≡ true
unfolding contains
contains-cons ev s evs h = ground arith

Found-cons :
    (ev : Text) (evs : List Text) (r : Option CoercionResult) → Found evs r → Found (ev ∷ evs) r
Found-cons ev evs none h = tt
Found-cons ev evs (some (failure f)) h = tt
Found-cons ev evs (some (success (str s) c k)) h = (contains-cons ev s evs h.0, h.1)
Found-cons ev evs (some (success _ c k)) h = h

contains-head : (ev : Text) (evs : List Text) → contains (ev ∷ evs) ev ≡ true
unfolding contains
contains-head ev evs = rw eq_refl

find_enum-Found :
    (rt : Runtime) (altered : Bool) (trimmed : Text) (values : List Text)
    → Found values (find_enum rt altered trimmed values)
unfolding find_enum
find_enum-Found rt altered trimmed [] = tt
find_enum-Found rt altered trimmed (ev ∷ evs) = elim (Bool-cases (ev == trimmed)) [
  | inl e ↦ rw e (contains-head ev evs, ground arith)
  | inr e ↦ elim (Bool-cases (rt.to_lower_case ev == rt.to_lower_case trimmed)) [
    | inl l ↦ rw (e, l) (contains-head ev evs, refl)
    | inr l ↦
        rw (e, l)
          (Found-cons ev evs (find_enum rt altered trimmed evs)
            (find_enum-Found rt altered trimmed evs))
  ]
]

to_enum-Scalar :
    (rt : Runtime) (v : Value) (values : List Text)
    → Ensures (Scalar (some values) FieldType.enum) (to_enum rt v values)
unfolding to_enum
to_enum-Scalar rt v values =
    ground (arith, find_enum-Found rt (altered rt v) (trim (to_string rt v)) values)

pub coerce_scalar-Scalar :
    (rt : Runtime) (chrono : Chrono) (v : Value) (t : FieldType) (o : CoercionOptions)
    → Ensures (Scalar o.enum_values t) (coerce_scalar rt chrono v t o)
unfolding coerce_scalar cannot_coerce
coerce_scalar-Scalar rt chrono v FieldType.enum o = elim (Option-cases o.enum_values) [
  | inl e ↦ rw e tt
  | inr (vs, e) ↦ rw e (to_enum-Scalar rt v vs)
]
coerce_scalar-Scalar rt chrono (str s) FieldType.number o =
    string_to_number-Scalar o.enum_values rt s
coerce_scalar-Scalar rt chrono (str s) FieldType.boolean o =
    string_to_boolean-Scalar o.enum_values rt s
coerce_scalar-Scalar rt chrono (str s) FieldType.reference o =
    string_to_reference-Scalar o.enum_values s
coerce_scalar-Scalar rt chrono (str s) FieldType.date o =
    string_to_date-Scalar o.enum_values chrono s
coerce_scalar-Scalar rt chrono (num n) FieldType.number o = ground arith
coerce_scalar-Scalar rt chrono v t o = ground arith
