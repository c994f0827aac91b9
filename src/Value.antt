-- ===== src/Value.antt =====
-- The values that YAML and JSON documents give the program (parser/types.ts, `unknown` elsewhere),
-- and the parts of the JavaScript runtime that rest on tables or on floating point.
use vault_engine.Base.{
  ℕ, ◌/◌, ◌%◌, ◌^◌, Text, codes, Bool, true, false, not, List, [], ◌∷◌, ◌++◌, eqb, leb, ◌&&◌, ◌==◌,
  if◌then◌else◌, ◌≡◌, refl, ap,
}
use vault_engine.Base.Dict.{Dict}

-- A number is the 64 bits of its double, a date the milliseconds of a `Date` since 1970.
mutual
  pub data Value : Type 0 where
    undefined : Value
    null : Value
    str : Text → Value
    num : ℕ → Value
    bool : Bool → Value
    date : ℕ → Value
    arr : Values → Value
    obj : Members → Value

  pub data Values : Type 0 where
    nil : Values
    cons : Value → Values → Values

  pub data Members : Type 0 where
    end : Members
    member : Text → Value → Members → Members

unfoldable pub elems : Values → List Value
elems nil = []
elems (cons v vs) = v ∷ elems vs

unfoldable pub of_elems : List Value → Values
of_elems [] = nil
of_elems (v ∷ vs) = cons v (of_elems vs)

pub elems-of_elems : (vs : List Value) → elems (of_elems vs) ≡ vs
unfolding elems of_elems
elems-of_elems [] = refl
elems-of_elems (v ∷ vs) = ap (λ r. v ∷ r) (elems-of_elems vs)

unfoldable pub members : Members → Dict Value
members end = []
members (member k v ms) = (k, v) ∷ members ms

-- `Number.isFinite`: the exponent is not all ones
unfoldable pub is_finite : ℕ → Bool
is_finite bits = not (eqb (bits / 2 ^ 52 % 2048) 2047)

-- `Number.isNaN`: the exponent is all ones and the mantissa is not zero
unfoldable pub is_nan : ℕ → Bool
is_nan bits = if eqb (bits / 2 ^ 52 % 2048) 2047 then not (eqb (bits % 2 ^ 52) 0) else false

-- Unicode tables, the conversions of doubles and dates, and JSON, of the JavaScript engine.
-- `to_iso_string` stands for `toISOString` on valid dates; on others that throws a RangeError.
pub record Runtime : Type 0 where
  pub to_lower_case : Text → Text
  pub normalize_nfc : Text → Text
  pub number_of : Text → ℕ
  pub number_to_string : ℕ → Text
  pub date_to_string : ℕ → Text
  pub to_iso_string : ℕ → Text
  pub stringify : Value → Text

abbrev pub is_null : Value → Bool
is_null undefined = true
is_null null = true
is_null _ = false

unfoldable pub bool_to_string : Bool → Text
bool_to_string true = codes "true"
bool_to_string false = codes "false"

-- an item of an array in `join`: a null one is empty
abbrev join_item : Value → Text → Text
join_item v s = if is_null v then [] else s

-- `String(value)`, where it does not throw: an array joins its items by commas, and an object without a
-- member `toString` prints as a constant. (With such a member, JavaScript throws a TypeError.)
unfoldable mutual
  pub to_string : Runtime → Value → Text
  to_string rt undefined = codes "undefined"
  to_string rt null = codes "null"
  to_string rt (str s) = s
  to_string rt (num n) = rt.number_to_string n
  to_string rt (bool b) = bool_to_string b
  to_string rt (date t) = rt.date_to_string t
  to_string rt (arr vs) = join_items rt vs
  to_string rt (obj ms) = codes "[object Object]"

  pub join_items : Runtime → Values → Text
  join_items rt nil = []
  join_items rt (cons v vs) = join_item v (to_string rt v) ++ more_items rt vs

  pub more_items : Runtime → Values → Text
  more_items rt nil = []
  more_items rt (cons v vs) = b',' ∷ (join_item v (to_string rt v) ++ more_items rt vs)

-- A `Date` is valid up to 8.64 * 10 ^ 15 milliseconds from the epoch.
unfoldable pub is_valid_time : ℕ → Bool
is_valid_time t = leb t 8640000000000000

-- `String` and `toISOString` do not throw on the value and its parts: no object has a member
-- `toString`, and every date is valid.
unfoldable mutual
  pub is_plain : Value → Bool
  is_plain (date t) = is_valid_time t
  is_plain (arr vs) = all_plain vs
  is_plain (obj ms) = members_plain ms
  is_plain _ = true

  pub all_plain : Values → Bool
  all_plain nil = true
  all_plain (cons v vs) = is_plain v && all_plain vs

  pub members_plain : Members → Bool
  members_plain end = true
  members_plain (member k v ms) = not (k == codes "toString") && is_plain v && members_plain ms
