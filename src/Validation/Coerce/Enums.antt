-- ===== src/Validation/Coerce/Enums.antt =====
-- src/validation/coerce.ts: `closestMatches` and `toEnum`.
use vault_engine.Base.{
  ℕ, ◌+◌, ◌*◌, ◌/◌, max, Text, codes, trim, Bool, true, false, ◌&&◌, ◌||◌, not, Option, none, some,
  List, [], ◌∷◌, ◌++◌, map, leb, is_empty, if◌then◌else◌, length, filter, take, ◌==◌,
}
use vault_engine.Base.Sort.{sort_by}
use vault_engine.Value.{Value, str, Runtime, to_string}
use vault_engine.Validation.Types.{enum}
use vault_engine.Validation.Coerce.Distance.{levenshtein}
use vault_engine.Validation.Coerce.Result.{
  CoercionCode, CoercionResult, success, failure, to, detect_type,
}

-- A candidate with its distance.
abbrev pub Scored : Type 0
Scored = Text × ℕ

abbrev pub by_distance : Scored → Scored → Bool
by_distance (c, d) (c', d') = leb d d'

-- `Math.ceil(0.4 * n)` and `Math.ceil(0.5 * n)`
abbrev two_fifths : ℕ → ℕ
two_fifths n = (2 * n + 4) / 5

abbrev pub half_of : ℕ → ℕ
half_of n = (n + 1) / 2

abbrev pub is_close : ℕ → Scored → Bool
is_close most (c, d) = leb d most && leb d (half_of (length c))

unfoldable pub max_input_dist : Text → ℕ
max_input_dist lower = max 2 (two_fifths (length lower))

-- The candidates that pass the filter, nearest first.
unfoldable pub ranked : Runtime → Text → List Text → List Scored
ranked rt value candidates =
    let lower = rt.to_lower_case value in
    sort_by by_distance (
      filter (is_close (max_input_dist lower))
        (map (λ c. (c, levenshtein lower (rt.to_lower_case c))) candidates))

unfoldable pub closest_matches : Runtime → Text → List Text → ℕ → List Text
closest_matches rt value candidates most =
    map (λ (x : Scored). x.0) (take most (ranked rt value candidates))

abbrev is_str : Value → Bool
is_str (str s) = true
is_str _ = false

-- The loop of `toEnum`: the first value that equals the trimmed text, or equals it when both are
-- lowercased. `altered` says that trimming or printing changed the input.
unfoldable pub find_enum : Runtime → Bool → Text → List Text → Option CoercionResult
find_enum rt altered trimmed [] = none
find_enum rt altered trimmed (ev ∷ evs) =
    if ev == trimmed
    then some
        (success (str ev) altered (if altered then some CoercionCode.string_to_enum else none))
    else if rt.to_lower_case ev == rt.to_lower_case trimmed
    then some (success (str ev) true (some CoercionCode.string_to_enum))
    else find_enum rt altered trimmed evs

-- `typeof value !== 'string' || str !== trimmed`
abbrev pub altered : Runtime → Value → Bool
altered rt value = not (is_str value) || not (to_string rt value == trim (to_string rt value))

unfoldable pub to_enum : Runtime → Value → List Text → CoercionResult
to_enum rt value enum_values =
    let trimmed = trim (to_string rt value) in
    elim (find_enum rt (altered rt value) trimmed enum_values) [
      | some found ↦ found
      | none ↦
          let matches = closest_matches rt trimmed enum_values 3 in
          failure (record {
            reason = b'"' ∷ (trimmed ++ codes "\" is not a valid enum value");
            from_type = detect_type value;
            to_type = to enum;
            closest_matches = if is_empty matches then none else some matches;
            element_errors = none;
          })
    ]
