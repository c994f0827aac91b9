-- ===== src/Examples/Coercion.antt =====
-- The theorems on src/validation/coerce.ts at concrete values.
use vault_engine.Base.{
  ◌&&◌, ◌≤◌, Text, codes, true, false, none, some, List, [], ◌∷◌, reverse, length, some_of, trim,
  trim_start, trim_end, is_space, ◌==◌, All, ◌≡◌, refl, arith, subst, ◌↔◌, ◌≢◌,
}
use vault_engine.Base.Sort.{IsSorted}
use vault_engine.Value.{
  Value, str, num, arr, cons, nil, elems, of_elems, to_string, is_nan, is_finite,
}
use vault_engine.Validation.Types.{FieldType}
use vault_engine.Validation.Coerce.{coerce_value, coerce_step, coerce_scalar, string_to_number}
use vault_engine.Validation.Coerce.Result.{CoercionCode, success}
use vault_engine.Validation.Coerce.Sound.{NullOr, Fits, is_some}
use vault_engine.Validation.Coerce.Lists.{coerce_value-Fits}
use vault_engine.Validation.Coerce.Total.{Returns, coerce_value-Returns, coerce_value-diverges}
use vault_engine.Validation.Coerce.Items.{Gives, Each, coerce_value-list_iff}
use vault_engine.Validation.Coerce.Distance.{
  levenshtein, edit_distance, levenshtein-eq-edit_distance,
}
use vault_engine.Base.Dict.{contains}
use vault_engine.Validation.Coerce.Enums.{by_distance, ranked, closest_matches, to_enum, find_enum}
use vault_engine.Validation.Coerce.Choosing.{IsChosen, first_match, to_enum-first_match}
use vault_engine.Validation.Coerce.Ranking.{texts, is_near, ranked-IsSorted}
use vault_engine.Validation.Coerce.Matching.{
  is_success, matches_text, to_enum-is_success, to_enum-stable, IsSuggestion,
  closest_matches-IsSuggestion, Rated,
}
use vault_engine.Validation.Coerce.Dates.{
  DateParts, date_parts, days_in_month, fuzzy_parse_date, format_day, decimal, format_time,
  string_to_date,
}
use vault_engine.Validation.Coerce.Dates.Calendar.{
  IsCalendarDate, accepted, string_to_date-accepted_iff,
}
use vault_engine.Validation.Coerce.Dates.Canonical.{IsMoment, FindsMoment, string_to_date-stable}
use vault_engine.Examples.{
  ascii, moment, constant_chrono, low, high, levels, plain_options, list_options, nested_options,
}

abbrev answer : Value
answer = num 0x4045000000000000

number_coerced :
    coerce_value 2 ascii constant_chrono (str high) FieldType.number plain_options
    ≡ some (success answer true (some CoercionCode.string_to_number))
unfolding coerce_value coerce_step coerce_scalar string_to_number trim is_space ◌==◌ high is_nan
    is_finite
number_coerced = refl

coerce_value-Fits_example :
    NullOr (Fits plain_options FieldType.number) answer
    × (true ≡ is_some (some CoercionCode.string_to_number))
coerce_value-Fits_example =
    coerce_value-Fits ascii constant_chrono plain_options 2 (str high) answer FieldType.number true
      (some CoercionCode.string_to_number) (λ e. cc) number_coerced

coerce_value-Returns_example :
    Returns (coerce_value 2 ascii constant_chrono (str high) FieldType.number plain_options)
coerce_value-Returns_example =
    coerce_value-Returns ascii constant_chrono plain_options 0 (str high) FieldType.number (λ e. cc)
      (unfold vault_engine.Value.is_plain in refl)

coerce_value-diverges_example :
    coerce_value 5 ascii constant_chrono (str high) FieldType.list nested_options ≡ none
coerce_value-diverges_example =
    coerce_value-diverges ascii constant_chrono nested_options 5 high refl

abbrev two_texts : Value
two_texts = arr (cons (str low) (cons (num 0) nil))

coerce_value-list_iff_example :
    Gives (coerce_value 2 ascii constant_chrono two_texts FieldType.list list_options) two_texts ↔ (
      (ws : List Value) × (two_texts ≡ arr (of_elems ws))
      × Each
          (λ v. coerce_value 1 ascii constant_chrono v FieldType.string list_options)
          (elems (cons (str low) (cons (num 0) nil)))
          ws)
coerce_value-list_iff_example =
    coerce_value-list_iff ascii constant_chrono list_options 1 (cons (str low) (cons (num 0) nil))
      two_texts FieldType.string refl

levenshtein-eq-edit_distance_example :
    levenshtein low high ≡ edit_distance (reverse low) (reverse high)
levenshtein-eq-edit_distance_example = levenshtein-eq-edit_distance low high

to_enum-is_success_example :
    is_success (to_enum ascii (str low) levels)
    ≡ some_of (matches_text ascii (trim (to_string ascii (str low)))) levels
to_enum-is_success_example = to_enum-is_success ascii (str low) levels

-- "LOW" with the values "Low" and "LOW"
abbrev upper : Text
unfolding codes
upper = codes "LOW"

upper_trimmed : trim upper ≡ upper
unfolding trim trim_start trim_end is_space upper
upper_trimmed = refl

low_differs : low ≢ trim upper
unfolding trim trim_start trim_end is_space upper low
low_differs e = ground (arith, e)

low_folds : ascii.to_lower_case low ≡ ascii.to_lower_case (trim upper)
unfolding trim trim_start trim_end is_space upper low
low_folds = refl

-- The exact value stands behind one that matches up to case.
to_enum-first_match_example :
    IsChosen
      (str upper)
      (first_match ascii (trim (to_string ascii (str upper))) (low ∷ upper ∷ []))
      (to_enum ascii (str upper) (low ∷ upper ∷ []))
to_enum-first_match_example = to_enum-first_match ascii (str upper) (low ∷ upper ∷ [])

abbrev mixed : Text
unfolding codes
mixed = codes "HIGH"

mixed_coerced :
    to_enum ascii (str mixed) levels ≡ success (str high) true (some CoercionCode.string_to_enum)
unfolding to_enum find_enum to_string trim trim_start trim_end is_space ◌==◌ low mixed high
mixed_coerced = refl

high_trimmed : trim high ≡ high
unfolding trim trim_start trim_end is_space high
high_trimmed = refl

to_enum-stable_example : to_enum ascii (str high) levels ≡ success (str high) false none
to_enum-stable_example =
    to_enum-stable ascii (str mixed) high levels true (some CoercionCode.string_to_enum)
      mixed_coerced high_trimmed

closest_matches-IsSuggestion_example :
    (length (closest_matches ascii upper levels 3) ≤ 3)
    × All (IsSuggestion ascii upper levels) (closest_matches ascii upper levels 3)
closest_matches-IsSuggestion_example = closest_matches-IsSuggestion ascii upper levels 3

ranked-IsSorted_example :
    IsSorted by_distance (ranked ascii upper levels)
    × All (Rated ascii upper levels) (ranked ascii upper levels)
    × ((c : Text)
        → contains (texts (ranked ascii upper levels)) c
          ≡ (contains levels c && is_near ascii upper c))
ranked-IsSorted_example = ranked-IsSorted ascii upper levels

abbrev leap_day : Text
unfolding codes
leap_day = codes "2024-02-29"

abbrev leap_parts : DateParts
leap_parts = record { year = 2024; month = 2; day = 29; rest = [] }

leap_day_parts : date_parts (trim leap_day) ≡ some leap_parts
unfolding date_parts trim trim_start trim_end is_space leap_day
leap_day_parts = refl

string_to_date-accepted_iff_example :
    (string_to_date constant_chrono leap_day ≡ accepted (trim leap_day)) ↔ IsCalendarDate 2024 2 29
string_to_date-accepted_iff_example =
    string_to_date-accepted_iff constant_chrono leap_day leap_parts leap_day_parts refl

moment-IsMoment : IsMoment moment
unfolding days_in_month
moment-IsMoment = record {
  year_from = omega arith;
  year_to = omega arith;
  date = record {
    month_from = omega arith;
    month_to = omega arith;
    day_from = omega arith;
    day_to = omega arith;
  };
  hour_to = omega arith;
  minute_to = omega arith;
}

constant_chrono-FindsMoment : FindsMoment constant_chrono high
constant_chrono-FindsMoment t e = let same : moment ≡ t = cc in subst IsMoment same moment-IsMoment

abbrev found_text : Text
unfolding codes
found_text = codes "2026-03-05T14:30"

found_coerced :
    string_to_date constant_chrono high
    ≡ success (str found_text) true (some CoercionCode.string_to_date_fuzzy)
unfolding string_to_date date_parts trim high fuzzy_parse_date format_day decimal format_time
    found_text
found_coerced = refl

string_to_date-stable_example : string_to_date constant_chrono found_text ≡ accepted found_text
string_to_date-stable_example =
    string_to_date-stable constant_chrono high found_text true
      (some CoercionCode.string_to_date_fuzzy) constant_chrono-FindsMoment found_coerced
