-- ===== src/Validation/Coerce/Dates.antt =====
-- src/validation/coerce.ts: `stringToDate` and `fuzzyParseDate`, with the two regular expressions as
-- recognisers (each optional group begins with a character of its own, so greedy matching decides).
pub mod Calendar
pub mod Decimal
pub mod Canonical
use vault_engine.Base.{
  ℕ, zero, suc, ◌+◌, ◌-◌, ◌*◌, ◌/◌, ◌%◌, Text, codes, trim, Bool, true, false, ◌&&◌, ◌||◌, not,
  Option, none, some, [], ◌∷◌, ◌++◌, eqb, leb, ltb, is_empty, if◌then◌else◌,
}
use vault_engine.Value.{str}
use vault_engine.Validation.Types
use vault_engine.Validation.Coerce.Result.{CoercionCode, CoercionResult, success, failure, to}

unfoldable pub is_digit : ℕ → Bool
is_digit c = leb b'0' c && leb c b'9'

infixl 5 ◌>>=◌
abbrev pub ◌>>=◌ {ℓ κ} : {A : Type ℓ} {B : Type κ} → Option A → (A → Option B) → Option B
none >>= f = none
some a >>= f = f a

-- Takes one character that passes the test.
abbrev eat : (ℕ → Bool) → Text → Option Text
eat p [] = none
eat p (c ∷ s) = if p c then some s else none

two_digits : Text → Option Text
unfolding is_digit
two_digits s = do t ← eat is_digit s; eat is_digit t

abbrev optional : (Text → Option Text) → Text → Text
optional f s = elim (f s) [ none ↦ s | some t ↦ t ]

skip_digits : Text → Text
unfolding is_digit
skip_digits [] = []
skip_digits (c ∷ s) = let rest = skip_digits s in if is_digit c then rest else c ∷ s

-- `[T ]\d{2}:\d{2}`
clock : Text → Option Text
unfolding two_digits
clock s = do
  a ← eat (λ c. eqb c b'T' || eqb c b' ') s
  b ← two_digits a
  c ← eat (λ c. eqb c b':') b
  two_digits c

-- `:\d{2}`
seconds : Text → Option Text
unfolding two_digits
seconds s = do a ← eat (λ c. eqb c b':') s; two_digits a

-- `\.\d+`
fraction : Text → Option Text
unfolding is_digit skip_digits
fraction s = do a ← eat (λ c. eqb c b'.') s; b ← eat is_digit a; some (skip_digits b)

-- `Z|[+-]\d{2}:\d{2}`
zone : Text → Option Text
unfolding two_digits
zone s = elim (eat (λ c. eqb c b'Z') s) [
  | some t ↦ some t
  | none ↦ do
    a ← eat (λ c. eqb c b'+' || eqb c b'-') s
    b ← two_digits a
    c ← eat (λ c. eqb c b':') b
    two_digits c
]

-- What follows the date portion in `DATE_TIME_RE`.
unfoldable pub is_time : Text → Bool
unfolding clock seconds fraction zone
is_time s = elim (clock s) [
  | none ↦ false
  | some t ↦ is_empty (optional zone (optional fraction (optional seconds t)))
]

pub record DateParts : Type 0 where
  pub year : ℕ
  pub month : ℕ
  pub day : ℕ
  pub rest : Text

abbrev digit_value : ℕ → ℕ
digit_value c = c - b'0'

-- `^\d{4}-(\d{2})-(\d{2})` and what is left
unfoldable pub date_parts : Text → Option DateParts
unfolding is_digit
date_parts (a ∷ b ∷ c ∷ d ∷ h ∷ m ∷ n ∷ k ∷ e ∷ f ∷ rest) =
    if is_digit a
      && is_digit b
      && is_digit c
      && is_digit d
      && eqb h b'-'
      && is_digit m
      && is_digit n
      && eqb k b'-'
      && is_digit e
      && is_digit f
    then some (record {
      year = digit_value a * 1000 + digit_value b * 100 + digit_value c * 10 + digit_value d;
      month = digit_value m * 10 + digit_value n;
      day = digit_value e * 10 + digit_value f;
      rest = rest;
    })
    else none
date_parts _ = none

unfoldable pub is_leap : ℕ → Bool
is_leap y = (eqb (y % 4) 0 && not (eqb (y % 100) 0)) || eqb (y % 400) 0

unfoldable pub days_in_month : ℕ → ℕ → ℕ
unfolding is_leap
days_in_month y m =
    if eqb m 2
    then (if is_leap y then 29 else 28)
    else if eqb m 4 || eqb m 6 || eqb m 9 || eqb m 11
    then 30
    else 31

-- `new Date(datePortion + 'T00:00:00Z')` as its UTC month and day: a day that no month has is an
-- invalid date, and one past the end of its month falls into the next.
unfoldable pub utc_month_day : ℕ → ℕ → ℕ → Option (ℕ × ℕ)
unfolding days_in_month
utc_month_day y m d =
    if eqb d 0 || ltb 31 d
    then none
    else if leb d (days_in_month y m)
    then some (m, d)
    else some (m + 1, d - days_in_month y m)

digits_of : ℕ → ℕ → Text → Text
digits_of zero n acc = acc
digits_of (suc f) n acc =
    let more = digits_of f (n / 10) ((b'0' + n % 10) ∷ acc) in
    if ltb n 10 then (b'0' + n) ∷ acc else more

-- `String(n)` at a natural number
unfoldable pub decimal : ℕ → Text
unfolding digits_of
decimal n = digits_of (suc n) n []

-- `padStart(2, '0')`
unfoldable pub pad_two : Text → Text
pad_two [] = b'0' ∷ b'0' ∷ []
pad_two (c ∷ []) = b'0' ∷ c ∷ []
pad_two s = s

-- The local calendar fields of a `Date` that chrono-node found.
pub record Moment : Type 0 where
  pub year : ℕ
  pub month : ℕ
  pub day : ℕ
  pub hour : ℕ
  pub minute : ℕ

-- chrono-node: `parseDate`, without a date that is not a time, and whether the first result of
-- `parse` is certain of its hour.
pub record Chrono : Type 0 where
  pub parse_date : Text → Option Moment
  pub certain_hour : Text → Bool

-- `replace(/[|\[\]]+/g, ' ')`; the flag says that the run has its blank already.
unfoldable pub blank_noise : Bool → Text → Text
blank_noise in_run [] = []
blank_noise in_run (c ∷ s) =
    let noise = eqb c b'|' || eqb c b'[' || eqb c b']' in
    let rest = blank_noise noise s in
    if noise then (if in_run then rest else b' ' ∷ rest) else c ∷ rest

unfoldable pub format_day : Moment → Text
unfolding pad_two
format_day t =
    decimal t.year ++ (b'-' ∷ (pad_two (decimal t.month) ++ (b'-' ∷ pad_two (decimal t.day))))

unfoldable pub format_time : Moment → Text
unfolding pad_two
format_time t = b'T' ∷ (pad_two (decimal t.hour) ++ (b':' ∷ pad_two (decimal t.minute)))

abbrev date_failure : Text → CoercionResult
date_failure reason = failure (record {
  reason = reason;
  from_type = codes "string";
  to_type = to Types.date;
  closest_matches = none;
  element_errors = none;
})

abbrev quoted : Text → Text
quoted s = b'"' ∷ (s ++ b'"' ∷ [])

unfoldable pub fuzzy_parse_date : Chrono → Text → Text → CoercionResult
fuzzy_parse_date chrono trimmed original =
    let cleaned = trim (blank_noise false trimmed) in
    elim (chrono.parse_date cleaned) [
      | none ↦ date_failure (codes "Unrecognizable date: " ++ quoted original)
      | some t ↦
          if chrono.certain_hour cleaned
          then success (str (format_day t ++ format_time t)) true
              (some CoercionCode.string_to_date_fuzzy)
          else success (str (format_day t)) true (some CoercionCode.string_to_date_fuzzy)
    ]

-- The part of `stringToDate` behind the regular expressions.
unfoldable pub check_date : Text → Text → DateParts → CoercionResult
check_date trimmed value p =
    if ltb p.month 1 || ltb 12 p.month
    then date_failure
        (codes "Impossible date (month " ++ decimal p.month ++ codes "): " ++ quoted value)
    else elim (utc_month_day p.year p.month p.day) [
      | none ↦ date_failure (codes "Invalid date: " ++ quoted value)
      | some (month, day) ↦
          if not (eqb day p.day) || not (eqb month p.month)
          then date_failure
              (codes "Impossible date (day " ++ decimal p.day ++ codes "): " ++ quoted value)
          else success (str trimmed) true (some CoercionCode.string_to_date)
    ]

unfoldable pub string_to_date : Chrono → Text → CoercionResult
string_to_date chrono value =
    let trimmed = trim value in
    elim (date_parts trimmed) [
      | none ↦ fuzzy_parse_date chrono trimmed value
      | some p ↦
          if is_empty p.rest || is_time p.rest
          then check_date trimmed value p
          else fuzzy_parse_date chrono trimmed value
    ]
