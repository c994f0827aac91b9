-- ===== src/Validation/Coerce/Dates/Canonical.antt =====
-- What the fuzzy parser writes is a date in the fixed form.
use vault_engine.Base.{
  ℕ, ◌∙◌, sym, ◌⊎◌, inl, inr, Option-cases, Bool-cases, trim_idem, ◌+◌, ◌/◌, ◌%◌, ◌≤◌, ◌<◌, Text,
  trim, trim_of_NoSpace, is_space, Bool, true, false, ◌||◌, Option, some, [], ◌∷◌, ◌++◌, ◌≡◌, refl,
  ap, arith, All, is_empty, subst, append-nil,
}
use vault_engine.Value.{str}
use vault_engine.Validation.Coerce.Result.{CoercionCode, CoercionResult, success}
use vault_engine.Validation.Coerce.Dates.{
  Chrono, Moment, DateParts, is_digit, date_parts, is_time, format_day, format_time, string_to_date,
  fuzzy_parse_date, check_date, blank_noise,
}
use vault_engine.Validation.Coerce.Dates.Calendar.{
  IsCalendarDate, accepted, string_to_date-accepted_iff, days_in_month-le, check_date-success,
}
use vault_engine.Validation.Coerce.Dates.Decimal.{pad_two-decimal, decimal-four}

-- A digit as a character.
abbrev digit : ℕ → ℕ
digit n = b'0' + n

abbrev day_text : ℕ → ℕ → ℕ → Text → Text
day_text y m d rest =
    digit (y / 1000)
    ∷ digit (y / 100 % 10)
    ∷ digit (y / 10 % 10)
    ∷ digit (y % 10)
    ∷ b'-'
    ∷ digit (m / 10)
    ∷ digit (m % 10)
    ∷ b'-'
    ∷ digit (d / 10)
    ∷ digit (d % 10)
    ∷ rest

abbrev time_text : ℕ → ℕ → Text
time_text h m = b'T' ∷ digit (h / 10) ∷ digit (h % 10) ∷ b':' ∷ digit (m / 10) ∷ digit (m % 10) ∷ []

-- A moment of the calendar in a year of four digits.
pub record IsMoment (t : Moment) : Type 0 where
  pub year_from : 1000 ≤ t.year
  pub year_to : t.year < 10000
  pub date : IsCalendarDate t.year t.month t.day
  pub hour_to : t.hour < 24
  pub minute_to : t.minute < 60

is_digit-digit : (n : ℕ) → n < 10 → is_digit (digit n) ≡ true
unfolding is_digit
is_digit-digit n h = ground arith

is_space-digit : (n : ℕ) → n < 10 → is_space (digit n) ≡ false
unfolding is_space
is_space-digit n h = ground arith

date_parts-day_text :
    (y m d : ℕ) (rest : Text)
    → y < 10000
    → m < 100
    → d < 100
    → date_parts (day_text y m d rest) ≡ some (record { year = y; month = m; day = d; rest = rest })
unfolding date_parts
date_parts-day_text y m d rest hy hm hd = ground (
  arith,
  is_digit-digit (y / 1000) (omega arith),
  is_digit-digit (y / 100 % 10) (omega arith),
  is_digit-digit (y / 10 % 10) (omega arith),
  is_digit-digit (y % 10) (omega arith),
  is_digit-digit (m / 10) (omega arith),
  is_digit-digit (m % 10) (omega arith),
  is_digit-digit (d / 10) (omega arith),
  is_digit-digit (d % 10) (omega arith),
)

is_time-time_text : (h m : ℕ) → h < 100 → m < 100 → is_time (time_text h m) ≡ true
unfolding is_time
is_time-time_text h m hh hm = ground arith

NoSpace-two :
    (n : ℕ) (rest : Text)
    → n < 100
    → All (λ c. is_space c ≡ false) rest
    → All (λ c. is_space c ≡ false) (digit (n / 10) ∷ digit (n % 10) ∷ rest)
NoSpace-two n rest h clear =
    (is_space-digit (n / 10) (omega arith), (is_space-digit (n % 10) (omega arith), clear))

NoSpace-time_text : (h m : ℕ) → h < 100 → m < 100 → All (λ c. is_space c ≡ false) (time_text h m)
unfolding is_space
NoSpace-time_text h m hh hm = (
  refl,
  NoSpace-two h (b':' ∷ digit (m / 10) ∷ digit (m % 10) ∷ []) hh (refl, NoSpace-two m [] hm tt),
)

module _ (t : Moment) (ok : IsMoment t) where
  small : (t.month < 100) × (t.day < 100)
  small = (
    omega (arith, ok.date.month_to),
    omega (arith, ok.date.day_to, days_in_month-le t.year t.month),
  )

  format_day-eq : (rest : Text) → format_day t ++ rest ≡ day_text t.year t.month t.day rest
  unfolding format_day
  format_day-eq rest = rw (
    decimal-four t.year ok.year_from ok.year_to,
    pad_two-decimal t.month small.0,
    pad_two-decimal t.day small.1,
  )

  format_time-eq : format_time t ≡ time_text t.hour t.minute
  unfolding format_time
  format_time-eq = rw (
    pad_two-decimal t.hour (omega (arith, ok.hour_to)),
    pad_two-decimal t.minute (omega (arith, ok.minute_to)),
  )

  trim-day_text :
      (rest : Text)
      → All (λ c. is_space c ≡ false) rest
      → trim (day_text t.year t.month t.day rest) ≡ day_text t.year t.month t.day rest
  unfolding is_space
  trim-day_text rest h =
      let y = ok.year_to in
      let (m, d) = small in
      trim_of_NoSpace (day_text t.year t.month t.day rest) (
        is_space-digit (t.year / 1000) (omega arith),
        (
          is_space-digit (t.year / 100 % 10) (omega arith),
          (
            is_space-digit (t.year / 10 % 10) (omega arith),
            (
              is_space-digit (t.year % 10) (omega arith),
              (
                refl,
                NoSpace-two t.month (b'-' ∷ digit (t.day / 10) ∷ digit (t.day % 10) ∷ rest) m
                    (refl, NoSpace-two t.day rest d h),
              ),
            ),
          ),
        ),
      )

  -- The formatted day, with a tail in the fixed form, is accepted.
  accepted-day_text :
      (chrono : Chrono) (rest : Text)
      → All (λ c. is_space c ≡ false) rest
      → (is_empty rest || is_time rest) ≡ true
      → string_to_date chrono (day_text t.year t.month t.day rest)
        ≡ accepted (day_text t.year t.month t.day rest)
  accepted-day_text chrono rest clear form =
      let (m, d) = small in
      let s = day_text t.year t.month t.day rest in
      let parts = date_parts-day_text t.year t.month t.day rest ok.year_to m d in
      (string_to_date-accepted_iff chrono s
          (record { year = t.year; month = t.month; day = t.day; rest = rest })
          (ap date_parts (trim-day_text rest clear) ∙ parts) form).1
        ok.date
      ∙ ap accepted (trim-day_text rest clear)

  accepted-day : (chrono : Chrono) → string_to_date chrono (format_day t) ≡ accepted (format_day t)
  accepted-day chrono =
      subst (λ s. string_to_date chrono s ≡ accepted s)
        (sym (format_day-eq []) ∙ append-nil (format_day t)) (accepted-day_text chrono [] tt refl)

  accepted-day_time :
      (chrono : Chrono)
      → string_to_date chrono (format_day t ++ format_time t)
        ≡ accepted (format_day t ++ format_time t)
  accepted-day_time chrono =
      let time = time_text t.hour t.minute in
      let (h, m) : (t.hour < 100) × (t.minute < 100) =
        (omega (arith, ok.hour_to), omega (arith, ok.minute_to)) in
      subst (λ s. string_to_date chrono s ≡ accepted s)
        (sym (ap (λ r. format_day t ++ r) format_time-eq ∙ format_day-eq time))
        (accepted-day_text chrono time (NoSpace-time_text t.hour t.minute h m)
          (is_time-time_text t.hour t.minute h m))

-- What chrono-node finds in the input, if anything, is a moment of the calendar in a year of four digits.
abbrev pub FindsMoment : Chrono → Text → Type 0
FindsMoment chrono value =
    (t : Moment) → chrono.parse_date (trim (blank_noise false (trim value))) ≡ some t → IsMoment t

fuzzy_parse_date-stable :
    (chrono : Chrono) (value original s : Text) (c : Bool) (k : Option CoercionCode)
    → FindsMoment chrono value
    → fuzzy_parse_date chrono (trim value) original ≡ success (str s) c k
    → string_to_date chrono s ≡ accepted s
unfolding fuzzy_parse_date
fuzzy_parse_date-stable chrono value original s c k finds h =
    let cleaned = trim (blank_noise false (trim value)) in
    elim (Option-cases (chrono.parse_date cleaned)) [
      | inl e ↦ absurd (ground arith)
      | inr (t, e) ↦ elim (Bool-cases (chrono.certain_hour cleaned)) [
        | inl b ↦
            let same : format_day t ++ format_time t ≡ s = ground arith in
            subst (λ u. string_to_date chrono u ≡ accepted u) same
              (accepted-day_time t (finds t e) chrono)
        | inr b ↦
            let same : format_day t ≡ s = ground arith in
            subst (λ u. string_to_date chrono u ≡ accepted u) same
              (accepted-day t (finds t e) chrono)
      ]
    ]

-- The two ways through `stringToDate`.
string_to_date-cases :
    (chrono : Chrono) (value : Text) (r : CoercionResult)
    → string_to_date chrono value ≡ r
    → ((p : DateParts) × (date_parts (trim value) ≡ some p)
        × ((is_empty p.rest || is_time p.rest) ≡ true)
        × (check_date (trim value) value p ≡ r))
      ⊎ (fuzzy_parse_date chrono (trim value) value ≡ r)
unfolding string_to_date
string_to_date-cases chrono value r h = elim (Option-cases (date_parts (trim value))) [
  | inl e ↦ inr (ground arith)
  | inr (p, e) ↦ elim (Bool-cases (is_empty p.rest || is_time p.rest)) [
    | inl b ↦ inl (p, e, b, ground arith)
    | inr b ↦ inr (ground arith)
  ]
]

-- Let chrono-node find in the given input, cleaned, nothing or a moment of the calendar in a year of four
-- digits (it can find other years, which this leaves out). Then a text that `stringToDate` returns on the
-- input, from a fixed form or from a fuzzy one, is accepted again as it stands.
pub string_to_date-stable :
    (chrono : Chrono) (value s : Text) (c : Bool) (k : Option CoercionCode)
    → FindsMoment chrono value
    → string_to_date chrono value ≡ success (str s) c k
    → string_to_date chrono s ≡ accepted s
string_to_date-stable chrono value s c k finds h = elim (string_to_date-cases chrono value _ h) [
  | inr fuzzy ↦ fuzzy_parse_date-stable chrono value value s c k finds fuzzy
  | inl (p, parts, form, checked) ↦
      let (date, same) = check_date-success (trim value) value p (str s) c k checked in
      let again =
        (string_to_date-accepted_iff chrono (trim value) p (ap date_parts (trim_idem value) ∙ parts)
            form).1
          date in
      let eq : trim value ≡ s = ground arith in
      subst (λ u. string_to_date chrono u ≡ accepted u) eq (again ∙ ap accepted (trim_idem value))
]
