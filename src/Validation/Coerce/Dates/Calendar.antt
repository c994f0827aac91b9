-- ===== src/Validation/Coerce/Dates/Calendar.antt =====
-- Laws of `stringToDate` (src/validation/coerce.ts): the fixed forms and the calendar.
use vault_engine.Base.{
  ℕ, ◌≤◌, Text, trim, Bool, true, ◌||◌, Option, some, ◌≡◌, arith, ◌↔◌, is_empty,
}
use vault_engine.Value.{Value, str}
use vault_engine.Validation.Coerce.Result.{CoercionCode, CoercionResult, success}
use vault_engine.Validation.Coerce.Dates.{
  Chrono, DateParts, date_parts, is_time, days_in_month, utc_month_day, check_date, string_to_date,
}

-- The day is one of its month.
pub record IsCalendarDate (year month day : ℕ) : Type 0 where
  pub month_from : 1 ≤ month
  pub month_to : month ≤ 12
  pub day_from : 1 ≤ day
  pub day_to : day ≤ days_in_month year month

abbrev pub accepted : Text → CoercionResult
accepted s = success (str s) true (some CoercionCode.string_to_date)

pub days_in_month-le : (y m : ℕ) → days_in_month y m ≤ 31
unfolding days_in_month
days_in_month-le y m = ground arith

check_date-accepted :
    (s value : Text) (p : DateParts)
    → IsCalendarDate p.year p.month p.day
    → check_date s value p ≡ accepted s
unfolding check_date utc_month_day
check_date-accepted s value p h = ground (arith, days_in_month-le p.year p.month)

pub check_date-success :
    (s value : Text) (p : DateParts) (w : Value) (c : Bool) (k : Option CoercionCode)
    → check_date s value p ≡ success w c k
    → IsCalendarDate p.year p.month p.day × (w ≡ str s)
unfolding check_date utc_month_day
check_date-success s value p w c k h =
    (ground (arith, days_in_month-le p.year p.month), ground arith)

string_to_date-eq-check_date :
    (chrono : Chrono) (value : Text) (p : DateParts)
    → date_parts (trim value) ≡ some p
    → (is_empty p.rest || is_time p.rest) ≡ true
    → string_to_date chrono value ≡ check_date (trim value) value p
unfolding string_to_date
string_to_date-eq-check_date chrono value p parts form = ground arith

-- A text in one of the two fixed forms (a date, or a date with a time) is accepted as it stands,
-- trimmed, exactly when its month is 1 to 12 and its day is one of that month in that year.
pub string_to_date-accepted_iff :
    (chrono : Chrono) (value : Text) (p : DateParts)
    → date_parts (trim value) ≡ some p
    → (is_empty p.rest || is_time p.rest) ≡ true
    → (string_to_date chrono value ≡ accepted (trim value)) ↔ IsCalendarDate p.year p.month p.day
string_to_date-accepted_iff chrono value p parts form =
    rw (string_to_date-eq-check_date chrono value p parts form) (
      λ h. (check_date-success (trim value) value p _ _ _ h).0,
      check_date-accepted (trim value) value p,
    )
