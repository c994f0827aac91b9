-- ===== src/Validation/ResolveDefault.antt =====
-- src/validation/resolve-default.ts: `resolveDefaultValue` and `formatDate`. The clock and the local
-- calendar are parameters.

use vault_engine.Base.{
  ℕ, zero, suc, ◌-◌, Text, codes, starts_with, Bool, not, ◌&&◌, ◌||◌, Option, none, some, [], ◌∷◌,
  ◌++◌, eqb, every, if◌then◌else◌, length, drop,
}
use vault_engine.Value.{Value, str}
use vault_engine.Validation.Coerce.Dates.{decimal, pad_two}

pub record FileContext : Type 0 where
  pub mtime_ms : ℕ
  pub created_at_ms : Option ℕ

-- The local fields of a `Date`.
pub record LocalTime : Type 0 where
  pub year : ℕ
  pub month : ℕ
  pub day : ℕ
  pub hours : ℕ
  pub minutes : ℕ
  pub seconds : ℕ

-- `Date.now()`, and the local time zone.
pub record Clock : Type 0 where
  pub now : ℕ
  pub local : ℕ → LocalTime

pub data Token : Type 0 where
  ctime mtime now : Token

-- `.` of a regular expression: any unit but a line terminator
abbrev not_line_end : ℕ → Bool
not_line_end c = not (eqb c 10 || eqb c 13 || eqb c 0x2028 || eqb c 0x2029)

-- `(?::(.+))?$`: the format, which is empty where there is none
unfoldable pub format_part : Text → Option Text
format_part [] = some []
format_part (c ∷ []) = none
format_part (c ∷ d ∷ s) = if eqb c b':' && every not_line_end (d ∷ s) then some (d ∷ s) else none

abbrev with_token : Token → Option Text → Option (Token × Text)
with_token t none = none
with_token t (some f) = some (t, f)

-- `TOKEN_RE`
unfoldable pub match_token : Text → Option (Token × Text)
match_token s =
    if starts_with s (codes "$ctime")
    then with_token ctime (format_part (drop 6 s))
    else if starts_with s (codes "$mtime")
    then with_token mtime (format_part (drop 6 s))
    else if starts_with s (codes "$now")
    then with_token now (format_part (drop 4 s))
    else none

-- `s.replaceAll(token, value)`; `skip` units belong to a match that has been replaced.
unfoldable pub replace_all : Text → Text → ℕ → Text → Text
replace_all token value skip [] = []
replace_all token value (suc skip) (c ∷ s) = replace_all token value skip s
replace_all token value zero (c ∷ s) =
    let matched = value ++ replace_all token value (length token - 1) s in
    let kept = c ∷ replace_all token value zero s in
    if starts_with (c ∷ s) token then matched else kept

unfoldable pub format_date : LocalTime → Text → Text
format_date t format =
    let a = replace_all (codes "YYYY") (decimal t.year) 0 format in
    let b = replace_all (codes "MM") (pad_two (decimal t.month)) 0 a in
    let c = replace_all (codes "DD") (pad_two (decimal t.day)) 0 b in
    let d = replace_all (codes "HH") (pad_two (decimal t.hours)) 0 c in
    let e = replace_all (codes "mm") (pad_two (decimal t.minutes)) 0 d in
    replace_all (codes "ss") (pad_two (decimal t.seconds)) 0 e

abbrev pub or_now : Clock → Option ℕ → ℕ
or_now clock none = clock.now
or_now clock (some ms) = ms

abbrev pub created_at : Option FileContext → Option ℕ
created_at none = none
created_at (some ctx) = ctx.created_at_ms

abbrev pub modified_at : Option FileContext → Option ℕ
modified_at none = none
modified_at (some ctx) = some ctx.mtime_ms

unfoldable pub timestamp : Clock → Option FileContext → Token → ℕ
timestamp clock ctx ctime = or_now clock (created_at ctx)
timestamp clock ctx mtime = or_now clock (modified_at ctx)
timestamp clock ctx now = clock.now

-- `formatStr || DEFAULT_FORMAT`
unfoldable pub format_or_default : Text → Text
format_or_default [] = codes "YYYY-MM-DD"
format_or_default (c ∷ s) = c ∷ s

unfoldable pub resolve_default_value : Clock → Value → Option FileContext → Value
resolve_default_value clock (str s) ctx = elim (match_token s) [
  | none ↦ str s
  | some (token, format) ↦
      str (format_date (clock.local (timestamp clock ctx token)) (format_or_default format))
]
resolve_default_value clock value ctx = value
