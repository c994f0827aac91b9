-- ===== src/GlobalFields/UiHints.antt =====
-- src/global-fields/ui-hints.ts: `validateUiHints` and `normalizeUiHints`.
pub mod Valid
use vault_engine.Base.{
  ℕ, ◌-◌, ◌/◌, ◌%◌, ◌^◌, Text, codes, Bool, true, false, not, ◌&&◌, ◌||◌, Option, none, some, List,
  [], ◌∷◌, ◌++◌, length, leb, eqb, is_empty, if◌then◌else◌, ◌==◌,
}
use vault_engine.Base.Dict
use vault_engine.Base.Dict.{Dict}
use vault_engine.Value.{
  Value, undefined, null, str, num, bool, date, arr, obj, Members, members, is_finite,
}

abbrev pub ui_widgets : List Text
unfolding codes
ui_widgets =
    codes "text"
    ∷ codes "textarea"
    ∷ codes "enum"
    ∷ codes "date"
    ∷ codes "number"
    ∷ codes "bool"
    ∷ codes "link"
    ∷ codes "tags"
    ∷ []

abbrev pub allowed_keys : List Text
unfolding codes
allowed_keys = codes "widget" ∷ codes "label" ∷ codes "help" ∷ codes "order" ∷ []

abbrev pub label_max : ℕ
label_max = 80

abbrev pub help_max : ℕ
help_max = 280

pub record UiHints : Type 0 where
  pub widget : Option Text
  pub label : Option Text
  pub help : Option Text
  pub order : Option ℕ

pub data ValidateResult {ℓ} (A : Type ℓ) : Type ℓ where
  valid : A → ValidateResult A
  invalid : Text → ValidateResult A

-- `join(', ')`
abbrev pub comma_separated : List Text → Text
comma_separated [] = []
comma_separated (x ∷ []) = x
comma_separated (x ∷ y ∷ xs) = x ++ b',' ∷ b' ' ∷ comma_separated (y ∷ xs)

-- `Number.isInteger`: the bits of the mantissa below the unit are zero.
unfoldable pub is_integer : ℕ → Bool
is_integer bits =
    let e = bits / 2 ^ 52 % 2048 in
    is_finite bits
    && (eqb (bits % 2 ^ 63) 0
        || leb 1075 e
        || (leb 1023 e && eqb (bits % 2 ^ 52 % 2 ^ (1075 - e)) 0))

unfoldable pub unknown_key : Dict Value → Option Text
unknown_key [] = none
unknown_key ((k, v) ∷ m) = if Dict.contains allowed_keys k then unknown_key m else some k

-- Each check gives the hint, none where the key does not stand in the input.
unfoldable pub check_widget : Option Value → ValidateResult (Option Text)
check_widget none = valid none
check_widget (some (str w)) =
    if Dict.contains ui_widgets w
    then valid (some w)
    else invalid (codes "ui.widget must be one of " ++ comma_separated ui_widgets)
check_widget (some _) = invalid (codes "ui.widget must be one of " ++ comma_separated ui_widgets)

-- The sign ≤ of the messages is U+2264.
unfoldable pub check_text : Text → ℕ → Text → Option Value → ValidateResult (Option Text)
check_text name limit digits none = valid none
check_text name limit digits (some (str l)) =
    if leb (length l) limit
    then valid (some l)
    else invalid
        (codes "ui." ++ name ++ codes " must be " ++ 0x2264 ∷ b' ' ∷ digits ++ codes " chars")
check_text name limit digits (some _) = invalid (codes "ui." ++ name ++ codes " must be a string")

unfoldable pub check_order : Option Value → ValidateResult (Option ℕ)
check_order none = valid none
check_order (some (num o)) =
    if is_finite o && is_integer o
    then valid (some o)
    else invalid (codes "ui.order must be a finite integer")
check_order (some _) = invalid (codes "ui.order must be a finite integer")

abbrev pub then_check {ℓ κ} :
    {A : Type ℓ} {B : Type κ} → ValidateResult A → (A → ValidateResult B) → ValidateResult B
then_check (valid a) f = f a
then_check (invalid reason) f = invalid reason

unfoldable pub validate_members : Dict Value → ValidateResult UiHints
validate_members m = then_check (check_widget (Dict.get m (codes "widget"))) (λ w.
    then_check (check_text (codes "label") label_max (codes "80") (Dict.get m (codes "label")))
      (λ l.
        then_check (check_text (codes "help") help_max (codes "280") (Dict.get m (codes "help")))
          (λ h.
            then_check (check_order (Dict.get m (codes "order")))
              (λ o. valid (record { widget = w; label = l; help = h; order = o })))))

abbrev pub no_hints : UiHints
no_hints = record { widget = none; label = none; help = none; order = none }

unfoldable pub check_members : Dict Value → Option Text → ValidateResult UiHints
check_members m none = validate_members m
check_members m (some k) = invalid (
    codes "ui has unknown key '"
    ++ k
    ++ codes "' (allowed: "
    ++ comma_separated allowed_keys
    ++ codes ")")

-- A `Date` is an object with no keys.
unfoldable pub validate_ui_hints : Value → ValidateResult UiHints
validate_ui_hints undefined = valid no_hints
validate_ui_hints null = valid no_hints
validate_ui_hints (obj ms) = check_members (members ms) (unknown_key (members ms))
validate_ui_hints (date t) = valid no_hints
validate_ui_hints _ = invalid (codes "ui must be an object")

abbrev absent {ℓ} : {A : Type ℓ} → Option A → Bool
absent none = true
absent (some a) = false

-- none is null.
unfoldable pub normalize_ui_hints : Option UiHints → Option UiHints
normalize_ui_hints none = none
normalize_ui_hints (some h) =
    if absent h.widget && absent h.label && absent h.help && absent h.order then none else some h
