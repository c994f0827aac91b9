-- ===== src/GlobalFields/UiHints/Valid.antt =====
-- Laws of `validateUiHints` (src/global-fields/ui-hints.ts).
use vault_engine.Base.{
  ℕ, ◌≤◌, Text, codes, true, ◌&&◌, Option, none, some, length, leb, leb→le, ◌≡◌, inl, inr,
  Bool-cases, if◌then◌else◌,
}
use vault_engine.Base.Dict
use vault_engine.Base.Dict.{Dict}
use vault_engine.Value.{Value, undefined, null, str, num, bool, date, arr, obj, members, is_finite}
use vault_engine.GlobalFields.UiHints.{
  UiHints, ValidateResult, valid, invalid, ui_widgets, label_max, help_max, is_integer, unknown_key,
  check_widget, check_text, check_order, validate_members, check_members, then_check,
  validate_ui_hints,
}

abbrev pub WhenSome {ℓ} : {A : Type ℓ} → (A → Type 0) → Option A → Type 0
WhenSome P none = Unit
WhenSome P (some a) = P a

abbrev pub WhenValid {ℓ} : {A : Type ℓ} → (A → Type 0) → ValidateResult A → Type 0
WhenValid P (valid a) = P a
WhenValid P (invalid reason) = Unit

abbrev pub IsWidget : Text → Type 0
IsWidget w = Dict.contains ui_widgets w ≡ true

abbrev pub IsShort : ℕ → Text → Type 0
IsShort limit l = length l ≤ limit

abbrev pub IsOrder : ℕ → Type 0
IsOrder o = (is_finite o && is_integer o) ≡ true

-- Each hint that is there is one of the vocabulary and within its bound.
abbrev pub IsSane : UiHints → Type 0
IsSane h =
    WhenSome IsWidget h.widget
    × WhenSome (IsShort label_max) h.label
    × WhenSome (IsShort help_max) h.help
    × WhenSome IsOrder h.order

check_widget-lem : (v : Option Value) → WhenValid (WhenSome IsWidget) (check_widget v)
unfolding check_widget
check_widget-lem none = tt
check_widget-lem (some (str w)) = elim (Bool-cases (Dict.contains ui_widgets w)) [
  | inl e ↦ rw (e, if◌then◌else◌, WhenValid, WhenSome) e
  | inr e ↦ rw (e, if◌then◌else◌, WhenValid, WhenSome) tt
]
check_widget-lem (some undefined) = tt
check_widget-lem (some null) = tt
check_widget-lem (some (num n)) = tt
check_widget-lem (some (bool b)) = tt
check_widget-lem (some (date t)) = tt
check_widget-lem (some (arr vs)) = tt
check_widget-lem (some (obj ms)) = tt

check_text-lem :
    (name : Text) (limit : ℕ) (digits : Text) (v : Option Value)
    → WhenValid (WhenSome (IsShort limit)) (check_text name limit digits v)
unfolding check_text
check_text-lem name limit digits none = tt
check_text-lem name limit digits (some (str l)) = elim (Bool-cases (leb (length l) limit)) [
  | inl e ↦ rw (e, if◌then◌else◌, WhenValid, WhenSome) (leb→le (length l) limit e)
  | inr e ↦ rw (e, if◌then◌else◌, WhenValid, WhenSome) tt
]
check_text-lem name limit digits (some undefined) = tt
check_text-lem name limit digits (some null) = tt
check_text-lem name limit digits (some (num n)) = tt
check_text-lem name limit digits (some (bool b)) = tt
check_text-lem name limit digits (some (date t)) = tt
check_text-lem name limit digits (some (arr vs)) = tt
check_text-lem name limit digits (some (obj ms)) = tt

check_order-lem : (v : Option Value) → WhenValid (WhenSome IsOrder) (check_order v)
unfolding check_order
check_order-lem none = tt
check_order-lem (some (num o)) = elim (Bool-cases (is_finite o && is_integer o)) [
  | inl e ↦ rw (e, if◌then◌else◌, WhenValid, WhenSome) e
  | inr e ↦ rw (e, if◌then◌else◌, WhenValid, WhenSome) tt
]
check_order-lem (some undefined) = tt
check_order-lem (some null) = tt
check_order-lem (some (str s)) = tt
check_order-lem (some (bool b)) = tt
check_order-lem (some (date t)) = tt
check_order-lem (some (arr vs)) = tt
check_order-lem (some (obj ms)) = tt

WhenValid-then_check {ℓ κ} :
    {A : Type ℓ} {B : Type κ} (P : A → Type 0) (Q : B → Type 0) (r : ValidateResult A)
    (f : A → ValidateResult B)
    → WhenValid P r
    → ((a : A) → P a → WhenValid Q (f a))
    → WhenValid Q (then_check r f)
WhenValid-then_check P Q (valid a) f h k = k a h
WhenValid-then_check P Q (invalid reason) f h k = tt

validate_members-lem : (m : Dict Value) → WhenValid IsSane (validate_members m)
unfolding validate_members
validate_members-lem m =
    WhenValid-then_check (WhenSome IsWidget) IsSane _ _
      (check_widget-lem (Dict.get m (codes "widget")))
      (λ w hw.
        WhenValid-then_check (WhenSome (IsShort label_max)) IsSane _ _
          (check_text-lem (codes "label") label_max (codes "80") (Dict.get m (codes "label")))
          (λ l hl.
            WhenValid-then_check (WhenSome (IsShort help_max)) IsSane _ _
              (check_text-lem (codes "help") help_max (codes "280") (Dict.get m (codes "help")))
              (λ h hh.
                WhenValid-then_check (WhenSome IsOrder) IsSane _ _
                  (check_order-lem (Dict.get m (codes "order"))) (λ o ho. (hw, hl, hh, ho)))))

check_members-lem : (m : Dict Value) (k : Option Text) → WhenValid IsSane (check_members m k)
unfolding check_members
check_members-lem m none = validate_members-lem m
check_members-lem m (some k) = tt

-- Hints that pass `validate_ui_hints` have a widget of the vocabulary, a label of at most 80 and a help
-- of at most 280 code units, and a finite integer for an order, each where it is there at all.
pub validate_ui_hints-IsSane : (input : Value) → WhenValid IsSane (validate_ui_hints input)
unfolding validate_ui_hints
validate_ui_hints-IsSane undefined = (tt, tt, tt, tt)
validate_ui_hints-IsSane null = (tt, tt, tt, tt)
validate_ui_hints-IsSane (str s) = tt
validate_ui_hints-IsSane (num n) = tt
validate_ui_hints-IsSane (bool b) = tt
validate_ui_hints-IsSane (date t) = (tt, tt, tt, tt)
validate_ui_hints-IsSane (arr vs) = tt
validate_ui_hints-IsSane (obj ms) = check_members-lem (members ms) (unknown_key (members ms))
