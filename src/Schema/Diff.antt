-- ===== src/Schema/Diff.antt =====
-- src/schema/propagate.ts: `diffClaims`, on the claims of claims.ts.
pub mod Laws
use vault_engine.Base.{
  ℤ, int_eq, Text, Bool, true, false, not, ◌&&◌, ◌||◌, Option, none, some, List, [], ◌∷◌,
  if◌then◌else◌, ◌==◌,
}
use vault_engine.Base.Dict
use vault_engine.Base.Dict.{Dict}
use vault_engine.Value.{Value}

pub data RequiredClaim : Type 0 where
  unset : RequiredClaim
  inherited : RequiredClaim
  set_to : Bool → RequiredClaim

-- The values under `default_value` and `enum_values_override` are told apart by their JSON text.
pub record ClaimShape : Type 0 where
  pub field : Text
  pub sort_order : Option ℤ
  pub label : Option Text
  pub description : Option Text
  pub required : RequiredClaim
  pub default_value : Value
  pub enum_values_override : Value

pub record ClaimDiff : Type 0 where
  pub added : List Text
  pub removed : List Text
  pub changed : List Text

abbrev same_option {ℓ} : {A : Type ℓ} → (A → A → Bool) → Option A → Option A → Bool
same_option eq none none = true
same_option eq (some a) (some b) = eq a b
same_option eq _ _ = false

abbrev same_bool : Bool → Bool → Bool
same_bool true b = b
same_bool false b = not b

abbrev same_required : RequiredClaim → RequiredClaim → Bool
same_required unset unset = true
same_required inherited inherited = true
same_required (set_to a) (set_to b) = same_bool a b
same_required _ _ = false

-- `new Map(claims.map(c => [c.field, c]))`
unfoldable pub by_field : Dict ClaimShape → List ClaimShape → Dict ClaimShape
by_field m [] = m
by_field m (c ∷ cs) = by_field (Dict.set m c.field c) cs

module _ (stringify : Value → Text) where
  unfoldable pub differs : ClaimShape → ClaimShape → Bool
  differs o n = not (
      same_option int_eq o.sort_order n.sort_order
      && same_option ◌==◌ o.label n.label
      && same_option ◌==◌ o.description n.description
      && same_required o.required n.required
      && stringify o.default_value == stringify n.default_value
      && stringify o.enum_values_override == stringify n.enum_values_override)

  abbrev pub is_added : Option ClaimShape → ClaimShape → Bool
  is_added none n = true
  is_added (some o) n = false

  abbrev pub is_changed : Option ClaimShape → ClaimShape → Bool
  is_changed none n = false
  is_changed (some o) n = differs o n

  -- The fields of the new claims that pass a test against the old claim.
  unfoldable pub select :
      (Option ClaimShape → ClaimShape → Bool) → Dict ClaimShape → Dict ClaimShape → List Text
  select p old [] = []
  select p old ((field, n) ∷ new) =
      let rest = select p old new in if p (Dict.get old field) n then field ∷ rest else rest

  unfoldable pub diff_claims : List ClaimShape → List ClaimShape → ClaimDiff
  diff_claims old_claims new_claims =
      let old = by_field [] old_claims in
      let new = by_field [] new_claims in
      record {
        added = select is_added old new;
        removed = select is_added new old;
        changed = select is_changed old new;
      }
