-- ===== src/Base/Dict.antt =====
-- JavaScript's `Map` and `Record` over string keys: pairs in the order of their first insertion.
use mathlib.Core.Path.{◌≡◌, refl, ◌∙◌}
use mathlib.Core.Logic.{inl, inr}
use mathlib.Core.Bool.{Bool, true, false, ◌||◌}
use mathlib.Core.Option.{Option, none, some}
use mathlib.Core.List.{List, [], ◌∷◌}
use native.Mathlib.Omega.{arith}
use vault_engine.Base.Tests.{if◌then◌else◌, Bool-cases}
use vault_engine.Base.Strings.{Text, ◌==◌, eq_iff}

abbrev pub Dict {ℓ} : Type ℓ → Type ℓ
Dict V = List (Text × V)

-- `set.has(x)` and `list.includes(x)`
unfoldable pub contains : List Text → Text → Bool
contains [] x = false
contains (y ∷ ys) x = y == x || contains ys x

module _ {ℓ} {V : Type ℓ} where
  -- `m.get(k)`
  unfoldable pub get : Dict V → Text → Option V
  get [] k = none
  get ((j, v) ∷ m) k = if j == k then some v else get m k

  -- `m.set(k, v)`
  unfoldable pub set : Dict V → Text → V → Dict V
  set [] k v = (k, v) ∷ []
  set ((j, w) ∷ m) k v = if j == k then (j, v) ∷ m else (j, w) ∷ set m k v

  -- `m.delete(k)`
  unfoldable pub delete : Dict V → Text → Dict V
  delete [] k = []
  delete ((j, w) ∷ m) k = let rest = delete m k in if j == k then rest else (j, w) ∷ rest

  abbrev pub keys : Dict V → List Text
  keys [] = []
  keys ((j, w) ∷ m) = j ∷ keys m

  -- `m.has(k)`, `k in m`
  unfoldable pub has : Dict V → Text → Bool
  unfolding get
  has m k = elim (get m k) [ none ↦ false | some _ ↦ true ]

  pub get-set :
      (m : Dict V) (k j : Text) (v : V) → get (set m k v) j ≡ (if k == j then some v else get m j)
  unfolding get set
  get-set [] k j v = refl
  get-set ((i, w) ∷ m) k j v = ground (arith, eq_iff k j, eq_iff i k, eq_iff i j, get-set m k j v)

  pub get-delete :
      (m : Dict V) (k j : Text) → get (delete m k) j ≡ (if k == j then none else get m j)
  unfolding get delete
  get-delete [] k j = ground arith
  get-delete ((i, w) ∷ m) k j = ground (arith, eq_iff k j, eq_iff i k, eq_iff i j, get-delete m k j)

  pub has-eq-contains : (m : Dict V) (k : Text) → has m k ≡ contains (keys m) k
  unfolding has contains
  has-eq-contains [] k = refl
  has-eq-contains ((j, w) ∷ m) k = ground (arith, has-eq-contains m k)

  -- No key stands twice.
  abbrev pub Unique : Dict V → Type 0
  Unique [] = Unit
  Unique ((k, v) ∷ m) = (has m k ≡ false) × Unique m

  pub has-set :
      (m : Dict V) (k j : Text) (v : V) → has (set m k v) j ≡ (if k == j then true else has m j)
  unfolding has
  has-set m k j v = ground (arith, get-set m k j v)

  pub Unique-set : (m : Dict V) (k : Text) (v : V) → Unique m → Unique (set m k v)
  unfolding set
  Unique-set [] k v h = (unfold has get in refl, tt)
  Unique-set ((j, w) ∷ m) k v h = elim (Bool-cases (j == k)) [
    | inl e ↦ rw e h
    | inr e ↦ rw e (has-set m k j v ∙ ground (arith, eq_iff k j, eq_iff j k), Unique-set m k v h.1)
  ]

  pub has_of_get : (m : Dict V) (k : Text) (v : V) → get m k ≡ some v → has m k ≡ true
  unfolding has
  has_of_get m k v h = ground arith

  pub get_of_has-false : (m : Dict V) (k : Text) → has m k ≡ false → get m k ≡ none
  unfolding has
  get_of_has-false m k h = ground arith
