-- ===== src/Base/Lists.antt =====
-- Lists over the native numbers, Boolean tests on lists, and predicates by recursion.
use Prim.Native.Nat.{ℕ, zero, suc, ◌+◌, ◌≤◌}
use mathlib.Core.Path.{◌≡◌, refl, subst}
use mathlib.Core.Logic.{Lift, ◌⊎◌, inl, inr}
use mathlib.Core.Bool.{Bool, true, false, ◌&&◌, ◌||◌}
use mathlib.Core.Option.{Option, none, some}
use mathlib.Core.List.{List, [], ◌∷◌, ◌++◌}
use native.Mathlib.Omega.{arith}
use vault_engine.Base.Tests.{if◌then◌else◌, Bool-cases}

module _ {ℓ} {A : Type ℓ} where
  abbrev pub length : List A → ℕ
  length [] = 0
  length (x ∷ xs) = suc (length xs)

  abbrev pub take : ℕ → List A → List A
  take zero xs = []
  take (suc n) [] = []
  take (suc n) (x ∷ xs) = x ∷ take n xs

  abbrev pub drop : ℕ → List A → List A
  drop zero xs = xs
  drop (suc n) [] = []
  drop (suc n) (x ∷ xs) = drop n xs

  abbrev pub head? : List A → Option A
  head? [] = none
  head? (x ∷ xs) = some x

  abbrev pub is_empty : List A → Bool
  is_empty [] = true
  is_empty (x ∷ xs) = false

  abbrev pub every : (A → Bool) → List A → Bool
  every p [] = true
  every p (x ∷ xs) = p x && every p xs

  abbrev pub some_of : (A → Bool) → List A → Bool
  some_of p [] = false
  some_of p (x ∷ xs) = p x || some_of p xs

  abbrev pub filter : (A → Bool) → List A → List A
  filter p [] = []
  filter p (x ∷ xs) = if p x then x ∷ filter p xs else filter p xs

module _ {ℓ} {A : Type ℓ} where
  pub length-append : (xs ys : List A) → length (xs ++ ys) ≡ length xs + length ys
  length-append [] ys = omega arith
  length-append (x ∷ xs) ys = omega (arith, length-append xs ys)

  pub length-filter : (p : A → Bool) (xs : List A) → length (filter p xs) ≤ length xs
  length-filter p [] = omega arith
  length-filter p (x ∷ xs) = ground (arith, length-filter p xs)

  pub take-append-drop : (n : ℕ) (xs : List A) → take n xs ++ drop n xs ≡ xs
  take-append-drop zero xs = refl
  take-append-drop (suc n) [] = refl
  take-append-drop (suc n) (x ∷ xs) = rw (take-append-drop n xs)

  pub filter-append :
      (p : A → Bool) (xs ys : List A) → filter p (xs ++ ys) ≡ filter p xs ++ filter p ys
  filter-append p [] ys = refl
  filter-append p (x ∷ xs) ys = ground (arith, filter-append p xs ys)

module _ {ℓ κ} {A : Type ℓ} where
  abbrev pub All : (A → Type κ) → List A → Type κ
  All P [] = Unit
  All P (x ∷ xs) = P x × All P xs

  pub All-append : (P : A → Type κ) (xs ys : List A) → All P xs → All P ys → All P (xs ++ ys)
  All-append P [] ys hx hy = hy
  All-append P (x ∷ xs) ys hx hy = (hx.0, All-append P xs ys hx.1 hy)

  pub All-filter : (P : A → Type κ) (p : A → Bool) (xs : List A) → All P xs → All P (filter p xs)
  All-filter P p [] h = tt
  All-filter P p (x ∷ xs) h = ground (arith, All-filter P p xs h.1)

module _ {ℓ} {A : Type ℓ} where
  pub filter-All : (p : A → Bool) (xs : List A) → All (λ x. p x ≡ true) (filter p xs)
  filter-All p [] = tt
  filter-All p (x ∷ xs) = elim (Bool-cases (p x)) [
    | inl e ↦ rw (e, if◌then◌else◌) (e, filter-All p xs)
    | inr e ↦ rw (e, if◌then◌else◌) (filter-All p xs)
  ]

module _ {ℓ} {A : Type ℓ} where
  -- x stands in the list.
  abbrev pub IsIn : A → List A → Type ℓ
  IsIn x [] = Lift {0, ℓ} ⊥
  IsIn x (y ∷ ys) = (y ≡ x) ⊎ IsIn x ys

  pub IsIn-append_left : (x : A) (xs ys : List A) → IsIn x xs → IsIn x (xs ++ ys)
  IsIn-append_left x [] ys h = absurd (h.lower)
  IsIn-append_left x (y ∷ xs) ys (inl e) = inl e
  IsIn-append_left x (y ∷ xs) ys (inr h) = inr (IsIn-append_left x xs ys h)

  pub IsIn-snoc : (x : A) (xs : List A) → IsIn x (xs ++ x ∷ [])
  IsIn-snoc x [] = inl refl
  IsIn-snoc x (y ∷ xs) = inr (IsIn-snoc x xs)

  pub All-IsIn : (xs ys : List A) → ((x : A) → IsIn x xs → IsIn x ys) → All (λ x. IsIn x ys) xs
  All-IsIn [] ys h = tt
  All-IsIn (x ∷ xs) ys h = (h x (inl refl), All-IsIn xs ys (λ y i. h y (inr i)))

  pub IsIn-of_filter :
      (p : A → Bool) (x : A) (xs : List A) → IsIn x (filter p xs) → IsIn x xs × (p x ≡ true)
  IsIn-of_filter p x [] h = absurd (h.lower)
  IsIn-of_filter p x (y ∷ xs) h = elim (Bool-cases (p y)) [
    | inl e ↦ elim (rw (e, if◌then◌else◌) at h) [
      | inl same ↦ (inl same, subst (λ z. p z ≡ true) same e)
      | inr later ↦ let (i, q) = IsIn-of_filter p x xs later in (inr i, q)
    ]
    | inr e ↦ let (i, q) = IsIn-of_filter p x xs (rw (e, if◌then◌else◌) at h) in (inr i, q)
  ]
