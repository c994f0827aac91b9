-- ===== src/Base/Sort.antt =====
-- `Array.prototype.sort` with a comparator: stable, so the insertion sort by `le` stands for it.
use mathlib.Core.Path.{◌≡◌, refl}
use mathlib.Core.Bool.{Bool, true}
use mathlib.Core.Logic.{◌≢◌, ◌⊎◌, inl, inr}
use mathlib.Core.List.{List, [], ◌∷◌, Perm}
use mathlib.Core.List.Perm
use native.Mathlib.Omega.{arith}
use vault_engine.Base.Tests.{if◌then◌else◌, Bool-cases}
use vault_engine.Base.Lists.{All}

module _ {ℓ} {A : Type ℓ} (le : A → A → Bool) where
  unfoldable pub insert_by : A → List A → List A
  insert_by x [] = x ∷ []
  insert_by x (y ∷ ys) = if le x y then x ∷ y ∷ ys else y ∷ insert_by x ys

  unfoldable pub sort_by : List A → List A
  unfolding insert_by
  sort_by [] = []
  sort_by (x ∷ xs) = insert_by x (sort_by xs)

  -- Each element is at most every one behind it.
  abbrev pub IsSorted : List A → Type ℓ
  IsSorted [] = Unit
  IsSorted (x ∷ xs) = All (λ y. le x y ≡ true) xs × IsSorted xs

module _ {ℓ κ} {A : Type ℓ} (le : A → A → Bool) (P : A → Type κ) where
  All-insert_by : (x : A) (ys : List A) → P x → All P ys → All P (insert_by le x ys)
  unfolding insert_by
  All-insert_by x [] p h = (p, tt)
  All-insert_by x (y ∷ ys) p h = elim (Bool-cases (le x y)) [
    | inl e ↦ rw e (p, h)
    | inr e ↦ rw e (h.0, All-insert_by x ys p h.1)
  ]

  pub All-sort_by : (xs : List A) → All P xs → All P (sort_by le xs)
  unfolding sort_by
  All-sort_by [] h = tt
  All-sort_by (x ∷ xs) h = All-insert_by x (sort_by le xs) h.0 (All-sort_by xs h.1)

module _ {ℓ} {A : Type ℓ} (le : A → A → Bool) where
  insert_by-perm : (x : A) (ys : List A) → Perm (insert_by le x ys) (x ∷ ys)
  unfolding insert_by
  insert_by-perm x [] = Perm.refl (x ∷ [])
  insert_by-perm x (y ∷ ys) = elim (Bool-cases (le x y)) [
    | inl e ↦ rw e (Perm.refl (x ∷ y ∷ ys))
    | inr e ↦ rw e (Perm.trans (Perm.cons y (insert_by-perm x ys)) (Perm.swap x y ys))
  ]

  pub sort_by-perm : (xs : List A) → Perm (sort_by le xs) xs
  unfolding sort_by
  sort_by-perm [] = Perm.refl []
  sort_by-perm (x ∷ xs) =
      Perm.trans (insert_by-perm x (sort_by le xs)) (Perm.cons x (sort_by-perm xs))

  module _ (total : (x y : A) → (le x y ≡ true) ⊎ (le y x ≡ true))
      (trans : (x y z : A) → le x y ≡ true → le y z ≡ true → le x z ≡ true) where
    All-le_trans :
        (x y : A) (zs : List A)
        → le x y ≡ true
        → All (λ z. le y z ≡ true) zs
        → All (λ z. le x z ≡ true) zs
    All-le_trans x y [] p h = tt
    All-le_trans x y (z ∷ zs) p h = (trans x y z p h.0, All-le_trans x y zs p h.1)

    insert_by-IsSorted : (x : A) (ys : List A) → IsSorted le ys → IsSorted le (insert_by le x ys)
    unfolding insert_by
    insert_by-IsSorted x [] h = (tt, tt)
    insert_by-IsSorted x (y ∷ ys) h = elim (Bool-cases (le x y)) [
      | inl e ↦ rw e ((e, All-le_trans x y ys e h.0), h)
      | inr e ↦
          let back : le y x ≡ true = elim (total x y) [ inl p ↦ cc | inr p ↦ p ] in
          rw e (All-insert_by le (λ z. le y z ≡ true) x ys back h.0, insert_by-IsSorted x ys h.1)
    ]

    pub sort_by-IsSorted : (xs : List A) → IsSorted le (sort_by le xs)
    unfolding sort_by
    sort_by-IsSorted [] = tt
    sort_by-IsSorted (x ∷ xs) = insert_by-IsSorted x (sort_by le xs) (sort_by-IsSorted xs)

module _ {ℓ κ} {A : Type ℓ} (le : A → A → Bool) (P : A → Type κ) where
  All-of_insert_by : (x : A) (ys : List A) → All P (insert_by le x ys) → P x × All P ys
  unfolding insert_by
  All-of_insert_by x [] h = (h.0, tt)
  All-of_insert_by x (y ∷ ys) h = elim (Bool-cases (le x y)) [
    | inl e ↦ rw (e, if◌then◌else◌, All) at h
    | inr e ↦
        let (p, rest) : P y × All P (insert_by le x ys) = rw (e, if◌then◌else◌, All) at h in
        let (q, others) = All-of_insert_by x ys rest in (q, (p, others))
  ]

  pub All-of_sort_by : (xs : List A) → All P (sort_by le xs) → All P xs
  unfolding sort_by
  All-of_sort_by [] h = tt
  All-of_sort_by (x ∷ xs) h =
      let (p, rest) = All-of_insert_by x (sort_by le xs) h in (p, All-of_sort_by xs rest)

module _ {ℓ} {A : Type ℓ} (le : A → A → Bool) where
  insert_by_ne_nil : (x : A) (ys : List A) → insert_by le x ys ≢ []
  unfolding insert_by
  insert_by_ne_nil x [] e = cc
  insert_by_ne_nil x (y ∷ ys) e = ground arith

  pub sort_by_nil : (xs : List A) → sort_by le xs ≡ [] → xs ≡ []
  unfolding sort_by
  sort_by_nil [] e = refl
  sort_by_nil (x ∷ xs) e = absurd (insert_by_ne_nil x (sort_by le xs) e)
