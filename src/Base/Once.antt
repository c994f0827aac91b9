-- ===== src/Base/Once.antt =====
-- Lists of texts in which no text stands twice, under `contains`, and what sorting keeps of them.
use mathlib.Core.Path.{◌≡◌, refl, ◌∙◌, ap, sym}
use mathlib.Core.Logic.{inl, inr}
use mathlib.Core.Bool.{Bool, true, false, not, ◌&&◌, ◌||◌}
use mathlib.Core.List.{List, [], ◌∷◌, ◌++◌, map}
use native.Mathlib.Omega.{arith}
use vault_engine.Base.Tests.{if◌then◌else◌, Bool-cases}
use vault_engine.Base.Lists.{filter}
use vault_engine.Base.Sort.{insert_by, sort_by}
use vault_engine.Base.Strings.{Text, ◌==◌, eq_iff, eq_refl}
use vault_engine.Base.Dict.{contains, Dict, keys, has-eq-contains, Unique}

-- No text stands twice.
abbrev pub IsOnce : List Text → Type 0
IsOnce [] = Unit
IsOnce (k ∷ ks) = (contains ks k ≡ false) × IsOnce ks

pub contains-append :
    (xs ys : List Text) (f : Text) → contains (xs ++ ys) f ≡ (contains xs f || contains ys f)
unfolding contains
contains-append [] ys f = refl
contains-append (x ∷ xs) ys f = ground (arith, contains-append xs ys f)

pub contains-filter :
    (p : Text → Bool) (xs : List Text) (f : Text)
    → contains (filter p xs) f ≡ (contains xs f && p f)
unfolding contains
contains-filter p [] f = refl
contains-filter p (x ∷ xs) f = ground (arith, eq_iff x f, contains-filter p xs f)

pub IsOnce-filter : (p : Text → Bool) (xs : List Text) → IsOnce xs → IsOnce (filter p xs)
IsOnce-filter p [] h = tt
IsOnce-filter p (x ∷ xs) h = elim (Bool-cases (p x)) [
  | inl e ↦
      rw (e, if◌then◌else◌, IsOnce)
        (contains-filter p xs x ∙ ground (arith, h.0), IsOnce-filter p xs h.1)
  | inr e ↦ rw (e, if◌then◌else◌) (IsOnce-filter p xs h.1)
]

pub IsOnce-append :
    (xs ys : List Text)
    → IsOnce xs
    → IsOnce ys
    → ((f : Text) → contains xs f ≡ true → contains ys f ≡ false)
    → IsOnce (xs ++ ys)
unfolding contains
IsOnce-append [] ys hx hy apart = hy
IsOnce-append (x ∷ xs) ys hx hy apart = (
  contains-append xs ys x ∙ ground (arith, hx.0, apart x, eq_refl x),
  IsOnce-append xs ys hx.1 hy (λ f h. apart f (ground (arith, h))),
)

module _ {ℓ} {A : Type ℓ} (le : A → A → Bool) (key : A → Text) where
  contains-insert_by :
      (x : A) (ys : List A) (f : Text)
      → contains (map key (insert_by le x ys)) f ≡ (key x == f || contains (map key ys) f)
  unfolding contains insert_by
  contains-insert_by x [] f = refl
  contains-insert_by x (y ∷ ys) f = elim (Bool-cases (le x y)) [
    | inl e ↦ rw e refl
    | inr e ↦ rw e (ap (λ b. key y == f || b) (contains-insert_by x ys f) ∙ ground arith)
  ]

  pub contains-sort_by :
      (xs : List A) (f : Text) → contains (map key (sort_by le xs)) f ≡ contains (map key xs) f
  unfolding contains sort_by
  contains-sort_by [] f = refl
  contains-sort_by (x ∷ xs) f =
      contains-insert_by x (sort_by le xs) f ∙ ap (λ b. key x == f || b) (contains-sort_by xs f)

  IsOnce-insert_by :
      (x : A) (ys : List A)
      → contains (map key ys) (key x) ≡ false
      → IsOnce (map key ys)
      → IsOnce (map key (insert_by le x ys))
  unfolding contains insert_by
  IsOnce-insert_by x [] h k = (refl, tt)
  IsOnce-insert_by x (y ∷ ys) h k = elim (Bool-cases (le x y)) [
    | inl e ↦ rw e (h, k)
    | inr e ↦ rw e (
      contains-insert_by x ys (key y)
          ∙ ground (arith, k.0, h, eq_iff (key x) (key y), eq_iff (key y) (key x)),
      IsOnce-insert_by x ys (ground (arith, h)) k.1,
    )
  ]

  pub IsOnce-sort_by : (xs : List A) → IsOnce (map key xs) → IsOnce (map key (sort_by le xs))
  unfolding sort_by
  IsOnce-sort_by [] h = tt
  IsOnce-sort_by (x ∷ xs) h =
      IsOnce-insert_by x (sort_by le xs) (contains-sort_by xs (key x) ∙ h.0) (IsOnce-sort_by xs h.1)

pub keys-eq-map {ℓ} : {V : Type ℓ} (m : Dict V) → keys m ≡ map (λ (p : Text × V). p.0) m
keys-eq-map [] = refl
keys-eq-map ((k, v) ∷ m) = ap (λ ks. k ∷ ks) (keys-eq-map m)

pub map_self : (xs : List Text) → map (λ (x : Text). x) xs ≡ xs
map_self [] = refl
map_self (x ∷ xs) = ap (λ r. x ∷ r) (map_self xs)

pub IsOnce-keys {ℓ} : {V : Type ℓ} (m : Dict V) → Unique m → IsOnce (keys m)
IsOnce-keys [] h = tt
IsOnce-keys ((k, v) ∷ m) h = (sym (has-eq-contains m k) ∙ h.0, IsOnce-keys m h.1)

-- The texts that are neither seen nor come again.
unfoldable pub new_ones : List Text → List Text → List Text
new_ones seen [] = []
new_ones seen (x ∷ xs) =
    let added = new_ones (x ∷ seen) xs in
    let passed = new_ones seen xs in if contains seen x then passed else x ∷ added

pub contains-new_ones :
    (seen xs : List Text) (f : Text)
    → contains (new_ones seen xs) f ≡ (contains xs f && not (contains seen f))
unfolding new_ones contains
contains-new_ones seen [] f = refl
contains-new_ones seen (x ∷ xs) f =
    ground (arith, eq_iff x f, contains-new_ones seen xs f, contains-new_ones (x ∷ seen) xs f)

pub new_ones-IsOnce : (seen xs : List Text) → IsOnce (new_ones seen xs)
unfolding new_ones
new_ones-IsOnce seen [] = tt
new_ones-IsOnce seen (x ∷ xs) = elim (Bool-cases (contains seen x)) [
  | inl old ↦ rw (old, if◌then◌else◌) (new_ones-IsOnce seen xs)
  | inr new ↦
      rw (new, if◌then◌else◌, IsOnce)
        (
          contains-new_ones (x ∷ seen) xs x ∙ unfold contains in rw (eq_refl x) (ground arith),
          new_ones-IsOnce (x ∷ seen) xs,
        )
]
