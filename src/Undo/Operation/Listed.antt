-- ===== src/Undo/Operation/Listed.antt =====
-- Laws of `createOperation` and `listOperations` (src/undo/operation.ts).
use vault_engine.Base.{
  ℕ, zero, suc, ◌<◌, ◌≤◌, Text, Bool, true, List, [], ◌∷◌, ◌++◌, ◌≡◌, refl, ap, arith, filter,
  length, take, ltb, All, ◌⊎◌,
}
use vault_engine.Base.Sort.{sort_by, IsSorted, sort_by-IsSorted}
use vault_engine.Store.{Operation, Database}
use vault_engine.Undo.Operation.{
  last_timestamp, new_operation, create_operation, ListParams, is_listed, limit_of, is_newer,
  list_operations, ListResult,
}

-- Every operation is later than those before it.
abbrev pub IsIncreasing : List Operation → Type 0
IsIncreasing [] = Unit
IsIncreasing (o ∷ os) = All (λ p. o.timestamp < p.timestamp) os × IsIncreasing os

All-later :
    (t : ℕ) (os : List Operation) (new : Operation)
    → All (λ p. t < p.timestamp) os
    → t < new.timestamp
    → All (λ p. t < p.timestamp) (os ++ new ∷ [])
All-later t [] new h later = (later, tt)
All-later t (o ∷ os) new (h, hs) later = (h, All-later t os new hs later)

IsIncreasing-append :
    (os : List Operation) (new : Operation)
    → last_timestamp os < new.timestamp
    → IsIncreasing os
    → IsIncreasing (os ++ new ∷ [])
unfolding last_timestamp
IsIncreasing-append [] new later h = (tt, tt)
IsIncreasing-append (o ∷ os) new later (first, rest) = (
  All-later o.timestamp os new first (omega arith),
  IsIncreasing-append os new (omega arith) rest,
)

-- The times of the operations stay strictly increasing in the order of their creation.
pub create_operation-IsIncreasing :
    (db : Database) (id : Text) (now : ℕ) (tool description : Text)
    → IsIncreasing db.undo_operations
    → IsIncreasing (create_operation db id now tool description).undo_operations
unfolding create_operation new_operation
create_operation-IsIncreasing db id now tool description h =
    IsIncreasing-append db.undo_operations _ (omega arith) h

module _ {ℓ} {A : Type ℓ} where
  take-take : (n : ℕ) (xs : List A) → take n (take (suc n) xs) ≡ take n xs
  take-take zero xs = refl
  take-take (suc n) [] = refl
  take-take (suc n) (x ∷ xs) = ap (λ ys. x ∷ ys) (take-take n xs)

  ltb-length-take : (n : ℕ) (xs : List A) → ltb n (length (take (suc n) xs)) ≡ ltb n (length xs)
  ltb-length-take n [] = refl
  ltb-length-take zero (x ∷ xs) = ground arith
  ltb-length-take (suc n) (x ∷ xs) = ground (arith, ltb-length-take n xs)

take-All {ℓ κ} : {A : Type ℓ} (P : A → Type κ) (n : ℕ) (xs : List A) → All P xs → All P (take n xs)
take-All P zero xs h = tt
take-All P (suc n) [] h = tt
take-All P (suc n) (x ∷ xs) (h, hs) = (h, take-All P n xs hs)

take-IsSorted {ℓ} :
    {A : Type ℓ} (le : A → A → Bool) (n : ℕ) (xs : List A)
    → IsSorted le xs
    → IsSorted le (take n xs)
take-IsSorted le zero xs h = tt
take-IsSorted le (suc n) [] h = tt
take-IsSorted le (suc n) (x ∷ xs) (h, hs) =
    (take-All (λ y. le x y ≡ true) n xs h, take-IsSorted le n xs hs)

length-take {ℓ} : {A : Type ℓ} (n : ℕ) (xs : List A) → length (take n xs) ≤ n
length-take zero xs = omega arith
length-take (suc n) [] = omega arith
length-take (suc n) (x ∷ xs) = omega (arith, length-take n xs)

is_newer-total : (a b : Operation) → (is_newer a b ≡ true) ⊎ (is_newer b a ≡ true)
is_newer-total a b = ground arith

is_newer_trans :
    (a b c : Operation) → is_newer a b ≡ true → is_newer b c ≡ true → is_newer a c ≡ true
is_newer_trans a b c h k = ground (arith, h, k)

-- What a listing is of all that passes its tests
abbrev pub IsListing : ListParams → List Operation → ListResult → Type 0
IsListing p found r =
    (r.operations ≡ take (limit_of p) (sort_by is_newer found))
    × (r.truncated ≡ ltb (limit_of p) (length (sort_by is_newer found)))
    × IsSorted is_newer r.operations
    × (length r.operations ≤ 100)

-- A listing has the newest of the operations that pass its tests, in order and at most a hundred of them,
-- and says exactly whether there are more.
pub list_operations-IsListing :
    (db : Database) (p : ListParams)
    → IsListing p (filter (is_listed p) db.undo_operations) (list_operations db p)
unfolding list_operations limit_of
list_operations-IsListing db p =
    let found = sort_by is_newer (filter (is_listed p) db.undo_operations) in
    (
      take-take (limit_of p) found,
      ltb-length-take (limit_of p) found,
      take-IsSorted is_newer (limit_of p) (take (suc (limit_of p)) found) (
          take-IsSorted is_newer (suc (limit_of p)) found (
            sort_by-IsSorted is_newer is_newer-total is_newer_trans
              (filter (is_listed p) db.undo_operations))),
      omega (arith, length-take (limit_of p) (take (suc (limit_of p)) found)),
    )
