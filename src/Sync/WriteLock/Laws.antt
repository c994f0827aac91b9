-- ===== src/Sync/WriteLock/Laws.antt =====
-- Laws of `WriteLockManager` (src/sync/write-lock.ts).
use vault_engine.Base.{
  Text, false, List, [], ◌∷◌, ◌++◌, ◌==◌, ◌||◌, eq_iff, if◌then◌else◌, ◌≡◌, refl, arith, Bool-cases,
  inl, inr,
}
use vault_engine.Base.Dict
use vault_engine.Base.Dict.{Dict, get-set, get-delete}
use vault_engine.Sync.WriteLock.{Locks, is_locked, add, remove, release, acquire, with_lock}

contains-remove :
    (xs : List Text) (x y : Text)
    → Dict.contains (remove xs x) y ≡ (if x == y then false else Dict.contains xs y)
unfolding remove Dict.contains
contains-remove [] x y = ground arith
contains-remove (z ∷ xs) x y =
    ground (arith, eq_iff x y, eq_iff z x, eq_iff z y, contains-remove xs x y)

contains-snoc :
    (xs : List Text) (x y : Text) → Dict.contains (xs ++ x ∷ []) y ≡ (x == y || Dict.contains xs y)
unfolding Dict.contains
contains-snoc [] x y = refl
contains-snoc (z ∷ xs) x y = ground (arith, contains-snoc xs x y)

contains-add :
    (xs : List Text) (x y : Text) → Dict.contains (add xs x) y ≡ (x == y || Dict.contains xs y)
unfolding add
contains-add xs x y = ground (arith, eq_iff x y, contains-snoc xs x y)

-- The function of `withLock` runs in a state in which the path is locked, every other path is as before
-- the call, and the recent writes are those before it. Behind `withLock` the path is locked only by a
-- recent write, and every other path as the function left it; the result is that of the function.
pub with_lock-lem {ℓ} :
    {A : Type ℓ} (path : Text) (fn : Locks → Locks × A) (m : Locks) (other : Text)
    → (is_locked (acquire m path) other ≡ (path == other || is_locked m other))
      × ((acquire m path).recent_writes ≡ m.recent_writes)
      × (is_locked (with_lock path fn m).0 other ≡ (
          if path == other
          then Dict.has (fn (acquire m path)).0.recent_writes other
          else is_locked (fn (acquire m path)).0 other))
      × ((with_lock path fn m).1 ≡ (fn (acquire m path)).1)
unfolding with_lock release is_locked acquire
with_lock-lem path fn m other = (
  ground (arith, contains-add m.locks path other),
  refl,
  rw (contains-remove (fn (acquire m path)).0.locks path other)
      (elim (Bool-cases (path == other)) [ inl e ↦ rw e refl | inr e ↦ rw e refl ]),
  refl,
)
