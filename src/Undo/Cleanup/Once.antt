-- ===== src/Undo/Cleanup/Once.antt =====
-- Laws of `runUndoCleanup` (src/undo/cleanup.ts).
use vault_engine.Base.{
  ℕ, Bool, not, ◌&&◌, List, [], ◌∷◌, ◌≡◌, refl, inl, inr, Bool-cases, arith, filter,
}
use vault_engine.Store.{Operation, Status}
use vault_engine.Undo.Operation.{status_eq}
use vault_engine.Undo.Cleanup.{is_old, expire, expire_all, is_orphan, clean_operations}

-- What one look at an operation tells: it has not expired in an earlier run, it was not undone before the
-- limit, and it is no old one without snapshots.
abbrev pub stays : ℕ → ℕ → Operation → Bool
stays limit orphan_limit o =
    not (status_eq o.status Status.expired)
    && not (is_old limit Status.undone o)
    && not (is_orphan orphan_limit o)

is_old-expire :
    (limit : ℕ) (o : Operation)
    → is_old limit Status.undone (expire limit o) ≡ is_old limit Status.undone o
is_old-expire limit o = ground arith

is_orphan-expire :
    (limit orphan_limit : ℕ) (o : Operation)
    → is_orphan orphan_limit (expire limit o) ≡ is_orphan orphan_limit o
is_orphan-expire limit orphan_limit o = elim (Bool-cases (is_old limit Status.active o)) [
  | inl e ↦ rw e refl
  | inr e ↦ rw e refl
]

-- The four statements of a clean-up are one look at each operation: those that stay, of which the active
-- ones before the limit expire.
pub clean_operations-one_look :
    (limit orphan_limit : ℕ) (os : List Operation)
    → clean_operations limit orphan_limit os
      ≡ expire_all limit (filter (stays limit orphan_limit) os)
unfolding clean_operations expire_all
clean_operations-one_look limit orphan_limit [] = refl
clean_operations-one_look limit orphan_limit (o ∷ os) = ground (
  arith,
  clean_operations-one_look limit orphan_limit os,
  is_old-expire limit o,
  is_orphan-expire limit orphan_limit o,
)
