-- ===== src/Sync/WriteLock.antt =====
-- src/sync/write-lock.ts: `WriteLockManager`. A timer is a number that `setTimeout` gives; `fire` is
-- the run of its callback.
pub mod Laws
use vault_engine.Base.{
  ℕ, zero, suc, ◌+◌, Text, Bool, true, false, not, ◌||◌, Option, none, some, List, [], ◌∷◌, ◌++◌,
  eqb, filter, map, if◌then◌else◌, ◌==◌,
}
use vault_engine.Base.Dict
use vault_engine.Base.Dict.{Dict}

pub record Locks : Type 0 where
  pub locks : List Text
  pub recent_writes : Dict ℕ
  -- the timers that are set, with the path each one's callback deletes
  pub timers : List (ℕ × Text)
  pub next_timer : ℕ

abbrev pub fresh : Locks
fresh = record { locks = []; recent_writes = []; timers = []; next_timer = 0 }

unfoldable pub is_locked : Locks → Text → Bool
is_locked m path = Dict.contains m.locks path || Dict.has m.recent_writes path

-- `Set.prototype.add` and `delete`
unfoldable pub add : List Text → Text → List Text
add xs x = if Dict.contains xs x then xs else xs ++ x ∷ []

unfoldable pub remove : List Text → Text → List Text
remove xs x = filter (λ y. not (y == x)) xs

abbrev pub with_locks : Locks → List Text → Locks
with_locks m ls = record {
  locks = ls;
  recent_writes = m.recent_writes;
  timers = m.timers;
  next_timer = m.next_timer;
}

unfoldable pub acquire : Locks → Text → Locks
acquire m path = with_locks m (add m.locks path)

unfoldable pub release : Locks → Text → Locks
release m path = with_locks m (remove m.locks path)

-- `withLock` and `withLockSync`: `fn` gives the state it leaves and its result or exception, and the
-- lock goes either way.
unfoldable pub with_lock {ℓ} : {A : Type ℓ} → Text → (Locks → Locks × A) → Locks → Locks × A
with_lock path fn m = let (left, a) = fn (acquire m path) in (release left path, a)

unfoldable pub clear_timeout : List (ℕ × Text) → ℕ → List (ℕ × Text)
clear_timeout [] t = []
clear_timeout ((u, path) ∷ ts) t =
    let rest = clear_timeout ts t in if eqb u t then rest else (u, path) ∷ rest

abbrev cleared : List (ℕ × Text) → Option ℕ → List (ℕ × Text)
cleared ts none = ts
cleared ts (some t) = clear_timeout ts t

unfoldable pub mark_recent_write : Text → Locks → Locks
mark_recent_write path m = record {
  locks = m.locks;
  recent_writes = Dict.set m.recent_writes path m.next_timer;
  timers = cleared m.timers (Dict.get m.recent_writes path) ++ (m.next_timer, path) ∷ [];
  next_timer = suc m.next_timer;
}

unfoldable pub timer_path : List (ℕ × Text) → ℕ → Option Text
timer_path [] t = none
timer_path ((u, path) ∷ ts) t = if eqb u t then some path else timer_path ts t

abbrev forget : Option Text → Dict ℕ → Dict ℕ
forget none m = m
forget (some path) m = Dict.delete m path

-- A timer that is still set runs once.
unfoldable pub fire : ℕ → Locks → Locks
fire t m = record {
  locks = m.locks;
  recent_writes = forget (timer_path m.timers t) m.recent_writes;
  timers = clear_timeout m.timers t;
  next_timer = m.next_timer;
}

unfoldable pub clear_all : List (ℕ × Text) → Dict ℕ → List (ℕ × Text)
clear_all ts [] = ts
clear_all ts ((path, t) ∷ m) = clear_all (clear_timeout ts t) m

unfoldable pub clear_recent_writes : Locks → Locks
clear_recent_writes m = record {
  locks = m.locks;
  recent_writes = [];
  timers = clear_all m.timers m.recent_writes;
  next_timer = m.next_timer;
}
