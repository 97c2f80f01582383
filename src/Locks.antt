-- ===== src/Locks.antt =====
-- src/core/refresh_locks.cpp and src/include/core/refresh_locks.hpp: the mutexes of views and of delta
-- tables, and the guards that hold them. Threads take turns: a step is the construction or the end of
-- one guard. A mutex that is not in the map yet is free.
use openivm.Base.{
  ◌≡◌, Bool, true, false, not, List, [], ◌∷◌, ◌++◌, Option, none, some, Bytes, bytes_eq,
  if◌then◌else◌,
}
pub mod Exclusion
mod Tests

-- `view_mutexes_` and `delta_mutexes_`: whether the mutex of a name is locked.
abbrev pub Mutexes : Type 0
Mutexes = Bytes → Bool

abbrev pub set_mutex : Mutexes → Bytes → Bool → Mutexes
set_mutex mutexes name locked x = if bytes_eq name x then locked else mutexes x

-- `LockView` and `LockDelta`; none while the call waits.
unfoldable pub lock : Bytes → Mutexes → Option Mutexes
lock name mutexes = if mutexes name then none else some (set_mutex mutexes name true)

-- `TryLockView`
unfoldable pub try_lock : Bytes → Mutexes → Bool × Mutexes
try_lock name mutexes = (not (mutexes name), set_mutex mutexes name true)

-- `UnlockView` and `UnlockDelta`
unfoldable pub unlock : Bytes → Mutexes → Mutexes
unlock name mutexes = set_mutex mutexes name false

-- `ViewLockGuard` and `DeltaLockGuard`, which always own their lock, and `TryViewLockGuard`.
pub record Guard : Type 0 where
  pub name : Bytes
  pub owns_lock : Bool

-- The end of a guard.
unfoldable pub end_guard : Guard → Mutexes → Mutexes
unfolding unlock
end_guard guard mutexes = if guard.owns_lock then unlock guard.name mutexes else mutexes

-- The mutexes, and the guards that are alive in any thread.
pub record LockState : Type 0 where
  pub view_mutexes : Mutexes
  pub delta_mutexes : Mutexes
  pub view_guards : List Guard
  pub delta_guards : List Guard

abbrev pub initial : LockState
initial = record {
  view_mutexes = λ name. false;
  delta_mutexes = λ name. false;
  view_guards = [];
  delta_guards = [];
}

pub data Step (st : LockState) : LockState → Type 0 where
  view_guard :
      (name : Bytes) (mutexes : Mutexes)
      → lock name st.view_mutexes ≡ some mutexes
      → Step st (record st {
        view_mutexes = mutexes;
        view_guards = record { name = name; owns_lock = true } ∷ st.view_guards;
      })
  try_view_guard :
      (name : Bytes)
      → Step st (record st {
        view_mutexes = (try_lock name st.view_mutexes).1;
        view_guards =
            record { name = name; owns_lock = (try_lock name st.view_mutexes).0 } ∷ st.view_guards;
      })
  delta_guard :
      (name : Bytes) (mutexes : Mutexes)
      → lock name st.delta_mutexes ≡ some mutexes
      → Step st (record st {
        delta_mutexes = mutexes;
        delta_guards = record { name = name; owns_lock = true } ∷ st.delta_guards;
      })
  view_guard_end :
      (before : List Guard) (guard : Guard) (after : List Guard)
      → st.view_guards ≡ before ++ guard ∷ after
      → Step st (record st {
        view_mutexes = end_guard guard st.view_mutexes;
        view_guards = before ++ after;
      })
  delta_guard_end :
      (before : List Guard) (guard : Guard) (after : List Guard)
      → st.delta_guards ≡ before ++ guard ∷ after
      → Step st (record st {
        delta_mutexes = end_guard guard st.delta_mutexes;
        delta_guards = before ++ after;
      })

pub data Reachable : LockState → Type 0 where
  start : Reachable initial
  next : {st st' : LockState} → Reachable st → Step st st' → Reachable st'
