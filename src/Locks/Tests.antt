-- ===== src/Locks/Tests.antt =====
-- One thread refreshes a view while another looks whether it can (src/core/refresh_locks.cpp).
use openivm.Base.{Option, ◌≤◌, ◌≡◌, refl, true, false, [], ◌∷◌, Bytes, codes}
use openivm.Locks.{
  LockState, initial, set_mutex, lock, try_lock, view_guard, try_view_guard, Reachable, start, next,
}
use openivm.Locks.Exclusion
use openivm.Locks.Exclusion.{owners, held}

abbrev view_a : Bytes
view_a = codes "a"

abbrev refreshing : LockState
refreshing = record initial {
  view_mutexes = set_mutex initial.view_mutexes view_a true;
  view_guards = record { name = view_a; owns_lock = true } ∷ [];
}

abbrev probed : LockState
probed = record refreshing {
  view_mutexes = (try_lock view_a refreshing.view_mutexes).1;
  view_guards =
      record { name = view_a; owns_lock = (try_lock view_a refreshing.view_mutexes).0 }
      ∷ refreshing.view_guards;
}

free_at_first :
    lock view_a initial.view_mutexes ≡ Option.some (set_mutex initial.view_mutexes view_a true)
unfolding lock
free_at_first = refl

probe_fails : (try_lock view_a refreshing.view_mutexes).0 ≡ false
unfolding try_lock
probe_fails = refl

probed-Reachable : Reachable probed
probed-Reachable =
    next (next start (view_guard view_a (set_mutex initial.view_mutexes view_a true) free_at_first))
      (try_view_guard view_a)

Reachable-exclusive_example :
    (owners probed.view_guards view_a ≤ 1)
    × (owners probed.delta_guards view_a ≤ 1)
    × (owners probed.view_guards view_a ≡ held (probed.view_mutexes view_a))
    × (owners probed.delta_guards view_a ≡ held (probed.delta_mutexes view_a))
Reachable-exclusive_example = Exclusion.Reachable-exclusive {st = probed} probed-Reachable view_a
