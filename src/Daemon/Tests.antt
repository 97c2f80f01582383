-- ===== src/Daemon/Tests.antt =====
-- A cycle over three views, in the terms of src/core/refresh_daemon.cpp: the second depends on the
-- first, and the refresh of the first is slow.
use openivm.Base.{
  ℕ, ◌≡◌, ◌≤◌, refl, true, false, List, [], ◌∷◌, Option, none, some, Bool-cases, inl, inr, Bytes,
  codes, bytes_eq, arith, if◌then◌else◌,
}
use openivm.Daemon.{
  or_interval, max_backoff_seconds, ScheduledView, World, Settings, mem, done_with, back_off, skips,
  visit, visit_from, run_cycle, run_hook, pragma_refresh, issued, hooked, before_hook, own_refresh,
  after_hook, up_to_exception,
}
use openivm.Daemon.Cycle
use openivm.Daemon.Cycle.{Capped}
use openivm.Daemon.Asked.{asked, mode_of}
use openivm.Daemon.Covers.{Refreshed}
use openivm.Daemon.Complete
use openivm.Daemon.Refreshes
use openivm.Daemon.Refreshes.{Pairwise, Apart}

abbrev settings : Settings
settings = record { cascade_mode = codes "downstream"; adaptive_backoff = true }

abbrev downstream_of : Bytes → List Bytes
downstream_of view = if bytes_eq view (codes "a") then codes "b" ∷ [] else []

abbrev hook_of : Bytes → Option (Bytes × Bytes)
hook_of view = if bytes_eq view (codes "c") then some (codes "x", codes "after") else none

abbrev world : World
world = record {
  shutdown_at = λ turn. false;
  elapsed_below = λ view interval. false;
  is_locked = λ view. false;
  hook = hook_of;
  interrupted = λ view. none;
  duration_seconds = λ view. if bytes_eq view (codes "a") then 90 else 1;
  get_downstream_views = downstream_of;
  get_upstream_views = λ view. [];
}

abbrev every_minute : Bytes → ScheduledView
every_minute view = record { view_name = view; interval_seconds = 60; last_update = [] }

abbrev scheduled : List ScheduledView
scheduled = every_minute (codes "a") ∷ every_minute (codes "b") ∷ every_minute (codes "c") ∷ []

abbrev no_intervals : Bytes → Option ℕ
no_intervals view = none

no_intervals-Capped : Capped settings world no_intervals
no_intervals-Capped view = omega arith

refreshes_two :
    (run_cycle settings world scheduled no_intervals).statements
    ≡ pragma_refresh (codes "a") ∷ pragma_refresh (codes "c") ∷ run_hook (codes "c") ∷ []
unfolding run_cycle visit_from visit skips done_with back_off mem issued hooked before_hook
    own_refresh after_hook up_to_exception
refreshes_two = refl

run_cycle-NoRepeat_example :
    Pairwise
      (Apart settings world)
      (asked (run_cycle settings world scheduled no_intervals).statements)
run_cycle-NoRepeat_example = Refreshes.run_cycle-NoRepeat settings world scheduled no_intervals

run_cycle-Capped_example :
    or_interval
      ((run_cycle settings world scheduled no_intervals).effective_intervals (codes "a"))
      0
    ≤ max_backoff_seconds
run_cycle-Capped_example =
    Cycle.run_cycle-Capped settings world scheduled no_intervals no_intervals-Capped (codes "a")

never_stops : (n : ℕ) → world.shutdown_at n ≡ false
never_stops n = refl

never_throws : (v : Bytes) → world.interrupted v ≡ none
never_throws v = refl

no_replace : (v : Bytes) → bytes_eq (mode_of (world.hook v)) (codes "replace") ≡ false
no_replace v = elim (Bool-cases (bytes_eq v (codes "c"))) [ inl e ↦ rw e refl | inr e ↦ rw e refl ]

-- The second view is refreshed by cascade.
run_cycle-refreshes_example :
    Refreshed settings world
      (run_cycle settings world scheduled no_intervals).statements
      (codes "b")
run_cycle-refreshes_example =
    Complete.run_cycle-refreshes settings world never_throws no_replace scheduled no_intervals 1
      (every_minute (codes "b")) never_stops refl refl refl
