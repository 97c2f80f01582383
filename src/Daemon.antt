-- ===== src/Daemon.antt =====
-- src/core/refresh_daemon.cpp: one cycle of the refresh daemon. What the database and the clock answer
-- is a parameter: whether a view's last update is too recent, whether its lock is taken, which hook it
-- has, after how many statements an exception ends its turn, how long the turn takes, which views
-- depend on it, and at which turn the shutdown flag is seen. A statement that fails only prints a
-- warning, so it is issued all the same.
use openivm.Base.{
  ℕ, zero, suc, ◌+◌, ◌*◌, Bool, true, false, ◌&&◌, ◌||◌, not, List, [], ◌∷◌, ◌++◌, Option, none,
  some, Bytes, codes, bytes_eq, is_empty, ltb, take, if◌then◌else◌,
}
pub mod Asked
pub mod Covers
pub mod Complete
pub mod Refreshes
pub mod Cycle
mod Tests

-- `ScheduledView`
pub record ScheduledView : Type 0 where
  pub view_name : Bytes
  pub interval_seconds : ℕ
  pub last_update : Bytes

-- What the daemon sends to the database for a view: the SQL of its hook, or `PRAGMA refresh`.
pub data Statement : Type 0 where
  run_hook pragma_refresh : Bytes → Statement

-- `hook` is the SQL and the mode in lower case; `none` is an error or no row. `interrupted` is after how
-- many statements of the view an exception is thrown, if one is.
pub record World : Type 0 where
  pub shutdown_at : ℕ → Bool
  pub elapsed_below : Bytes → ℕ → Bool
  pub is_locked : Bytes → Bool
  pub hook : Bytes → Option (Bytes × Bytes)
  pub interrupted : Bytes → Option ℕ
  pub duration_seconds : Bytes → ℕ
  pub get_downstream_views : Bytes → List Bytes
  pub get_upstream_views : Bytes → List Bytes

pub record Settings : Type 0 where
  pub cascade_mode : Bytes
  pub adaptive_backoff : Bool

-- What the cycle changes, and the statements that it has issued, in this order.
pub record DaemonState : Type 0 where
  pub effective_intervals : Bytes → Option ℕ
  pub refreshed_this_cycle : List Bytes
  pub statements : List Statement

abbrev pub max_backoff_seconds : ℕ
max_backoff_seconds = 86400

unfoldable pub mem : List Bytes → Bytes → Bool
mem [] x = false
mem (y ∷ ys) x = bytes_eq y x || mem ys x

-- `effective_intervals_[view_name] = entry`, or its `erase`
abbrev pub set_interval : (Bytes → Option ℕ) → Bytes → Option ℕ → Bytes → Option ℕ
set_interval intervals view_name entry x = if bytes_eq view_name x then entry else intervals x

-- `std::min`
abbrev pub min : ℕ → ℕ → ℕ
min a b = if ltb b a then b else a

abbrev pub or_interval : Option ℕ → ℕ → ℕ
or_interval none configured = configured
or_interval (some i) configured = i

unfoldable pub before_hook : Bytes → Bytes → Bytes → List Statement
before_hook view_name hook_sql hook_mode =
    if not (is_empty hook_sql) && bytes_eq hook_mode (codes "before")
    then run_hook view_name ∷ []
    else []

unfoldable pub after_hook : Bytes → Bytes → Bytes → List Statement
after_hook view_name hook_sql hook_mode =
    if not (is_empty hook_sql)
      && (bytes_eq hook_mode (codes "after") || bytes_eq hook_mode (codes "replace"))
    then run_hook view_name ∷ []
    else []

-- A hook of mode "replace" takes the place of the refresh.
unfoldable pub own_refresh : Bytes → Bytes → List Statement
own_refresh view_name hook_mode =
    if bytes_eq hook_mode (codes "replace") then [] else pragma_refresh view_name ∷ []

unfoldable pub hooked : Bytes → Option (Bytes × Bytes) → List Statement
unfolding before_hook own_refresh after_hook
hooked view_name none = own_refresh view_name []
hooked view_name (some (hook_sql, hook_mode)) =
    before_hook view_name hook_sql hook_mode
    ++ own_refresh view_name hook_mode
    ++ after_hook view_name hook_sql hook_mode

unfoldable pub up_to_exception : Option ℕ → List Statement → List Statement
up_to_exception none steps = steps
up_to_exception (some n) steps = take n steps

-- The body of the `try`.
unfoldable pub issued : World → Bytes → List Statement
unfolding hooked up_to_exception
issued world view_name =
    up_to_exception (world.interrupted view_name) (hooked view_name (world.hook view_name))

module _ (settings : Settings) (world : World) where
  abbrev cascades : Bytes → Bool
  cascades direction =
      bytes_eq settings.cascade_mode direction || bytes_eq settings.cascade_mode (codes "both")

  -- A view and the views that its refresh cascades to, which are marked as done in any case.
  unfoldable pub done_with : Bytes → List Bytes
  done_with view_name =
      let down =
        if cascades (codes "downstream") then world.get_downstream_views view_name else [] in
      let up = if cascades (codes "upstream") then world.get_upstream_views view_name else [] in
      up ++ down ++ view_name ∷ []

  -- The adaptive backoff.
  unfoldable pub back_off : ScheduledView → (Bytes → Option ℕ) → Bytes → Option ℕ
  back_off sv intervals =
      let name = sv.view_name in
      let current = or_interval (intervals name) sv.interval_seconds in
      if settings.adaptive_backoff && ltb sv.interval_seconds (world.duration_seconds name)
      then set_interval intervals name (some (min (current * 2) max_backoff_seconds))
      else if settings.adaptive_backoff
      then set_interval intervals name none
      else intervals

  -- The early `continue`s: the view is done, not due, or being refreshed.
  unfoldable pub skips : ScheduledView → DaemonState → Bool
  skips sv st =
      let interval = or_interval (st.effective_intervals sv.view_name) sv.interval_seconds in
      mem st.refreshed_this_cycle sv.view_name
      || (not (is_empty sv.last_update) && world.elapsed_below sv.view_name interval)
      || world.is_locked sv.view_name

  -- One turn of the loop over the scheduled views.
  unfoldable pub visit : ScheduledView → DaemonState → DaemonState
  unfolding skips done_with back_off issued
  visit sv st = if skips sv st then st else record {
    effective_intervals = back_off sv st.effective_intervals;
    refreshed_this_cycle = done_with sv.view_name ++ st.refreshed_this_cycle;
    statements = st.statements ++ issued world sv.view_name;
  }

  unfoldable pub visit_from : ℕ → List ScheduledView → DaemonState → DaemonState
  unfolding visit
  visit_from turn [] st = st
  visit_from turn (sv ∷ svs) st =
      if world.shutdown_at turn then st else visit_from (turn + 1) svs (visit sv st)

  -- The body of `Run`'s loop, from the intervals that the last cycle left.
  unfoldable pub run_cycle : List ScheduledView → (Bytes → Option ℕ) → DaemonState
  unfolding visit_from
  run_cycle scheduled intervals =
      visit_from 0 scheduled
        (record { effective_intervals = intervals; refreshed_this_cycle = []; statements = [] })
