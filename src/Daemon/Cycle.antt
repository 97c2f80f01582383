-- ===== src/Daemon/Cycle.antt =====
-- The intervals that a cycle of the refresh daemon (src/core/refresh_daemon.cpp) leaves behind.
use openivm.Base.{
  ℕ, ◌+◌, ◌*◌, ◌≤◌, ltb, ◌&&◌, List, [], ◌∷◌, Option, none, Bytes, arith, bytes_eq, Bool-cases, inl,
  inr,
}
use openivm.Daemon.{
  ScheduledView, World, Settings, DaemonState, max_backoff_seconds, min, back_off, skips, visit,
  visit_from, run_cycle, set_interval, or_interval,
}

module _ (settings : Settings) (world : World) where
  abbrev pub Capped : (Bytes → Option ℕ) → Type 0
  Capped intervals = (x : Bytes) → or_interval (intervals x) 0 ≤ max_backoff_seconds

  set_interval-Capped :
      (intervals : Bytes → Option ℕ) (view_name : Bytes) (entry : Option ℕ)
      → Capped intervals
      → or_interval entry 0 ≤ max_backoff_seconds
      → Capped (set_interval intervals view_name entry)
  set_interval-Capped intervals view_name entry capped fits x =
      elim (Bool-cases (bytes_eq view_name x)) [ inl e ↦ rw e fits | inr e ↦ rw e (capped x) ]

  min-fits : (a : ℕ) → min a max_backoff_seconds ≤ max_backoff_seconds
  min-fits a = ground arith

  back_off-Capped :
      (sv : ScheduledView) (intervals : Bytes → Option ℕ)
      → Capped intervals
      → Capped (back_off settings world sv intervals)
  unfolding back_off
  back_off-Capped sv intervals capped =
      let slow =
        settings.adaptive_backoff
        && ltb sv.interval_seconds (world.duration_seconds sv.view_name) in
      let current = or_interval (intervals sv.view_name) sv.interval_seconds in
      elim (Bool-cases slow) [
        | inl e ↦
            rw e (set_interval-Capped intervals sv.view_name _ capped (min-fits (current * 2)))
        | inr e ↦ rw e (elim (Bool-cases settings.adaptive_backoff) [
          | inl on ↦ rw on (set_interval-Capped intervals sv.view_name none capped (omega arith))
          | inr off ↦ rw off capped
        ])
      ]

  visit-Capped :
      (sv : ScheduledView) (st : DaemonState)
      → Capped st.effective_intervals
      → Capped (visit settings world sv st).effective_intervals
  unfolding visit
  visit-Capped sv st capped = elim (Bool-cases (skips settings world sv st)) [
    | inl e ↦ rw e capped
    | inr e ↦ rw e (back_off-Capped sv st.effective_intervals capped)
  ]

  visit_from-Capped :
      (turn : ℕ) (svs : List ScheduledView) (st : DaemonState)
      → Capped st.effective_intervals
      → Capped (visit_from settings world turn svs st).effective_intervals
  unfolding visit_from
  visit_from-Capped turn [] st capped = capped
  visit_from-Capped turn (sv ∷ svs) st capped = elim (Bool-cases (world.shutdown_at turn)) [
    | inl e ↦ rw e capped
    | inr e ↦
        rw e (
          visit_from-Capped (turn + 1) svs (visit settings world sv st) (visit-Capped sv st capped))
  ]

  -- If no interval that is backed off is longer than MAX_BACKOFF_SECONDS, none is after the cycle.
  pub run_cycle-Capped :
      (scheduled : List ScheduledView) (intervals : Bytes → Option ℕ)
      → Capped intervals
      → (view : Bytes)
      → or_interval ((run_cycle settings world scheduled intervals).effective_intervals view) 0
        ≤ max_backoff_seconds
  unfolding run_cycle
  run_cycle-Capped scheduled intervals capped =
      visit_from-Capped 0 scheduled
        (record { effective_intervals = intervals; refreshed_this_cycle = []; statements = [] })
        capped
