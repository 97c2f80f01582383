-- ===== src/Daemon/Complete.antt =====
-- A cycle of the refresh daemon (src/core/refresh_daemon.cpp) leaves no view out that is ready.
use openivm.Base.{
  ℕ, zero, suc, ◌+◌, ◌≡◌, refl, ap, inl, inr, get_elem?, true, false, ◌||◌, List, [], ◌∷◌, ◌++◌,
  Option, none, some, Bytes, codes, arith, bytes_eq, bytes_eq_refl, Bool-cases, is_empty,
}
use mathlib.Core.Option.{some-injective}
use openivm.Daemon.{
  ScheduledView, World, Settings, DaemonState, mem, done_with, skips, visit, visit_from, run_cycle,
  issued,
}
use openivm.Daemon.Asked.{
  mem-append, mem-append_left, mem-append_right, asked, asked-append, mode_of, asked-issued_full,
}
use openivm.Daemon.Covers.{Refreshed, Covers-done_with, done_with-Covers}

unmarked : (v : Bytes) → mem [] v ≡ true → ⊥
unfolding mem
unmarked v h = cc

module _ (settings : Settings) (world : World)
    (no_exception : (v : Bytes) → world.interrupted v ≡ none)
    (no_replace : (v : Bytes) → bytes_eq (mode_of (world.hook v)) (codes "replace") ≡ false) where
  -- What is marked as done has been refreshed.
  abbrev Honest : DaemonState → Type 0
  Honest st =
      (v : Bytes) → mem st.refreshed_this_cycle v ≡ true → Refreshed settings world st.statements v

  Refreshed-later :
      (st : DaemonState) (v w : Bytes)
      → Refreshed settings world st.statements v
      → Refreshed settings world (st.statements ++ issued world w) v
  Refreshed-later st v w (u, at, covers) = (
    u,
    rw (asked-append st.statements (issued world w))
        (mem-append_left (asked st.statements) (asked (issued world w)) u at),
    covers,
  )

  own_turn : (st : DaemonState) (w : Bytes) → mem (asked (st.statements ++ issued world w)) w ≡ true
  own_turn st w = rw (asked-append st.statements (issued world w)) (
      mem-append_right (asked st.statements) (asked (issued world w)) w (
        rw (asked-issued_full world w (no_exception w) (no_replace w))
          (unfold mem in ap (λ b. b || false) (bytes_eq_refl w))))

  visit-Honest :
      (sv : ScheduledView) (st : DaemonState) → Honest st → Honest (visit settings world sv st)
  unfolding visit
  visit-Honest sv st honest = elim (Bool-cases (skips settings world sv st)) [
    | inl e ↦ rw e honest
    | inr e ↦ rw e (λ v h.
        elim (mem-append (done_with settings world sv.view_name) st.refreshed_this_cycle v h) [
          | inl now ↦ (
            sv.view_name,
            own_turn st sv.view_name,
            done_with-Covers settings world sv.view_name v now,
          )
          | inr before ↦ Refreshed-later st v sv.view_name (honest v before)
        ])
  ]

  visit_from-Honest :
      (turn : ℕ) (svs : List ScheduledView) (st : DaemonState)
      → Honest st
      → Honest (visit_from settings world turn svs st)
  unfolding visit_from
  visit_from-Honest turn [] st honest = honest
  visit_from-Honest turn (sv ∷ svs) st honest = elim (Bool-cases (world.shutdown_at turn)) [
    | inl e ↦ rw e honest
    | inr e ↦
        rw e (
          visit_from-Honest (turn + 1) svs (visit settings world sv st) (visit-Honest sv st honest))
  ]

  visit-keeps :
      (sv : ScheduledView) (st : DaemonState) (x : Bytes)
      → mem st.refreshed_this_cycle x ≡ true
      → mem (visit settings world sv st).refreshed_this_cycle x ≡ true
  unfolding visit
  visit-keeps sv st x h = elim (Bool-cases (skips settings world sv st)) [
    | inl e ↦ rw e h
    | inr e ↦ rw e (mem-append_right (done_with settings world sv.view_name) _ x h)
  ]

  visit_from-keeps :
      (turn : ℕ) (svs : List ScheduledView) (st : DaemonState) (x : Bytes)
      → mem st.refreshed_this_cycle x ≡ true
      → mem (visit_from settings world turn svs st).refreshed_this_cycle x ≡ true
  unfolding visit_from
  visit_from-keeps turn [] st x h = h
  visit_from-keeps turn (sv ∷ svs) st x h = elim (Bool-cases (world.shutdown_at turn)) [
    | inl e ↦ rw e h
    | inr e ↦
        rw e
          (visit_from-keeps (turn + 1) svs (visit settings world sv st) x (visit-keeps sv st x h))
  ]

  skips-done :
      (sv : ScheduledView) (st : DaemonState)
      → is_empty sv.last_update ≡ true
      → world.is_locked sv.view_name ≡ false
      → skips settings world sv st ≡ true
      → mem st.refreshed_this_cycle sv.view_name ≡ true
  unfolding skips
  skips-done sv st fresh free e = ground arith

  -- A view that is ready is done after its turn.
  visit-done :
      (sv : ScheduledView) (st : DaemonState)
      → is_empty sv.last_update ≡ true
      → world.is_locked sv.view_name ≡ false
      → mem (visit settings world sv st).refreshed_this_cycle sv.view_name ≡ true
  unfolding visit
  visit-done sv st fresh free = elim (Bool-cases (skips settings world sv st)) [
    | inl e ↦ rw e (skips-done sv st fresh free e)
    | inr e ↦ rw e (
        mem-append_left (done_with settings world sv.view_name) _ sv.view_name
          (Covers-done_with settings world sv.view_name sv.view_name (inl refl)))
  ]

  visit_from-runs :
      (turn : ℕ) (sv : ScheduledView) (svs : List ScheduledView) (st : DaemonState)
      → world.shutdown_at turn ≡ false
      → visit_from settings world turn (sv ∷ svs) st
        ≡ visit_from settings world (turn + 1) svs (visit settings world sv st)
  unfolding visit_from
  visit_from-runs turn sv svs st e = rw e refl

  visit_from-done :
      (turn : ℕ) (svs : List ScheduledView) (st : DaemonState) (i : ℕ) (sv : ScheduledView)
      → ((n : ℕ) → world.shutdown_at n ≡ false)
      → get_elem? svs i ≡ some sv
      → is_empty sv.last_update ≡ true
      → world.is_locked sv.view_name ≡ false
      → mem (visit_from settings world turn svs st).refreshed_this_cycle sv.view_name ≡ true
  visit_from-done turn [] st i sv runs at fresh free = cc
  visit_from-done turn (x ∷ svs) st zero sv runs at fresh free =
      let same = some-injective _ _ at in
      rw (visit_from-runs turn x svs st (runs turn)) (
        visit_from-keeps (turn + 1) svs (visit settings world x st) sv.view_name
          (rw same (visit-done sv st fresh free)))
  visit_from-done turn (x ∷ svs) st (suc i) sv runs at fresh free =
      rw (visit_from-runs turn x svs st (runs turn))
        (visit_from-done (turn + 1) svs (visit settings world x st) i sv runs at fresh free)

  -- If no shutdown cuts the cycle off, no turn is ended by an exception and no hook takes the place of
  -- a refresh, then for every scheduled view that has never been refreshed and whose lock is free the
  -- cycle asks for its refresh, or for that of a view whose cascades reach it.
  pub run_cycle-refreshes :
      (scheduled : List ScheduledView) (intervals : Bytes → Option ℕ) (i : ℕ) (sv : ScheduledView)
      → ((n : ℕ) → world.shutdown_at n ≡ false)
      → get_elem? scheduled i ≡ some sv
      → is_empty sv.last_update ≡ true
      → world.is_locked sv.view_name ≡ false
      → Refreshed settings world
          (run_cycle settings world scheduled intervals).statements
          sv.view_name
  unfolding run_cycle
  run_cycle-refreshes scheduled intervals i sv runs found fresh free =
      let start : DaemonState = record {
        effective_intervals = intervals;
        refreshed_this_cycle = [];
        statements = [];
      } in
      visit_from-Honest 0 scheduled start (λ v h. absurd (unmarked v h)) sv.view_name
        (visit_from-done 0 scheduled start i sv runs found fresh free)
