-- ===== src/Daemon/Refreshes.antt =====
-- Which views a cycle of the refresh daemon (src/core/refresh_daemon.cpp) asks to refresh.
use openivm.Base.{
  ℕ, ◌+◌, ◌≡◌, refl, ap, ◌∙◌, ◌⊎◌, inl, inr, All, All-append, true, false, List, [], ◌∷◌, ◌++◌,
  Option, Bytes, arith, Bool-cases,
}
use openivm.Daemon.{
  ScheduledView, World, Settings, DaemonState, mem, done_with, skips, visit, visit_from, run_cycle,
  issued,
}
use openivm.Daemon.Asked.{
  mem-append_left, mem-append_right, asked, asked-append, asked-issued, append_nil,
}
use openivm.Daemon.Covers.{Covers, Covers-done_with}

-- No view is followed by one that it must not be.
abbrev pub Pairwise : (Bytes → Bytes → Type 0) → List Bytes → Type 0
Pairwise R [] = Unit
Pairwise R (u ∷ later) = All (R u) later × Pairwise R later

Pairwise-snoc :
    (R : Bytes → Bytes → Type 0) (us : List Bytes) (v : Bytes)
    → Pairwise R us
    → All (λ u. R u v) us
    → Pairwise R (us ++ v ∷ [])
Pairwise-snoc R [] v pairs all = (tt, tt)
Pairwise-snoc R (u ∷ us) v (here, pairs) (r, all) =
    (All-append (R u) us (v ∷ []) here (r, tt), Pairwise-snoc R us v pairs all)

All-map : {P Q : Bytes → Type 0} (us : List Bytes) → ((u : Bytes) → P u → Q u) → All P us → All Q us
All-map [] f all = tt
All-map (u ∷ us) f (h, all) = (f u h, All-map us f all)

module _ (settings : Settings) (world : World) where
  -- The first refresh does not cover the second view.
  abbrev pub Apart : Bytes → Bytes → Type 0
  Apart u v = Covers settings world u v → ⊥

  Marked : DaemonState → Bytes → Type 0
  Marked st u = (v : Bytes) → Covers settings world u v → mem st.refreshed_this_cycle v ≡ true

  -- The refreshes asked for so far do not cover each other, and what they cover is marked as done.
  Kept : DaemonState → Type 0
  Kept st = Pairwise Apart (asked st.statements) × All (Marked st) (asked st.statements)

  Marked-Apart :
      (st : DaemonState) (u v : Bytes)
      → mem st.refreshed_this_cycle v ≡ false
      → Marked st u
      → Apart u v
  unfolding Marked
  Marked-Apart st u v fresh marked covers = cc (fresh, marked v covers)

  not_skipped :
      (sv : ScheduledView) (st : DaemonState)
      → skips settings world sv st ≡ false
      → mem st.refreshed_this_cycle sv.view_name ≡ false
  unfolding skips
  not_skipped sv st e = ground arith

  -- The state after a turn that is not skipped, by what it asks for.
  Kept-turn :
      (sv : ScheduledView) (st next : DaemonState)
      → next.refreshed_this_cycle ≡ done_with settings world sv.view_name ++ st.refreshed_this_cycle
      → (asked next.statements ≡ asked st.statements)
        ⊎ (asked next.statements ≡ asked st.statements ++ sv.view_name ∷ [])
      → mem st.refreshed_this_cycle sv.view_name ≡ false
      → Kept st
      → Kept next
  unfolding Kept Marked
  Kept-turn sv st next done asks fresh (pairs, marked) =
      let done_before : (v : Bytes)
          → mem st.refreshed_this_cycle v ≡ true
          → mem next.refreshed_this_cycle v ≡ true =
        λ v h. rw done (mem-append_right (done_with settings world sv.view_name) _ v h) in
      let still =
        All-map (asked st.statements) (λ u m v covers. done_before v (m v covers)) marked in
      elim asks [
        | inl e ↦ rw e (pairs, still)
        | inr e ↦ rw e (
          Pairwise-snoc Apart (asked st.statements) sv.view_name pairs (
              All-map (asked st.statements) (λ u m. Marked-Apart st u sv.view_name fresh m) marked),
          All-append _ (asked st.statements) (sv.view_name ∷ []) still (
            (λ v covers. rw done (
                mem-append_left (done_with settings world sv.view_name) _ v
                  (Covers-done_with settings world sv.view_name v covers))),
            tt,
          ),
        )
      ]

  asks_of :
      (st : DaemonState) (v : Bytes)
      → (asked (st.statements ++ issued world v) ≡ asked st.statements)
        ⊎ (asked (st.statements ++ issued world v) ≡ asked st.statements ++ v ∷ [])
  asks_of st v = elim (asked-issued world v) [
    | inl e ↦ inl (
        asked-append st.statements (issued world v)
        ∙ ap (λ l. asked st.statements ++ l) e
        ∙ append_nil (asked st.statements))
    | inr e ↦
        inr (asked-append st.statements (issued world v) ∙ ap (λ l. asked st.statements ++ l) e)
  ]

  visit-Kept : (sv : ScheduledView) (st : DaemonState) → Kept st → Kept (visit settings world sv st)
  unfolding visit
  visit-Kept sv st kept = elim (Bool-cases (skips settings world sv st)) [
    | inl e ↦ rw e kept
    | inr e ↦ rw e (Kept-turn sv st _ refl (asks_of st sv.view_name) (not_skipped sv st e) kept)
  ]

  visit_from-Kept :
      (turn : ℕ) (svs : List ScheduledView) (st : DaemonState)
      → Kept st
      → Kept (visit_from settings world turn svs st)
  unfolding visit_from
  visit_from-Kept turn [] st kept = kept
  visit_from-Kept turn (sv ∷ svs) st kept = elim (Bool-cases (world.shutdown_at turn)) [
    | inl e ↦ rw e kept
    | inr e ↦
        rw e (visit_from-Kept (turn + 1) svs (visit settings world sv st) (visit-Kept sv st kept))
  ]

  -- In one cycle no view's refresh is asked for after its own, or after that of a view whose cascades
  -- reach it, whatever the hooks, the exceptions, the locks, the clock and the shutdown flag do.
  pub run_cycle-NoRepeat :
      (scheduled : List ScheduledView) (intervals : Bytes → Option ℕ)
      → Pairwise Apart (asked (run_cycle settings world scheduled intervals).statements)
  unfolding run_cycle Kept
  run_cycle-NoRepeat scheduled intervals =
      let start : DaemonState = record {
        effective_intervals = intervals;
        refreshed_this_cycle = [];
        statements = [];
      } in
      (visit_from-Kept 0 scheduled start (tt, tt)).0
