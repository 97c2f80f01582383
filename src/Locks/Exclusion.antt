-- ===== src/Locks/Exclusion.antt =====
-- Mutual exclusion of the guards of src/include/core/refresh_locks.hpp.
use mathlib.Core.Option.{some-injective}
use mathlib.Core.Path.{subst}
use openivm.Base.{
  ℕ, ◌+◌, ◌≤◌, ◌≡◌, refl, sym, ap, ◌∙◌, Bool, true, false, ◌&&◌, List, [], ◌∷◌, ◌++◌, none, some,
  Bytes, bytes_eq, bytes_eq_sound, if◌then◌else◌, Bool-cases, inl, inr, arith,
}
use openivm.Locks.{
  Mutexes, set_mutex, lock, try_lock, unlock, Guard, end_guard, LockState, Step, view_guard,
  try_view_guard, delta_guard, view_guard_end, delta_guard_end, Reachable, start, next,
}

-- How many living guards own the lock of a name.
abbrev pub owners : List Guard → Bytes → ℕ
owners [] x = 0
owners (g ∷ gs) x = (if bytes_eq g.name x && g.owns_lock then 1 else 0) + owners gs x

abbrev pub held : Bool → ℕ
held locked = if locked then 1 else 0

abbrev Consistent : Mutexes → List Guard → Type 0
Consistent mutexes guards = (x : Bytes) → owners guards x ≡ held (mutexes x)

owners-append : (gs hs : List Guard) (x : Bytes) → owners (gs ++ hs) x ≡ owners gs x + owners hs x
owners-append [] hs x = omega arith
owners-append (g ∷ gs) hs x = omega (arith, owners-append gs hs x)

-- Two texts that compare as equal have the same mutex.
same_mutex :
    (mutexes : Mutexes) (name x : Bytes) → bytes_eq name x ≡ true → mutexes name ≡ mutexes x
same_mutex mutexes name x e = ap mutexes (bytes_eq_sound name x e)

-- A lock that is taken was free.
lock-some :
    (name : Bytes) (mutexes locked : Mutexes)
    → lock name mutexes ≡ some locked
    → (mutexes name ≡ false) × (set_mutex mutexes name true ≡ locked)
unfolding lock
lock-some name mutexes locked h = elim (Bool-cases (mutexes name)) [
  | inl e ↦
      absurd (
        none_not_some
          (sym (ap (λ b. if b then none else some (set_mutex mutexes name true)) e) ∙ h))
  | inr e ↦ (
    e,
    some-injective _ _
        (sym (ap (λ b. if b then none else some (set_mutex mutexes name true)) e) ∙ h),
  )
]
  where
    none_not_some : none ≡ some locked → ⊥
    none_not_some e = cc

free-Consistent :
    (name : Bytes) (mutexes : Mutexes) (guards : List Guard)
    → mutexes name ≡ false
    → Consistent mutexes guards
    → Consistent (set_mutex mutexes name true) (record { name = name; owns_lock = true } ∷ guards)
free-Consistent name mutexes guards free all x = elim (Bool-cases (bytes_eq name x)) [
  | inl e ↦ ground (arith, all x, same_mutex mutexes name x e)
  | inr e ↦ ground (arith, all x)
]

lock-Consistent :
    (name : Bytes) (mutexes locked : Mutexes) (guards : List Guard)
    → lock name mutexes ≡ some locked
    → Consistent mutexes guards
    → Consistent locked (record { name = name; owns_lock = true } ∷ guards)
lock-Consistent name mutexes locked guards h all =
    let (free, taken) = lock-some name mutexes locked h in
    subst (λ (m : Mutexes). Consistent m (record { name = name; owns_lock = true } ∷ guards)) taken
      (free-Consistent name mutexes guards free all)

try_lock-Consistent :
    (name : Bytes) (mutexes : Mutexes) (guards : List Guard)
    → Consistent mutexes guards
    → Consistent
        (try_lock name mutexes).1
        (record { name = name; owns_lock = (try_lock name mutexes).0 } ∷ guards)
unfolding try_lock
try_lock-Consistent name mutexes guards all x = elim (Bool-cases (bytes_eq name x)) [
  | inl e ↦ ground (arith, all x, same_mutex mutexes name x e)
  | inr e ↦ ground (arith, all x)
]

end_guard-Consistent :
    (before : List Guard) (guard : Guard) (after guards : List Guard) (mutexes : Mutexes)
    → guards ≡ before ++ guard ∷ after
    → Consistent mutexes guards
    → Consistent (end_guard guard mutexes) (before ++ after)
unfolding end_guard unlock
end_guard-Consistent before guard after guards mutexes split all x =
    let count =
      ap (λ (gs : List Guard). owners gs x) split ∙ owners-append before (guard ∷ after) x in
    elim (Bool-cases guard.owns_lock) [
      | inl owns ↦ rw owns (elim (Bool-cases (bytes_eq guard.name x)) [
        | inl e ↦ rw e (ground (arith, all x, count, owners-append before after x))
        | inr e ↦ rw e (ground (arith, all x, count, owners-append before after x))
      ])
      | inr other ↦ rw other (ground (arith, all x, count, owners-append before after x))
    ]

abbrev Sound : LockState → Type 0
Sound st = Consistent st.view_mutexes st.view_guards × Consistent st.delta_mutexes st.delta_guards

Step-Sound : {st st' : LockState} → Step st st' → Sound st → Sound st'
Step-Sound {st} (view_guard name mutexes h) (views, deltas) =
    (lock-Consistent name st.view_mutexes mutexes st.view_guards h views, deltas)
Step-Sound {st} (try_view_guard name) (views, deltas) =
    (try_lock-Consistent name st.view_mutexes st.view_guards views, deltas)
Step-Sound {st} (delta_guard name mutexes h) (views, deltas) =
    (views, lock-Consistent name st.delta_mutexes mutexes st.delta_guards h deltas)
Step-Sound {st} (view_guard_end before guard after split) (views, deltas) =
    (end_guard-Consistent before guard after st.view_guards st.view_mutexes split views, deltas)
Step-Sound {st} (delta_guard_end before guard after split) (views, deltas) =
    (views, end_guard-Consistent before guard after st.delta_guards st.delta_mutexes split deltas)

Reachable-Sound : {st : LockState} → Reachable st → Sound st
Reachable-Sound start = ((λ x. refl), (λ x. refl))
Reachable-Sound (next reached step) = Step-Sound step (Reachable-Sound reached)

held_most : (b : Bool) → held b ≤ 1
held_most true = omega arith
held_most false = omega arith

-- However the guards of all threads come and go: the guards that own a view's lock are as many as its
-- mutex is locked, so at most one, and the same for a delta table; and a mutex whose guards have ended
-- is free.
pub Reachable-exclusive :
    {st : LockState}
    → Reachable st
    → (x : Bytes)
    → (owners st.view_guards x ≤ 1)
      × (owners st.delta_guards x ≤ 1)
      × (owners st.view_guards x ≡ held (st.view_mutexes x))
      × (owners st.delta_guards x ≡ held (st.delta_mutexes x))
Reachable-exclusive {st} reached x =
    let (views, deltas) = Reachable-Sound reached in
    (
      omega (arith, views x, held_most (st.view_mutexes x)),
      omega (arith, deltas x, held_most (st.delta_mutexes x)),
      views x,
      deltas x,
    )
