-- ===== src/Daemon/Asked.antt =====
-- The refreshes that the daemon (src/core/refresh_daemon.cpp) asks for, and which views they cover.
use openivm.Base.{
  ℕ, zero, suc, ◌≡◌, refl, ap, ◌∙◌, ◌⊎◌, inl, inr, true, false, List, [], ◌∷◌, ◌++◌, Option, none,
  some, Bytes, codes, arith, bytes_eq, Bool-cases, take,
}
use openivm.Daemon.{
  World, Statement, run_hook, pragma_refresh, mem, before_hook, after_hook, own_refresh, hooked,
  issued, up_to_exception,
}

pub mem-append_right : (xs ys : List Bytes) (x : Bytes) → mem ys x ≡ true → mem (xs ++ ys) x ≡ true
unfolding mem
mem-append_right [] ys x h = h
mem-append_right (y ∷ xs) ys x h = ground (arith, mem-append_right xs ys x h)

pub mem-append_left : (xs ys : List Bytes) (x : Bytes) → mem xs x ≡ true → mem (xs ++ ys) x ≡ true
unfolding mem
mem-append_left [] ys x h = cc
mem-append_left (y ∷ xs) ys x h = elim (Bool-cases (bytes_eq y x)) [
  | inl e ↦ rw e refl
  | inr e ↦ ground (arith, mem-append_left xs ys x (ground arith))
]

pub mem-append :
    (xs ys : List Bytes) (x : Bytes)
    → mem (xs ++ ys) x ≡ true
    → (mem xs x ≡ true) ⊎ (mem ys x ≡ true)
unfolding mem
mem-append [] ys x h = inr h
mem-append (y ∷ xs) ys x h = elim (Bool-cases (bytes_eq y x)) [
  | inl e ↦ inl (rw e refl)
  | inr e ↦ elim (mem-append xs ys x (ground arith)) [ inl l ↦ inl (ground arith) | inr r ↦ inr r ]
]

-- The views whose refresh is asked for, the first one first.
abbrev pub asked : List Statement → List Bytes
asked [] = []
asked (run_hook v ∷ ss) = asked ss
asked (pragma_refresh v ∷ ss) = v ∷ asked ss

pub asked-append : (ss ts : List Statement) → asked (ss ++ ts) ≡ asked ss ++ asked ts
asked-append [] ts = refl
asked-append (run_hook v ∷ ss) ts = asked-append ss ts
asked-append (pragma_refresh v ∷ ss) ts = ap (λ (l : List Bytes). v ∷ l) (asked-append ss ts)

asked-take : (n : ℕ) (ss : List Statement) → (m : ℕ) × (asked (take n ss) ≡ take m (asked ss))
asked-take zero ss = (0, refl)
asked-take (suc n) [] = (0, refl)
asked-take (suc n) (run_hook v ∷ ss) = asked-take n ss
asked-take (suc n) (pragma_refresh v ∷ ss) =
    let (m, e) = asked-take n ss in (suc m, ap (λ (l : List Bytes). v ∷ l) e)

asked-before_hook : (v sql mode : Bytes) → asked (before_hook v sql mode) ≡ []
unfolding before_hook
asked-before_hook v sql mode = ground arith

asked-after_hook : (v sql mode : Bytes) → asked (after_hook v sql mode) ≡ []
unfolding after_hook
asked-after_hook v sql mode = ground arith

pub append_nil : (xs : List Bytes) → xs ++ [] ≡ xs
append_nil [] = refl
append_nil (x ∷ xs) = ap (λ (l : List Bytes). x ∷ l) (append_nil xs)

-- The mode of a hook; without one it is empty.
abbrev pub mode_of : Option (Bytes × Bytes) → Bytes
mode_of none = []
mode_of (some (hook_sql, hook_mode)) = hook_mode

asked-hooked :
    (v : Bytes) (hook : Option (Bytes × Bytes))
    → asked (hooked v hook) ≡ asked (own_refresh v (mode_of hook))
unfolding hooked
asked-hooked v none = refl
asked-hooked v (some (hook_sql, hook_mode)) =
    asked-append (before_hook v hook_sql hook_mode ++ own_refresh v hook_mode)
      (after_hook v hook_sql hook_mode)
    ∙ ap
        (λ (l : List Bytes).
          asked (before_hook v hook_sql hook_mode ++ own_refresh v hook_mode) ++ l)
        (asked-after_hook v hook_sql hook_mode)
    ∙ append_nil _
    ∙ asked-append (before_hook v hook_sql hook_mode) (own_refresh v hook_mode)
    ∙ ap (λ (l : List Bytes). l ++ asked (own_refresh v hook_mode))
        (asked-before_hook v hook_sql hook_mode)

take_nil : (n : ℕ) → take {A = Bytes} n [] ≡ []
take_nil zero = refl
take_nil (suc n) = refl

at_most :
    (v : Bytes) (n : ℕ) (xs : List Bytes)
    → (xs ≡ []) ⊎ (xs ≡ v ∷ [])
    → (take n xs ≡ []) ⊎ (take n xs ≡ v ∷ [])
at_most v n xs (inl e) = inl (ap (take n) e ∙ take_nil n)
at_most v zero xs (inr e) = inl refl
at_most v (suc n) xs (inr e) =
    inr (ap (take (suc n)) e ∙ ap (λ (l : List Bytes). v ∷ l) (take_nil n))

asked-own_refresh :
    (v mode : Bytes) → (asked (own_refresh v mode) ≡ []) ⊎ (asked (own_refresh v mode) ≡ v ∷ [])
unfolding own_refresh
asked-own_refresh v mode = elim (Bool-cases (bytes_eq mode (codes "replace"))) [
  | inl e ↦ inl (rw e refl)
  | inr e ↦ inr (rw e refl)
]

asked-hooked_once :
    (v : Bytes) (hook : Option (Bytes × Bytes))
    → (asked (hooked v hook) ≡ []) ⊎ (asked (hooked v hook) ≡ v ∷ [])
asked-hooked_once v hook = elim (asked-own_refresh v (mode_of hook)) [
  | inl e ↦ inl (asked-hooked v hook ∙ e)
  | inr e ↦ inr (asked-hooked v hook ∙ e)
]

asked-up_to_exception :
    (v : Bytes) (interrupted : Option ℕ) (ss : List Statement)
    → (asked ss ≡ []) ⊎ (asked ss ≡ v ∷ [])
    → (asked (up_to_exception interrupted ss) ≡ [])
      ⊎ (asked (up_to_exception interrupted ss) ≡ v ∷ [])
unfolding up_to_exception
asked-up_to_exception v none ss h = h
asked-up_to_exception v (some n) ss h =
    let (m, e) = asked-take n ss in
    elim (at_most v m (asked ss) h) [ inl k ↦ inl (e ∙ k) | inr k ↦ inr (e ∙ k) ]

-- A turn asks for the refresh of its view at most, and for it once.
pub asked-issued :
    (world : World) (v : Bytes) → (asked (issued world v) ≡ []) ⊎ (asked (issued world v) ≡ v ∷ [])
unfolding issued
asked-issued world v =
    asked-up_to_exception v (world.interrupted v) (hooked v (world.hook v))
      (asked-hooked_once v (world.hook v))

-- Without an exception, and unless a hook takes its place, it does ask for it.
pub asked-issued_full :
    (world : World) (v : Bytes)
    → world.interrupted v ≡ none
    → bytes_eq (mode_of (world.hook v)) (codes "replace") ≡ false
    → asked (issued world v) ≡ v ∷ []
unfolding issued up_to_exception own_refresh
asked-issued_full world v no_exception own =
    ap (λ (n : Option ℕ). asked (up_to_exception n (hooked v (world.hook v)))) no_exception
    ∙ asked-hooked v (world.hook v)
    ∙ rw own refl
