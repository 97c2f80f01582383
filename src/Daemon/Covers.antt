-- ===== src/Daemon/Covers.antt =====
-- Which views a refresh of another covers, in the terms of src/core/refresh_daemon.cpp.
use openivm.Base.{
  ◌≡◌, refl, sym, ap, ◌∙◌, ◌⊎◌, inl, inr, Bool, true, false, ◌||◌, List, [], ◌∷◌, ◌++◌, Bytes,
  codes, arith, bytes_eq, bytes_eq_refl, bytes_eq_sound, Bool-cases, if◌then◌else◌,
}
use mathlib.Core.Path.{subst}
use openivm.Daemon.{Statement, World, Settings, mem, done_with}
use openivm.Daemon.Asked.{mem-append, mem-append_left, mem-append_right, asked}

if_mem :
    (b : Bool) (views : List Bytes) (v : Bytes)
    → mem (if b then views else []) v ≡ true
    → (b ≡ true) × (mem views v ≡ true)
unfolding mem
if_mem true views v h = (refl, h)
if_mem false views v h = cc

module _ (settings : Settings) (world : World) where
  -- The setting asks for cascades in this direction.
  abbrev pub Cascades : Bytes → Type 0
  Cascades direction = (settings.cascade_mode ≡ direction) ⊎ (settings.cascade_mode ≡ codes "both")

  -- A refresh of a view refreshes another too: it is the same, or the cascades reach it.
  abbrev pub Covers : Bytes → Bytes → Type 0
  Covers u v =
      (u ≡ v)
      ⊎ (Cascades (codes "downstream") × (mem (world.get_downstream_views u) v ≡ true))
      ⊎ (Cascades (codes "upstream") × (mem (world.get_upstream_views u) v ≡ true))

  -- The refresh of the view is asked for, or that of a view which covers it.
  abbrev pub Refreshed : List Statement → Bytes → Type 0
  Refreshed statements v = (u : Bytes) × (mem (asked statements) u ≡ true) × Covers u v

  cascade_on :
      (direction : Bytes)
      → Cascades direction
      → (bytes_eq settings.cascade_mode direction || bytes_eq settings.cascade_mode (codes "both"))
        ≡ true
  cascade_on direction (inl e) =
      rw (ap (λ m. bytes_eq m direction) e ∙ bytes_eq_refl direction) refl
  cascade_on direction (inr e) =
      let both = ap (λ m. bytes_eq m (codes "both")) e ∙ bytes_eq_refl (codes "both") in
      ground (arith, both)

  on-cascade :
      (direction : Bytes)
      → (bytes_eq settings.cascade_mode direction || bytes_eq settings.cascade_mode (codes "both"))
        ≡ true
      → Cascades direction
  on-cascade direction h = elim (Bool-cases (bytes_eq settings.cascade_mode direction)) [
    | inl e ↦ inl (bytes_eq_sound settings.cascade_mode direction e)
    | inr e ↦ inr (bytes_eq_sound settings.cascade_mode (codes "both") (ground arith))
  ]

  mem_self : (u : Bytes) → mem (u ∷ []) u ≡ true
  unfolding mem
  mem_self u = rw (bytes_eq_refl u) refl

  self_mem : (u v : Bytes) → mem (u ∷ []) v ≡ true → u ≡ v
  unfolding mem
  self_mem u v h = bytes_eq_sound u v (ground arith)

  followed : Bytes → List Bytes → List Bytes
  followed direction views =
      if bytes_eq settings.cascade_mode direction || bytes_eq settings.cascade_mode (codes "both")
      then views
      else []

  mem-followed :
      (direction : Bytes) (views : List Bytes) (v : Bytes)
      → Cascades direction
      → mem views v ≡ true
      → mem (followed direction views) v ≡ true
  unfolding followed
  mem-followed direction views v on h = rw (cascade_on direction on) h

  followed-mem :
      (direction : Bytes) (views : List Bytes) (v : Bytes)
      → mem (followed direction views) v ≡ true
      → Cascades direction × (mem views v ≡ true)
  unfolding followed
  followed-mem direction views v h =
      let (on, at) =
        if_mem
          (bytes_eq settings.cascade_mode direction
            || bytes_eq settings.cascade_mode (codes "both"))
          views v h in
      (on-cascade direction on, at)

  upstream_of : Bytes → List Bytes
  upstream_of u = followed (codes "upstream") (world.get_upstream_views u)

  downstream_of : Bytes → List Bytes
  downstream_of u = followed (codes "downstream") (world.get_downstream_views u)

  done_with-parts :
      (u : Bytes) → done_with settings world u ≡ upstream_of u ++ downstream_of u ++ u ∷ []
  unfolding done_with upstream_of downstream_of followed
  done_with-parts u = refl

  -- What the cycle marks as done after the turn of a view is what its refresh covers.
  pub Covers-done_with : (u v : Bytes) → Covers u v → mem (done_with settings world u) v ≡ true
  unfolding upstream_of downstream_of
  Covers-done_with u v (inl e) = rw (done_with-parts u) (
      mem-append_right (upstream_of u ++ downstream_of u) (u ∷ []) v
        (subst (λ x. mem (u ∷ []) x ≡ true) e (mem_self u)))
  Covers-done_with u v (inr (inl (on, h))) = rw (done_with-parts u) (
      mem-append_left (upstream_of u ++ downstream_of u) (u ∷ []) v (
        mem-append_right (upstream_of u) (downstream_of u) v
          (mem-followed (codes "downstream") (world.get_downstream_views u) v on h)))
  Covers-done_with u v (inr (inr (on, h))) = rw (done_with-parts u) (
      mem-append_left (upstream_of u ++ downstream_of u) (u ∷ []) v (
        mem-append_left (upstream_of u) (downstream_of u) v
          (mem-followed (codes "upstream") (world.get_upstream_views u) v on h)))

  pub done_with-Covers : (u v : Bytes) → mem (done_with settings world u) v ≡ true → Covers u v
  unfolding upstream_of downstream_of
  done_with-Covers u v h =
      elim (mem-append (upstream_of u ++ downstream_of u) (u ∷ []) v
        (ap (λ l. mem l v) (sym (done_with-parts u)) ∙ h)) [
          | inr own ↦ inl (self_mem u v own)
          | inl cascade ↦ elim (mem-append (upstream_of u) (downstream_of u) v cascade) [
            | inl up ↦ inr (inr (followed-mem (codes "upstream") (world.get_upstream_views u) v up))
            | inr down ↦
                inr (inl (followed-mem (codes "downstream") (world.get_downstream_views u) v down))
          ]
        ]
