-- ===== src/Join/ForeignKeys.antt =====
-- Where a foreign key holds between two tables, a pending row of the referenced one that comes without
-- deletes is not one that an old referencing row refers to.
use openivm.Base.{
  ℕ, zero, suc, ◌+◌, ◌≡◌, refl, sym, ap, ◌∙◌, ◌⊎◌, inl, inr, Bool, true, List, [], ◌∷◌, some, arith,
  get_elem?, All, All-get,
}
use mathlib.Core.Option.{some-injective}
use native.Mathlib.Nat.{zero-add}
use openivm.Base.Int.{ℤ, pos, ◌-ℤ◌, int_laws, pos_part, neg_part}
use openivm.Join.Status.{LeafProbe, FkRelation, is_insert_only_probe}
use openivm.Join.Weights.{Cell, old}
use openivm.Join.Leaves.{
  Leaf, cells, probes_of, ProbeSound, ForeignKeyHolds, FkIntegrity, Unreferenced,
}

-- A row that was there and is not deleted still is.
still_there :
    (now d : ℤ) (n : ℕ) → (now ≡ pos 0) ⊎ (now ≡ pos 1) → d ≡ pos n → now -ℤ d ≡ pos 1 → now ≡ pos 1
still_there now d n (inl e) h k = omega (
  int_laws,
  ap pos_part e,
  ap neg_part e,
  ap pos_part h,
  ap neg_part h,
  ap pos_part k,
  ap neg_part k,
)
still_there now d n (inr e) h k = e

no_change :
    (now d : ℤ) (n : ℕ)
    → now ≡ pos 0
    → d ≡ pos n
    → (now -ℤ d ≡ pos 0) ⊎ (now -ℤ d ≡ pos 1)
    → d ≡ pos 0
no_change now d n e h (inl k) = omega (
  int_laws,
  ap pos_part e,
  ap neg_part e,
  ap pos_part h,
  ap neg_part h,
  ap pos_part k,
  ap neg_part k,
)
no_change now d n e h (inr k) = omega (
  int_laws,
  ap pos_part e,
  ap neg_part e,
  ap pos_part h,
  ap neg_part h,
  ap pos_part k,
  ap neg_part k,
)

same_before : (now d : ℤ) → now ≡ pos 1 → now -ℤ d ≡ pos 1 → d ≡ pos 0
same_before now d e k = omega (int_laws, ap pos_part e, ap neg_part e, ap pos_part k, ap neg_part k)

plus_zero : (i : ℕ) → i ≡ i + 0
plus_zero i = omega arith

plus_suc : (i j : ℕ) → suc i + j ≡ i + suc j
plus_suc i j = omega arith

module _ {Row : Type 0} where
  abbrev cell_at : Leaf Row → (ℕ → Row) → ℕ → Cell
  cell_at l rows i = record { now = l.current (rows i); delta = l.delta (rows i) }

  cells-leaf :
      (i : ℕ) (ls : List (Leaf Row)) (rows : ℕ → Row) (j : ℕ) (c : Cell)
      → get_elem? (cells i ls rows) j ≡ some c
      → (l : Leaf Row) × (get_elem? ls j ≡ some l) × (c ≡ cell_at l rows (i + j))
  cells-leaf i [] rows j c at = cc
  cells-leaf i (l ∷ ls) rows zero c at =
      (l, refl, sym (some-injective _ _ at) ∙ ap (cell_at l rows) (plus_zero i))
  cells-leaf i (l ∷ ls) rows (suc j) c at =
      let (m, at_m, same) = cells-leaf (suc i) ls rows j c at in
      (m, at_m, same ∙ ap (cell_at m rows) (plus_suc i j))

  probes_of-leaf :
      (ls : List (Leaf Row)) (j : ℕ) (l : Leaf Row) (q : LeafProbe)
      → get_elem? ls j ≡ some l
      → get_elem? (probes_of ls) j ≡ some q
      → l.probe ≡ q
  probes_of-leaf [] j l q at at' = cc
  probes_of-leaf (m ∷ ls) zero l q at at' =
      ap (λ (x : Leaf Row). x.probe) (sym (some-injective _ _ at)) ∙ some-injective _ _ at'
  probes_of-leaf (m ∷ ls) (suc j) l q at at' = probes_of-leaf ls j l q at at'

  -- The old row refers to one that was there, which no other row of that key can join.
  unreferenced_rows :
      (refers : Row → Row → Type 0) (f p : Leaf Row) (x y : Row)
      → ForeignKeyHolds refers f p
      → ProbeSound p
      → is_insert_only_probe p.probe ≡ true
      → refers x y
      → (f.current x -ℤ f.delta x ≡ pos 0) ⊎ (p.delta y ≡ pos 0)
  unreferenced_rows refers f p x y fk sound only xy = elim (fk.referenced x y xy) [
    | inl gone ↦ inl gone
    | inr (z, xz, was) ↦
        let (m, dz) = sound.no_deletes only z in
        let (n, dy) = sound.no_deletes only y in
        let is = still_there (p.current z) (p.delta z) m (fk.once z) dz was in
        elim (fk.once y) [
          | inl gone ↦ inr (no_change (p.current y) (p.delta y) n gone dy (fk.once_before y))
          | inr here ↦ inr (
              ap p.delta (fk.unique x y z xy xz here is)
              ∙ same_before (p.current z) (p.delta z) is was)
        ]
  ]

  -- At a joined row, a relation between tables whose foreign key holds.
  pub FkIntegrity-Unreferenced :
      (on : (ℕ → Row) → Bool) (ls : List (Leaf Row)) (rows : ℕ → Row) (r : FkRelation)
      → on rows ≡ true
      → All ProbeSound ls
      → FkIntegrity on ls r
      → Unreferenced (cells 0 ls rows) (probes_of ls) r
  FkIntegrity-Unreferenced on ls rows r accepted sound good = record {
    apart = good.distinct;
    unreferenced = λ f p q at_f at_p at_q only.
        let (lf, at_lf, same_f) = cells-leaf 0 ls rows r.fk_leaf f at_f in
        let (lp, at_lp, same_p) = cells-leaf 0 ls rows r.pk_leaf p at_p in
        elim (unreferenced_rows good.refers lf lp (rows r.fk_leaf) (rows r.pk_leaf)
          (good.holds lf lp at_lf at_lp) (All-get ProbeSound ls r.pk_leaf lp sound at_lp)
          (ap is_insert_only_probe (probes_of-leaf ls r.pk_leaf lp q at_lp at_q) ∙ only)
          (good.joined rows accepted)) [
            | inl gone ↦ inl (ap old same_f ∙ rw zero-add gone)
            | inr none_new ↦ inr (ap (λ (c : Cell). c.delta) same_p ∙ rw zero-add none_new)
          ];
  }

  pub All-FkIntegrity-Unreferenced :
      (on : (ℕ → Row) → Bool) (ls : List (Leaf Row)) (rows : ℕ → Row) (rs : List FkRelation)
      → on rows ≡ true
      → All ProbeSound ls
      → All (FkIntegrity on ls) rs
      → All (Unreferenced (cells 0 ls rows) (probes_of ls)) rs
  All-FkIntegrity-Unreferenced on ls rows [] accepted sound all = tt
  All-FkIntegrity-Unreferenced on ls rows (r ∷ rs) accepted sound (good, all) = (
    FkIntegrity-Unreferenced on ls rows r accepted sound good,
    All-FkIntegrity-Unreferenced on ls rows rs accepted sound all,
  )
