-- ===== src/Join/Correct.antt =====
-- The terms that `BuildInclusionExclusionTerms` keeps add up to the change of the join.
use openivm.Base.{
  ℕ, zero, suc, ◌-◌, ◌^◌, ◌≤◌, ◌≡◌, refl, sym, ap, ◌∙◌, inl, inr, Bool, true, false, List, [], ◌∷◌,
  map, Option, some, arith, Bool-cases, length, get_elem?, All, All-both,
}
use mathlib.Core.Option.{some-injective}
use openivm.Base.Int.{pos, ◌-ℤ◌, int_laws}
use openivm.Join.Mask.{overlaps}
use openivm.Join.MaskLaws.{overlaps-bit}
use openivm.Join.Status.{
  LeafTable, LeafProbe, detect_delta_status, detect_fk_relations, is_empty_probe,
}
use openivm.Join.StatusLaws.{skip_bits_sound, detect_fk_relations-lt}
use openivm.Join.Terms.{Settings, KeyContext, key_domain_empty, plan_pruning, prunes, build_terms}
use openivm.Join.Weights.{Cell, old, now_of, product, term_weight, union_weight}
use openivm.Join.Leaves.{
  Leaf, cells, probes_of, tables_of, join_now, join_old, join_delta, ProbeSound, FkIntegrity,
  Unreferenced, KeySound,
}
use openivm.Join.ForeignKeys.{All-FkIntegrity-Unreferenced}
use openivm.Join.Expansion.{sum-term_weight}
use openivm.Join.ZeroTerms.{union-terms_from}
use openivm.Join.Pruned

module _ (cs : List Cell) (probes : List LeafProbe) (same : length cs ≡ length probes)
    (empty_sound : (i : ℕ) (c : Cell) (p : LeafProbe)
      → get_elem? cs i ≡ some c
      → get_elem? probes i ≡ some p
      → is_empty_probe p ≡ true
      → c.delta ≡ pos 0)
    (settings : Settings) (tables : List (Option LeafTable)) (k : KeyContext)
    (same_tables : length tables ≡ length cs) (small : length cs ≤ 16)
    (integrity : settings.fk_pruning ≡ true
      → All (Unreferenced cs probes) (detect_fk_relations tables))
    (keys : settings.skip_empty_deltas ≡ true → KeySound k cs) where
  skipped_mask :
      (mask : ℕ)
      → overlaps
          (length probes)
          mask
          (plan_pruning settings false tables
            (length probes)
            (detect_delta_status probes)).skip_bits
        ≡ true
      → term_weight cs mask ≡ pos 0
  skipped_mask mask h =
      let (i, lt, set, e) = overlaps-bit (length probes) mask _ h in
      let (on, one, skipped) =
        Pruned.plan_skip_bits cs probes same empty_sound settings tables i e in
      let (r, (good, lt_f), at, only) =
        skip_bits_sound (detect_fk_relations tables) (detect_delta_status probes).insert_only_mask i
          (All-both _ _ (detect_fk_relations tables) (integrity on) (detect_fk_relations-lt tables))
          skipped in
      Pruned.skipped_leaf cs probes same empty_sound mask r small one good (rw at only)
        (omega arith) (omega arith) (rw at set)

  probed_mask :
      (mask : ℕ)
      → (plan_pruning settings false tables (length probes) (detect_delta_status probes)).probe_keys
        ≡ true
      → key_domain_empty k (length probes) mask ≡ true
      → term_weight cs mask ≡ pos 0
  unfolding key_domain_empty
  probed_mask mask probing h =
      let sound =
        keys (Pruned.plan_probe_keys cs probes same empty_sound settings tables probing) in
      let (j, lt, set, hit) = Pruned.key_domain_loop_sound k mask (length probes) 0 h in
      let (p, lt', found) = Pruned.any_probe_sound k mask j (k.probes j) (sound.in_range j) hit in
      Pruned.probed_leaf cs probes same empty_sound k mask j p sound (omega arith) lt' set found

  -- Every mask that the loop passes over.
  prunes_sound :
      (mask : ℕ)
      → prunes
          (plan_pruning settings false tables (length probes) (detect_delta_status probes))
          k
          (length probes)
          mask
        ≡ true
      → term_weight cs mask ≡ pos 0
  unfolding prunes
  prunes_sound mask h =
      let plan = plan_pruning settings false tables (length probes) (detect_delta_status probes) in
      let n = length probes in
      elim (Bool-cases (overlaps n mask plan.skip_bits)) [
        | inl skip ↦ skipped_mask mask skip
        | inr no_skip ↦ elim (Bool-cases (overlaps n mask plan.empty_mask)) [
          | inl empty ↦
              let (i, lt, set, e) = overlaps-bit n mask plan.empty_mask empty in
              Pruned.empty_leaf cs probes same empty_sound mask i (omega arith) set
                (Pruned.plan_empty_mask cs probes same empty_sound settings tables i e)
          | inr no_empty ↦ probed_mask mask (ground arith) (ground arith)
        ]
      ]

  union-build_terms :
      union_weight cs (build_terms settings false tables probes k)
      ≡ product (map now_of cs) -ℤ product (map old cs)
  unfolding build_terms
  union-build_terms =
      union-terms_from
        (plan_pruning settings false tables (length probes) (detect_delta_status probes)) k
        (length probes) (2 ^ length probes - 1) 1 cs prunes_sound
      ∙ rw (← same) (sum-term_weight cs)

module _ {Row : Type 0} where
  length-cells :
      (i : ℕ) (ls : List (Leaf Row)) (rows : ℕ → Row) → length (cells i ls rows) ≡ length ls
  length-cells i [] rows = refl
  length-cells i (l ∷ ls) rows = ap suc (length-cells (suc i) ls rows)

  length-probes_of : (ls : List (Leaf Row)) → length (probes_of ls) ≡ length ls
  length-probes_of [] = refl
  length-probes_of (l ∷ ls) = ap suc (length-probes_of ls)

  length-tables_of : (ls : List (Leaf Row)) → length (tables_of ls) ≡ length ls
  length-tables_of [] = refl
  length-tables_of (l ∷ ls) = ap suc (length-tables_of ls)

  cells-empty :
      (i : ℕ) (ls : List (Leaf Row)) (rows : ℕ → Row)
      → All ProbeSound ls
      → (j : ℕ) (c : Cell) (p : LeafProbe) → get_elem? (cells i ls rows) j ≡ some c
      → get_elem? (probes_of ls) j ≡ some p
      → is_empty_probe p ≡ true
      → c.delta ≡ pos 0
  cells-empty i [] rows sound j c p at at' empty = cc
  cells-empty i (l ∷ ls) rows (here, sound) zero c p at at' empty =
      ap (λ (d : Cell). d.delta) (sym (some-injective _ _ at))
      ∙ here.no_rows (ap is_empty_probe (some-injective _ _ at') ∙ empty) (rows i)
  cells-empty i (l ∷ ls) rows (here, sound) (suc j) c p at at' empty =
      cells-empty (suc i) ls rows sound j c p at at' empty

  -- For a join of at most 16 inner leaves, whatever the settings: the terms that the compiler keeps
  -- yield, at every joined row, the weight of the row in the join of the current tables less its
  -- weight in the join of the tables as they were before the pending deltas. The status query is
  -- right about leaves without pending rows or without pending deletes; where foreign keys are used
  -- for pruning, the database keeps them before and after the deltas, and the join condition is on
  -- their columns; where keys are probed, the probes are right.
  pub join_delta_correct :
      (settings : Settings) (k : KeyContext) (on : (ℕ → Row) → Bool) (ls : List (Leaf Row))
      (rows : ℕ → Row)
      → length ls ≤ 16
      → All ProbeSound ls
      → (settings.fk_pruning ≡ true → All (FkIntegrity on ls) (detect_fk_relations (tables_of ls)))
      → (on rows ≡ true → settings.skip_empty_deltas ≡ true → KeySound k (cells 0 ls rows))
      → join_delta settings k on ls rows ≡ join_now on ls rows -ℤ join_old on ls rows
  join_delta_correct settings k on ls rows small sound integrity keys =
      elim (Bool-cases (on rows)) [
        | inl yes_on ↦ rw yes_on (
            union-build_terms (cells 0 ls rows) (probes_of ls)
              (length-cells 0 ls rows ∙ sym (length-probes_of ls)) (cells-empty 0 ls rows sound)
              settings (tables_of ls) k (length-tables_of ls ∙ sym (length-cells 0 ls rows))
              (omega (arith, length-cells 0 ls rows))
              (λ used.
                All-FkIntegrity-Unreferenced on ls rows (detect_fk_relations (tables_of ls)) yes_on
                  sound (integrity used))
              (keys yes_on))
        | inr off ↦ rw off (omega int_laws)
      ]
