-- ===== src/Join/Pruned.antt =====
-- Every term that the loop of `BuildInclusionExclusionTerms` leaves out has weight zero.
use openivm.Base.{
  ℕ, zero, suc, ◌+◌, ◌-◌, ◌^◌, ◌<◌, ◌≤◌, ◌≡◌, ap, ◌∙◌, inl, inr, true, false, List, [], ◌∷◌, Option,
  some, arith, Bool-cases, length, get_elem?, get_elem?-lt, All,
}
use openivm.Base.Int.{ℤ, pos, ◌+ℤ◌, ◌-ℤ◌, int_laws}
use openivm.Join.Mask.{bit, and_not, count_bits}
use openivm.Join.MaskLaws.{bit-and_bits, bit-and_not, bit-all_ones, count_bits_unique, bit-zero}
use openivm.Join.Status.{
  LeafTable, LeafProbe, FkRelation, detect_delta_status, detect_fk_relations, compute_skip_bits,
  is_empty_probe, is_insert_only_probe,
}
use openivm.Join.StatusLaws.{empty_mask_sound, constant_mask_sound, insert_only_mask_sound}
use openivm.Join.Terms.{
  Settings, KeyContext, KeyProbe, any_probe_empty, probe_empty, key_domain_loop, non_empty_mask,
  plan_pruning,
}
use openivm.Join.Weights.{Cell, old, term_weight}
use openivm.Join.Leaves.{Unreferenced, KeySound}
use openivm.Join.ZeroTerms.{term_zero_delta, term_zero_now}

module _ (k : KeyContext) (mask : ℕ) where
  -- a probe that ends the term, and what it found
  pub any_probe_sound :
      {P : KeyProbe → Type 0} (i : ℕ) (ps : List KeyProbe)
      → All P ps
      → any_probe_empty k mask i ps ≡ true
      → (p : KeyProbe) × P p × (probe_empty k mask i p ≡ true)
  unfolding any_probe_empty
  any_probe_sound i [] all h = cc
  any_probe_sound i (p ∷ ps) (here, all) h = elim (Bool-cases (probe_empty k mask i p)) [
    | inl hit ↦ (p, here, hit)
    | inr miss ↦ any_probe_sound i ps all (ground arith)
  ]

  pub key_domain_loop_sound :
      (n i : ℕ)
      → key_domain_loop k mask n i ≡ true
      → (j : ℕ) × (j < i + n) × (bit mask j ≡ true) × (any_probe_empty k mask j (k.probes j) ≡ true)
  unfolding key_domain_loop
  key_domain_loop_sound zero i h = cc
  key_domain_loop_sound (suc n) i h = elim (Bool-cases (key_domain_loop k mask n (suc i))) [
    | inl later ↦
        let (j, lt, set, hit) = key_domain_loop_sound n (suc i) later in (j, omega arith, set, hit)
    | inr not_later ↦ (i, omega arith, ground arith, ground arith)
  ]

-- a joined row whose referencing part was not there before the deltas and has none pending
add_back : (a d : ℤ) → a ≡ a -ℤ d +ℤ d
add_back a d = omega int_laws

now_zero : (c : Cell) → old c ≡ pos 0 → c.delta ≡ pos 0 → c.now ≡ pos 0
now_zero c gone z =
    add_back c.now c.delta ∙ ap (λ (t : ℤ). t +ℤ c.delta) gone ∙ rw z (omega int_laws)

module _ {cs : List Cell} {probes : List LeafProbe} where
  skipped_row :
      (mask : ℕ) (r : FkRelation) (f p : Cell) (q : LeafProbe)
      → get_elem? cs r.fk_leaf ≡ some f
      → get_elem? cs r.pk_leaf ≡ some p
      → get_elem? probes r.pk_leaf ≡ some q
      → is_insert_only_probe q ≡ true
      → bit mask r.pk_leaf ≡ true
      → Unreferenced cs probes r
      → f.delta ≡ pos 0
      → term_weight cs mask ≡ pos 0
  skipped_row mask r f p q at_f at_p at_q only set integrity no_delta =
      elim (integrity.unreferenced f p q at_f at_p at_q only) [
        | inr z ↦ term_zero_delta mask r.pk_leaf cs p at_p set z
        | inl gone ↦ elim (Bool-cases (bit mask r.fk_leaf)) [
          | inl both ↦ term_zero_delta mask r.fk_leaf cs f at_f both no_delta
          | inr alone ↦ term_zero_now mask r.fk_leaf cs f at_f alone (now_zero f gone no_delta)
        ]
      ]

module _ (cs : List Cell) (probes : List LeafProbe) (same : length cs ≡ length probes)
    (empty_sound : (i : ℕ) (c : Cell) (p : LeafProbe)
      → get_elem? cs i ≡ some c
      → get_elem? probes i ≡ some p
      → is_empty_probe p ≡ true
      → c.delta ≡ pos 0) where
  -- a leaf in the empty mask
  pub empty_leaf :
      (mask i : ℕ)
      → i < length cs
      → bit mask i ≡ true
      → bit (detect_delta_status probes).empty_mask i ≡ true
      → term_weight cs mask ≡ pos 0
  empty_leaf mask i lt set empty =
      let (c, at) = get_elem?-lt cs i lt in
      let (p, at', e) = empty_mask_sound probes i empty in
      term_zero_delta mask i cs c at set (empty_sound i c p at at' e)

  -- a leaf outside the non-empty mask has no pending row
  non_empty_leaf :
      (i : ℕ) (c : Cell)
      → get_elem? cs i ≡ some c
      → i < length cs
      → bit (non_empty_mask (length probes) (detect_delta_status probes)) i ≡ false
      → c.delta ≡ pos 0
  unfolding non_empty_mask
  non_empty_leaf i c at lt clear =
      let s = detect_delta_status probes in
      let n = length probes in
      elim (Bool-cases (bit s.empty_mask i)) [
        | inl e ↦
            let (p, at', empty) = empty_mask_sound probes i e in empty_sound i c p at at' empty
        | inr ne ↦ elim (Bool-cases (bit s.constant_mask i)) [
          | inl e ↦
              let (p, at', empty) = constant_mask_sound probes i e in empty_sound i c p at at' empty
          | inr nc ↦
              let lt' : i < n = omega arith in
              cc (
                clear,
                bit-and_not n (and_not n (2 ^ n - 1) s.empty_mask) s.constant_mask i lt'
                    (bit-and_not n (2 ^ n - 1) s.empty_mask i lt' (bit-all_ones n i lt') ne) nc,
              )
        ]
      ]

  -- the only leaf with pending rows is referenced, and no old referencing row meets it
  pub skipped_leaf :
      (mask : ℕ) (r : FkRelation)
      → length cs ≤ 16
      → count_bits (non_empty_mask (length probes) (detect_delta_status probes)) ≡ 1
      → Unreferenced cs probes r
      → bit (detect_delta_status probes).insert_only_mask r.pk_leaf ≡ true
      → r.fk_leaf < length cs
      → r.pk_leaf < length cs
      → bit mask r.pk_leaf ≡ true
      → term_weight cs mask ≡ pos 0
  skipped_leaf mask r small one integrity insert_only lt_f lt_p set =
      let (f, at_f) = get_elem?-lt cs r.fk_leaf lt_f in
      let (p, at_p) = get_elem?-lt cs r.pk_leaf lt_p in
      let m = non_empty_mask (length probes) (detect_delta_status probes) in
      elim (Bool-cases (bit m r.pk_leaf)) [
        | inr clear ↦
            term_zero_delta mask r.pk_leaf cs p at_p set
              (non_empty_leaf r.pk_leaf p at_p lt_p clear)
        | inl pk ↦ elim (Bool-cases (bit m r.fk_leaf)) [
          | inl fk ↦ absurd (
              count_bits_unique m r.fk_leaf r.pk_leaf one (omega arith) (omega arith) fk pk
                integrity.apart)
          | inr clear ↦
              let (q, at_q, only) = insert_only_mask_sound probes r.pk_leaf insert_only in
              skipped_row mask r f p q at_f at_p at_q only set integrity
                (non_empty_leaf r.fk_leaf f at_f lt_f clear)
        ]
      ]

  -- a key probe that found no match
  pub probed_leaf :
      (k : KeyContext) (mask j : ℕ) (p : KeyProbe)
      → KeySound k cs
      → j < length cs
      → p.other_leaf < length cs
      → bit mask j ≡ true
      → probe_empty k mask j p ≡ true
      → term_weight cs mask ≡ pos 0
  unfolding probe_empty
  probed_leaf k mask j p sound lt lt' set hit =
      let (c, at) = get_elem?-lt cs j lt in
      let (d, at') = get_elem?-lt cs p.other_leaf lt' in
      elim (Bool-cases (bit mask p.other_leaf)) [
        | inl both ↦ elim (sound.delta_sound j p c d (ground arith) at at') [
          | inl z ↦ term_zero_delta mask j cs c at set z
          | inr z ↦ term_zero_delta mask p.other_leaf cs d at' both z
        ]
        | inr alone ↦ elim (sound.base_sound j p c d (ground arith) at at') [
          | inl z ↦ term_zero_delta mask j cs c at set z
          | inr z ↦ term_zero_now mask p.other_leaf cs d at' alone z
        ]
      ]

  -- the masks that the settings turn on
  pub plan_empty_mask :
      (settings : Settings) (tables : List (Option LeafTable)) (i : ℕ)
      → bit
          (plan_pruning settings false tables
            (length probes)
            (detect_delta_status probes)).empty_mask
          i
        ≡ true
      → bit (detect_delta_status probes).empty_mask i ≡ true
  unfolding plan_pruning
  plan_empty_mask settings tables i h =
      let s = detect_delta_status probes in
      ground (arith, bit-zero i, bit-and_bits (length probes) s.empty_mask s.constant_mask i)

  pub plan_skip_bits :
      (settings : Settings) (tables : List (Option LeafTable)) (i : ℕ)
      → bit
          (plan_pruning settings false tables
            (length probes)
            (detect_delta_status probes)).skip_bits
          i
        ≡ true
      → (settings.fk_pruning ≡ true)
        × (count_bits (non_empty_mask (length probes) (detect_delta_status probes)) ≡ 1)
        × (bit
              (compute_skip_bits
                (detect_fk_relations tables)
                (detect_delta_status probes).insert_only_mask)
              i
            ≡ true)
  unfolding plan_pruning
  plan_skip_bits settings tables i h = ground (arith, bit-zero i)

  pub plan_probe_keys :
      (settings : Settings) (tables : List (Option LeafTable))
      → (plan_pruning settings false tables (length probes) (detect_delta_status probes)).probe_keys
        ≡ true
      → settings.skip_empty_deltas ≡ true
  unfolding plan_pruning
  plan_probe_keys settings tables h = ground arith
