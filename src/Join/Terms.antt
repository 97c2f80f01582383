-- ===== src/Join/Terms.antt =====
-- src/delta/operators/join.cpp: the loop of `BuildInclusionExclusionTerms` over the leaf masks, for
-- a join of inner leaves. Settings and the answers of the key probes are values it takes.
use openivm.Base.{
  ℕ, zero, suc, ◌+◌, ◌-◌, ◌^◌, Bool, false, ◌&&◌, ◌||◌, not, List, [], ◌∷◌, Option, Bytes, ◌==◌,
  ltb, is_empty, if◌then◌else◌, length,
}
use openivm.Join.Mask.{bit, overlaps, and_bits, and_not, count_bits}
use openivm.Join.Status.{
  LeafTable, LeafProbe, DeltaStatus, detect_delta_status, detect_fk_relations, compute_skip_bits,
}

pub record Settings : Type 0 where
  pub fk_pruning : Bool
  pub skip_empty_deltas : Bool
  pub compile_only : Bool

pub record KeyProbe : Type 0 where
  pub other_leaf : ℕ
  pub delta_column : Bytes
  pub other_column : Bytes

-- What the compiler knows of the join keys: for each leaf whether its refresh time is known and the
-- key pairs that it takes part in; and the answers of the two EXISTS queries.
pub record KeyContext : Type 0 where
  pub known : ℕ → Bool
  pub probes : ℕ → List KeyProbe
  pub delta_match : ℕ → KeyProbe → Bool
  pub base_match : ℕ → KeyProbe → Bool

-- The probes of leaf i: true as soon as one of them proves that the term has no row.
module _ (k : KeyContext) (mask : ℕ) where
  unfoldable pub probe_empty : ℕ → KeyProbe → Bool
  probe_empty i p =
      if not (k.known p.other_leaf)
      then false
      else if bit mask p.other_leaf
      then (if ltb p.other_leaf i then false else not (k.delta_match i p))
      else not (k.base_match i p)

  unfoldable pub any_probe_empty : ℕ → List KeyProbe → Bool
  any_probe_empty i [] = false
  any_probe_empty i (p ∷ ps) = probe_empty i p || any_probe_empty i ps

  -- rounds left, and the leaf at hand
  unfoldable pub key_domain_loop : ℕ → ℕ → Bool
  key_domain_loop zero i = false
  key_domain_loop (suc n) i =
      (if not (bit mask i) || is_empty (k.probes i) || not (k.known i)
        then false
        else any_probe_empty i (k.probes i))
      || key_domain_loop n (suc i)

unfoldable pub key_domain_empty : KeyContext → ℕ → ℕ → Bool
unfolding key_domain_loop any_probe_empty probe_empty
key_domain_empty k n mask = key_domain_loop k mask n 0

-- The masks that the loop over the terms tests against.
pub record Pruning : Type 0 where
  pub skip_bits : ℕ
  pub empty_mask : ℕ
  pub probe_keys : Bool

unfoldable pub non_empty_mask : ℕ → DeltaStatus → ℕ
non_empty_mask n s = and_not n (and_not n (2 ^ n - 1) s.empty_mask) s.constant_mask

unfoldable pub plan_pruning : Settings → Bool → List (Option LeafTable) → ℕ → DeltaStatus → Pruning
unfolding non_empty_mask
plan_pruning settings has_left_join tables n s =
    let non_empty = non_empty_mask n s in
    let non_empty_leaf_count = count_bits non_empty in
    let all_tiny = not (non_empty == 0) && (and_not n non_empty s.tiny_mask == 0) in
    record {
      skip_bits =
          if settings.fk_pruning && (non_empty_leaf_count == 1)
          then compute_skip_bits (detect_fk_relations tables) s.insert_only_mask
          else 0;
      empty_mask =
          if settings.skip_empty_deltas
          then (if settings.compile_only
              then and_bits n s.empty_mask s.constant_mask
              else s.empty_mask)
          else 0;
      probe_keys =
          settings.skip_empty_deltas
          && not has_left_join
          && ((non_empty_leaf_count == 1) || all_tiny);
    }

-- The three tests at the head of the loop: a term whose mask passes one is not built.
unfoldable pub prunes : Pruning → KeyContext → ℕ → ℕ → Bool
prunes p k n mask =
    overlaps n mask p.skip_bits
    || overlaps n mask p.empty_mask
    || (p.probe_keys && key_domain_empty k n mask)

-- `for (mask = 1; mask < (1ULL << N); mask++)`: rounds left, and the mask at hand.
unfoldable pub terms_from : Pruning → KeyContext → ℕ → ℕ → ℕ → List ℕ
terms_from p k n zero mask = []
terms_from p k n (suc rounds) mask =
    let rest = terms_from p k n rounds (mask + 1) in if prunes p k n mask then rest else mask ∷ rest

unfoldable pub build_terms :
    Settings → Bool → List (Option LeafTable) → List LeafProbe → KeyContext → List ℕ
unfolding terms_from
build_terms settings has_left_join tables probes k =
    let n = length probes in
    let p = plan_pruning settings has_left_join tables n (detect_delta_status probes) in
    terms_from p k n (2 ^ n - 1) 1
