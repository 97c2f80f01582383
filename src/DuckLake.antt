-- ===== src/DuckLake.antt =====
-- src/delta/operators/ducklake_join.cpp: the N-term delta of a join whose leaves are all DuckLake
-- scans. Term i reads the delta of leaf i, the current version of the leaves before it and the old
-- version of those after it.
pub mod Correct
mod Tests
use openivm.Base.{
  ℕ, zero, suc, ◌≡◌, Bool, true, false, not, ◌&&◌, ◌||◌, List, [], ◌∷◌, Option, none, some, ◌==◌,
  if◌then◌else◌, map,
}
use openivm.Base.Int.{ℤ, pos, ◌+ℤ◌, ◌*ℤ◌}
use openivm.Join.Terms.{KeyProbe}
use openivm.Join.Weights.{Cell, old, product}

-- What the compiler learns of one leaf's table: its snapshots (none for a scan that has no current
-- one), whether the metadata answers that it changed, and whether the query on the insertions and
-- deletions does (none for an error or no row).
pub record SnapshotProbe : Type 0 where
  pub old_snapshot : ℕ
  pub current_snapshot : Option ℕ
  pub metadata_changes : Option Bool
  pub query_changes : Option Bool

unfoldable pub changed_by_query : Option Bool → Bool
changed_by_query none = true
changed_by_query (some changes) = changes

unfoldable pub changed_by_metadata : Option Bool → Option Bool → Bool
unfolding changed_by_query
changed_by_metadata (some changes) query = changes
changed_by_metadata none query = changed_by_query query

unfoldable pub snapshot_empty : Option ℕ → SnapshotProbe → Bool
unfolding changed_by_metadata
snapshot_empty none s = false
snapshot_empty (some current) s =
    if s.old_snapshot == current
    then true
    else not (changed_by_metadata s.metadata_changes s.query_changes)

unfoldable pub empty_table_delta : Bool → SnapshotProbe → Bool
unfolding snapshot_empty changed_by_metadata changed_by_query
empty_table_delta skip_empty s = skip_empty && snapshot_empty s.current_snapshot s

has_current : Option ℕ → Bool
has_current none = false
has_current (some current) = true

-- True as soon as one of the leaf's key probes finds no match.
unfoldable pub any_unmatched : (KeyProbe → Bool) → List KeyProbe → Bool
any_unmatched matches [] = false
any_unmatched matches (p ∷ ps) = not (matches p) || any_unmatched matches ps

-- The settings of the compilation and the answers of the EXISTS queries of `DuckLakeDeltaKeyHasMatch`.
pub record DuckLakeContext : Type 0 where
  pub skip_empty_deltas : Bool
  pub probes : ℕ → List KeyProbe
  pub key_match : ℕ → KeyProbe → Bool

-- The two tests at the head of round i.
unfoldable pub skips_term : DuckLakeContext → ℕ → SnapshotProbe → Bool
unfolding empty_table_delta has_current any_unmatched
skips_term d i s =
    empty_table_delta d.skip_empty_deltas s
    || (d.skip_empty_deltas
        && has_current s.current_snapshot
        && any_unmatched (d.key_match i) (d.probes i))

unfoldable pub ducklake_terms_from : DuckLakeContext → ℕ → List SnapshotProbe → List ℕ
ducklake_terms_from d i [] = []
ducklake_terms_from d i (s ∷ ss) =
    let rest = ducklake_terms_from d (suc i) ss in if skips_term d i s then rest else i ∷ rest

-- `BuildDuckLakeJoinTerms`: the leaves whose terms are built.
unfoldable pub build_ducklake_terms : DuckLakeContext → List SnapshotProbe → List ℕ
unfolding ducklake_terms_from
build_ducklake_terms d ss = ducklake_terms_from d 0 ss

-- The weight of a joined row in term i.
unfoldable pub ducklake_weight : List Cell → ℕ → ℤ
ducklake_weight [] i = pos 0
ducklake_weight (c ∷ cs) zero = c.delta *ℤ product (map old cs)
ducklake_weight (c ∷ cs) (suc i) = c.now *ℤ ducklake_weight cs i

unfoldable pub ducklake_union : List Cell → List ℕ → ℤ
ducklake_union cs [] = pos 0
ducklake_union cs (i ∷ is) = ducklake_weight cs i +ℤ ducklake_union cs is
