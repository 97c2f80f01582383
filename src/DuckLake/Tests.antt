-- ===== src/DuckLake/Tests.antt =====
-- A join of two DuckLake tables, the first of which has changed since the old snapshot, in the terms
-- of src/delta/operators/ducklake_join.cpp.
use openivm.Base.{◌≡◌, refl, true, List, [], ◌∷◌, none, some}
use openivm.Base.Int.{pos}
use openivm.Join.Weights.{Cell}
use openivm.DuckLake.{
  SnapshotProbe, DuckLakeContext, empty_table_delta, skips_term, ducklake_terms_from,
  build_ducklake_terms,
}
use openivm.DuckLake.Correct

abbrev changed : SnapshotProbe
changed = record {
  old_snapshot = 3;
  current_snapshot = some 5;
  metadata_changes = some true;
  query_changes = none;
}

abbrev unchanged : SnapshotProbe
unchanged = record {
  old_snapshot = 5;
  current_snapshot = some 5;
  metadata_changes = none;
  query_changes = none;
}

abbrev snapshots : List SnapshotProbe
snapshots = changed ∷ unchanged ∷ []

abbrev two_cells : List Cell
two_cells = record { now = pos 3; delta = pos 1 } ∷ record { now = pos 2; delta = pos 0 } ∷ []

abbrev context : DuckLakeContext
context = record { skip_empty_deltas = true; probes = λ i. []; key_match = λ i p. true }

one_term : build_ducklake_terms context snapshots ≡ 0 ∷ []
unfolding build_ducklake_terms ducklake_terms_from skips_term empty_table_delta
one_term = refl
