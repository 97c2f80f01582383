-- ===== src/DuckLake/Correct.antt =====
-- The telescoping terms add up to the change of the join.
use openivm.Base.{
  ℕ, ◌<◌, ◌≡◌, ◌≢◌, ◌⊎◌, false, Option, List, [], ◌∷◌, map, some, if◌then◌else◌, length, get_elem?,
  All, ltb,
}
use openivm.Base.Int.{ℤ, pos, ◌+ℤ◌, ◌*ℤ◌}
use openivm.Join.Terms.{KeyProbe}
use openivm.Join.Weights.{Cell, old, product}
use openivm.DuckLake.{SnapshotProbe, DuckLakeContext}

-- the weights of all terms, counted from the first leaf
all_terms : List Cell → ℤ
all_terms [] = pos 0
all_terms (c ∷ cs) = c.delta *ℤ product (map old cs) +ℤ c.now *ℤ all_terms cs

-- The EXISTS queries answer rightly at a joined row: where one finds no match, the leaf's delta does
-- not hold its row, or the other leaf does not in the version that the term reads. A probe is between
-- two leaves.
pub record MatchSound (d : DuckLakeContext) (cs : List Cell) : Type 0 where
  pub in_range : (i : ℕ) → All (λ p. (p.other_leaf < length cs) × (i ≢ p.other_leaf)) (d.probes i)
  pub match_sound :
      (i : ℕ) (p : KeyProbe) (c o : Cell)
      → d.key_match i p ≡ false
      → get_elem? cs i ≡ some c
      → get_elem? cs p.other_leaf ≡ some o
      → (c.delta ≡ pos 0) ⊎ ((if ltb i p.other_leaf then old o else o.now) ≡ pos 0)

-- What the answers about a leaf mean for its delta row: the old snapshot is the current one, or the
-- metadata answers that nothing changed since, or the query does. An error, or no answer, means nothing.
pub record SnapshotSound (s : SnapshotProbe) (c : Cell) : Type 0 where
  pub same_snapshot : s.current_snapshot ≡ some s.old_snapshot → c.delta ≡ pos 0
  pub metadata_answer : s.metadata_changes ≡ some false → c.delta ≡ pos 0
  pub query_answer : s.query_changes ≡ some false → c.delta ≡ pos 0
