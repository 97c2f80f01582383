-- ===== src/Classifier/Dedup.antt =====
-- src/core/ivm_view_classifier.cpp: `DeduplicateGroupColumns`. The set of names that were seen is a list.
use openivm.Base.{
  ℕ, zero, suc, List, [], ◌∷◌, ◌++◌, Option, none, some, Bytes, codes, length, if◌then◌else◌,
}
use openivm.DeltaModel.Build.{is_internal_column}
use openivm.Checker.Facts.{member}
use openivm.Checker.Local.{to_string}

-- The names that the inner loop tries, one after the other.
unfoldable pub candidate_name : Bytes → ℕ → Bytes
unfolding to_string
candidate_name name zero = name
candidate_name name (suc i) = name ++ (codes "_" ++ to_string (suc i))

-- The inner loop, from one of its candidates on; without fuel it is not done.
unfoldable pub free_candidate : ℕ → Bytes → ℕ → List Bytes → Option Bytes
unfolding candidate_name member
free_candidate zero name i seen = none
free_candidate (suc fuel) name i seen =
    let later = free_candidate fuel name (suc i) seen in
    if member (candidate_name name i) seen then later else some (candidate_name name i)

unfoldable pub add_name : Bytes → Option (List Bytes) → Option (List Bytes)
add_name name none = none
add_name name (some names) = some (name ∷ names)

-- The outer loop: internal names stay as they are, the others get the first candidate that was not
-- seen.
unfoldable pub deduplicate_from : List Bytes → List Bytes → Option (List Bytes)
unfolding is_internal_column free_candidate add_name
deduplicate_from seen [] = some []
deduplicate_from seen (name ∷ names) =
    let same = deduplicate_from seen names in
    if is_internal_column name
    then add_name name same
    else elim (free_candidate (suc (length seen)) name 0 seen) [
      | none ↦ none
      | some candidate ↦ add_name candidate (deduplicate_from (candidate ∷ seen) names)
    ]

-- `DeduplicateGroupColumns`
unfoldable pub deduplicate_group_columns : List Bytes → Option (List Bytes)
unfolding deduplicate_from
deduplicate_group_columns names = deduplicate_from [] names
