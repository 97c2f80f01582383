-- ===== src/Checker/FactSteps.antt =====
-- src/core/incremental_checker.cpp: what expressions add is a sequence of elementary additions.
use openivm.Base.{Bool, true, List, [], ◌∷◌, Option, none, some, ◌≡◌, Bool-cases, inl, inr}
use openivm.Classifier.Facts.{PlanAnalysis}
use openivm.DeltaModel.Types.{LogicalOperatorType, JoinType}
use openivm.DeltaModel.Types
use openivm.Checker.Operators.{BoundAggregate, WindowPartition}
use openivm.Checker.Facts.{
  mark_volatile_if, mark_non_foldable_if, mark_join_type, mark_supported, mark_count_distinct,
  mark_filter, mark_minmax, mark_list, add_aggregate_type, mark_aggregate, mark_aggregates, member,
  partition_column, add_partition, add_partitions, add_windows,
}
use openivm.Checker.Adds.{
  minmax, list, filtered_list, left_join, full_outer, semi_anti_join, single_join, count_distinct,
  volatile_expression, non_foldable_unnest, unsupported_aggregate, unsupported_filtered_aggregate,
  unsupported_join_type, aggregate_type, partition, same, adds, next, Grows, if-Grows,
}
use openivm.Checker.Lasts.{found_aggregation-lasts}

pub mark_volatile_if-Grows : (b : Bool) (a : PlanAnalysis) → Grows a (mark_volatile_if b a)
unfolding mark_volatile_if
mark_volatile_if-Grows b a = if-Grows b (adds volatile_expression) same

pub mark_non_foldable_if-Grows : (b : Bool) (a : PlanAnalysis) → Grows a (mark_non_foldable_if b a)
unfolding mark_non_foldable_if
mark_non_foldable_if-Grows b a = if-Grows b (adds non_foldable_unnest) same

pub mark_join_type-Grows :
    (t : JoinType) (a : PlanAnalysis) → a.found_join ≡ true → Grows a (mark_join_type t a)
unfolding mark_join_type
mark_join_type-Grows Types.inner_join a h = same
mark_join_type-Grows Types.left_join a h = adds (left_join h)
mark_join_type-Grows Types.right_join a h = adds (left_join h)
mark_join_type-Grows Types.outer_join a h = adds (full_outer h)
mark_join_type-Grows Types.semi_join a h = adds (semi_anti_join h)
mark_join_type-Grows Types.anti_join a h = adds (semi_anti_join h)
mark_join_type-Grows Types.mark_join a h = adds (semi_anti_join h)
mark_join_type-Grows Types.single_join a h = adds (single_join h)
mark_join_type-Grows Types.other_join a h = adds unsupported_join_type

mark_supported-Grows : (agg : BoundAggregate) (a : PlanAnalysis) → Grows a (mark_supported agg a)
unfolding mark_supported
mark_supported-Grows agg a = if-Grows _ (adds unsupported_aggregate) same

mark_count_distinct-Grows :
    (agg : BoundAggregate) (a : PlanAnalysis)
    → a.found_aggregation ≡ true
    → Grows a (mark_count_distinct agg a)
unfolding mark_count_distinct
mark_count_distinct-Grows agg a h = if-Grows _ (adds (count_distinct h)) same

mark_filter-Grows :
    (agg : BoundAggregate) (a : PlanAnalysis)
    → a.found_aggregation ≡ true
    → Grows a (mark_filter agg a)
unfolding mark_filter
mark_filter-Grows agg a h =
    if-Grows _ (if-Grows _ (adds (filtered_list h)) (adds unsupported_filtered_aggregate)) same

mark_minmax-Grows :
    (agg : BoundAggregate) (a : PlanAnalysis)
    → a.found_aggregation ≡ true
    → Grows a (mark_minmax agg a)
unfolding mark_minmax
mark_minmax-Grows agg a h = if-Grows _ (adds (minmax h)) same

mark_list-Grows :
    (agg : BoundAggregate) (a : PlanAnalysis)
    → a.found_aggregation ≡ true
    → Grows a (mark_list agg a)
unfolding mark_list
mark_list-Grows agg a h = if-Grows _ (adds (list h)) same

add_aggregate_type-Grows :
    (agg : BoundAggregate) (a : PlanAnalysis) → Grows a (add_aggregate_type agg a)
unfolding add_aggregate_type
add_aggregate_type-Grows agg a = if-Grows _ same (adds (aggregate_type agg.function_name))

mark_aggregate-Grows :
    (agg : BoundAggregate) (a : PlanAnalysis)
    → a.found_aggregation ≡ true
    → Grows a (mark_aggregate agg a)
unfolding mark_aggregate
mark_aggregate-Grows agg a h =
    let s1 = mark_supported-Grows agg a in
    let s2 = next s1 (mark_count_distinct-Grows agg _ (found_aggregation-lasts s1 h)) in
    let s3 = next s2 (mark_filter-Grows agg _ (found_aggregation-lasts s2 h)) in
    let s4 = next s3 (mark_minmax-Grows agg _ (found_aggregation-lasts s3 h)) in
    let s5 = next s4 (mark_list-Grows agg _ (found_aggregation-lasts s4 h)) in
    next s5 (add_aggregate_type-Grows agg _)

pub mark_aggregates-Grows :
    (aggs : List (Option BoundAggregate)) (a : PlanAnalysis)
    → a.found_aggregation ≡ true
    → Grows a (mark_aggregates aggs a)
unfolding mark_aggregates
mark_aggregates-Grows [] a h = same
mark_aggregates-Grows (none ∷ aggs) a h = mark_aggregates-Grows aggs a h
mark_aggregates-Grows (some agg ∷ aggs) a h =
    let s = mark_aggregate-Grows agg a h in
    next s (mark_aggregates-Grows aggs (mark_aggregate agg a) (found_aggregation-lasts s h))

add_partition-Grows : (part : WindowPartition) (a : PlanAnalysis) → Grows a (add_partition part a)
unfolding add_partition
add_partition-Grows part a =
    elim (Bool-cases (member (partition_column part).0 a.window_partition_columns)) [
      | inl e ↦ rw e same
      | inr e ↦ rw e (adds (partition (partition_column part).0 (partition_column part).1 e))
    ]

add_partitions-Grows :
    (parts : List WindowPartition) (a : PlanAnalysis) → Grows a (add_partitions parts a)
unfolding add_partitions
add_partitions-Grows [] a = same
add_partitions-Grows (part ∷ parts) a =
    next (add_partition-Grows part a) (add_partitions-Grows parts (add_partition part a))

pub add_windows-Grows :
    (windows : List (List WindowPartition)) (a : PlanAnalysis) → Grows a (add_windows windows a)
unfolding add_windows
add_windows-Grows [] a = same
add_windows-Grows (w ∷ ws) a =
    next (add_partitions-Grows w a) (add_windows-Grows ws (add_partitions w a))
