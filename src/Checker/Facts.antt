-- ===== src/Checker/Facts.antt =====
-- src/core/incremental_checker.cpp: what single expressions and clauses add to the analysis.
use openivm.Base.{
  ℕ, Bool, true, false, ◌&&◌, ◌||◌, not, List, [], ◌∷◌, ◌++◌, Option, none, some, Bytes, codes,
  is_empty, bytes_eq, take, if◌then◌else◌,
}
use openivm.Classifier.Facts.{PlanAnalysis}
use openivm.Classifier.Reasons.{is_set}
use openivm.DeltaModel.Types.{
  JoinType, inner_join, left_join, right_join, outer_join, semi_join, anti_join, mark_join,
  single_join, other_join,
}
use openivm.Checker.Operators.{
  Visited, bound_function, bound_unnest, other_expression, Expression, BoundAggregate,
  WindowPartition, OrderByNode,
}

unfoldable pub member : Bytes → List Bytes → Bool
member name [] = false
member name (n ∷ ns) = bytes_eq n name || member name ns

-- `GetSupportedAggregates`
abbrev pub supported_aggregates : List Bytes
supported_aggregates =
    codes "count_star"
    ∷ codes "count"
    ∷ codes "sum"
    ∷ codes "min"
    ∷ codes "max"
    ∷ codes "avg"
    ∷ codes "list"
    ∷ codes "stddev"
    ∷ codes "stddev_samp"
    ∷ codes "stddev_pop"
    ∷ codes "variance"
    ∷ codes "var_samp"
    ∷ codes "var_pop"
    ∷ codes "bool_and"
    ∷ codes "bool_or"
    ∷ codes "arg_min"
    ∷ codes "arg_max"
    ∷ []

-- `OrderByColumnName`
unfoldable pub order_by_column_name : OrderByNode → Bytes
order_by_column_name order = elim order.column [
  | none ↦ []
  | some e ↦ if not (is_empty e.alias) then e.alias else e.name
]

unfoldable pub order_loop : List OrderByNode → PlanAnalysis → PlanAnalysis × Bool
unfolding order_by_column_name
order_loop [] result = (result, true)
order_loop (order ∷ orders) result =
    let name = order_by_column_name order in
    let rest = order_loop orders (record result {
      top_k_order_columns = result.top_k_order_columns ++ name ∷ [];
      top_k_order_desc = result.top_k_order_desc ++ order.descending ∷ [];
    }) in
    if is_empty name then (result, false) else rest

-- `ExtractOrderBy`: the analysis with the columns, and whether every entry is a column.
unfoldable pub extract_order_by : List OrderByNode → PlanAnalysis → PlanAnalysis × Bool
unfolding order_loop
extract_order_by orders result =
    order_loop orders (record result { top_k_order_columns = []; top_k_order_desc = [] })

-- The callback of `HasVolatileExpression`.
visits_volatile : Visited → Bool
visits_volatile (bound_function name consistent) =
    if bytes_eq (take 19 name) (codes "__internal_compress")
      || bytes_eq (take 21 name) (codes "__internal_decompress")
      || bytes_eq name (codes "error")
    then false
    else not consistent
visits_volatile (bound_unnest foldable) = false
visits_volatile other_expression = false

any_volatile : Expression → Bool
any_volatile [] = false
any_volatile (v ∷ vs) = visits_volatile v || any_volatile vs

unfoldable pub has_volatile_expression : List Expression → Bool
unfolding any_volatile visits_volatile
has_volatile_expression [] = false
has_volatile_expression (e ∷ es) = any_volatile e || has_volatile_expression es

-- The callback of `HasNonFoldableUnnestExpression`.
visits_non_foldable : Visited → Bool
visits_non_foldable (bound_unnest foldable) = not foldable
visits_non_foldable _ = false

any_non_foldable : Expression → Bool
any_non_foldable [] = false
any_non_foldable (v ∷ vs) = visits_non_foldable v || any_non_foldable vs

unfoldable pub has_non_foldable_unnest_expression : List Expression → Bool
unfolding any_non_foldable visits_non_foldable
has_non_foldable_unnest_expression [] = false
has_non_foldable_unnest_expression (e ∷ es) =
    any_non_foldable e || has_non_foldable_unnest_expression es

-- `MergeCompatibilityAndNonLocalFacts`
unfoldable pub merge_facts : PlanAnalysis → PlanAnalysis → PlanAnalysis
merge_facts result body = record result {
  incremental_compatible = result.incremental_compatible && body.incremental_compatible;
  found_volatile_expression = result.found_volatile_expression || body.found_volatile_expression;
  found_non_foldable_unnest = result.found_non_foldable_unnest || body.found_non_foldable_unnest;
  found_unsupported_aggregate =
      result.found_unsupported_aggregate || body.found_unsupported_aggregate;
  found_unsupported_filtered_aggregate =
      result.found_unsupported_filtered_aggregate || body.found_unsupported_filtered_aggregate;
  found_unsupported_join_type =
      result.found_unsupported_join_type || body.found_unsupported_join_type;
  found_unsupported_order_by = result.found_unsupported_order_by || body.found_unsupported_order_by;
  found_unsupported_operator = result.found_unsupported_operator || body.found_unsupported_operator;
  found_asof_join = result.found_asof_join || body.found_asof_join;
  found_positional_join = result.found_positional_join || body.found_positional_join;
  found_sample = result.found_sample || body.found_sample;
}

unfoldable pub mark_volatile_if : Bool → PlanAnalysis → PlanAnalysis
mark_volatile_if volatile result =
    if volatile
    then record result { incremental_compatible = false; found_volatile_expression = true }
    else result

unfoldable pub mark_non_foldable_if : Bool → PlanAnalysis → PlanAnalysis
mark_non_foldable_if non_foldable result =
    if non_foldable
    then record result { incremental_compatible = false; found_non_foldable_unnest = true }
    else result

unfoldable pub supported_join_type : JoinType → Bool
supported_join_type other_join = false
supported_join_type _ = true

unfoldable pub is_outer_type : JoinType → Bool
is_outer_type left_join = true
is_outer_type right_join = true
is_outer_type outer_join = true
is_outer_type _ = false

-- What a join's type adds.
unfoldable pub mark_join_type : JoinType → PlanAnalysis → PlanAnalysis
mark_join_type inner_join result = result
mark_join_type left_join result = record result { found_left_join = true }
mark_join_type right_join result = record result { found_left_join = true }
mark_join_type outer_join result = record result { found_left_join = true; found_full_outer = true }
mark_join_type semi_join result = record result { found_semi_anti_join = true }
mark_join_type anti_join result = record result { found_semi_anti_join = true }
mark_join_type mark_join result = record result { found_semi_anti_join = true }
mark_join_type single_join result = record result { found_single_join = true }
mark_join_type other_join result = record result {
  incremental_compatible = false;
  found_unsupported_join_type = true;
}

-- An aggregate that refresh cannot maintain, unless it is the `first` of a scalar subquery below the
-- outermost aggregate.
unfoldable pub mark_supported : BoundAggregate → PlanAnalysis → PlanAnalysis
unfolding member
mark_supported agg result =
    let scalar_subquery_first =
      bytes_eq agg.function_name (codes "first") && is_set result.group_index in
    if not (member agg.function_name supported_aggregates) && not scalar_subquery_first
    then record result { incremental_compatible = false; found_unsupported_aggregate = true }
    else result

unfoldable pub mark_count_distinct : BoundAggregate → PlanAnalysis → PlanAnalysis
mark_count_distinct agg result =
    if agg.is_distinct then record result { found_count_distinct = true } else result

unfoldable pub mark_filter : BoundAggregate → PlanAnalysis → PlanAnalysis
mark_filter agg result =
    if agg.has_filter
    then (if bytes_eq agg.function_name (codes "list")
        then record result { found_filtered_list = true }
        else record result {
          incremental_compatible = false;
          found_unsupported_filtered_aggregate = true;
        })
    else result

unfoldable pub mark_minmax : BoundAggregate → PlanAnalysis → PlanAnalysis
mark_minmax agg result =
    let name = agg.function_name in
    if bytes_eq name (codes "min")
      || bytes_eq name (codes "max")
      || bytes_eq name (codes "arg_min")
      || bytes_eq name (codes "arg_max")
    then record result { found_minmax = true }
    else result

unfoldable pub mark_list : BoundAggregate → PlanAnalysis → PlanAnalysis
mark_list agg result =
    if bytes_eq agg.function_name (codes "list")
    then record result { found_list = true }
    else result

unfoldable pub add_aggregate_type : BoundAggregate → PlanAnalysis → PlanAnalysis
add_aggregate_type agg result =
    if is_set result.group_index
    then result
    else record result { aggregate_types = result.aggregate_types ++ agg.function_name ∷ [] }

-- One expression of an aggregate operator.
unfoldable pub mark_aggregate : BoundAggregate → PlanAnalysis → PlanAnalysis
mark_aggregate agg result = add_aggregate_type agg (
    mark_list agg
      (mark_minmax agg (mark_filter agg (mark_count_distinct agg (mark_supported agg result)))))

unfoldable pub mark_aggregates : List (Option BoundAggregate) → PlanAnalysis → PlanAnalysis
mark_aggregates [] result = result
mark_aggregates (none ∷ aggs) result = mark_aggregates aggs result
mark_aggregates (some agg ∷ aggs) result = mark_aggregates aggs (mark_aggregate agg result)

-- A partition column's name, and its position if it is a column reference.
unfoldable pub partition_column : WindowPartition → Bytes × Option ℕ
partition_column part = elim part.column [
  | none ↦ (part.get_name, none)
  | some (alias, index) ↦ (if is_empty alias then part.get_name else alias, some index)
]

unfoldable pub add_partition : WindowPartition → PlanAnalysis → PlanAnalysis
unfolding partition_column member
add_partition part result =
    let (name, index) = partition_column part in
    if member name result.window_partition_columns then result else record result {
      window_partition_columns = result.window_partition_columns ++ name ∷ [];
      window_partition_column_indexes = result.window_partition_column_indexes ++ index ∷ [];
    }

unfoldable pub add_partitions : List WindowPartition → PlanAnalysis → PlanAnalysis
add_partitions [] result = result
add_partitions (part ∷ parts) result = add_partitions parts (add_partition part result)

unfoldable pub add_windows : List (List WindowPartition) → PlanAnalysis → PlanAnalysis
add_windows [] result = result
add_windows (window ∷ windows) result = add_windows windows (add_partitions window result)
