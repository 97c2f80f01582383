-- ===== src/Checker/Local.antt =====
-- src/core/incremental_checker.cpp: what the clauses of the switch do for single operators.
use openivm.Base.{
  ℕ, Bool, true, false, not, List, [], ◌∷◌, ◌++◌, Option, none, some, Bytes, codes, is_empty, zero,
  suc, ◌+◌, ◌/◌, ◌%◌, ◌==◌, ltb, if◌then◌else◌,
}
use openivm.Classifier.Facts.{PlanAnalysis}
use openivm.Classifier.Reasons.{is_set}
use openivm.DeltaModel.Types.{
  LogicalOperatorType, JoinType, logical_get, logical_filter, logical_projection,
  logical_aggregate_and_group_by, logical_window, logical_distinct, logical_union, logical_top_n,
  logical_limit, logical_order_by, logical_unnest, logical_asof_join, logical_positional_join,
  logical_sample, logical_dummy_scan, logical_expression_get, logical_chunk_get, logical_cte_ref,
  logical_materialized_cte, logical_comparison_join, logical_any_join, logical_dependent_join,
  logical_delim_join, logical_join, logical_cross_product, logical_create_table, logical_insert,
  logical_delim_get, other_type,
}
use openivm.Checker.Operators.{
  AggregateNode, LimitNode, CheckedOperator, checked, CheckedPlans, no_subplans, child,
}
use openivm.Checker.Facts.{
  extract_order_by, has_volatile_expression, has_non_foldable_unnest_expression, mark_volatile_if,
  mark_non_foldable_if, mark_join_type, mark_aggregates, add_windows,
}

-- The first child's type; a node without children has none.
unfoldable pub child_type : CheckedPlans → Option LogicalOperatorType
child_type no_subplans = none
child_type (child (checked op below) ps) = some op.type

-- The number of the first child's output columns.
unfoldable pub child_width : CheckedPlans → ℕ
child_width no_subplans = 0
child_width (child (checked op below) ps) = op.width

is_aggregate_type : Option LogicalOperatorType → Bool
is_aggregate_type (some logical_aggregate_and_group_by) = true
is_aggregate_type _ = false

unfoldable pub mark_having : CheckedPlans → PlanAnalysis → PlanAnalysis
unfolding is_aggregate_type child_type
mark_having children result =
    if is_aggregate_type (child_type children)
    then record result { found_having = true }
    else result

unfoldable pub mark_union : CheckedOperator → PlanAnalysis → PlanAnalysis
mark_union op result =
    if not op.setop_all
    then record result { found_distinct = true; found_union_distinct = true }
    else result

unfoldable pub mark_sample : CheckedOperator → PlanAnalysis → PlanAnalysis
mark_sample op result = mark_volatile_if (not op.has_seed) (record result { found_sample = true })

-- Decimal digits behind those that are already there; n < 10 ^ fuel is enough fuel, so n itself is.
unfoldable pub decimal : ℕ → ℕ → Bytes → Bytes
decimal zero n found = found
decimal (suc fuel) n found =
    let shown = (48 + n % 10) ∷ found in
    let rest = decimal fuel (n / 10) shown in if n / 10 == 0 then shown else rest

-- `to_string`
unfoldable pub to_string : ℕ → Bytes
unfolding decimal
to_string n = decimal (suc n) n []

-- "col0", "col1" and so on, the number of columns still to come first.
column_names : ℕ → ℕ → List Bytes
unfolding to_string
column_names zero i = []
column_names (suc n) i = (codes "col" ++ to_string i) ∷ column_names n (suc i)

unfoldable pub distinct_columns : CheckedOperator → CheckedPlans → List Bytes
unfolding column_names child_width
distinct_columns op children =
    if is_empty op.distinct_targets
    then column_names (child_width children) 0
    else op.distinct_targets

unfoldable pub mark_distinct : CheckedOperator → CheckedPlans → PlanAnalysis → PlanAnalysis
mark_distinct op children result =
    let marked =
      mark_volatile_if (has_volatile_expression op.expressions)
        (record result { found_distinct = true }) in
    record marked { aggregate_columns = marked.aggregate_columns ++ distinct_columns op children }

-- What the type of an operator that is a `LogicalJoin` adds.
unfoldable pub mark_join : Option JoinType → PlanAnalysis → PlanAnalysis
mark_join none result = result
mark_join (some type) result = mark_join_type type result

unfoldable pub mark_grouping_sets : AggregateNode → PlanAnalysis → PlanAnalysis
mark_grouping_sets agg result =
    if ltb 1 agg.grouping_sets then record result { found_grouping_sets = true } else result

-- The outermost aggregate is recorded, one below it is nested.
unfoldable pub mark_outermost : AggregateNode → ℕ → PlanAnalysis → PlanAnalysis
mark_outermost agg group_count result =
    if is_set result.group_index
    then record result { found_nested_aggregate = true }
    else record result { group_count = group_count; group_index = some agg.group_index }

count_groups : {A : Type 0} → List A → ℕ
count_groups [] = 0
count_groups (g ∷ gs) = suc (count_groups gs)

unfoldable pub mark_aggregate_node : Option AggregateNode → PlanAnalysis → PlanAnalysis
unfolding count_groups
mark_aggregate_node none result = record result { found_aggregation = true }
mark_aggregate_node (some agg) result = mark_outermost agg (count_groups agg.groups) (
    mark_volatile_if (has_volatile_expression agg.groups) (
      mark_aggregates agg.aggregates
        (mark_grouping_sets agg (record result { found_aggregation = true }))))

unfoldable pub mark_top_n : CheckedOperator → PlanAnalysis → PlanAnalysis
mark_top_n op result =
    let (ordered, columns) =
      extract_order_by op.orders
        (record result { found_top_k = true; top_k_limit = op.limit; top_k_offset = op.offset }) in
    if columns
    then ordered
    else record ordered { incremental_compatible = false; found_unsupported_order_by = true }

unfoldable pub mark_order_by : CheckedOperator → PlanAnalysis → PlanAnalysis
mark_order_by op result =
    if is_empty result.top_k_order_columns then (extract_order_by op.orders result).0 else result

unfoldable pub set_limit : Option ℕ → PlanAnalysis → PlanAnalysis
set_limit none result = result
set_limit (some n) result = record result { top_k_limit = n }

unfoldable pub set_offset : Option ℕ → PlanAnalysis → PlanAnalysis
set_offset none result = result
set_offset (some n) result = record result { top_k_offset = n }

unfoldable pub mark_limit : Option LimitNode → PlanAnalysis → PlanAnalysis
unfolding set_limit set_offset
mark_limit none result = record result { found_top_k = true }
mark_limit (some l) result =
    set_offset l.offset_val (set_limit l.limit_val (record result { found_top_k = true }))

-- What the switch does with the operator itself, before its children.
unfoldable pub local_facts :
    LogicalOperatorType → CheckedOperator → CheckedPlans → PlanAnalysis → PlanAnalysis
local_facts logical_create_table op children result = result
local_facts logical_insert op children result = result
local_facts logical_dummy_scan op children result = result
local_facts logical_get op children result = result
local_facts logical_expression_get op children result = result
local_facts logical_chunk_get op children result = result
local_facts logical_delim_get op children result = result
local_facts logical_cte_ref op children result = result
local_facts logical_unnest op children result =
    mark_volatile_if (has_volatile_expression op.expressions) result
local_facts logical_materialized_cte op children result = result
local_facts logical_filter op children result =
    mark_having children (mark_volatile_if (has_volatile_expression op.expressions) result)
local_facts logical_projection op children result =
    mark_non_foldable_if (has_non_foldable_unnest_expression op.expressions) (
      mark_volatile_if (has_volatile_expression op.expressions)
        (record result { found_projection = true }))
local_facts logical_union op children result =
    mark_volatile_if (has_volatile_expression op.expressions) (mark_union op result)
local_facts logical_sample op children result = mark_sample op result
local_facts logical_distinct op children result = mark_distinct op children result
local_facts logical_comparison_join op children result =
    mark_join op.join_type (record result { found_join = true })
local_facts logical_asof_join op children result =
    mark_join op.join_type (record result { found_join = true; found_asof_join = true })
local_facts logical_any_join op children result =
    mark_join op.join_type (record result { found_join = true })
local_facts logical_dependent_join op children result =
    mark_join op.join_type (record result { found_join = true; found_delim_join = true })
local_facts logical_delim_join op children result =
    mark_join op.join_type (record result { found_join = true; found_delim_join = true })
local_facts logical_join op children result =
    mark_join op.join_type (record result { found_join = true })
local_facts logical_cross_product op children result =
    mark_join op.join_type (record result { found_join = true })
local_facts logical_positional_join op children result = record result {
  found_join = true;
  found_positional_join = true;
}
local_facts logical_aggregate_and_group_by op children result =
    mark_aggregate_node op.aggregate result
local_facts logical_window op children result = add_windows op.windows (
    mark_volatile_if (has_volatile_expression op.expressions)
      (record result { found_window = true }))
local_facts logical_top_n op children result = mark_top_n op result
local_facts logical_order_by op children result = mark_order_by op result
local_facts logical_limit op children result = mark_limit op.limit_node result
local_facts other_type op children result = record result {
  incremental_compatible = false;
  found_unsupported_operator = true;
}
