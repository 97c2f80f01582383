-- ===== src/Checker/Offends.antt =====
-- An independent description of the plans that src/core/incremental_checker.cpp refuses: it reads the plan
-- only, and knows nothing of the facts that the analysis collects.
use openivm.Base.{
  Bool, true, false, ◌&&◌, ◌||◌, not, List, [], ◌∷◌, Option, none, some, codes, bytes_eq, is_empty,
}
use openivm.DeltaModel.Types.{LogicalOperatorType, JoinType}
use openivm.DeltaModel.Types
use openivm.Checker.Operators.{
  BoundAggregate, AggregateNode, OrderByNode, CheckedOperator, CheckedPlan, checked, CheckedPlans,
  no_subplans, child,
}
use openivm.Checker.Facts.{
  member, supported_aggregates, order_by_column_name, has_volatile_expression,
  has_non_foldable_unnest_expression, supported_join_type,
}
use openivm.Checker.Analyze.{all_children, first_child, cte_children, descent}

-- An aggregate is refused if refresh cannot maintain its function, or if it has a filter and is not
-- `list`. `first` is fine inside another aggregate.
unfoldable pub aggregate_offends : Bool → BoundAggregate → Bool
aggregate_offends inside agg =
    (not (member agg.function_name supported_aggregates)
      && not (bytes_eq agg.function_name (codes "first") && inside))
    || (agg.has_filter && not (bytes_eq agg.function_name (codes "list")))

unfoldable pub any_offends : Bool → List (Option BoundAggregate) → Bool
any_offends inside [] = false
any_offends inside (none ∷ aggs) = any_offends inside aggs
any_offends inside (some agg ∷ aggs) = aggregate_offends inside agg || any_offends inside aggs

unfoldable pub aggregate_node_offends : Bool → Option AggregateNode → Bool
aggregate_node_offends inside none = false
aggregate_node_offends inside (some agg) =
    any_offends inside agg.aggregates || has_volatile_expression agg.groups

unfoldable pub join_offends : Option JoinType → Bool
join_offends none = false
join_offends (some type) = not (supported_join_type type)

-- Whether an entry of an order is no column with a name.
unfoldable pub any_unnamed : List OrderByNode → Bool
any_unnamed [] = false
any_unnamed (o ∷ os) = is_empty (order_by_column_name o) || any_unnamed os

unfoldable pub own_offence : Bool → LogicalOperatorType → CheckedOperator → Bool
own_offence inside Types.logical_create_table op = false
own_offence inside Types.logical_insert op = false
own_offence inside Types.logical_dummy_scan op = false
own_offence inside Types.logical_get op = false
own_offence inside Types.logical_expression_get op = false
own_offence inside Types.logical_chunk_get op = false
own_offence inside Types.logical_delim_get op = false
own_offence inside Types.logical_cte_ref op = false
own_offence inside Types.logical_unnest op = has_volatile_expression op.expressions
own_offence inside Types.logical_materialized_cte op = false
own_offence inside Types.logical_filter op = has_volatile_expression op.expressions
own_offence inside Types.logical_projection op =
    has_volatile_expression op.expressions || has_non_foldable_unnest_expression op.expressions
own_offence inside Types.logical_union op = has_volatile_expression op.expressions
own_offence inside Types.logical_sample op = not op.has_seed
own_offence inside Types.logical_distinct op = has_volatile_expression op.expressions
own_offence inside Types.logical_comparison_join op = join_offends op.join_type
own_offence inside Types.logical_asof_join op = join_offends op.join_type
own_offence inside Types.logical_any_join op = join_offends op.join_type
own_offence inside Types.logical_dependent_join op = join_offends op.join_type
own_offence inside Types.logical_delim_join op = join_offends op.join_type
own_offence inside Types.logical_join op = join_offends op.join_type
own_offence inside Types.logical_cross_product op = join_offends op.join_type
own_offence inside Types.logical_positional_join op = false
own_offence inside Types.logical_aggregate_and_group_by op =
    aggregate_node_offends inside op.aggregate
own_offence inside Types.logical_window op = has_volatile_expression op.expressions
own_offence inside Types.logical_top_n op = any_unnamed op.orders
own_offence inside Types.logical_order_by op = false
own_offence inside Types.logical_limit op = false
own_offence inside Types.other_type op = true

unfoldable mutual
  -- Whether an operator that the analysis visits is refused.
  pub offends : Bool → CheckedPlan → Bool
  offends inside (checked op children) = elim (descent op.type) [
    | all_children ↦ own_offence inside op.type op || children_offend inside children
    | first_child ↦ own_offence inside op.type op || first_offends inside children
    | cte_children ↦ cte_offends inside children
  ]

  pub children_offend : Bool → CheckedPlans → Bool
  children_offend inside no_subplans = false
  children_offend inside (child p ps) = offends inside p || children_offend inside ps

  pub first_offends : Bool → CheckedPlans → Bool
  first_offends inside no_subplans = false
  first_offends inside (child p ps) = offends inside p

  pub cte_offends : Bool → CheckedPlans → Bool
  cte_offends inside no_subplans = false
  cte_offends inside (child body no_subplans) = false
  cte_offends inside (child body (child outer ps)) = offends inside outer || offends inside body
