-- ===== src/Checker/Grows.antt =====
-- src/core/incremental_checker.cpp: the analysis is a sequence of elementary additions.
use openivm.Base.{refl}
use openivm.Classifier.Facts.{PlanAnalysis, new_analysis}
use openivm.DeltaModel.Types.{LogicalOperatorType, JoinType}
use openivm.DeltaModel.Types
use openivm.Checker.Operators.{
  CheckedOperator, CheckedPlan, checked, CheckedPlans, no_subplans, child,
}
use openivm.Checker.Local.{local_facts}
use openivm.Checker.Analyze.{
  all_children, first_child, cte_children, descent, outer_passthrough, analyze_node,
  analyze_children, analyze_first, analyze_cte,
}
use openivm.Checker.Adds.{
  projection, join, delim_join, asof_join, positional_join, window, unsupported_operator, same,
  adds, next, merges, Grows, if-Grows,
}
use openivm.Checker.FactSteps.{
  mark_volatile_if-Grows, mark_non_foldable_if-Grows, add_windows-Grows,
}
use openivm.Checker.OperatorSteps.{
  mark_join-Grows, mark_aggregate_node-Grows, mark_top_n-Grows, mark_limit-Grows, mark_sample-Grows,
  mark_distinct-Grows, mark_order_by-Grows, mark_having-Grows, mark_union-Grows,
}

local_facts-Grows :
    (t : LogicalOperatorType) (op : CheckedOperator) (ps : CheckedPlans) (a : PlanAnalysis)
    → Grows a (local_facts t op ps a)
unfolding local_facts
local_facts-Grows Types.logical_create_table op ps a = same
local_facts-Grows Types.logical_insert op ps a = same
local_facts-Grows Types.logical_dummy_scan op ps a = same
local_facts-Grows Types.logical_get op ps a = same
local_facts-Grows Types.logical_expression_get op ps a = same
local_facts-Grows Types.logical_chunk_get op ps a = same
local_facts-Grows Types.logical_delim_get op ps a = same
local_facts-Grows Types.logical_cte_ref op ps a = same
local_facts-Grows Types.logical_materialized_cte op ps a = same
local_facts-Grows Types.logical_unnest op ps a = mark_volatile_if-Grows _ a
local_facts-Grows Types.logical_filter op ps a =
    next (mark_volatile_if-Grows _ a) (mark_having-Grows ps _)
local_facts-Grows Types.logical_projection op ps a =
    next (next (adds projection) (mark_volatile_if-Grows _ _)) (mark_non_foldable_if-Grows _ _)
local_facts-Grows Types.logical_union op ps a =
    next (mark_union-Grows op a) (mark_volatile_if-Grows _ _)
local_facts-Grows Types.logical_sample op ps a = mark_sample-Grows op a
local_facts-Grows Types.logical_distinct op ps a = mark_distinct-Grows op ps a
local_facts-Grows Types.logical_comparison_join op ps a =
    next (adds join) (mark_join-Grows op.join_type _ refl)
local_facts-Grows Types.logical_any_join op ps a =
    next (adds join) (mark_join-Grows op.join_type _ refl)
local_facts-Grows Types.logical_join op ps a =
    next (adds join) (mark_join-Grows op.join_type _ refl)
local_facts-Grows Types.logical_cross_product op ps a =
    next (adds join) (mark_join-Grows op.join_type _ refl)
local_facts-Grows Types.logical_asof_join op ps a =
    next (adds asof_join) (mark_join-Grows op.join_type _ refl)
local_facts-Grows Types.logical_dependent_join op ps a =
    next (adds delim_join) (mark_join-Grows op.join_type _ refl)
local_facts-Grows Types.logical_delim_join op ps a =
    next (adds delim_join) (mark_join-Grows op.join_type _ refl)
local_facts-Grows Types.logical_positional_join op ps a = adds positional_join
local_facts-Grows Types.logical_aggregate_and_group_by op ps a =
    mark_aggregate_node-Grows op.aggregate a
local_facts-Grows Types.logical_window op ps a =
    next (next (adds window) (mark_volatile_if-Grows _ _)) (add_windows-Grows op.windows _)
local_facts-Grows Types.logical_top_n op ps a = mark_top_n-Grows op a
local_facts-Grows Types.logical_order_by op ps a = mark_order_by-Grows op a
local_facts-Grows Types.logical_limit op ps a = mark_limit-Grows op.limit_node a
local_facts-Grows Types.other_type op ps a = adds unsupported_operator

mutual
  unfolding analyze_node analyze_children analyze_first analyze_cte

  -- What the analysis of a plan does is a sequence of additions.
  pub analyze_node-Grows : (p : CheckedPlan) (a : PlanAnalysis) → Grows a (analyze_node p a)
  analyze_node-Grows (checked op ps) a =
      elim (descent op.type)
        as (λ d. Grows a (elim d [
          | all_children ↦ analyze_children ps (local_facts op.type op ps a)
          | first_child ↦ analyze_first ps (local_facts op.type op ps a)
          | cte_children ↦ analyze_cte ps a
        ])) [
          | all_children ↦ next (local_facts-Grows op.type op ps a) (analyze_children-Grows ps _)
          | first_child ↦ next (local_facts-Grows op.type op ps a) (analyze_first-Grows ps _)
          | cte_children ↦ analyze_cte-Grows ps a
        ]

  pub analyze_children-Grows :
      (ps : CheckedPlans) (a : PlanAnalysis) → Grows a (analyze_children ps a)
  analyze_children-Grows no_subplans a = same
  analyze_children-Grows (child p ps) a =
      next (analyze_node-Grows p a) (analyze_children-Grows ps (analyze_node p a))

  pub analyze_first-Grows : (ps : CheckedPlans) (a : PlanAnalysis) → Grows a (analyze_first ps a)
  analyze_first-Grows no_subplans a = same
  analyze_first-Grows (child p ps) a = analyze_node-Grows p a

  pub analyze_cte-Grows : (ps : CheckedPlans) (a : PlanAnalysis) → Grows a (analyze_cte ps a)
  analyze_cte-Grows no_subplans a = same
  analyze_cte-Grows (child body no_subplans) a = same
  analyze_cte-Grows (child body (child outer ps)) a = next (analyze_node-Grows outer a) (
      if-Grows (outer_passthrough (analyze_node outer a))
        (analyze_node-Grows body (analyze_node outer a))
        (merges (analyze_node-Grows body new_analysis)))
