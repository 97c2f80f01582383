-- ===== src/Checker/Analyze.antt =====
-- src/core/incremental_checker.cpp: `AnalyzeNode`, `AnalyzePlan` and `ValidateIncrementalPlan`.
use openivm.Base.{Bool, ◌&&◌, not, if◌then◌else◌}
use openivm.Classifier.Facts.{PlanAnalysis, new_analysis}
use openivm.DeltaModel.Types.{
  LogicalOperatorType, logical_top_n, logical_limit, logical_order_by, logical_materialized_cte,
}
use openivm.Checker.Operators.{CheckedPlan, checked, CheckedPlans, no_subplans, child}
use openivm.Checker.Facts.{merge_facts}
use openivm.Checker.Local.{local_facts}

-- Which children the switch goes on with.
pub data Descent : Type 0 where
  all_children first_child cte_children : Descent

unfoldable pub descent : LogicalOperatorType → Descent
descent logical_materialized_cte = cte_children
descent logical_top_n = first_child
descent logical_order_by = first_child
descent logical_limit = first_child
descent _ = all_children

-- The outer plan of a CTE takes its facts from the body.
unfoldable pub outer_passthrough : PlanAnalysis → Bool
outer_passthrough result =
    not result.found_aggregation && not result.found_distinct && not result.found_join

unfoldable mutual
  -- `AnalyzeNode`
  pub analyze_node : CheckedPlan → PlanAnalysis → PlanAnalysis
  analyze_node (checked op children) result = elim (descent op.type) [
    | all_children ↦ analyze_children children (local_facts op.type op children result)
    | first_child ↦ analyze_first children (local_facts op.type op children result)
    | cte_children ↦ analyze_cte children result
  ]

  pub analyze_children : CheckedPlans → PlanAnalysis → PlanAnalysis
  analyze_children no_subplans result = result
  analyze_children (child p ps) result = analyze_children ps (analyze_node p result)

  pub analyze_first : CheckedPlans → PlanAnalysis → PlanAnalysis
  analyze_first no_subplans result = result
  analyze_first (child p ps) result = analyze_node p result

  -- The body is child 0, the outer plan child 1.
  pub analyze_cte : CheckedPlans → PlanAnalysis → PlanAnalysis
  analyze_cte no_subplans result = result
  analyze_cte (child body no_subplans) result = result
  analyze_cte (child body (child outer ps)) result =
      let seen = analyze_node outer result in
      let inherited = analyze_node body seen in
      let merged = merge_facts seen (analyze_node body new_analysis) in
      if outer_passthrough seen then inherited else merged

-- `AnalyzePlan`
unfoldable pub analyze_plan : CheckedPlan → PlanAnalysis
analyze_plan plan = analyze_node plan new_analysis

-- `ValidateIncrementalPlan`
unfoldable pub validate_incremental_plan : CheckedPlan → Bool
validate_incremental_plan plan = (analyze_plan plan).incremental_compatible
