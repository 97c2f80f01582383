-- ===== src/Checker/Tests.antt =====
-- Plans as src/core/incremental_checker.cpp sees them: a sum over a join, and a projection with a volatile
-- function.
use openivm.Base.{◌≡◌, refl, not, true, false, [], ◌∷◌, none, some, codes}
use openivm.Classifier.Facts.{PlanFlags, DeltaViewModelInput, new_model}
use openivm.Classifier.Select.{is_full_refresh}
use openivm.Classifier.Decide.{decide}
use openivm.DeltaModel.Types
use openivm.DeltaModel.Types.{LogicalOperatorType}
use openivm.Checker.Operators.{
  bound_function, CheckedOperator, CheckedPlan, checked, no_subplans, child,
}
use openivm.Checker.Facts.{
  member, has_volatile_expression, has_non_foldable_unnest_expression, supported_join_type,
  mark_join_type, mark_aggregates, mark_aggregate, mark_supported, mark_count_distinct, mark_filter,
  mark_minmax, mark_list, add_aggregate_type, mark_volatile_if,
}
use openivm.Checker.Analyze.{
  descent, analyze_plan, analyze_node, analyze_children, validate_incremental_plan,
}
use openivm.Checker.Local.{
  local_facts, mark_join, mark_aggregate_node, mark_grouping_sets, mark_outermost,
}
use openivm.Checker.Offends.{
  aggregate_offends, any_offends, aggregate_node_offends, join_offends, own_offence, offends,
  children_offend,
}
use openivm.Checker.Consistent.{AggregateFacts, JoinFacts}
use openivm.Checker.Lists.{Lists}
use openivm.Checker.Reported
use openivm.Checker.Reported.{any_from_plan}
use openivm.Classifier.Reasons.{build_unsupported_reasons}
use openivm.Checker.Consistent
use openivm.Checker.Lists
use openivm.Checker.Refused

abbrev operator_of : LogicalOperatorType → CheckedOperator
operator_of t = record {
  type = t;
  join_type = none;
  width = 2;
  expressions = [];
  setop_all = true;
  has_seed = false;
  distinct_targets = [];
  aggregate = none;
  windows = [];
  orders = [];
  limit = 0;
  offset = 0;
  limit_node = none;
}

abbrev scan : CheckedPlan
scan = checked (operator_of Types.logical_get) no_subplans

-- SELECT SUM(x) FROM a LEFT JOIN b GROUP BY y
abbrev sum_over_join : CheckedPlan
sum_over_join =
    checked
      (record (operator_of Types.logical_aggregate_and_group_by) {
        aggregate = some (record {
          grouping_sets = 1;
          aggregates =
              some (record { function_name = codes "sum"; is_distinct = false; has_filter = false })
              ∷ [];
          groups = [] ∷ [];
          group_index = 7;
        });
      })
      (child
        (checked
          (record (operator_of Types.logical_comparison_join) { join_type = some Types.left_join })
          (child scan (child scan no_subplans)))
        no_subplans)

-- SELECT random() FROM a
abbrev random_projection : CheckedPlan
random_projection =
    checked
      (record (operator_of Types.logical_projection) {
        expressions = (bound_function (codes "random") false ∷ []) ∷ [];
      })
      (child scan no_subplans)

abbrev random_flags : PlanFlags
random_flags = record {
  analysis = analyze_plan random_projection;
  has_union_before_aggregate = false;
  has_unsupported_set_operation = false;
  has_pivot = false;
}

abbrev new_input : DeltaViewModelInput
new_input = record {
  distinct_aux_candidate = none;
  filtered_group_count_aux_candidate = none;
  semi_anti_aux_candidate = none;
  has_unsupported_incremental_construct = false;
  keep_window_join_partitions = false;
  stored_query_has_aggregate_filter = false;
  stored_query_has_top_k = false;
  has_hidden_minmax_having = false;
  has_computed_minmax_aggregate_projection = false;
  has_ducklake_source = false;
}

random_offends : offends true random_projection ≡ true
unfolding offends children_offend descent own_offence has_volatile_expression
    has_non_foldable_unnest_expression
random_offends = refl

sum_does_not_offend : offends false sum_over_join ≡ false
unfolding offends children_offend descent own_offence aggregate_node_offends any_offends
    aggregate_offends member join_offends supported_join_type has_volatile_expression
sum_does_not_offend = refl

sum_found :
    ((analyze_plan sum_over_join).aggregate_types ≡ codes "sum" ∷ [])
    × ((analyze_plan sum_over_join).group_index ≡ some 7)
    × ((analyze_plan sum_over_join).found_left_join ≡ true)
unfolding analyze_plan analyze_node analyze_children descent local_facts mark_aggregate_node
    mark_grouping_sets mark_outermost mark_aggregates mark_aggregate mark_supported member
    mark_count_distinct mark_filter mark_minmax mark_list add_aggregate_type mark_volatile_if
    has_volatile_expression mark_join mark_join_type
sum_found = (refl, refl, refl)

validate_incremental_plan-refused_example : validate_incremental_plan random_projection ≡ false
validate_incremental_plan-refused_example =
    Refused.validate_incremental_plan-refused random_projection random_offends

validate_incremental_plan-accepted_example : validate_incremental_plan sum_over_join ≡ true
validate_incremental_plan-accepted_example =
    Refused.validate_incremental_plan-accepted sum_over_join sum_does_not_offend

decide-refused_example : is_full_refresh (decide new_model random_flags new_input).type ≡ true
decide-refused_example =
    Refused.decide-refused random_projection new_model random_flags new_input refl random_offends

analyze_plan-reasons_example :
    any_from_plan (build_unsupported_reasons new_model random_flags new_input).unsupported_reasons
    ≡ not (analyze_plan random_projection).incremental_compatible
analyze_plan-reasons_example =
    Reported.analyze_plan-reasons random_projection new_model random_flags new_input refl refl

analyze_plan-AggregateFacts_example : AggregateFacts (analyze_plan sum_over_join)
analyze_plan-AggregateFacts_example = Consistent.analyze_plan-AggregateFacts sum_over_join

analyze_plan-JoinFacts_example : JoinFacts (analyze_plan sum_over_join)
analyze_plan-JoinFacts_example = Consistent.analyze_plan-JoinFacts sum_over_join

analyze_plan-Lists_example : Lists (analyze_plan sum_over_join)
analyze_plan-Lists_example = Lists.analyze_plan-Lists sum_over_join
