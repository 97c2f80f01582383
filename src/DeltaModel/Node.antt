-- ===== src/DeltaModel/Node.antt =====
-- src/core/ivm_delta_model.cpp: what one operator contributes to its node.
use openivm.Base.{
  Bool, true, false, ◌&&◌, ◌||◌, not, List, [], ◌∷◌, Option, some, is_empty, if◌then◌else◌,
}
use openivm.Classifier.Types
use openivm.Classifier.Types.{
  RefreshType, DeltaModelFeature, DeltaUnsupportedReason, DeltaUpdateSemantics, add_unique,
  DeltaUnsupportedReason-discrete, DeltaUpdateSemantics-discrete,
}
use openivm.Classifier.Facts.{
  PlanAnalysis, DeltaViewModel, has_distinct_aux, has_filtered_group_count_aux, has_semi_anti_aux,
}
use openivm.DeltaModel.Types.{
  DeltaModelNodeKind, scan, filter, project, join, aggregate, window, distinct, semi_anti, union,
  top_k, unnest, asof_join, positional_join, sample, cte, constant, other, DeltaRuleKind, linear,
  product, stateful, non_linear, full_only, DeltaAuxStateKind, distinct_count, filtered_group_count,
  semi_anti_match, DeltaAuxStateKind-discrete, LogicalOperatorType, logical_get, logical_filter,
  logical_projection, logical_aggregate_and_group_by, logical_window, logical_distinct,
  logical_union, logical_top_n, logical_limit, logical_order_by, logical_unnest, logical_asof_join,
  logical_positional_join, logical_sample, logical_dummy_scan, logical_expression_get,
  logical_chunk_get, logical_cte_ref, logical_materialized_cte, logical_comparison_join,
  logical_any_join, logical_dependent_join, logical_delim_join, logical_join, logical_cross_product,
  JoinType, left_join, right_join, outer_join, semi_join, anti_join, mark_join, LogicalOperator,
}

-- the cases of the switch that all join operators share
unfoldable pub join_kind : Option JoinType → DeltaModelNodeKind
join_kind (some semi_join) = semi_anti
join_kind (some anti_join) = semi_anti
join_kind (some mark_join) = semi_anti
join_kind _ = join

unfoldable pub kind_of : LogicalOperatorType → Option JoinType → DeltaModelNodeKind
kind_of logical_get j = scan
kind_of logical_filter j = filter
kind_of logical_projection j = project
kind_of logical_aggregate_and_group_by j = aggregate
kind_of logical_window j = window
kind_of logical_distinct j = distinct
kind_of logical_union j = union
kind_of logical_top_n j = top_k
kind_of logical_limit j = top_k
kind_of logical_order_by j = top_k
kind_of logical_unnest j = unnest
kind_of logical_asof_join j = asof_join
kind_of logical_positional_join j = positional_join
kind_of logical_sample j = sample
kind_of logical_dummy_scan j = constant
kind_of logical_expression_get j = constant
kind_of logical_chunk_get j = constant
kind_of logical_cte_ref j = cte
kind_of logical_materialized_cte j = cte
kind_of logical_comparison_join j = join_kind j
kind_of logical_any_join j = join_kind j
kind_of logical_dependent_join j = join_kind j
kind_of logical_delim_join j = join_kind j
kind_of logical_join j = join_kind j
kind_of logical_cross_product j = join_kind j
kind_of _ j = other

unfoldable pub node_kind_for_operator : LogicalOperator → DeltaModelNodeKind
unfolding kind_of join_kind
node_kind_for_operator op = kind_of op.type op.join_type

join_rule : Option JoinType → DeltaRuleKind
join_rule (some left_join) = stateful
join_rule (some right_join) = stateful
join_rule (some outer_join) = stateful
join_rule _ = product

supported_rule : DeltaModelNodeKind → Option JoinType → PlanAnalysis → DeltaRuleKind
supported_rule scan j a = linear
supported_rule filter j a = linear
supported_rule project j a = linear
supported_rule union j a = linear
supported_rule unnest j a = linear
supported_rule cte j a = linear
supported_rule constant j a = linear
supported_rule join j a = join_rule j
supported_rule asof_join j a = stateful
supported_rule positional_join j a = non_linear
supported_rule sample j a = non_linear
supported_rule aggregate j a =
    if a.found_minmax || a.found_count_distinct || a.found_list || a.found_filtered_list
    then non_linear
    else stateful
supported_rule window j a = stateful
supported_rule distinct j a = stateful
supported_rule semi_anti j a = stateful
supported_rule top_k j a = stateful
supported_rule other j a = full_only

unfoldable pub rule_kind_for_node :
    DeltaModelNodeKind → LogicalOperator → DeltaViewModel → PlanAnalysis → DeltaRuleKind
unfolding supported_rule join_rule
rule_kind_for_node kind op model a =
    if not (is_empty model.unsupported_reasons)
    then full_only
    else supported_rule kind op.join_type a

abbrev pub is_aggregate : DeltaModelNodeKind → Bool
is_aggregate aggregate = true
is_aggregate _ = false

abbrev pub is_distinct : DeltaModelNodeKind → Bool
is_distinct distinct = true
is_distinct _ = false

abbrev pub is_semi_anti : DeltaModelNodeKind → Bool
is_semi_anti semi_anti = true
is_semi_anti _ = false

add_aux_if : Bool → DeltaAuxStateKind → List DeltaAuxStateKind → List DeltaAuxStateKind
add_aux_if condition s ss = if condition then add_unique DeltaAuxStateKind-discrete ss s else ss

-- `AddNodeAuxRequirements`: the aux states that the node needs.
unfoldable pub node_aux_requirements : DeltaModelNodeKind → DeltaViewModel → List DeltaAuxStateKind
unfolding add_aux_if
node_aux_requirements kind model =
    let ss = add_aux_if (has_distinct_aux model && is_distinct kind) distinct_count [] in
    let ss =
      add_aux_if (has_filtered_group_count_aux model && is_aggregate kind) filtered_group_count
        ss in
    add_aux_if (has_semi_anti_aux model && is_semi_anti kind) semi_anti_match ss

-- The kinds of node that a reason is about.
reason_applies : DeltaUnsupportedReason → DeltaModelNodeKind → Bool
reason_applies Types.unsupported_unnest unnest = true
reason_applies Types.unsupported_aggregate aggregate = true
reason_applies Types.unsupported_filtered_aggregate aggregate = true
reason_applies Types.grouping_sets_no_keys aggregate = true
reason_applies Types.filtered_list_no_keys aggregate = true
reason_applies Types.unsupported_join_type join = true
reason_applies Types.unsupported_join_type semi_anti = true
reason_applies Types.semi_anti_with_aggregate semi_anti = true
reason_applies Types.semi_anti_missing_aux semi_anti = true
reason_applies Types.unsupported_order_by top_k = true
reason_applies _ _ = false

-- `AddNodeUnsupportedReasons`
unfoldable pub node_unsupported_reasons :
    DeltaModelNodeKind
    → List DeltaUnsupportedReason
    → List DeltaUnsupportedReason
    → List DeltaUnsupportedReason
unfolding reason_applies
node_unsupported_reasons kind [] found = found
node_unsupported_reasons kind (r ∷ rs) found =
    node_unsupported_reasons kind rs
      (if reason_applies r kind then add_unique DeltaUnsupportedReason-discrete found r else found)
