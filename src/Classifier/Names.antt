-- ===== src/Classifier/Names.antt =====
-- The name functions of src/core/ivm_view_classifier.cpp.
use openivm.Base.{Bytes, codes}
use openivm.Classifier.Types.{
  DeltaStrategyReason, DeltaModelFeature, DeltaUnsupportedReason, DeltaUpdateSemantics,
}
use openivm.DeltaModel.Types.{DeltaModelNodeKind, DeltaRuleKind, DeltaAffectedDomainKind}

unfoldable pub delta_strategy_reason_name : DeltaStrategyReason → Bytes
delta_strategy_reason_name DeltaStrategyReason.union_over_aggregate = codes "UNION_OVER_AGGREGATE"
delta_strategy_reason_name DeltaStrategyReason.union_distinct_group_recompute =
    codes "UNION_DISTINCT_GROUP_RECOMPUTE"
delta_strategy_reason_name DeltaStrategyReason.join_key_group_fallback =
    codes "JOIN_KEY_GROUP_FALLBACK"
delta_strategy_reason_name DeltaStrategyReason.delim_aggregate_group_fallback =
    codes "DELIM_AGGREGATE_GROUP_FALLBACK"
delta_strategy_reason_name DeltaStrategyReason.scalar_delim_projection_group_fallback =
    codes "SCALAR_DELIM_PROJECTION_GROUP_FALLBACK"
delta_strategy_reason_name DeltaStrategyReason.join_aggregate_projection_fallback =
    codes "JOIN_AGGREGATE_PROJECTION_FALLBACK"
delta_strategy_reason_name DeltaStrategyReason.nested_aggregate_group_fallback =
    codes "NESTED_AGGREGATE_GROUP_FALLBACK"
delta_strategy_reason_name DeltaStrategyReason.repeated_cte_aggregate_group_fallback =
    codes "REPEATED_CTE_AGGREGATE_GROUP_FALLBACK"
delta_strategy_reason_name DeltaStrategyReason.semi_anti_aggregate_group_fallback =
    codes "SEMI_ANTI_AGGREGATE_GROUP_FALLBACK"
delta_strategy_reason_name DeltaStrategyReason.outer_join_aggregate_recompute =
    codes "OUTER_JOIN_AGGREGATE_RECOMPUTE"
delta_strategy_reason_name DeltaStrategyReason.asof_current_diff_recompute =
    codes "ASOF_CURRENT_DIFF_RECOMPUTE"
delta_strategy_reason_name DeltaStrategyReason.sample_current_diff_recompute =
    codes "SAMPLE_CURRENT_DIFF_RECOMPUTE"
delta_strategy_reason_name DeltaStrategyReason.positional_current_diff_recompute =
    codes "POSITIONAL_CURRENT_DIFF_RECOMPUTE"

unfoldable pub delta_model_feature_name : DeltaModelFeature → Bytes
delta_model_feature_name DeltaModelFeature.linear = codes "LINEAR"
delta_model_feature_name DeltaModelFeature.bilinear = codes "BILINEAR"
delta_model_feature_name DeltaModelFeature.outer_join_stateful = codes "OUTER_JOIN_STATEFUL"
delta_model_feature_name DeltaModelFeature.aggregate_linear = codes "AGGREGATE_LINEAR"
delta_model_feature_name DeltaModelFeature.aggregate_non_linear = codes "AGGREGATE_NON_LINEAR"
delta_model_feature_name DeltaModelFeature.aggregate_having = codes "AGGREGATE_HAVING"
delta_model_feature_name DeltaModelFeature.count_distinct_stateful = codes "COUNT_DISTINCT_STATEFUL"
delta_model_feature_name DeltaModelFeature.filtered_list_stateful = codes "FILTERED_LIST_STATEFUL"
delta_model_feature_name DeltaModelFeature.grouping_sets_stateful = codes "GROUPING_SETS_STATEFUL"
delta_model_feature_name DeltaModelFeature.distinct_stateful = codes "DISTINCT_STATEFUL"
delta_model_feature_name DeltaModelFeature.window_affected_partition =
    codes "WINDOW_AFFECTED_PARTITION"
delta_model_feature_name DeltaModelFeature.semi_anti_stateful = codes "SEMI_ANTI_STATEFUL"
delta_model_feature_name DeltaModelFeature.asof_stateful = codes "ASOF_STATEFUL"
delta_model_feature_name DeltaModelFeature.sample_global_recompute = codes "SAMPLE_GLOBAL_RECOMPUTE"
delta_model_feature_name DeltaModelFeature.positional_global_recompute =
    codes "POSITIONAL_GLOBAL_RECOMPUTE"
delta_model_feature_name DeltaModelFeature.current_diff_recompute = codes "CURRENT_DIFF_RECOMPUTE"
delta_model_feature_name DeltaModelFeature.full_only = codes "FULL_ONLY"

unfoldable pub delta_model_node_kind_name : DeltaModelNodeKind → Bytes
delta_model_node_kind_name DeltaModelNodeKind.scan = codes "SCAN"
delta_model_node_kind_name DeltaModelNodeKind.filter = codes "FILTER"
delta_model_node_kind_name DeltaModelNodeKind.project = codes "PROJECT"
delta_model_node_kind_name DeltaModelNodeKind.join = codes "JOIN"
delta_model_node_kind_name DeltaModelNodeKind.aggregate = codes "AGGREGATE"
delta_model_node_kind_name DeltaModelNodeKind.window = codes "WINDOW"
delta_model_node_kind_name DeltaModelNodeKind.distinct = codes "DISTINCT"
delta_model_node_kind_name DeltaModelNodeKind.semi_anti = codes "SEMI_ANTI"
delta_model_node_kind_name DeltaModelNodeKind.union = codes "UNION"
delta_model_node_kind_name DeltaModelNodeKind.top_k = codes "TOP_K"
delta_model_node_kind_name DeltaModelNodeKind.unnest = codes "UNNEST"
delta_model_node_kind_name DeltaModelNodeKind.asof_join = codes "ASOF_JOIN"
delta_model_node_kind_name DeltaModelNodeKind.positional_join = codes "POSITIONAL_JOIN"
delta_model_node_kind_name DeltaModelNodeKind.sample = codes "SAMPLE"
delta_model_node_kind_name DeltaModelNodeKind.cte = codes "CTE"
delta_model_node_kind_name DeltaModelNodeKind.constant = codes "CONSTANT"
delta_model_node_kind_name DeltaModelNodeKind.other = codes "OTHER"

unfoldable pub delta_rule_kind_name : DeltaRuleKind → Bytes
delta_rule_kind_name DeltaRuleKind.linear = codes "LINEAR"
delta_rule_kind_name DeltaRuleKind.product = codes "PRODUCT"
delta_rule_kind_name DeltaRuleKind.stateful = codes "STATEFUL"
delta_rule_kind_name DeltaRuleKind.non_linear = codes "NON_LINEAR"
delta_rule_kind_name DeltaRuleKind.full_only = codes "FULL_ONLY"

unfoldable pub delta_unsupported_reason_name : DeltaUnsupportedReason → Bytes
delta_unsupported_reason_name DeltaUnsupportedReason.unsupported_set_operation =
    codes "UNSUPPORTED_SET_OPERATION"
delta_unsupported_reason_name DeltaUnsupportedReason.unsupported_pivot = codes "UNSUPPORTED_PIVOT"
delta_unsupported_reason_name DeltaUnsupportedReason.unsupported_function =
    codes "UNSUPPORTED_FUNCTION"
delta_unsupported_reason_name DeltaUnsupportedReason.unsupported_unnest = codes "UNSUPPORTED_UNNEST"
delta_unsupported_reason_name DeltaUnsupportedReason.unsupported_aggregate =
    codes "UNSUPPORTED_AGGREGATE"
delta_unsupported_reason_name DeltaUnsupportedReason.unsupported_filtered_aggregate =
    codes "UNSUPPORTED_FILTERED_AGGREGATE"
delta_unsupported_reason_name DeltaUnsupportedReason.unsupported_join_type =
    codes "UNSUPPORTED_JOIN_TYPE"
delta_unsupported_reason_name DeltaUnsupportedReason.unsupported_order_by =
    codes "UNSUPPORTED_ORDER_BY"
delta_unsupported_reason_name DeltaUnsupportedReason.unsupported_operator =
    codes "UNSUPPORTED_OPERATOR"
delta_unsupported_reason_name DeltaUnsupportedReason.grouping_sets_no_keys =
    codes "GROUPING_SETS_NO_KEYS"
delta_unsupported_reason_name DeltaUnsupportedReason.filtered_list_no_keys =
    codes "FILTERED_LIST_NO_KEYS"
delta_unsupported_reason_name DeltaUnsupportedReason.semi_anti_with_aggregate =
    codes "SEMI_ANTI_WITH_AGGREGATE"
delta_unsupported_reason_name DeltaUnsupportedReason.semi_anti_missing_aux =
    codes "SEMI_ANTI_MISSING_AUX"
delta_unsupported_reason_name DeltaUnsupportedReason.unrecognized_pattern =
    codes "UNRECOGNIZED_PATTERN"

unfoldable pub delta_update_semantics_name : DeltaUpdateSemantics → Bytes
delta_update_semantics_name DeltaUpdateSemantics.append_only_safe = codes "APPEND_ONLY_SAFE"
delta_update_semantics_name DeltaUpdateSemantics.delete_sensitive = codes "DELETE_SENSITIVE"
delta_update_semantics_name DeltaUpdateSemantics.update_sensitive = codes "UPDATE_SENSITIVE"
delta_update_semantics_name DeltaUpdateSemantics.minmax_insert_only_safe =
    codes "MINMAX_INSERT_ONLY_SAFE"
delta_update_semantics_name DeltaUpdateSemantics.projection_delete_skip_safe =
    codes "PROJECTION_DELETE_SKIP_SAFE"
delta_update_semantics_name DeltaUpdateSemantics.aggregate_delete_skip_safe =
    codes "AGGREGATE_DELETE_SKIP_SAFE"

unfoldable pub delta_affected_domain_kind_name : DeltaAffectedDomainKind → Bytes
delta_affected_domain_kind_name DeltaAffectedDomainKind.group = codes "GROUP"
delta_affected_domain_kind_name DeltaAffectedDomainKind.window_partition = codes "WINDOW_PARTITION"
delta_affected_domain_kind_name DeltaAffectedDomainKind.projection_key = codes "PROJECTION_KEY"
delta_affected_domain_kind_name DeltaAffectedDomainKind.semi_anti_predicate =
    codes "SEMI_ANTI_PREDICATE"
