-- ===== src/Classifier/NamesDistinct.antt =====
-- The names that src/core/ivm_view_classifier.cpp prints tell their values apart.
use openivm.Base.{◌≡◌, refl, List, [], ◌∷◌, Option, none, some, Bytes, bytes_eq, if◌then◌else◌}
use openivm.Classifier.Types.{
  DeltaStrategyReason, DeltaModelFeature, DeltaUnsupportedReason, DeltaUpdateSemantics,
}
use openivm.DeltaModel.Types.{DeltaModelNodeKind, DeltaRuleKind, DeltaAffectedDomainKind}
use openivm.Classifier.Names.{
  delta_strategy_reason_name, delta_model_feature_name, delta_model_node_kind_name,
  delta_rule_kind_name, delta_unsupported_reason_name, delta_update_semantics_name,
  delta_affected_domain_kind_name,
}

module _ {A : Type 0} (name : A → Bytes) where
  -- The first of the values that has a name.
  abbrev by_name : List A → Bytes → Option A
  by_name [] s = none
  by_name (x ∷ xs) s = let rest = by_name xs s in if bytes_eq (name x) s then some x else rest

abbrev all_delta_strategy_reason_name : List DeltaStrategyReason
all_delta_strategy_reason_name =
    DeltaStrategyReason.union_over_aggregate ∷ DeltaStrategyReason.union_distinct_group_recompute
    ∷ DeltaStrategyReason.join_key_group_fallback
    ∷ DeltaStrategyReason.delim_aggregate_group_fallback
    ∷ DeltaStrategyReason.scalar_delim_projection_group_fallback
    ∷ DeltaStrategyReason.join_aggregate_projection_fallback
    ∷ DeltaStrategyReason.nested_aggregate_group_fallback
    ∷ DeltaStrategyReason.repeated_cte_aggregate_group_fallback
    ∷ DeltaStrategyReason.semi_anti_aggregate_group_fallback
    ∷ DeltaStrategyReason.outer_join_aggregate_recompute
    ∷ DeltaStrategyReason.asof_current_diff_recompute
    ∷ DeltaStrategyReason.sample_current_diff_recompute
    ∷ DeltaStrategyReason.positional_current_diff_recompute ∷ []

delta_strategy_reason_name-found :
    (x : DeltaStrategyReason)
    → by_name delta_strategy_reason_name all_delta_strategy_reason_name
        (delta_strategy_reason_name x)
      ≡ some x
unfolding delta_strategy_reason_name
delta_strategy_reason_name-found DeltaStrategyReason.union_over_aggregate = refl
delta_strategy_reason_name-found DeltaStrategyReason.union_distinct_group_recompute = refl
delta_strategy_reason_name-found DeltaStrategyReason.join_key_group_fallback = refl
delta_strategy_reason_name-found DeltaStrategyReason.delim_aggregate_group_fallback = refl
delta_strategy_reason_name-found DeltaStrategyReason.scalar_delim_projection_group_fallback = refl
delta_strategy_reason_name-found DeltaStrategyReason.join_aggregate_projection_fallback = refl
delta_strategy_reason_name-found DeltaStrategyReason.nested_aggregate_group_fallback = refl
delta_strategy_reason_name-found DeltaStrategyReason.repeated_cte_aggregate_group_fallback = refl
delta_strategy_reason_name-found DeltaStrategyReason.semi_anti_aggregate_group_fallback = refl
delta_strategy_reason_name-found DeltaStrategyReason.outer_join_aggregate_recompute = refl
delta_strategy_reason_name-found DeltaStrategyReason.asof_current_diff_recompute = refl
delta_strategy_reason_name-found DeltaStrategyReason.sample_current_diff_recompute = refl
delta_strategy_reason_name-found DeltaStrategyReason.positional_current_diff_recompute = refl

abbrev all_delta_model_feature_name : List DeltaModelFeature
all_delta_model_feature_name =
    DeltaModelFeature.linear ∷ DeltaModelFeature.bilinear ∷ DeltaModelFeature.outer_join_stateful
    ∷ DeltaModelFeature.aggregate_linear ∷ DeltaModelFeature.aggregate_non_linear
    ∷ DeltaModelFeature.aggregate_having ∷ DeltaModelFeature.count_distinct_stateful
    ∷ DeltaModelFeature.filtered_list_stateful ∷ DeltaModelFeature.grouping_sets_stateful
    ∷ DeltaModelFeature.distinct_stateful ∷ DeltaModelFeature.window_affected_partition
    ∷ DeltaModelFeature.semi_anti_stateful ∷ DeltaModelFeature.asof_stateful
    ∷ DeltaModelFeature.sample_global_recompute ∷ DeltaModelFeature.positional_global_recompute
    ∷ DeltaModelFeature.current_diff_recompute ∷ DeltaModelFeature.full_only ∷ []

delta_model_feature_name-found :
    (x : DeltaModelFeature)
    → by_name delta_model_feature_name all_delta_model_feature_name (delta_model_feature_name x)
      ≡ some x
unfolding delta_model_feature_name
delta_model_feature_name-found DeltaModelFeature.linear = refl
delta_model_feature_name-found DeltaModelFeature.bilinear = refl
delta_model_feature_name-found DeltaModelFeature.outer_join_stateful = refl
delta_model_feature_name-found DeltaModelFeature.aggregate_linear = refl
delta_model_feature_name-found DeltaModelFeature.aggregate_non_linear = refl
delta_model_feature_name-found DeltaModelFeature.aggregate_having = refl
delta_model_feature_name-found DeltaModelFeature.count_distinct_stateful = refl
delta_model_feature_name-found DeltaModelFeature.filtered_list_stateful = refl
delta_model_feature_name-found DeltaModelFeature.grouping_sets_stateful = refl
delta_model_feature_name-found DeltaModelFeature.distinct_stateful = refl
delta_model_feature_name-found DeltaModelFeature.window_affected_partition = refl
delta_model_feature_name-found DeltaModelFeature.semi_anti_stateful = refl
delta_model_feature_name-found DeltaModelFeature.asof_stateful = refl
delta_model_feature_name-found DeltaModelFeature.sample_global_recompute = refl
delta_model_feature_name-found DeltaModelFeature.positional_global_recompute = refl
delta_model_feature_name-found DeltaModelFeature.current_diff_recompute = refl
delta_model_feature_name-found DeltaModelFeature.full_only = refl

abbrev all_delta_model_node_kind_name : List DeltaModelNodeKind
all_delta_model_node_kind_name =
    DeltaModelNodeKind.scan ∷ DeltaModelNodeKind.filter ∷ DeltaModelNodeKind.project
    ∷ DeltaModelNodeKind.join ∷ DeltaModelNodeKind.aggregate ∷ DeltaModelNodeKind.window
    ∷ DeltaModelNodeKind.distinct ∷ DeltaModelNodeKind.semi_anti ∷ DeltaModelNodeKind.union
    ∷ DeltaModelNodeKind.top_k ∷ DeltaModelNodeKind.unnest ∷ DeltaModelNodeKind.asof_join
    ∷ DeltaModelNodeKind.positional_join ∷ DeltaModelNodeKind.sample ∷ DeltaModelNodeKind.cte
    ∷ DeltaModelNodeKind.constant ∷ DeltaModelNodeKind.other ∷ []

delta_model_node_kind_name-found :
    (x : DeltaModelNodeKind)
    → by_name delta_model_node_kind_name all_delta_model_node_kind_name
        (delta_model_node_kind_name x)
      ≡ some x
unfolding delta_model_node_kind_name
delta_model_node_kind_name-found DeltaModelNodeKind.scan = refl
delta_model_node_kind_name-found DeltaModelNodeKind.filter = refl
delta_model_node_kind_name-found DeltaModelNodeKind.project = refl
delta_model_node_kind_name-found DeltaModelNodeKind.join = refl
delta_model_node_kind_name-found DeltaModelNodeKind.aggregate = refl
delta_model_node_kind_name-found DeltaModelNodeKind.window = refl
delta_model_node_kind_name-found DeltaModelNodeKind.distinct = refl
delta_model_node_kind_name-found DeltaModelNodeKind.semi_anti = refl
delta_model_node_kind_name-found DeltaModelNodeKind.union = refl
delta_model_node_kind_name-found DeltaModelNodeKind.top_k = refl
delta_model_node_kind_name-found DeltaModelNodeKind.unnest = refl
delta_model_node_kind_name-found DeltaModelNodeKind.asof_join = refl
delta_model_node_kind_name-found DeltaModelNodeKind.positional_join = refl
delta_model_node_kind_name-found DeltaModelNodeKind.sample = refl
delta_model_node_kind_name-found DeltaModelNodeKind.cte = refl
delta_model_node_kind_name-found DeltaModelNodeKind.constant = refl
delta_model_node_kind_name-found DeltaModelNodeKind.other = refl

abbrev all_delta_rule_kind_name : List DeltaRuleKind
all_delta_rule_kind_name =
    DeltaRuleKind.linear ∷ DeltaRuleKind.product ∷ DeltaRuleKind.stateful ∷ DeltaRuleKind.non_linear
    ∷ DeltaRuleKind.full_only ∷ []

delta_rule_kind_name-found :
    (x : DeltaRuleKind)
    → by_name delta_rule_kind_name all_delta_rule_kind_name (delta_rule_kind_name x) ≡ some x
unfolding delta_rule_kind_name
delta_rule_kind_name-found DeltaRuleKind.linear = refl
delta_rule_kind_name-found DeltaRuleKind.product = refl
delta_rule_kind_name-found DeltaRuleKind.stateful = refl
delta_rule_kind_name-found DeltaRuleKind.non_linear = refl
delta_rule_kind_name-found DeltaRuleKind.full_only = refl

abbrev all_delta_unsupported_reason_name : List DeltaUnsupportedReason
all_delta_unsupported_reason_name =
    DeltaUnsupportedReason.unsupported_set_operation ∷ DeltaUnsupportedReason.unsupported_pivot
    ∷ DeltaUnsupportedReason.unsupported_function ∷ DeltaUnsupportedReason.unsupported_unnest
    ∷ DeltaUnsupportedReason.unsupported_aggregate
    ∷ DeltaUnsupportedReason.unsupported_filtered_aggregate
    ∷ DeltaUnsupportedReason.unsupported_join_type ∷ DeltaUnsupportedReason.unsupported_order_by
    ∷ DeltaUnsupportedReason.unsupported_operator ∷ DeltaUnsupportedReason.grouping_sets_no_keys
    ∷ DeltaUnsupportedReason.filtered_list_no_keys ∷ DeltaUnsupportedReason.semi_anti_with_aggregate
    ∷ DeltaUnsupportedReason.semi_anti_missing_aux ∷ DeltaUnsupportedReason.unrecognized_pattern
    ∷ []

delta_unsupported_reason_name-found :
    (x : DeltaUnsupportedReason)
    → by_name delta_unsupported_reason_name all_delta_unsupported_reason_name
        (delta_unsupported_reason_name x)
      ≡ some x
unfolding delta_unsupported_reason_name
delta_unsupported_reason_name-found DeltaUnsupportedReason.unsupported_set_operation = refl
delta_unsupported_reason_name-found DeltaUnsupportedReason.unsupported_pivot = refl
delta_unsupported_reason_name-found DeltaUnsupportedReason.unsupported_function = refl
delta_unsupported_reason_name-found DeltaUnsupportedReason.unsupported_unnest = refl
delta_unsupported_reason_name-found DeltaUnsupportedReason.unsupported_aggregate = refl
delta_unsupported_reason_name-found DeltaUnsupportedReason.unsupported_filtered_aggregate = refl
delta_unsupported_reason_name-found DeltaUnsupportedReason.unsupported_join_type = refl
delta_unsupported_reason_name-found DeltaUnsupportedReason.unsupported_order_by = refl
delta_unsupported_reason_name-found DeltaUnsupportedReason.unsupported_operator = refl
delta_unsupported_reason_name-found DeltaUnsupportedReason.grouping_sets_no_keys = refl
delta_unsupported_reason_name-found DeltaUnsupportedReason.filtered_list_no_keys = refl
delta_unsupported_reason_name-found DeltaUnsupportedReason.semi_anti_with_aggregate = refl
delta_unsupported_reason_name-found DeltaUnsupportedReason.semi_anti_missing_aux = refl
delta_unsupported_reason_name-found DeltaUnsupportedReason.unrecognized_pattern = refl

abbrev all_delta_update_semantics_name : List DeltaUpdateSemantics
all_delta_update_semantics_name =
    DeltaUpdateSemantics.append_only_safe ∷ DeltaUpdateSemantics.delete_sensitive
    ∷ DeltaUpdateSemantics.update_sensitive ∷ DeltaUpdateSemantics.minmax_insert_only_safe
    ∷ DeltaUpdateSemantics.projection_delete_skip_safe
    ∷ DeltaUpdateSemantics.aggregate_delete_skip_safe ∷ []

delta_update_semantics_name-found :
    (x : DeltaUpdateSemantics)
    → by_name delta_update_semantics_name all_delta_update_semantics_name
        (delta_update_semantics_name x)
      ≡ some x
unfolding delta_update_semantics_name
delta_update_semantics_name-found DeltaUpdateSemantics.append_only_safe = refl
delta_update_semantics_name-found DeltaUpdateSemantics.delete_sensitive = refl
delta_update_semantics_name-found DeltaUpdateSemantics.update_sensitive = refl
delta_update_semantics_name-found DeltaUpdateSemantics.minmax_insert_only_safe = refl
delta_update_semantics_name-found DeltaUpdateSemantics.projection_delete_skip_safe = refl
delta_update_semantics_name-found DeltaUpdateSemantics.aggregate_delete_skip_safe = refl

abbrev all_delta_affected_domain_kind_name : List DeltaAffectedDomainKind
all_delta_affected_domain_kind_name =
    DeltaAffectedDomainKind.group ∷ DeltaAffectedDomainKind.window_partition
    ∷ DeltaAffectedDomainKind.projection_key ∷ DeltaAffectedDomainKind.semi_anti_predicate ∷ []

delta_affected_domain_kind_name-found :
    (x : DeltaAffectedDomainKind)
    → by_name delta_affected_domain_kind_name all_delta_affected_domain_kind_name
        (delta_affected_domain_kind_name x)
      ≡ some x
unfolding delta_affected_domain_kind_name
delta_affected_domain_kind_name-found DeltaAffectedDomainKind.group = refl
delta_affected_domain_kind_name-found DeltaAffectedDomainKind.window_partition = refl
delta_affected_domain_kind_name-found DeltaAffectedDomainKind.projection_key = refl
delta_affected_domain_kind_name-found DeltaAffectedDomainKind.semi_anti_predicate = refl

-- Each name that is printed is that of one value only: the first value of the enumeration with that
-- name is the one that was printed. This holds of strategy reasons, features, node kinds, rule kinds,
-- unsupported reasons, update semantics and affected domain kinds.
names-found :
    (reason : DeltaStrategyReason) (feature : DeltaModelFeature) (kind : DeltaModelNodeKind)
    (rule : DeltaRuleKind) (unsupported : DeltaUnsupportedReason) (semantics : DeltaUpdateSemantics)
    (domain : DeltaAffectedDomainKind)
    → (by_name delta_strategy_reason_name all_delta_strategy_reason_name
          (delta_strategy_reason_name reason)
        ≡ some reason)
      × (by_name delta_model_feature_name all_delta_model_feature_name
            (delta_model_feature_name feature)
          ≡ some feature)
      × (by_name delta_model_node_kind_name all_delta_model_node_kind_name
            (delta_model_node_kind_name kind)
          ≡ some kind)
      × (by_name delta_rule_kind_name all_delta_rule_kind_name (delta_rule_kind_name rule)
          ≡ some rule)
      × (by_name delta_unsupported_reason_name all_delta_unsupported_reason_name
            (delta_unsupported_reason_name unsupported)
          ≡ some unsupported)
      × (by_name delta_update_semantics_name all_delta_update_semantics_name
            (delta_update_semantics_name semantics)
          ≡ some semantics)
      × (by_name delta_affected_domain_kind_name all_delta_affected_domain_kind_name
            (delta_affected_domain_kind_name domain)
          ≡ some domain)
names-found reason feature kind rule unsupported semantics domain = (
  delta_strategy_reason_name-found reason,
  delta_model_feature_name-found feature,
  delta_model_node_kind_name-found kind,
  delta_rule_kind_name-found rule,
  delta_unsupported_reason_name-found unsupported,
  delta_update_semantics_name-found semantics,
  delta_affected_domain_kind_name-found domain,
)
