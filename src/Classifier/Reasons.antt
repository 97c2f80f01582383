-- ===== src/Classifier/Reasons.antt =====
-- `BuildUnsupportedReasons` and `BuildModelFeatures` of src/core/ivm_view_classifier.cpp.
use openivm.Base.{
  Bool, true, false, ◌&&◌, ◌||◌, not, List, Option, none, some, is_empty, if◌then◌else◌,
}
use openivm.Classifier.Types.{
  DeltaUnsupportedReason, unsupported_set_operation, unsupported_pivot, unsupported_function,
  unsupported_unnest, unsupported_aggregate, unsupported_filtered_aggregate, unsupported_join_type,
  unsupported_order_by, unsupported_operator, grouping_sets_no_keys, filtered_list_no_keys,
  semi_anti_with_aggregate, semi_anti_missing_aux, DeltaModelFeature, linear, bilinear,
  outer_join_stateful, aggregate_linear, aggregate_non_linear, count_distinct_stateful,
  filtered_list_stateful, grouping_sets_stateful, distinct_stateful, window_affected_partition,
  semi_anti_stateful, asof_stateful, sample_global_recompute, positional_global_recompute,
  full_only, add_unique, has, DeltaUnsupportedReason-discrete, DeltaModelFeature-discrete,
}
use openivm.Classifier.Facts.{PlanAnalysis, PlanFlags, DeltaViewModelInput, DeltaViewModel}

abbrev pub is_set {ℓ} : {A : Type ℓ} → Option A → Bool
is_set none = false
is_set (some x) = true

-- `if (condition) AddUnique(list, entry)`
unfoldable pub add_reason_if :
    Bool → DeltaUnsupportedReason → List DeltaUnsupportedReason → List DeltaUnsupportedReason
add_reason_if condition r rs =
    if condition then add_unique DeltaUnsupportedReason-discrete rs r else rs

unfoldable pub add_feature_if :
    Bool → DeltaModelFeature → List DeltaModelFeature → List DeltaModelFeature
add_feature_if condition f fs = if condition then add_unique DeltaModelFeature-discrete fs f else fs

unfoldable pub build_unsupported_reasons :
    DeltaViewModel → PlanFlags → DeltaViewModelInput → DeltaViewModel
build_unsupported_reasons model facts input =
    let a = facts.analysis in
    let no_keys = is_empty model.group_columns in
    let rs =
      add_reason_if facts.has_unsupported_set_operation unsupported_set_operation
        model.unsupported_reasons in
    let rs = add_reason_if facts.has_pivot unsupported_pivot rs in
    let rs = add_reason_if a.found_volatile_expression unsupported_function rs in
    let rs = add_reason_if a.found_non_foldable_unnest unsupported_unnest rs in
    let rs = add_reason_if a.found_unsupported_aggregate unsupported_aggregate rs in
    let rs =
      add_reason_if a.found_unsupported_filtered_aggregate unsupported_filtered_aggregate rs in
    let rs = add_reason_if a.found_unsupported_join_type unsupported_join_type rs in
    let rs = add_reason_if a.found_unsupported_order_by unsupported_order_by rs in
    let rs = add_reason_if a.found_unsupported_operator unsupported_operator rs in
    let rs = add_reason_if (a.found_grouping_sets && no_keys) grouping_sets_no_keys rs in
    let rs = add_reason_if (a.found_filtered_list && no_keys) filtered_list_no_keys rs in
    let rs =
      add_reason_if (a.found_semi_anti_join && a.found_aggregation && no_keys)
        semi_anti_with_aggregate rs in
    let rs =
      add_reason_if
        (a.found_semi_anti_join
          && not a.found_aggregation
          && not (is_set input.semi_anti_aux_candidate))
        semi_anti_missing_aux rs in
    let rs = add_reason_if (not a.incremental_compatible && is_empty rs) unsupported_operator rs in
    record model { unsupported_reasons = rs }

unfoldable pub has_inner_join : PlanAnalysis → Bool
has_inner_join a =
    a.found_join
    && not a.found_left_join
    && not a.found_full_outer
    && not a.found_semi_anti_join
    && not a.found_asof_join
    && not a.found_positional_join

unfoldable pub is_non_linear : PlanAnalysis → Bool
is_non_linear a = a.found_minmax || a.found_count_distinct || a.found_list || a.found_filtered_list

unfoldable pub build_model_features :
    DeltaViewModel → PlanAnalysis → DeltaViewModelInput → DeltaViewModel
unfolding has_inner_join is_non_linear
build_model_features model a input =
    let fs = add_feature_if (not (is_empty model.unsupported_reasons)) full_only model.features in
    let fs =
      add_feature_if
        (a.found_projection || (not a.found_aggregation && not a.found_join && not a.found_window))
        linear fs in
    let fs = add_feature_if (has_inner_join a) bilinear fs in
    let fs = add_feature_if a.found_asof_join asof_stateful fs in
    let fs = add_feature_if a.found_sample sample_global_recompute fs in
    let fs = add_feature_if a.found_positional_join positional_global_recompute fs in
    let fs = add_feature_if (a.found_left_join || a.found_full_outer) outer_join_stateful fs in
    let fs = add_feature_if (a.found_aggregation && is_non_linear a) aggregate_non_linear fs in
    let fs = add_feature_if (a.found_aggregation && not (is_non_linear a)) aggregate_linear fs in
    let fs = add_feature_if a.found_having DeltaModelFeature.aggregate_having fs in
    let fs = add_feature_if a.found_count_distinct count_distinct_stateful fs in
    let fs = add_feature_if a.found_filtered_list filtered_list_stateful fs in
    let fs = add_feature_if a.found_grouping_sets grouping_sets_stateful fs in
    let fs =
      add_feature_if (a.found_window && not (is_empty model.window_partition_columns))
        window_affected_partition fs in
    let supported = not (has DeltaModelFeature-discrete fs full_only) in
    let fs =
      add_feature_if (supported && is_set input.distinct_aux_candidate) distinct_stateful fs in
    let fs =
      add_feature_if (supported && is_set input.semi_anti_aux_candidate) semi_anti_stateful fs in
    record model { features = fs }
