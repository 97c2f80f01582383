-- ===== src/Classifier/Tests.antt =====
-- Views as src/core/ivm_view_classifier.cpp sees them: one whose DISTINCT has an aux state, one whose
-- semi join has, and one that is a plain aggregate.
use openivm.Base.{List, Bytes, length, ◌≡◌, refl, true, false, [], ◌∷◌, none, some, codes}
use openivm.Classifier.Types.{
  distinct_incremental, semi_anti_recompute, DeltaModelFeature-discrete,
  DeltaUnsupportedReason-discrete, DeltaStrategyReason-discrete, has, add_unique,
}
use openivm.Classifier.Facts.{
  PlanAnalysis, new_analysis, DistinctAuxMeta, SemiAntiAuxMeta, PlanFlags, DeltaViewModelInput,
  DeltaViewModel, new_model, has_feature,
}
use openivm.Classifier.Reasons.{
  is_set, add_reason_if, add_feature_if, build_unsupported_reasons, has_inner_join, is_non_linear,
  build_model_features,
}
use openivm.Classifier.Select.{
  select_current_diff, has_argminmax, select_aggregate_or_projection, select_keyed,
  select_refresh_type, select_group_recompute_affected_mode, attach_by_type,
  attach_aux_requirements, is_full_refresh, build_update_semantics,
}
use openivm.Classifier.Decide.{mark_unrecognized, choose, decide}
use openivm.DeltaModel.Build.{is_internal_column}
use openivm.Checker.Facts.{member}
use openivm.Checker.Local.{to_string, decimal}
use openivm.Checker.Lists.{no_duplicates}
use openivm.Classifier.Dedup.{
  candidate_name, free_candidate, add_name, deduplicate_from, deduplicate_group_columns,
}
use openivm.Classifier.DedupLaws
use openivm.Classifier.Decision

abbrev keyed_model : DeltaViewModel
keyed_model = record new_model { group_columns = codes "k" ∷ [] }

abbrev aggregate_analysis : PlanAnalysis
aggregate_analysis = record new_analysis { found_aggregation = true; found_projection = true }

abbrev flags_of : PlanAnalysis → PlanFlags
flags_of a = record {
  analysis = a;
  has_union_before_aggregate = false;
  has_unsupported_set_operation = false;
  has_pivot = false;
}

abbrev distinct_meta : DistinctAuxMeta
distinct_meta = record {
  aux_table = codes "aux";
  cols = [];
  source_exprs = [];
  input_sql = [];
  source = [];
  filter = [];
  sum_arg = [];
  sum_out = [];
}

abbrev semi_anti_meta : SemiAntiAuxMeta
semi_anti_meta = record {
  aux_table = codes "aux";
  join_type = [];
  left_table = [];
  left_alias = [];
  right_table = [];
  right_alias = [];
  predicate = [];
  post_filter = [];
  left_cols = [];
  left_exprs = [];
  output_cols = [];
}

abbrev both_candidates : DeltaViewModelInput
both_candidates = record {
  distinct_aux_candidate = some distinct_meta;
  filtered_group_count_aux_candidate = none;
  semi_anti_aux_candidate = some semi_anti_meta;
  has_unsupported_incremental_construct = false;
  keep_window_join_partitions = false;
  stored_query_has_aggregate_filter = false;
  stored_query_has_top_k = false;
  has_hidden_minmax_having = false;
  has_computed_minmax_aggregate_projection = false;
  has_ducklake_source = false;
}

abbrev distinct_flags : PlanFlags
distinct_flags = flags_of (record aggregate_analysis { found_distinct = true })

abbrev semi_join_flags : PlanFlags
semi_join_flags =
    flags_of (record aggregate_analysis { found_aggregation = false; found_semi_anti_join = true })

distinct_type : (decide keyed_model distinct_flags both_candidates).type ≡ distinct_incremental
unfolding decide choose build_unsupported_reasons add_reason_if build_model_features add_feature_if
    has_inner_join is_non_linear select_refresh_type select_keyed select_aggregate_or_projection
    select_current_diff has_argminmax has_feature has add_unique DeltaModelFeature-discrete
    DeltaUnsupportedReason-discrete DeltaStrategyReason-discrete
    select_group_recompute_affected_mode mark_unrecognized attach_aux_requirements attach_by_type
    build_update_semantics
distinct_type = refl

semi_join_type : (decide keyed_model semi_join_flags both_candidates).type ≡ semi_anti_recompute
unfolding decide choose build_unsupported_reasons add_reason_if build_model_features add_feature_if
    has_inner_join is_non_linear select_refresh_type select_keyed select_aggregate_or_projection
    select_current_diff has_argminmax has_feature has add_unique DeltaModelFeature-discrete
    DeltaUnsupportedReason-discrete DeltaStrategyReason-discrete
    select_group_recompute_affected_mode mark_unrecognized attach_aux_requirements attach_by_type
    build_update_semantics
semi_join_type = refl

aggregate_type :
    is_full_refresh (decide keyed_model (flags_of aggregate_analysis) both_candidates).type ≡ false
unfolding decide choose build_unsupported_reasons add_reason_if build_model_features add_feature_if
    has_inner_join is_non_linear select_refresh_type select_keyed select_aggregate_or_projection
    select_current_diff has_argminmax has_feature has add_unique DeltaModelFeature-discrete
    DeltaUnsupportedReason-discrete DeltaStrategyReason-discrete
    select_group_recompute_affected_mode mark_unrecognized attach_aux_requirements attach_by_type
    build_update_semantics
aggregate_type = refl

decide-distinct_aux_example :
    is_set (decide keyed_model distinct_flags both_candidates).distinct_aux ≡ true
decide-distinct_aux_example =
    Decision.decide-distinct_aux keyed_model distinct_flags both_candidates refl distinct_type

decide-semi_anti_aux_example :
    is_set (decide keyed_model semi_join_flags both_candidates).semi_anti_aux ≡ true
decide-semi_anti_aux_example =
    Decision.decide-semi_anti_aux keyed_model semi_join_flags both_candidates refl semi_join_type

decide-incremental_example :
    ((flags_of aggregate_analysis).analysis.incremental_compatible ≡ true)
    × (both_candidates.has_unsupported_incremental_construct ≡ false)
decide-incremental_example =
    Decision.decide-incremental keyed_model (flags_of aggregate_analysis) both_candidates
      aggregate_type

abbrev repeated_keys : List Bytes
repeated_keys = codes "k" ∷ codes "k_1" ∷ codes "k" ∷ codes "openivm_count" ∷ []

renamed_keys :
    deduplicate_group_columns repeated_keys
    ≡ some (codes "k" ∷ codes "k_1" ∷ codes "k_2" ∷ codes "openivm_count" ∷ [])
unfolding deduplicate_group_columns deduplicate_from free_candidate candidate_name add_name member
    to_string decimal is_internal_column
renamed_keys = refl

deduplicate_group_columns-total_example :
    (results : List Bytes) × (deduplicate_group_columns repeated_keys ≡ some results)
    × (length results ≡ length repeated_keys)
    × (no_duplicates (DedupLaws.visible_results repeated_keys results) ≡ true)
deduplicate_group_columns-total_example = DedupLaws.deduplicate_group_columns-total repeated_keys
