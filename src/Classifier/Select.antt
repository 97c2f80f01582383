-- ===== src/Classifier/Select.antt =====
-- `SelectRefreshType`, `SelectGroupRecomputeAffectedMode`, `AttachAuxRequirements` and
-- `BuildUpdateSemantics` of src/core/ivm_view_classifier.cpp.
use openivm.Base.{
  Bool, true, false, ◌&&◌, ◌||◌, not, List, [], ◌∷◌, Option, none, some, Bytes, codes, bytes_eq,
  is_empty, if◌then◌else◌,
}
use openivm.Classifier.Types.{
  RefreshType, aggregate_group, simple_aggregate, simple_projection, full_refresh, window_partition,
  group_recompute, distinct_incremental, semi_anti_recompute, GroupRecomputeAffectedMode,
  source_delta, source_delta_relax_aggregate_filter, current_diff, DeltaStrategyReason,
  asof_current_diff_recompute, sample_current_diff_recompute, positional_current_diff_recompute,
  DeltaModelFeature, distinct_stateful, semi_anti_stateful, DeltaUpdateSemantics, append_only_safe,
  delete_sensitive, update_sensitive, minmax_insert_only_safe, projection_delete_skip_safe,
  aggregate_delete_skip_safe, add_unique, DeltaStrategyReason-discrete, DeltaModelFeature-discrete,
  DeltaUpdateSemantics-discrete,
}
use openivm.Classifier.Facts.{PlanAnalysis, DeltaViewModelInput, DeltaViewModel, has_feature}

unfoldable pub has_argminmax : List Bytes → Bool
has_argminmax [] = false
has_argminmax (t ∷ ts) =
    bytes_eq t (codes "arg_min") || bytes_eq t (codes "arg_max") || has_argminmax ts

-- The lambda `select_current_diff`
unfoldable pub select_current_diff : DeltaViewModel → DeltaStrategyReason → DeltaViewModel
select_current_diff model reason = record model {
  type = RefreshType.current_diff_recompute;
  features =
      add_unique DeltaModelFeature-discrete model.features DeltaModelFeature.current_diff_recompute;
  strategy_reasons = add_unique DeltaStrategyReason-discrete model.strategy_reasons reason;
}

abbrev with_type : DeltaViewModel → RefreshType → DeltaViewModel
with_type model t = record model { type = t }

-- The branches from `found_having` on.
unfoldable pub select_aggregate_or_projection :
    DeltaViewModel → PlanAnalysis → DeltaViewModelInput → DeltaViewModel
unfolding has_argminmax
select_aggregate_or_projection model a input =
    let keyed = not (is_empty model.group_columns) in
    let having = a.found_having && a.found_aggregation in
    if having
      && (input.has_hidden_minmax_having || input.has_computed_minmax_aggregate_projection)
      && keyed
    then with_type model group_recompute
    else if having && has_argminmax a.aggregate_types && keyed
    then with_type model group_recompute
    else if having && keyed
    then with_type model RefreshType.aggregate_having
    else if a.found_aggregation && keyed
    then with_type model aggregate_group
    else if a.found_aggregation && not keyed
    then with_type model simple_aggregate
    else if a.found_projection && not a.found_aggregation
    then with_type model simple_projection
    else record model { type = full_refresh; warn_unrecognized_pattern = true }

-- The branches from `found_grouping_sets` on.
unfoldable pub select_keyed : DeltaViewModel → PlanAnalysis → DeltaViewModelInput → DeltaViewModel
unfolding has_feature
select_keyed model a input =
    let keyed = not (is_empty model.group_columns) in
    let recompute = if keyed then group_recompute else full_refresh in
    if a.found_grouping_sets
    then with_type model recompute
    else if a.found_semi_anti_join && a.found_aggregation
    then with_type model recompute
    else if a.found_semi_anti_join && not a.found_aggregation
    then with_type model
        (if has_feature model semi_anti_stateful then semi_anti_recompute else full_refresh)
    else if a.found_filtered_list && keyed
    then with_type model group_recompute
    else if a.found_filtered_list
    then with_type model full_refresh
    else if a.found_count_distinct && keyed
    then with_type model group_recompute
    else if a.found_distinct && not model.distinct_at_top && a.found_aggregation
    then with_type model
        (if has_feature model distinct_stateful then distinct_incremental else group_recompute)
    else if model.union_distinct_over_agg && keyed
    then with_type model group_recompute
    else if a.found_union_distinct && not a.found_aggregation && keyed
    then with_type model group_recompute
    else if a.found_distinct && model.distinct_at_top && keyed
    then with_type model aggregate_group
    else if not (is_empty model.strategy_reasons) && keyed
    then with_type model group_recompute
    else select_aggregate_or_projection model a input

unfoldable pub select_refresh_type :
    DeltaViewModel → PlanAnalysis → DeltaViewModelInput → DeltaViewModel
unfolding select_current_diff
select_refresh_type model a input =
    let keyed = not (is_empty model.group_columns) in
    if input.has_unsupported_incremental_construct
    then with_type model full_refresh
    else if not a.incremental_compatible
    then record model { type = full_refresh; warn_unsupported_incremental = true }
    else if a.found_sample
    then select_current_diff model sample_current_diff_recompute
    else if a.found_positional_join
    then select_current_diff model positional_current_diff_recompute
    else if a.found_asof_join && a.found_window && not (is_empty model.window_partition_columns)
    then with_type model window_partition
    else if a.found_asof_join && a.found_aggregation && keyed
    then record model {
      type = group_recompute;
      strategy_reasons =
          add_unique DeltaStrategyReason-discrete model.strategy_reasons
            asof_current_diff_recompute;
    }
    else if a.found_asof_join
    then select_current_diff model asof_current_diff_recompute
    else if a.found_window
    then with_type model window_partition
    else select_keyed model a input

affected_mode : Bool → Bool → Bool → Bool → Bool → GroupRecomputeAffectedMode
affected_mode has_filter has_top_k has_join has_asof has_ducklake =
    if has_asof || has_top_k || (has_filter && has_join) || (has_filter && has_ducklake)
    then current_diff
    else if has_filter
    then source_delta_relax_aggregate_filter
    else source_delta

abbrev pub is_group_recompute : RefreshType → Bool
is_group_recompute group_recompute = true
is_group_recompute _ = false

unfoldable pub select_group_recompute_affected_mode :
    DeltaViewModel → PlanAnalysis → DeltaViewModelInput → DeltaViewModel
unfolding affected_mode
select_group_recompute_affected_mode model a input = record model {
  group_recompute_affected_mode =
      if is_group_recompute model.type
      then affected_mode input.stored_query_has_aggregate_filter input.stored_query_has_top_k
          a.found_join a.found_asof_join input.has_ducklake_source
      else source_delta;
}

-- a candidate that is there replaces what the model has
abbrev pub if_set {ℓ} : {A : Type ℓ} → Option A → Option A → Option A
if_set none old = old
if_set (some x) old = some x

unfoldable pub attach_by_type : RefreshType → DeltaViewModel → DeltaViewModelInput → DeltaViewModel
attach_by_type distinct_incremental model input = record model {
  distinct_aux = input.distinct_aux_candidate;
}
attach_by_type simple_aggregate model input = record model {
  filtered_group_count_aux =
      if_set input.filtered_group_count_aux_candidate model.filtered_group_count_aux;
}
attach_by_type semi_anti_recompute model input = record model {
  semi_anti_aux = input.semi_anti_aux_candidate;
}
attach_by_type _ model input = model

unfoldable pub attach_aux_requirements : DeltaViewModel → DeltaViewModelInput → DeltaViewModel
unfolding attach_by_type
attach_aux_requirements model input = attach_by_type model.type model input

-- `IsAggregateRefreshType`
abbrev pub is_aggregate_refresh_type : RefreshType → Bool
is_aggregate_refresh_type simple_aggregate = true
is_aggregate_refresh_type aggregate_group = true
is_aggregate_refresh_type RefreshType.aggregate_having = true
is_aggregate_refresh_type _ = false

abbrev pub is_full_refresh : RefreshType → Bool
is_full_refresh full_refresh = true
is_full_refresh _ = false

abbrev pub is_simple_projection : RefreshType → Bool
is_simple_projection simple_projection = true
is_simple_projection _ = false

unfoldable pub add_semantics_if :
    Bool → DeltaUpdateSemantics → List DeltaUpdateSemantics → List DeltaUpdateSemantics
add_semantics_if condition s ss =
    if condition then add_unique DeltaUpdateSemantics-discrete ss s else ss

unfoldable pub build_update_semantics : DeltaViewModel → PlanAnalysis → DeltaViewModel
build_update_semantics model a =
    let incremental = not (is_full_refresh model.type) in
    let projection = is_simple_projection model.type in
    let foldable =
      is_aggregate_refresh_type model.type
      && not a.found_count_distinct
      && not a.found_list
      && not a.found_filtered_list in
    let ss = add_semantics_if incremental delete_sensitive model.update_semantics in
    let ss = add_semantics_if incremental update_sensitive ss in
    let ss = add_semantics_if projection append_only_safe ss in
    let ss = add_semantics_if projection projection_delete_skip_safe ss in
    let ss = add_semantics_if foldable append_only_safe ss in
    let ss = add_semantics_if foldable aggregate_delete_skip_safe ss in
    let ss =
      add_semantics_if (a.found_minmax && not a.found_count_distinct && not a.found_list)
        minmax_insert_only_safe ss in
    record model { update_semantics = ss }
