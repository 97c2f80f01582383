-- ===== src/Classifier/Facts.antt =====
-- The inputs and the result of `BuildDeltaViewModel`: src/include/core/incremental_checker.hpp,
-- src/include/core/parser_plan_helpers.hpp and src/include/core/ivm_view_classifier.hpp. A null
-- pointer or INVALID_INDEX is `none`.
use openivm.Base.{ℕ, Bool, true, false, List, [], Option, none, Bytes, is_empty, not}
use openivm.Classifier.Types.{
  RefreshType, full_refresh, source_delta, GroupRecomputeAffectedMode, DeltaStrategyReason,
  DeltaModelFeature, DeltaUnsupportedReason, DeltaUpdateSemantics, DeltaModelFeature-discrete, has,
}

-- `PlanAnalysis`, less top_k_partition_columns, which nothing sets.
pub record PlanAnalysis : Type 0 where
  pub incremental_compatible : Bool
  pub found_aggregation : Bool
  pub found_projection : Bool
  pub found_having : Bool
  pub found_distinct : Bool
  pub found_union_distinct : Bool
  pub found_minmax : Bool
  pub found_list : Bool
  pub found_filtered_list : Bool
  pub found_left_join : Bool
  pub found_full_outer : Bool
  pub found_semi_anti_join : Bool
  pub found_join : Bool
  pub found_delim_join : Bool
  pub found_single_join : Bool
  pub found_asof_join : Bool
  pub found_positional_join : Bool
  pub found_sample : Bool
  pub found_window : Bool
  pub found_top_k : Bool
  pub found_count_distinct : Bool
  pub found_grouping_sets : Bool
  pub found_nested_aggregate : Bool
  pub found_volatile_expression : Bool
  pub found_non_foldable_unnest : Bool
  pub found_unsupported_aggregate : Bool
  pub found_unsupported_filtered_aggregate : Bool
  pub found_unsupported_join_type : Bool
  pub found_unsupported_order_by : Bool
  pub found_unsupported_operator : Bool
  pub top_k_limit : ℕ
  pub top_k_offset : ℕ
  pub top_k_order_columns : List Bytes
  pub top_k_order_desc : List Bool
  pub aggregate_columns : List Bytes
  pub aggregate_types : List Bytes
  pub window_partition_columns : List Bytes
  pub window_partition_column_indexes : List (Option ℕ)
  pub group_count : ℕ
  pub group_index : Option ℕ

-- The initial values of its members.
abbrev pub new_analysis : PlanAnalysis
new_analysis = record {
  incremental_compatible = true;
  found_aggregation = false;
  found_projection = false;
  found_having = false;
  found_distinct = false;
  found_union_distinct = false;
  found_minmax = false;
  found_list = false;
  found_filtered_list = false;
  found_left_join = false;
  found_full_outer = false;
  found_semi_anti_join = false;
  found_join = false;
  found_delim_join = false;
  found_single_join = false;
  found_asof_join = false;
  found_positional_join = false;
  found_sample = false;
  found_window = false;
  found_top_k = false;
  found_count_distinct = false;
  found_grouping_sets = false;
  found_nested_aggregate = false;
  found_volatile_expression = false;
  found_non_foldable_unnest = false;
  found_unsupported_aggregate = false;
  found_unsupported_filtered_aggregate = false;
  found_unsupported_join_type = false;
  found_unsupported_order_by = false;
  found_unsupported_operator = false;
  top_k_limit = 0;
  top_k_offset = 0;
  top_k_order_columns = [];
  top_k_order_desc = [];
  aggregate_columns = [];
  aggregate_types = [];
  window_partition_columns = [];
  window_partition_column_indexes = [];
  group_count = 0;
  group_index = none;
}

-- `ProjectionSourceOccurrence`
pub record SourceOccurrence : Type 0 where
  pub table : Bytes
  pub occurrence : ℕ
  pub table_index : ℕ

pub record DistinctAuxMeta : Type 0 where
  pub aux_table : Bytes
  pub cols : List Bytes
  pub source_exprs : List Bytes
  pub input_sql : Bytes
  pub source : Bytes
  pub filter : Bytes
  pub sum_arg : Bytes
  pub sum_out : Bytes

pub record SemiAntiAuxMeta : Type 0 where
  pub aux_table : Bytes
  pub join_type : Bytes
  pub left_table : Bytes
  pub left_alias : Bytes
  pub right_table : Bytes
  pub right_alias : Bytes
  pub predicate : Bytes
  pub post_filter : Bytes
  pub left_cols : List Bytes
  pub left_exprs : List Bytes
  pub output_cols : List Bytes

pub record FilteredGroupCountAuxMeta : Type 0 where
  pub aux_table : Bytes
  pub source : Bytes
  pub group_col : Bytes
  pub sum_col : Bytes
  pub source_group_expr : Bytes
  pub source_sum_expr : Bytes
  pub output_col : Bytes
  pub comparison_op : Bytes
  pub threshold_sql : Bytes

pub record FilteredGroupCountAuxRequirement : Type 0 where
  pub meta : FilteredGroupCountAuxMeta
  pub create_source : Bytes

-- The facts that the choice of a refresh type reads.
pub record PlanFlags : Type 0 where
  pub analysis : PlanAnalysis
  pub has_union_before_aggregate : Bool
  pub has_unsupported_set_operation : Bool
  pub has_pivot : Bool

-- `DeltaViewModelInput`, less its pointers to the facts and to the output names.
pub record DeltaViewModelInput : Type 0 where
  pub distinct_aux_candidate : Option DistinctAuxMeta
  pub filtered_group_count_aux_candidate : Option FilteredGroupCountAuxRequirement
  pub semi_anti_aux_candidate : Option SemiAntiAuxMeta
  pub has_unsupported_incremental_construct : Bool
  pub keep_window_join_partitions : Bool
  pub stored_query_has_aggregate_filter : Bool
  pub stored_query_has_top_k : Bool
  pub has_hidden_minmax_having : Bool
  pub has_computed_minmax_aggregate_projection : Bool
  pub has_ducklake_source : Bool

-- `DeltaViewModel` up to its nodes, domains and lineage, which the delta model adds. A metadata
-- record whose table name is empty is absent.
pub record DeltaViewModel : Type 0 where
  pub type : RefreshType
  pub strategy_reasons : List DeltaStrategyReason
  pub group_columns : List Bytes
  pub window_partition_columns : List Bytes
  pub aggregate_types : List Bytes
  pub features : List DeltaModelFeature
  pub unsupported_reasons : List DeltaUnsupportedReason
  pub update_semantics : List DeltaUpdateSemantics
  pub full_outer_join_cols : Bytes
  pub group_recompute_affected_mode : GroupRecomputeAffectedMode
  pub distinct_aux : Option DistinctAuxMeta
  pub filtered_group_count_aux : Option FilteredGroupCountAuxRequirement
  pub semi_anti_aux : Option SemiAntiAuxMeta
  pub has_minmax_metadata : Bool
  pub distinct_at_top : Bool
  pub union_distinct_over_agg : Bool
  pub warn_unsupported_incremental : Bool
  pub warn_unrecognized_pattern : Bool

-- A model as `BuildDeltaViewModel` starts with it.
abbrev pub new_model : DeltaViewModel
new_model = record {
  type = full_refresh;
  strategy_reasons = [];
  group_columns = [];
  window_partition_columns = [];
  aggregate_types = [];
  features = [];
  unsupported_reasons = [];
  update_semantics = [];
  full_outer_join_cols = [];
  group_recompute_affected_mode = source_delta;
  distinct_aux = none;
  filtered_group_count_aux = none;
  semi_anti_aux = none;
  has_minmax_metadata = false;
  distinct_at_top = false;
  union_distinct_over_agg = false;
  warn_unsupported_incremental = false;
  warn_unrecognized_pattern = false;
}

-- `HasFeature`
unfoldable pub has_feature : DeltaViewModel → DeltaModelFeature → Bool
unfolding has
has_feature model = has DeltaModelFeature-discrete model.features

distinct_table : Option DistinctAuxMeta → Bytes
distinct_table none = []
distinct_table (Option.some meta) = meta.aux_table

filtered_table : Option FilteredGroupCountAuxRequirement → Bytes
filtered_table none = []
filtered_table (Option.some aux) = aux.meta.aux_table

semi_anti_table : Option SemiAntiAuxMeta → Bytes
semi_anti_table none = []
semi_anti_table (Option.some meta) = meta.aux_table

unfoldable pub has_distinct_aux : DeltaViewModel → Bool
unfolding distinct_table
has_distinct_aux model = not (is_empty (distinct_table model.distinct_aux))

unfoldable pub has_filtered_group_count_aux : DeltaViewModel → Bool
unfolding filtered_table
has_filtered_group_count_aux model = not (is_empty (filtered_table model.filtered_group_count_aux))

unfoldable pub has_semi_anti_aux : DeltaViewModel → Bool
unfolding semi_anti_table
has_semi_anti_aux model = not (is_empty (semi_anti_table model.semi_anti_aux))
