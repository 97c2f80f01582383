-- ===== src/DeltaModel/Maintenance.antt =====
-- src/core/ivm_delta_model.cpp: a node's update semantics and its maintenance.
use openivm.Base.{
  Bool, true, false, ◌&&◌, ◌||◌, not, List, [], ◌∷◌, Bytes, codes, is_empty, if◌then◌else◌,
}
use openivm.Classifier.Types
use openivm.Classifier.Types.{
  DeltaUpdateSemantics, append_only_safe, delete_sensitive, update_sensitive,
  minmax_insert_only_safe, projection_delete_skip_safe, aggregate_delete_skip_safe,
}
use openivm.Classifier.Facts.{DeltaViewModel, has_feature}
use openivm.Classifier.Select.{add_semantics_if, is_group_recompute}
use openivm.DeltaModel.Types.{
  DeltaModelNodeKind, scan, filter, project, join, aggregate, window, distinct, semi_anti, union,
  top_k, unnest, asof_join, positional_join, sample, cte, constant, other, DeltaRuleKind, full_only,
  DeltaMaintenanceMode, delta_only, delta_with_state, affected_domain_recompute, full_recompute,
  DeltaMaintenanceStateKind, no_state, current_relation, mv_data, aux_table, DeltaNodeMaintenance,
  DeltaModelNode,
}

abbrev pub is_full_only : DeltaRuleKind → Bool
is_full_only full_only = true
is_full_only _ = false

-- The kinds for which deletes and updates need care.
delete_sensitive_kind : DeltaModelNodeKind → Bool
delete_sensitive_kind join = true
delete_sensitive_kind asof_join = true
delete_sensitive_kind positional_join = true
delete_sensitive_kind sample = true
delete_sensitive_kind window = true
delete_sensitive_kind distinct = true
delete_sensitive_kind semi_anti = true
delete_sensitive_kind _ = false

-- `ContainsStringCI`; the comparison without case is DuckDB's.
unfoldable pub contains_string_ci : (Bytes → Bytes → Bool) → List Bytes → Bytes → Bool
contains_string_ci ci_equals [] candidate = false
contains_string_ci ci_equals (v ∷ vs) candidate =
    ci_equals v candidate || contains_string_ci ci_equals vs candidate

aggregate_semantics :
    (Bytes → Bytes → Bool) → DeltaViewModel → List DeltaUpdateSemantics → List DeltaUpdateSemantics
aggregate_semantics ci_equals model ss =
    let folds = has_feature model Types.aggregate_linear in
    let ss = add_semantics_if folds append_only_safe ss in
    let ss = add_semantics_if folds aggregate_delete_skip_safe ss in
    let counts_distinct =
      has_feature model Types.aggregate_non_linear
      && has_feature model Types.count_distinct_stateful in
    let ss = add_semantics_if counts_distinct delete_sensitive ss in
    let ss = add_semantics_if counts_distinct update_sensitive ss in
    add_semantics_if
      (contains_string_ci ci_equals model.aggregate_types (codes "min")
        || contains_string_ci ci_equals model.aggregate_types (codes "max"))
      minmax_insert_only_safe ss

kind_semantics :
    (Bytes → Bytes → Bool)
    → DeltaModelNodeKind
    → DeltaViewModel
    → List DeltaUpdateSemantics
    → List DeltaUpdateSemantics
kind_semantics ci_equals project model ss =
    add_semantics_if true projection_delete_skip_safe (add_semantics_if true append_only_safe ss)
kind_semantics ci_equals aggregate model ss = aggregate_semantics ci_equals model ss
kind_semantics ci_equals _ model ss = ss

-- `AddNodeUpdateSemantics`
unfoldable pub node_update_semantics :
    (Bytes → Bytes → Bool)
    → DeltaModelNodeKind
    → DeltaRuleKind
    → DeltaViewModel
    → List DeltaUpdateSemantics
unfolding kind_semantics aggregate_semantics delete_sensitive_kind
node_update_semantics ci_equals kind rule model =
    let sensitive = delete_sensitive_kind kind in
    let ss = kind_semantics ci_equals kind model [] in
    let ss = add_semantics_if sensitive delete_sensitive ss in
    let ss = add_semantics_if sensitive update_sensitive ss in if is_full_only rule then [] else ss

abbrev maintain : DeltaMaintenanceMode → DeltaMaintenanceStateKind → DeltaNodeMaintenance
maintain mode state = record { mode = mode; state = state }

-- The switch of `BuildNodeMaintenance`; the flags are whether the view is maintained by
-- GROUP_RECOMPUTE and whether the node has an aux state.
kind_maintenance : DeltaModelNodeKind → Bool → Bool → DeltaNodeMaintenance
kind_maintenance scan recompute aux = maintain delta_only no_state
kind_maintenance filter recompute aux = maintain delta_only no_state
kind_maintenance project recompute aux = maintain delta_only no_state
kind_maintenance union recompute aux = maintain delta_only no_state
kind_maintenance unnest recompute aux = maintain delta_only no_state
kind_maintenance cte recompute aux = maintain delta_only no_state
kind_maintenance constant recompute aux = maintain delta_only no_state
kind_maintenance join recompute aux = maintain delta_with_state current_relation
kind_maintenance asof_join recompute aux = maintain affected_domain_recompute mv_data
kind_maintenance positional_join recompute aux = maintain affected_domain_recompute mv_data
kind_maintenance sample recompute aux = maintain affected_domain_recompute mv_data
kind_maintenance aggregate recompute aux =
    if recompute
    then maintain affected_domain_recompute mv_data
    else maintain delta_with_state (if aux then aux_table else mv_data)
kind_maintenance window recompute aux = maintain affected_domain_recompute mv_data
kind_maintenance distinct recompute aux =
    maintain (if aux then delta_with_state else affected_domain_recompute)
      (if aux then aux_table else mv_data)
kind_maintenance semi_anti recompute aux =
    maintain (if aux then delta_with_state else affected_domain_recompute)
      (if aux then aux_table else mv_data)
kind_maintenance top_k recompute aux = maintain affected_domain_recompute mv_data
kind_maintenance other recompute aux = maintain full_recompute no_state

unfoldable pub build_node_maintenance : DeltaModelNode → DeltaViewModel → DeltaNodeMaintenance
unfolding kind_maintenance
build_node_maintenance node model =
    if is_full_only node.rule || not (is_empty node.unsupported_reasons)
    then maintain full_recompute no_state
    else kind_maintenance node.kind (is_group_recompute model.type)
        (not (is_empty node.required_aux_states))
