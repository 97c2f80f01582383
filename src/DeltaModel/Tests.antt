-- ===== src/DeltaModel/Tests.antt =====
-- The delta model of a filter over a scan of one table, in the terms of src/core/ivm_delta_model.cpp.
use openivm.Base.{◌≡◌, ◌-◌, refl, true, [], ◌∷◌, none, some, codes, bytes_eq, length, All}
use openivm.Classifier.Types.{unsupported_pivot}
use openivm.Classifier.Facts.{PlanAnalysis, new_analysis, new_model, DeltaViewModel}
use openivm.DeltaModel.Types.{
  logical_get, logical_filter, LogicalOperator, Plan, operator, no_plans, plan_of,
}
use openivm.DeltaModel.Build.{PlanContext, build_delta_model_nodes}
use openivm.DeltaModel.Types.{
  DeltaModelNode, DeltaModelNodeKind, DeltaRuleKind, DeltaMaintenanceMode,
  DeltaMaintenanceStateKind,
}
use openivm.DeltaModel.Structure
use openivm.DeltaModel.Structure.{size, NodesOk}
use openivm.DeltaModel.Fallback
use openivm.DeltaModel.Fallback.{IsFullRecompute}

abbrev pivot_model : DeltaViewModel
pivot_model = record new_model { unsupported_reasons = unsupported_pivot ∷ [] }

abbrev aggregate_analysis : PlanAnalysis
aggregate_analysis = record new_analysis { found_aggregation = true; found_projection = true }

abbrev scan_of_t : LogicalOperator
scan_of_t = record {
  number = 7;
  type = logical_get;
  join_type = none;
  expressions = [];
  scan_index = some 2;
  scan_names = codes "a" ∷ codes "b" ∷ [];
}

abbrev filter_op : LogicalOperator
filter_op = record scan_of_t {
  number = 8;
  type = logical_filter;
  scan_index = none;
  scan_names = [];
}

abbrev filtered_scan : Plan
filtered_scan = operator filter_op (plan_of (operator scan_of_t no_plans) no_plans)

abbrev context_of : DeltaViewModel → PlanContext
context_of model = record {
  model = model;
  analysis = aggregate_analysis;
  root = 8;
  occurrence_by_index = λ i. some (record { table = codes "t"; occurrence = 0; table_index = i });
  output_names = codes "a" ∷ [];
}

build_delta_model_nodes-NodesOk_example :
    (length (build_delta_model_nodes bytes_eq (context_of new_model) (some filtered_scan)).0
      ≡ size filtered_scan)
    × ((build_delta_model_nodes bytes_eq (context_of new_model) (some filtered_scan)).1
        ≡ some (size filtered_scan - 1))
    × NodesOk 0 (build_delta_model_nodes bytes_eq (context_of new_model) (some filtered_scan)).0
build_delta_model_nodes-NodesOk_example =
    Structure.build_delta_model_nodes-NodesOk bytes_eq (context_of new_model) filtered_scan

build_delta_model_nodes-IsFullRecompute_example :
    All IsFullRecompute
      (build_delta_model_nodes bytes_eq (context_of pivot_model) (some filtered_scan)).0
build_delta_model_nodes-IsFullRecompute_example =
    Fallback.build_delta_model_nodes-IsFullRecompute bytes_eq (context_of pivot_model) refl
      (some filtered_scan)

-- An aggregate on a key, and the model of its view.
abbrev group_node : DeltaModelNode
group_node = record {
  id = 0;
  kind = DeltaModelNodeKind.aggregate;
  rule = DeltaRuleKind.stateful;
  plan_node = some 9;
  children = [];
  source_table = [];
  source_occurrence = none;
  source_table_index = none;
  source_tables = codes "t" ∷ [];
  output_columns = codes "a" ∷ [];
  hidden_columns = [];
  affected_key_columns = codes "a" ∷ [];
  maintenance = record {
    mode = DeltaMaintenanceMode.delta_with_state;
    state = DeltaMaintenanceStateKind.mv_data;
  };
  update_semantics = [];
  unsupported_reasons = [];
  required_aux_states = [];
  affected_domains = [];
}

abbrev keyed_model : DeltaViewModel
keyed_model = record new_model { group_columns = codes "a" ∷ [] }
