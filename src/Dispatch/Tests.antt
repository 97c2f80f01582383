-- ===== src/Dispatch/Tests.antt =====
-- The filter over a scan of src/core/ivm_delta_model.cpp, dispatched.
use openivm.Base.{◌≡◌, [], ◌∷◌, none, some, codes, bytes_eq}
use openivm.Classifier.Facts.{new_analysis, new_model}
use openivm.DeltaModel.Types.{
  logical_get, logical_filter, logical_delim_join, semi_join, LogicalOperator, Plan, operator,
  no_plans, plan_of,
}
use openivm.DeltaModel.Node.{node_kind_for_operator}
use openivm.DeltaModel.Build.{PlanContext, build_delta_model_nodes}
use openivm.Dispatch.{compile_delta_operator_with_model, compile_copied_delta_subtree, find_node}
use openivm.Dispatch.Laws

abbrev scan_of_t : LogicalOperator
scan_of_t = record {
  number = 7;
  type = logical_get;
  join_type = none;
  expressions = [];
  scan_index = some 2;
  scan_names = codes "a" ∷ codes "b" ∷ [];
}

abbrev filtered_scan : Plan
filtered_scan =
    operator
      (record scan_of_t { number = 8; type = logical_filter; scan_index = none; scan_names = [] })
      (plan_of (operator scan_of_t no_plans) no_plans)

abbrev filter_context : PlanContext
filter_context = record {
  model = new_model;
  analysis = new_analysis;
  root = 8;
  occurrence_by_index = λ i. some (record { table = codes "t"; occurrence = 0; table_index = i });
  output_names = codes "a" ∷ [];
}

abbrev semi_delim_join : LogicalOperator
semi_delim_join = record scan_of_t {
  type = logical_delim_join;
  join_type = some semi_join;
  scan_index = none;
  scan_names = [];
}

compile_delta_operator_with_model-copied_example :
    compile_delta_operator_with_model (node_kind_for_operator semi_delim_join) logical_delim_join
    ≡ Laws.as_model_leaf (compile_copied_delta_subtree logical_delim_join)
compile_delta_operator_with_model-copied_example =
    Laws.compile_delta_operator_with_model-copied semi_delim_join

find_node-has_operator_example :
    Laws.is_owned
      (find_node (build_delta_model_nodes bytes_eq filter_context (some filtered_scan)).0 7)
      7
    ≡ Laws.has_operator (build_delta_model_nodes bytes_eq filter_context (some filtered_scan)).0 7
find_node-has_operator_example = Laws.find_node-has_operator bytes_eq filter_context filtered_scan 7
