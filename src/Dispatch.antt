-- ===== src/Dispatch.antt =====
-- src/delta/operators/dispatch.cpp and the lookup of src/delta/delta_compiler.cpp: which function compiles an
-- operator's delta. The functions are named by values; the addresses of operators are their numbers.
mod Laws
mod Tests
use openivm.Base.{
  ℕ, Bool, true, false, List, [], ◌∷◌, Option, none, some, ◌==◌, get_elem?, if◌then◌else◌,
}
use openivm.DeltaModel.Types
use openivm.DeltaModel.Types.{
  DeltaModelNodeKind, DeltaModelNode, LogicalOperatorType, LogicalOperator,
}

-- The functions that compile a delta, without the `Compile` of their names.
pub data OperatorCompiler : Type 0 where
  scan_delta filter_delta projection_delta aggregate_delta : OperatorCompiler
  join_delta delim_join_delta union_delta distinct_delta : OperatorCompiler
  window_delta top_k_delta cte_delta unnest_delta : OperatorCompiler
  constant_zero_delta static_constant_leaf asof_join_delta positional_join_delta : OperatorCompiler
  sample_delta : OperatorCompiler

-- A call of one of them, or an exception.
pub data Dispatch : Type 0 where
  compiles : OperatorCompiler → Dispatch
  not_implemented internal_error : Dispatch

unfoldable pub is_delim_join_shape : LogicalOperatorType → Bool
is_delim_join_shape Types.logical_delim_join = true
is_delim_join_shape Types.logical_dependent_join = true
is_delim_join_shape _ = false

abbrev join_compiler : LogicalOperatorType → Dispatch
unfolding is_delim_join_shape
join_compiler type =
    if is_delim_join_shape type then compiles delim_join_delta else compiles join_delta

-- `CompileDeltaOperatorWithModel`
unfoldable pub compile_delta_operator_with_model :
    DeltaModelNodeKind → LogicalOperatorType → Dispatch
unfolding join_compiler
compile_delta_operator_with_model Types.scan type = compiles scan_delta
compile_delta_operator_with_model Types.filter type = compiles filter_delta
compile_delta_operator_with_model Types.project type = compiles projection_delta
compile_delta_operator_with_model Types.aggregate type = compiles aggregate_delta
compile_delta_operator_with_model Types.union type = compiles union_delta
compile_delta_operator_with_model Types.distinct type = compiles distinct_delta
compile_delta_operator_with_model Types.window type = compiles window_delta
compile_delta_operator_with_model Types.top_k type = compiles top_k_delta
compile_delta_operator_with_model Types.cte type = compiles cte_delta
compile_delta_operator_with_model Types.unnest type = compiles unnest_delta
compile_delta_operator_with_model Types.constant type = compiles constant_zero_delta
compile_delta_operator_with_model Types.asof_join type = compiles asof_join_delta
compile_delta_operator_with_model Types.positional_join type = compiles positional_join_delta
compile_delta_operator_with_model Types.sample type = compiles sample_delta
compile_delta_operator_with_model Types.join type = join_compiler type
compile_delta_operator_with_model Types.semi_anti type = join_compiler type
compile_delta_operator_with_model Types.other type = not_implemented

-- `CompileCopiedDeltaSubtree`
unfoldable pub compile_copied_delta_subtree : LogicalOperatorType → Dispatch
compile_copied_delta_subtree Types.logical_get = compiles scan_delta
compile_copied_delta_subtree Types.logical_filter = compiles filter_delta
compile_copied_delta_subtree Types.logical_projection = compiles projection_delta
compile_copied_delta_subtree Types.logical_aggregate_and_group_by = compiles aggregate_delta
compile_copied_delta_subtree Types.logical_window = compiles window_delta
compile_copied_delta_subtree Types.logical_distinct = compiles distinct_delta
compile_copied_delta_subtree Types.logical_union = compiles union_delta
compile_copied_delta_subtree Types.logical_top_n = compiles top_k_delta
compile_copied_delta_subtree Types.logical_limit = compiles top_k_delta
compile_copied_delta_subtree Types.logical_order_by = compiles top_k_delta
compile_copied_delta_subtree Types.logical_unnest = compiles unnest_delta
compile_copied_delta_subtree Types.logical_asof_join = compiles asof_join_delta
compile_copied_delta_subtree Types.logical_positional_join = compiles positional_join_delta
compile_copied_delta_subtree Types.logical_sample = compiles sample_delta
compile_copied_delta_subtree Types.logical_dummy_scan = compiles static_constant_leaf
compile_copied_delta_subtree Types.logical_expression_get = compiles static_constant_leaf
compile_copied_delta_subtree Types.logical_chunk_get = compiles static_constant_leaf
compile_copied_delta_subtree Types.logical_cte_ref = compiles cte_delta
compile_copied_delta_subtree Types.logical_materialized_cte = compiles cte_delta
compile_copied_delta_subtree Types.logical_comparison_join = compiles join_delta
compile_copied_delta_subtree Types.logical_any_join = compiles join_delta
compile_copied_delta_subtree Types.logical_dependent_join = compiles delim_join_delta
compile_copied_delta_subtree Types.logical_delim_join = compiles delim_join_delta
compile_copied_delta_subtree Types.logical_join = compiles join_delta
compile_copied_delta_subtree Types.logical_cross_product = compiles join_delta
compile_copied_delta_subtree _ = not_implemented

-- `CompileNonModelLeaf`
unfoldable pub compile_non_model_leaf : LogicalOperatorType → Dispatch
compile_non_model_leaf Types.logical_chunk_get = compiles constant_zero_delta
compile_non_model_leaf Types.logical_dummy_scan = compiles constant_zero_delta
compile_non_model_leaf Types.logical_expression_get = compiles constant_zero_delta
compile_non_model_leaf _ = internal_error

unfoldable pub is_operator : Option ℕ → ℕ → Bool
is_operator none number = false
is_operator (some n) number = n == number

-- The map `node_by_plan` that the constructor of `DeltaCompiler` makes, looked up: the last node of an
-- operator is the one that is kept.
unfoldable pub node_by_plan : List DeltaModelNode → ℕ → Option ℕ
unfolding is_operator
node_by_plan [] number = none
node_by_plan (node ∷ nodes) number = elim (node_by_plan nodes number) [
  | none ↦ if is_operator node.plan_node number then some node.id else none
  | some id ↦ some id
]

-- `FindNode`; a position behind the nodes has none.
unfoldable pub find_node : List DeltaModelNode → ℕ → Option DeltaModelNode
unfolding node_by_plan
find_node nodes number = elim (node_by_plan nodes number) [
  | none ↦ none
  | some id ↦ get_elem? nodes id
]

-- `CompileInternal`
unfoldable pub compile_internal : List DeltaModelNode → Bool → LogicalOperator → Dispatch
unfolding find_node compile_delta_operator_with_model compile_copied_delta_subtree
    compile_non_model_leaf
compile_internal nodes true op = compile_copied_delta_subtree op.type
compile_internal nodes false op = elim (find_node nodes op.number) [
  | none ↦ compile_non_model_leaf op.type
  | some node ↦ compile_delta_operator_with_model node.kind op.type
]
