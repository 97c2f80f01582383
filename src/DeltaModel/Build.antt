-- ===== src/DeltaModel/Build.antt =====
-- src/core/ivm_delta_model.cpp: `BuildModelNodeForPlan` and `BuildDeltaModelNodes`. Nodes are numbered
-- in post-order. The comparison of texts without case is DuckDB's, and a parameter.
use openivm.Base.{
  ℕ, Bool, ◌||◌, List, [], ◌∷◌, ◌++◌, Option, none, some, Bytes, codes, ◌==◌, is_empty,
  if◌then◌else◌, length, bytes_eq, take, get_elem?,
}
use openivm.Classifier.Facts.{PlanAnalysis, SourceOccurrence, DeltaViewModel}
use openivm.DeltaModel.Types.{
  DeltaModelNodeKind, scan, project, aggregate, window, distinct, top_k, full_recompute, no_state,
  DeltaModelNode, ExpressionName, LogicalOperator, Plan, operator, Plans, no_plans, plan_of,
}
use openivm.DeltaModel.Node.{
  node_kind_for_operator, rule_kind_for_node, node_aux_requirements, node_unsupported_reasons,
}
use openivm.DeltaModel.Maintenance.{
  contains_string_ci, node_update_semantics, build_node_maintenance,
}

-- `IncrementalTableNames::IsInternalColumn`
unfoldable pub is_internal_column : Bytes → Bool
is_internal_column name = bytes_eq (take 8 name) (codes "openivm_")

-- What `BuildModelNodeForPlan` reads besides the operator.
pub record PlanContext : Type 0 where
  pub model : DeltaViewModel
  pub analysis : PlanAnalysis
  pub root : ℕ
  pub occurrence_by_index : ℕ → Option SourceOccurrence
  pub output_names : List Bytes

-- Visible and hidden column names.
pub record Columns : Type 0 where
  pub visible : List Bytes
  pub hidden : List Bytes

abbrev no_columns : Columns
no_columns = record { visible = []; hidden = [] }

-- `RefreshDeltaNodeMaintenance`
unfoldable pub refresh_maintenance : DeltaViewModel → List DeltaModelNode → List DeltaModelNode
refresh_maintenance model [] = []
refresh_maintenance model (node ∷ nodes) =
    record node { maintenance = build_node_maintenance node model }
    ∷ refresh_maintenance model nodes

module _ (ci_equals : Bytes → Bytes → Bool) where
  -- `AddStringCI`
  unfoldable pub add_string_ci : List Bytes → Bytes → List Bytes
  add_string_ci values candidate =
      if is_empty candidate || contains_string_ci ci_equals values candidate
      then values
      else values ++ candidate ∷ []

  -- `AddOutputColumnName`
  unfoldable pub add_output_column_name : Bytes → Columns → Columns
  unfolding is_internal_column add_string_ci
  add_output_column_name name c =
      if is_empty name
      then c
      else if is_internal_column name
      then record c { hidden = add_string_ci c.hidden name }
      else record c { visible = add_string_ci c.visible name }

  unfoldable pub split_output_columns : List Bytes → Columns → Columns
  split_output_columns [] c = c
  split_output_columns (n ∷ ns) c = split_output_columns ns (add_output_column_name n c)

  unfoldable pub add_expression_names : List (Option ExpressionName) → Columns → Columns
  add_expression_names [] c = c
  add_expression_names (none ∷ es) c = add_expression_names es c
  add_expression_names (some e ∷ es) c =
      add_expression_names es
        (add_output_column_name (if is_empty e.alias then e.name else e.alias) c)

  add_all : List Bytes → List Bytes → List Bytes
  add_all found [] = found
  add_all found (s ∷ ss) = add_all (add_string_ci found s) ss

  -- `SourceTablesFromChildren`
  unfoldable pub source_tables_from_children :
      List DeltaModelNode → List ℕ → List Bytes → List Bytes
  unfolding add_all
  source_tables_from_children nodes [] found = found
  source_tables_from_children nodes (c ∷ cs) found =
      source_tables_from_children nodes cs
        (elim (get_elem? nodes c) [ none ↦ found | some node ↦ add_all found node.source_tables ])

  -- The columns that the operator's kind adds to its node, then those of the view's root.
  node_columns : PlanContext → LogicalOperator → DeltaModelNodeKind → Columns
  node_columns ctx op scan = elim op.scan_index [
    | none ↦ no_columns
    | some i ↦ split_output_columns op.scan_names no_columns
  ]
  node_columns ctx op project = add_expression_names op.expressions no_columns
  node_columns ctx op window = add_expression_names op.expressions no_columns
  node_columns ctx op distinct = add_expression_names op.expressions no_columns
  node_columns ctx op top_k = add_expression_names op.expressions no_columns
  node_columns ctx op aggregate =
      add_expression_names op.expressions (split_output_columns ctx.model.group_columns no_columns)
  node_columns ctx op _ = no_columns

  affected_keys : PlanContext → DeltaModelNodeKind → List Bytes
  affected_keys ctx aggregate = ctx.model.group_columns
  affected_keys ctx window = ctx.model.window_partition_columns
  affected_keys ctx _ = []

  -- The occurrence of a scan's table, if the facts know it.
  unfoldable pub source_of :
      PlanContext → LogicalOperator → DeltaModelNodeKind → Option SourceOccurrence
  source_of ctx op scan = elim op.scan_index [ none ↦ none | some i ↦ ctx.occurrence_by_index i ]
  source_of ctx op _ = none

  unfoldable pub with_source : Option SourceOccurrence → DeltaModelNode → DeltaModelNode
  with_source none node = node
  with_source (some o) node = record node {
    source_table = o.table;
    source_occurrence = some o.occurrence;
    source_table_index = some o.table_index;
    source_tables = add_string_ci node.source_tables o.table;
  }

  -- The node of an operator whose children are done; `nodes` are the model's nodes so far.
  unfoldable pub make_node :
      PlanContext → LogicalOperator → List DeltaModelNode → List ℕ → DeltaModelNode
  unfolding node_columns affected_keys source_of with_source
  make_node ctx op nodes children =
      let kind = node_kind_for_operator op in
      let rule = rule_kind_for_node kind op ctx.model ctx.analysis in
      let own = node_columns ctx op kind in
      let columns =
        if op.number == ctx.root then split_output_columns ctx.output_names own else own in
      with_source (source_of ctx op kind) (record {
        id = length nodes;
        kind = kind;
        rule = rule;
        plan_node = some op.number;
        children = children;
        source_table = [];
        source_occurrence = none;
        source_table_index = none;
        source_tables = source_tables_from_children nodes children [];
        output_columns = columns.visible;
        hidden_columns = columns.hidden;
        affected_key_columns = affected_keys ctx kind;
        maintenance = record { mode = full_recompute; state = no_state };
        update_semantics = node_update_semantics ci_equals kind rule ctx.model;
        unsupported_reasons = node_unsupported_reasons kind ctx.model.unsupported_reasons [];
        required_aux_states = node_aux_requirements kind ctx.model;
        affected_domains = [];
      })

  unfoldable mutual
    -- `BuildModelNodeForPlan`: the nodes with those of the plan behind them, and the plan's own.
    pub build_node : PlanContext → Plan → List DeltaModelNode → List DeltaModelNode × ℕ
    build_node ctx (operator op ps) nodes =
        let (below, ids) = build_children ctx ps nodes in
        (below ++ make_node ctx op below ids ∷ [], length below)

    pub build_children : PlanContext → Plans → List DeltaModelNode → List DeltaModelNode × List ℕ
    build_children ctx no_plans nodes = (nodes, [])
    build_children ctx (plan_of p ps) nodes =
        let (after, id) = build_node ctx p nodes in
        let (rest, ids) = build_children ctx ps after in (rest, id ∷ ids)

  -- `BuildDeltaModelNodes`: the nodes and the root's.
  unfoldable pub build_delta_model_nodes :
      PlanContext → Option Plan → List DeltaModelNode × Option ℕ
  build_delta_model_nodes ctx none = ([], none)
  build_delta_model_nodes ctx (some plan) =
      let (nodes, root) = build_node ctx plan [] in (refresh_maintenance ctx.model nodes, some root)
