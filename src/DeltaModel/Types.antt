-- ===== src/DeltaModel/Types.antt =====
-- The node types of src/include/core/ivm_view_classifier.hpp, and the plan that the source walks:
-- what it reads of a `LogicalOperator`. A null pointer or INVALID_INDEX is `none`.
use openivm.Base.{ℕ, Bool, List, Option, Bytes}
use openivm.Classifier.Types.{DeltaUnsupportedReason, DeltaUpdateSemantics}

pub data DeltaModelNodeKind : Type 0 where
  scan filter project join aggregate window distinct semi_anti union top_k : DeltaModelNodeKind
  unnest asof_join positional_join sample cte constant other : DeltaModelNodeKind

pub data DeltaRuleKind : Type 0 where
  linear product stateful non_linear full_only : DeltaRuleKind

pub data DeltaMaintenanceMode : Type 0 where
  delta_only delta_with_state affected_domain_recompute full_recompute : DeltaMaintenanceMode

pub data DeltaMaintenanceStateKind : Type 0 where
  no_state current_relation mv_data aux_table : DeltaMaintenanceStateKind

pub data DeltaAuxStateKind : Type 0 where
  distinct_count filtered_group_count semi_anti_match : DeltaAuxStateKind

unfoldable pub DeltaAuxStateKind-discrete : Discrete DeltaAuxStateKind
DeltaAuxStateKind-discrete = hlevel

pub data DeltaAffectedDomainKind : Type 0 where
  group window_partition projection_key semi_anti_predicate : DeltaAffectedDomainKind

unfoldable pub DeltaAffectedDomainKind-discrete : Discrete DeltaAffectedDomainKind
DeltaAffectedDomainKind-discrete = hlevel

unfoldable pub DeltaModelNodeKind-discrete : Discrete DeltaModelNodeKind
DeltaModelNodeKind-discrete = hlevel

pub record DeltaNodeMaintenance : Type 0 where
  pub mode : DeltaMaintenanceMode
  pub state : DeltaMaintenanceStateKind

pub record DeltaAffectedDomain : Type 0 where
  pub kind : DeltaAffectedDomainKind
  pub node_id : Option ℕ
  pub key_columns : List Bytes
  pub source_tables : List Bytes
  pub delta_local : Bool
  pub needs_base_lookup : Bool

-- `DeltaModelNode`, less its lineage facts; `plan_node` is the operator's number.
pub record DeltaModelNode : Type 0 where
  pub id : ℕ
  pub kind : DeltaModelNodeKind
  pub rule : DeltaRuleKind
  pub plan_node : Option ℕ
  pub children : List ℕ
  pub source_table : Bytes
  pub source_occurrence : Option ℕ
  pub source_table_index : Option ℕ
  pub source_tables : List Bytes
  pub output_columns : List Bytes
  pub hidden_columns : List Bytes
  pub affected_key_columns : List Bytes
  pub maintenance : DeltaNodeMaintenance
  pub update_semantics : List DeltaUpdateSemantics
  pub unsupported_reasons : List DeltaUnsupportedReason
  pub required_aux_states : List DeltaAuxStateKind
  pub affected_domains : List DeltaAffectedDomain

-- The `LogicalOperatorType`s that the source tells apart.
pub data LogicalOperatorType : Type 0 where
  logical_get logical_filter logical_projection : LogicalOperatorType
  logical_aggregate_and_group_by logical_window logical_distinct : LogicalOperatorType
  logical_union logical_top_n logical_limit logical_order_by : LogicalOperatorType
  logical_unnest logical_asof_join logical_positional_join : LogicalOperatorType
  logical_sample logical_dummy_scan logical_expression_get : LogicalOperatorType
  logical_chunk_get logical_cte_ref logical_materialized_cte : LogicalOperatorType
  logical_comparison_join logical_any_join logical_dependent_join : LogicalOperatorType
  logical_delim_join logical_join logical_cross_product : LogicalOperatorType
  logical_create_table logical_insert logical_delim_get other_type : LogicalOperatorType

unfoldable pub LogicalOperatorType-discrete : Discrete LogicalOperatorType
LogicalOperatorType-discrete = hlevel

-- The `JoinType`s that the source tells apart.
pub data JoinType : Type 0 where
  inner_join left_join right_join outer_join semi_join anti_join mark_join single_join other_join :
      JoinType

-- An expression's alias and its `GetName()`.
pub record ExpressionName : Type 0 where
  pub alias : Bytes
  pub name : Bytes

-- What the source reads of one operator; `number` stands for its address. `join_type` is there if
-- it is a `LogicalJoin`, the scan fields if it is a `LogicalGet`.
pub record LogicalOperator : Type 0 where
  pub number : ℕ
  pub type : LogicalOperatorType
  pub join_type : Option JoinType
  pub expressions : List (Option ExpressionName)
  pub scan_index : Option ℕ
  pub scan_names : List Bytes

mutual
  pub data Plan : Type 0 where
    operator : LogicalOperator → Plans → Plan

  pub data Plans : Type 0 where
    no_plans : Plans
    plan_of : Plan → Plans → Plans
