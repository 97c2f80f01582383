-- ===== src/Checker/Operators.antt =====
-- The plan as src/core/incremental_checker.cpp reads it: for every operator, what the code reads of
-- DuckDB's class for it. A failed cast or a null pointer is `none`.
use openivm.Base.{ℕ, Bool, List, Option, Bytes}
use openivm.DeltaModel.Types.{LogicalOperatorType, JoinType, ExpressionName}

-- One expression that `ExpressionIterator::EnumerateExpression` visits. A function is consistent if
-- its stability is `FunctionStability::CONSISTENT`; an UNNEST is foldable if its child is there and is.
pub data Visited : Type 0 where
  bound_function : Bytes → Bool → Visited
  bound_unnest : Bool → Visited
  other_expression : Visited

-- What one expression of a list lets the enumeration visit, in its order.
abbrev pub Expression : Type 0
Expression = List Visited

-- `BoundAggregateExpression`
pub record BoundAggregate : Type 0 where
  pub function_name : Bytes
  pub is_distinct : Bool
  pub has_filter : Bool

-- `LogicalAggregate`; an expression that is no bound aggregate is `none`.
pub record AggregateNode : Type 0 where
  pub grouping_sets : ℕ
  pub aggregates : List (Option BoundAggregate)
  pub groups : List Expression
  pub group_index : ℕ

-- A PARTITION BY entry of a `BoundWindowExpression`: a column reference has a position and an alias.
pub record WindowPartition : Type 0 where
  pub column : Option (Bytes × ℕ)
  pub get_name : Bytes

-- `BoundOrderByNode`; `column` is there if the expression is a column reference.
pub record OrderByNode : Type 0 where
  pub column : Option ExpressionName
  pub descending : Bool

-- `LogicalLimit`: its constant limit and its constant offset.
pub record LimitNode : Type 0 where
  pub limit_val : Option ℕ
  pub offset_val : Option ℕ

-- The members of the operator's class that the analysis reads; those of other classes are unused.
pub record CheckedOperator : Type 0 where
  pub type : LogicalOperatorType
  pub join_type : Option JoinType
  pub width : ℕ
  pub expressions : List Expression
  pub setop_all : Bool
  pub has_seed : Bool
  pub distinct_targets : List Bytes
  pub aggregate : Option AggregateNode
  pub windows : List (List WindowPartition)
  pub orders : List OrderByNode
  pub limit : ℕ
  pub offset : ℕ
  pub limit_node : Option LimitNode

mutual
  pub data CheckedPlan : Type 0 where
    checked : CheckedOperator → CheckedPlans → CheckedPlan

  pub data CheckedPlans : Type 0 where
    no_subplans : CheckedPlans
    child : CheckedPlan → CheckedPlans → CheckedPlans
