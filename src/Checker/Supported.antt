-- ===== src/Checker/Supported.antt =====
-- src/core/incremental_checker.cpp: what single operators do to the compatibility of the plan.
use openivm.Base.{
  ◌≡◌, refl, ap, ◌∙◌, Bool, true, false, ◌&&◌, not, List, [], ◌∷◌, Option, none, some, is_empty,
  arith, Bool-cases, inl, inr, if◌then◌else◌, ℕ,
}
use openivm.Classifier.Facts.{PlanAnalysis}
use openivm.Classifier.Reasons.{is_set}
use openivm.DeltaModel.Types.{LogicalOperatorType, JoinType}
use openivm.DeltaModel.Types
use openivm.Checker.Operators.{
  CheckedOperator, WindowPartition, OrderByNode, CheckedPlans, LimitNode,
}
use openivm.Checker.Facts.{
  order_by_column_name, order_loop, extract_order_by, add_partition, add_partitions, add_windows,
  member, partition_column,
}
use openivm.Checker.Local.{
  mark_having, mark_union, mark_sample, mark_distinct, mark_top_n, mark_order_by, mark_limit,
  set_limit, set_offset, local_facts,
}
use openivm.Checker.Offends.{any_unnamed, own_offence}
use openivm.Checker.AggregateSupport.{
  compatible, if-same, and_true, and_and, mark_volatile_if-compatible,
  mark_non_foldable_if-compatible, mark_join-compatible, mark_aggregate_node-compatible,
}

add_partition-compatible :
    (part : WindowPartition) (a : PlanAnalysis) → compatible (add_partition part a) ≡ compatible a
unfolding add_partition
add_partition-compatible part a =
    if-same compatible (member (partition_column part).0 a.window_partition_columns) _ _ refl refl

add_partitions-compatible :
    (parts : List WindowPartition) (a : PlanAnalysis)
    → compatible (add_partitions parts a) ≡ compatible a
unfolding add_partitions
add_partitions-compatible [] a = refl
add_partitions-compatible (part ∷ parts) a =
    add_partitions-compatible parts _ ∙ add_partition-compatible part a

add_windows-compatible :
    (windows : List (List WindowPartition)) (a : PlanAnalysis)
    → compatible (add_windows windows a) ≡ compatible a
unfolding add_windows
add_windows-compatible [] a = refl
add_windows-compatible (w ∷ ws) a = add_windows-compatible ws _ ∙ add_partitions-compatible w a

order_loop-compatible :
    (orders : List OrderByNode) (a : PlanAnalysis)
    → compatible (order_loop orders a).0 ≡ compatible a
unfolding order_loop
order_loop-compatible [] a = refl
order_loop-compatible (o ∷ os) a = elim (Bool-cases (is_empty (order_by_column_name o))) [
  | inl e ↦ rw e refl
  | inr e ↦ rw e (order_loop-compatible os _)
]

order_loop-unnamed :
    (orders : List OrderByNode) (a : PlanAnalysis)
    → (order_loop orders a).1 ≡ not (any_unnamed orders)
unfolding order_loop any_unnamed
order_loop-unnamed [] a = refl
order_loop-unnamed (o ∷ os) a = elim (Bool-cases (is_empty (order_by_column_name o))) [
  | inl e ↦ rw e refl
  | inr e ↦ rw e (order_loop-unnamed os _)
]

if-refuses_else :
    (b : Bool) (x a : PlanAnalysis)
    → compatible x ≡ false
    → compatible (if b then a else x) ≡ (compatible a && b)
if-refuses_else true x a h = and_true _
if-refuses_else false x a h = h ∙ ground (arith, Bool-cases (compatible a))

mark_top_n-compatible :
    (op : CheckedOperator) (a : PlanAnalysis)
    → compatible (mark_top_n op a) ≡ (compatible a && not (any_unnamed op.orders))
unfolding mark_top_n extract_order_by
mark_top_n-compatible op a =
    let loop = order_loop op.orders (record a {
      found_top_k = true;
      top_k_limit = op.limit;
      top_k_offset = op.offset;
      top_k_order_columns = [];
      top_k_order_desc = [];
    }) in
    if-refuses_else loop.1 _ loop.0 refl
    ∙ ap (λ c. c && loop.1) (order_loop-compatible op.orders _)
    ∙ ap (λ c. compatible a && c) (order_loop-unnamed op.orders _)

mark_order_by-compatible :
    (op : CheckedOperator) (a : PlanAnalysis) → compatible (mark_order_by op a) ≡ compatible a
unfolding mark_order_by extract_order_by
mark_order_by-compatible op a = if-same compatible _ _ _ (order_loop-compatible op.orders _) refl

set_limit-compatible : (n : Option ℕ) (a : PlanAnalysis) → compatible (set_limit n a) ≡ compatible a
unfolding set_limit
set_limit-compatible none a = refl
set_limit-compatible (some n) a = refl

set_offset-compatible :
    (n : Option ℕ) (a : PlanAnalysis) → compatible (set_offset n a) ≡ compatible a
unfolding set_offset
set_offset-compatible none a = refl
set_offset-compatible (some n) a = refl

mark_limit-compatible :
    (l : Option LimitNode) (a : PlanAnalysis) → compatible (mark_limit l a) ≡ compatible a
unfolding mark_limit
mark_limit-compatible none a = refl
mark_limit-compatible (some l) a =
    set_offset-compatible l.offset_val _ ∙ set_limit-compatible l.limit_val _

mark_having-compatible :
    (ps : CheckedPlans) (a : PlanAnalysis) → compatible (mark_having ps a) ≡ compatible a
unfolding mark_having
mark_having-compatible ps a = if-same compatible _ _ _ refl refl

mark_union-compatible :
    (op : CheckedOperator) (a : PlanAnalysis) → compatible (mark_union op a) ≡ compatible a
unfolding mark_union
mark_union-compatible op a = if-same compatible _ _ _ refl refl

and_left : (b c d : Bool) → c ≡ d → (c && not b) ≡ (d && not b)
and_left b c d h = ap (λ x. x && not b) h

-- An operator refuses the plan exactly if it is one that the description refuses.
pub local_facts-compatible :
    (t : LogicalOperatorType) (op : CheckedOperator) (ps : CheckedPlans) (a : PlanAnalysis)
    → compatible (local_facts t op ps a)
      ≡ (compatible a && not (own_offence (is_set a.group_index) t op))
unfolding local_facts own_offence mark_sample mark_distinct
local_facts-compatible Types.logical_create_table op ps a = and_true _
local_facts-compatible Types.logical_insert op ps a = and_true _
local_facts-compatible Types.logical_dummy_scan op ps a = and_true _
local_facts-compatible Types.logical_get op ps a = and_true _
local_facts-compatible Types.logical_expression_get op ps a = and_true _
local_facts-compatible Types.logical_chunk_get op ps a = and_true _
local_facts-compatible Types.logical_delim_get op ps a = and_true _
local_facts-compatible Types.logical_cte_ref op ps a = and_true _
local_facts-compatible Types.logical_materialized_cte op ps a = and_true _
local_facts-compatible Types.logical_positional_join op ps a = and_true _
local_facts-compatible Types.logical_unnest op ps a = mark_volatile_if-compatible _ _
local_facts-compatible Types.logical_sample op ps a = mark_volatile_if-compatible _ _
local_facts-compatible Types.logical_distinct op ps a = mark_volatile_if-compatible _ _
local_facts-compatible Types.logical_filter op ps a =
    mark_having-compatible ps _ ∙ mark_volatile_if-compatible _ _
local_facts-compatible Types.logical_projection op ps a =
    mark_non_foldable_if-compatible _ _ ∙ and_and _ _ _ _ (mark_volatile_if-compatible _ _)
local_facts-compatible Types.logical_union op ps a =
    mark_volatile_if-compatible _ _ ∙ and_left _ _ _ (mark_union-compatible op a)
local_facts-compatible Types.logical_comparison_join op ps a = mark_join-compatible op.join_type _
local_facts-compatible Types.logical_asof_join op ps a = mark_join-compatible op.join_type _
local_facts-compatible Types.logical_any_join op ps a = mark_join-compatible op.join_type _
local_facts-compatible Types.logical_dependent_join op ps a = mark_join-compatible op.join_type _
local_facts-compatible Types.logical_delim_join op ps a = mark_join-compatible op.join_type _
local_facts-compatible Types.logical_join op ps a = mark_join-compatible op.join_type _
local_facts-compatible Types.logical_cross_product op ps a = mark_join-compatible op.join_type _
local_facts-compatible Types.logical_aggregate_and_group_by op ps a =
    mark_aggregate_node-compatible op.aggregate a
local_facts-compatible Types.logical_window op ps a =
    add_windows-compatible op.windows _ ∙ mark_volatile_if-compatible _ _
local_facts-compatible Types.logical_top_n op ps a = mark_top_n-compatible op a
local_facts-compatible Types.logical_order_by op ps a = mark_order_by-compatible op a ∙ and_true _
local_facts-compatible Types.logical_limit op ps a =
    mark_limit-compatible op.limit_node a ∙ and_true _
local_facts-compatible Types.other_type op ps a = ground (arith, Bool-cases (compatible a))
