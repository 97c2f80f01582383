-- ===== src/Checker/OperatorSteps.antt =====
-- src/core/incremental_checker.cpp: what an operator adds is a sequence of elementary additions.
use openivm.Base.{
  ℕ, true, List, [], ◌∷◌, Option, none, some, ◌≡◌, refl, Bool-cases, inl, inr, is_empty,
}
use openivm.Classifier.Facts.{PlanAnalysis}
use openivm.DeltaModel.Types.{JoinType}
use openivm.Checker.Operators.{CheckedOperator, AggregateNode, LimitNode, OrderByNode, CheckedPlans}
use openivm.Checker.Facts.{order_by_column_name, order_loop, extract_order_by}
use openivm.Checker.Local.{
  mark_having, mark_union, mark_sample, distinct_columns, mark_distinct, mark_join,
  mark_grouping_sets, mark_outermost, mark_aggregate_node, mark_top_n, mark_order_by, mark_limit,
  set_limit, set_offset,
}
use openivm.Checker.Adds.{
  aggregation, having, distinct, union_distinct, sample, top_k, grouping_sets, nested_aggregate,
  unsupported_order_by, limit, offset, no_order, order, columns, outermost, same, adds, next, Grows,
  if-Grows,
}
use openivm.Checker.Lasts.{found_aggregation-lasts}
use openivm.Checker.FactSteps.{mark_volatile_if-Grows, mark_join_type-Grows, mark_aggregates-Grows}

order_loop-Grows : (orders : List OrderByNode) (a : PlanAnalysis) → Grows a (order_loop orders a).0
unfolding order_loop
order_loop-Grows [] a = same
order_loop-Grows (o ∷ os) a = elim (Bool-cases (is_empty (order_by_column_name o))) [
  | inl e ↦ rw e same
  | inr e ↦ rw e (next (adds (order (order_by_column_name o) o.descending)) (order_loop-Grows os _))
]

extract_order_by-Grows :
    (orders : List OrderByNode) (a : PlanAnalysis) → Grows a (extract_order_by orders a).0
unfolding extract_order_by
extract_order_by-Grows orders a = next (adds no_order) (order_loop-Grows orders _)

pub mark_join-Grows :
    (t : Option JoinType) (a : PlanAnalysis) → a.found_join ≡ true → Grows a (mark_join t a)
unfolding mark_join
mark_join-Grows none a h = same
mark_join-Grows (some t) a h = mark_join_type-Grows t a h

mark_grouping_sets-Grows :
    (agg : AggregateNode) (a : PlanAnalysis)
    → a.found_aggregation ≡ true
    → Grows a (mark_grouping_sets agg a)
unfolding mark_grouping_sets
mark_grouping_sets-Grows agg a h = if-Grows _ (adds (grouping_sets h)) same

mark_outermost-Grows :
    (agg : AggregateNode) (n : ℕ) (a : PlanAnalysis)
    → a.found_aggregation ≡ true
    → Grows a (mark_outermost agg n a)
unfolding mark_outermost
mark_outermost-Grows agg n a h =
    if-Grows _ (adds (nested_aggregate h)) (adds (outermost n agg.group_index h))

pub mark_aggregate_node-Grows :
    (agg : Option AggregateNode) (a : PlanAnalysis) → Grows a (mark_aggregate_node agg a)
unfolding mark_aggregate_node
mark_aggregate_node-Grows none a = adds aggregation
mark_aggregate_node-Grows (some agg) a =
    let s1 = mark_grouping_sets-Grows agg (record a { found_aggregation = true }) refl in
    let s2 = next s1 (mark_aggregates-Grows agg.aggregates _ (found_aggregation-lasts s1 refl)) in
    let s3 = next s2 (mark_volatile_if-Grows _ _) in
    next (adds aggregation)
      (next s3 (mark_outermost-Grows agg _ _ (found_aggregation-lasts s3 refl)))

pub mark_top_n-Grows : (op : CheckedOperator) (a : PlanAnalysis) → Grows a (mark_top_n op a)
unfolding mark_top_n
mark_top_n-Grows op a =
    next
      (next (adds top_k) (
        next (adds (limit op.limit))
          (next (adds (offset op.offset)) (extract_order_by-Grows op.orders _))))
      (if-Grows _ same (adds unsupported_order_by))

set_limit-Grows : (n : Option ℕ) (a : PlanAnalysis) → Grows a (set_limit n a)
unfolding set_limit
set_limit-Grows none a = same
set_limit-Grows (some n) a = adds (limit n)

set_offset-Grows : (n : Option ℕ) (a : PlanAnalysis) → Grows a (set_offset n a)
unfolding set_offset
set_offset-Grows none a = same
set_offset-Grows (some n) a = adds (offset n)

pub mark_limit-Grows : (l : Option LimitNode) (a : PlanAnalysis) → Grows a (mark_limit l a)
unfolding mark_limit
mark_limit-Grows none a = adds top_k
mark_limit-Grows (some l) a =
    next (adds top_k) (next (set_limit-Grows l.limit_val _) (set_offset-Grows l.offset_val _))

pub mark_sample-Grows : (op : CheckedOperator) (a : PlanAnalysis) → Grows a (mark_sample op a)
unfolding mark_sample
mark_sample-Grows op a = next (adds sample) (mark_volatile_if-Grows _ _)

pub mark_distinct-Grows :
    (op : CheckedOperator) (ps : CheckedPlans) (a : PlanAnalysis) → Grows a (mark_distinct op ps a)
unfolding mark_distinct
mark_distinct-Grows op ps a =
    next (next (adds distinct) (mark_volatile_if-Grows _ _))
      (adds (columns (distinct_columns op ps)))

pub mark_order_by-Grows : (op : CheckedOperator) (a : PlanAnalysis) → Grows a (mark_order_by op a)
unfolding mark_order_by
mark_order_by-Grows op a = if-Grows _ (extract_order_by-Grows op.orders a) same

pub mark_having-Grows : (ps : CheckedPlans) (a : PlanAnalysis) → Grows a (mark_having ps a)
unfolding mark_having
mark_having-Grows ps a = if-Grows _ (adds having) same

pub mark_union-Grows : (op : CheckedOperator) (a : PlanAnalysis) → Grows a (mark_union op a)
unfolding mark_union
mark_union-Grows op a = if-Grows _ (adds union_distinct) same
