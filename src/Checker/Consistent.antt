-- ===== src/Checker/Consistent.antt =====
-- src/core/incremental_checker.cpp: how the facts that the analysis finds hang together.
use openivm.Base.{◌≡◌, refl, Bool, true, not, ◌||◌, arith, Bool-cases}
use openivm.Classifier.Facts.{PlanAnalysis, new_analysis}
use openivm.Classifier.Reasons.{is_set}
use openivm.Checker.Operators.{CheckedPlan}
use openivm.Checker.Facts.{merge_facts}
use openivm.Checker.Analyze.{analyze_plan}
use openivm.Checker.Adds.{
  Adds, aggregation, projection, having, distinct, union_distinct, minmax, list, filtered_list,
  left_join, full_outer, semi_anti_join, join, delim_join, single_join, asof_join, positional_join,
  sample, window, top_k, count_distinct, grouping_sets, nested_aggregate, volatile_expression,
  non_foldable_unnest, unsupported_aggregate, unsupported_filtered_aggregate, unsupported_join_type,
  unsupported_order_by, unsupported_operator, limit, offset, no_order, order, columns,
  aggregate_type, partition, outermost, Grows-Kept,
}
use openivm.Checker.Grows.{analyze_node-Grows}

-- Whether a fact is set only together with another.
abbrev pub implies : Bool → Bool → Bool
implies b c = not b || c

implies-true : (b : Bool) → implies b true ≡ true
implies-true b = ground (arith, Bool-cases b)

-- What is found of an aggregate comes with the aggregate.
pub record AggregateFacts (a : PlanAnalysis) : Type 0 where
  pub minmax_implied : implies a.found_minmax a.found_aggregation ≡ true
  pub list_implied : implies a.found_list a.found_aggregation ≡ true
  pub filtered_list_implied : implies a.found_filtered_list a.found_aggregation ≡ true
  pub count_distinct_implied : implies a.found_count_distinct a.found_aggregation ≡ true
  pub grouping_sets_implied : implies a.found_grouping_sets a.found_aggregation ≡ true
  pub nested_aggregate_implied : implies a.found_nested_aggregate a.found_aggregation ≡ true
  pub group_index_implied : implies (is_set a.group_index) a.found_aggregation ≡ true

AggregateFacts-Adds : {a b : PlanAnalysis} → Adds a b → AggregateFacts a → AggregateFacts b
AggregateFacts-Adds aggregation h = record {
  minmax_implied = implies-true _;
  list_implied = implies-true _;
  filtered_list_implied = implies-true _;
  count_distinct_implied = implies-true _;
  grouping_sets_implied = implies-true _;
  nested_aggregate_implied = implies-true _;
  group_index_implied = implies-true _;
}
AggregateFacts-Adds projection h = record {
  minmax_implied = h.minmax_implied;
  list_implied = h.list_implied;
  filtered_list_implied = h.filtered_list_implied;
  count_distinct_implied = h.count_distinct_implied;
  grouping_sets_implied = h.grouping_sets_implied;
  nested_aggregate_implied = h.nested_aggregate_implied;
  group_index_implied = h.group_index_implied;
}
AggregateFacts-Adds having h = record {
  minmax_implied = h.minmax_implied;
  list_implied = h.list_implied;
  filtered_list_implied = h.filtered_list_implied;
  count_distinct_implied = h.count_distinct_implied;
  grouping_sets_implied = h.grouping_sets_implied;
  nested_aggregate_implied = h.nested_aggregate_implied;
  group_index_implied = h.group_index_implied;
}
AggregateFacts-Adds distinct h = record {
  minmax_implied = h.minmax_implied;
  list_implied = h.list_implied;
  filtered_list_implied = h.filtered_list_implied;
  count_distinct_implied = h.count_distinct_implied;
  grouping_sets_implied = h.grouping_sets_implied;
  nested_aggregate_implied = h.nested_aggregate_implied;
  group_index_implied = h.group_index_implied;
}
AggregateFacts-Adds union_distinct h = record {
  minmax_implied = h.minmax_implied;
  list_implied = h.list_implied;
  filtered_list_implied = h.filtered_list_implied;
  count_distinct_implied = h.count_distinct_implied;
  grouping_sets_implied = h.grouping_sets_implied;
  nested_aggregate_implied = h.nested_aggregate_implied;
  group_index_implied = h.group_index_implied;
}
AggregateFacts-Adds (minmax e) h = record {
  minmax_implied = e;
  list_implied = h.list_implied;
  filtered_list_implied = h.filtered_list_implied;
  count_distinct_implied = h.count_distinct_implied;
  grouping_sets_implied = h.grouping_sets_implied;
  nested_aggregate_implied = h.nested_aggregate_implied;
  group_index_implied = h.group_index_implied;
}
AggregateFacts-Adds (list e) h = record {
  minmax_implied = h.minmax_implied;
  list_implied = e;
  filtered_list_implied = h.filtered_list_implied;
  count_distinct_implied = h.count_distinct_implied;
  grouping_sets_implied = h.grouping_sets_implied;
  nested_aggregate_implied = h.nested_aggregate_implied;
  group_index_implied = h.group_index_implied;
}
AggregateFacts-Adds (filtered_list e) h = record {
  minmax_implied = h.minmax_implied;
  list_implied = h.list_implied;
  filtered_list_implied = e;
  count_distinct_implied = h.count_distinct_implied;
  grouping_sets_implied = h.grouping_sets_implied;
  nested_aggregate_implied = h.nested_aggregate_implied;
  group_index_implied = h.group_index_implied;
}
AggregateFacts-Adds (left_join _) h = record {
  minmax_implied = h.minmax_implied;
  list_implied = h.list_implied;
  filtered_list_implied = h.filtered_list_implied;
  count_distinct_implied = h.count_distinct_implied;
  grouping_sets_implied = h.grouping_sets_implied;
  nested_aggregate_implied = h.nested_aggregate_implied;
  group_index_implied = h.group_index_implied;
}
AggregateFacts-Adds (full_outer _) h = record {
  minmax_implied = h.minmax_implied;
  list_implied = h.list_implied;
  filtered_list_implied = h.filtered_list_implied;
  count_distinct_implied = h.count_distinct_implied;
  grouping_sets_implied = h.grouping_sets_implied;
  nested_aggregate_implied = h.nested_aggregate_implied;
  group_index_implied = h.group_index_implied;
}
AggregateFacts-Adds (semi_anti_join _) h = record {
  minmax_implied = h.minmax_implied;
  list_implied = h.list_implied;
  filtered_list_implied = h.filtered_list_implied;
  count_distinct_implied = h.count_distinct_implied;
  grouping_sets_implied = h.grouping_sets_implied;
  nested_aggregate_implied = h.nested_aggregate_implied;
  group_index_implied = h.group_index_implied;
}
AggregateFacts-Adds join h = record {
  minmax_implied = h.minmax_implied;
  list_implied = h.list_implied;
  filtered_list_implied = h.filtered_list_implied;
  count_distinct_implied = h.count_distinct_implied;
  grouping_sets_implied = h.grouping_sets_implied;
  nested_aggregate_implied = h.nested_aggregate_implied;
  group_index_implied = h.group_index_implied;
}
AggregateFacts-Adds delim_join h = record {
  minmax_implied = h.minmax_implied;
  list_implied = h.list_implied;
  filtered_list_implied = h.filtered_list_implied;
  count_distinct_implied = h.count_distinct_implied;
  grouping_sets_implied = h.grouping_sets_implied;
  nested_aggregate_implied = h.nested_aggregate_implied;
  group_index_implied = h.group_index_implied;
}
AggregateFacts-Adds (single_join _) h = record {
  minmax_implied = h.minmax_implied;
  list_implied = h.list_implied;
  filtered_list_implied = h.filtered_list_implied;
  count_distinct_implied = h.count_distinct_implied;
  grouping_sets_implied = h.grouping_sets_implied;
  nested_aggregate_implied = h.nested_aggregate_implied;
  group_index_implied = h.group_index_implied;
}
AggregateFacts-Adds asof_join h = record {
  minmax_implied = h.minmax_implied;
  list_implied = h.list_implied;
  filtered_list_implied = h.filtered_list_implied;
  count_distinct_implied = h.count_distinct_implied;
  grouping_sets_implied = h.grouping_sets_implied;
  nested_aggregate_implied = h.nested_aggregate_implied;
  group_index_implied = h.group_index_implied;
}
AggregateFacts-Adds positional_join h = record {
  minmax_implied = h.minmax_implied;
  list_implied = h.list_implied;
  filtered_list_implied = h.filtered_list_implied;
  count_distinct_implied = h.count_distinct_implied;
  grouping_sets_implied = h.grouping_sets_implied;
  nested_aggregate_implied = h.nested_aggregate_implied;
  group_index_implied = h.group_index_implied;
}
AggregateFacts-Adds sample h = record {
  minmax_implied = h.minmax_implied;
  list_implied = h.list_implied;
  filtered_list_implied = h.filtered_list_implied;
  count_distinct_implied = h.count_distinct_implied;
  grouping_sets_implied = h.grouping_sets_implied;
  nested_aggregate_implied = h.nested_aggregate_implied;
  group_index_implied = h.group_index_implied;
}
AggregateFacts-Adds window h = record {
  minmax_implied = h.minmax_implied;
  list_implied = h.list_implied;
  filtered_list_implied = h.filtered_list_implied;
  count_distinct_implied = h.count_distinct_implied;
  grouping_sets_implied = h.grouping_sets_implied;
  nested_aggregate_implied = h.nested_aggregate_implied;
  group_index_implied = h.group_index_implied;
}
AggregateFacts-Adds top_k h = record {
  minmax_implied = h.minmax_implied;
  list_implied = h.list_implied;
  filtered_list_implied = h.filtered_list_implied;
  count_distinct_implied = h.count_distinct_implied;
  grouping_sets_implied = h.grouping_sets_implied;
  nested_aggregate_implied = h.nested_aggregate_implied;
  group_index_implied = h.group_index_implied;
}
AggregateFacts-Adds (count_distinct e) h = record {
  minmax_implied = h.minmax_implied;
  list_implied = h.list_implied;
  filtered_list_implied = h.filtered_list_implied;
  count_distinct_implied = e;
  grouping_sets_implied = h.grouping_sets_implied;
  nested_aggregate_implied = h.nested_aggregate_implied;
  group_index_implied = h.group_index_implied;
}
AggregateFacts-Adds (grouping_sets e) h = record {
  minmax_implied = h.minmax_implied;
  list_implied = h.list_implied;
  filtered_list_implied = h.filtered_list_implied;
  count_distinct_implied = h.count_distinct_implied;
  grouping_sets_implied = e;
  nested_aggregate_implied = h.nested_aggregate_implied;
  group_index_implied = h.group_index_implied;
}
AggregateFacts-Adds (nested_aggregate e) h = record {
  minmax_implied = h.minmax_implied;
  list_implied = h.list_implied;
  filtered_list_implied = h.filtered_list_implied;
  count_distinct_implied = h.count_distinct_implied;
  grouping_sets_implied = h.grouping_sets_implied;
  nested_aggregate_implied = e;
  group_index_implied = h.group_index_implied;
}
AggregateFacts-Adds volatile_expression h = record {
  minmax_implied = h.minmax_implied;
  list_implied = h.list_implied;
  filtered_list_implied = h.filtered_list_implied;
  count_distinct_implied = h.count_distinct_implied;
  grouping_sets_implied = h.grouping_sets_implied;
  nested_aggregate_implied = h.nested_aggregate_implied;
  group_index_implied = h.group_index_implied;
}
AggregateFacts-Adds non_foldable_unnest h = record {
  minmax_implied = h.minmax_implied;
  list_implied = h.list_implied;
  filtered_list_implied = h.filtered_list_implied;
  count_distinct_implied = h.count_distinct_implied;
  grouping_sets_implied = h.grouping_sets_implied;
  nested_aggregate_implied = h.nested_aggregate_implied;
  group_index_implied = h.group_index_implied;
}
AggregateFacts-Adds unsupported_aggregate h = record {
  minmax_implied = h.minmax_implied;
  list_implied = h.list_implied;
  filtered_list_implied = h.filtered_list_implied;
  count_distinct_implied = h.count_distinct_implied;
  grouping_sets_implied = h.grouping_sets_implied;
  nested_aggregate_implied = h.nested_aggregate_implied;
  group_index_implied = h.group_index_implied;
}
AggregateFacts-Adds unsupported_filtered_aggregate h = record {
  minmax_implied = h.minmax_implied;
  list_implied = h.list_implied;
  filtered_list_implied = h.filtered_list_implied;
  count_distinct_implied = h.count_distinct_implied;
  grouping_sets_implied = h.grouping_sets_implied;
  nested_aggregate_implied = h.nested_aggregate_implied;
  group_index_implied = h.group_index_implied;
}
AggregateFacts-Adds unsupported_join_type h = record {
  minmax_implied = h.minmax_implied;
  list_implied = h.list_implied;
  filtered_list_implied = h.filtered_list_implied;
  count_distinct_implied = h.count_distinct_implied;
  grouping_sets_implied = h.grouping_sets_implied;
  nested_aggregate_implied = h.nested_aggregate_implied;
  group_index_implied = h.group_index_implied;
}
AggregateFacts-Adds unsupported_order_by h = record {
  minmax_implied = h.minmax_implied;
  list_implied = h.list_implied;
  filtered_list_implied = h.filtered_list_implied;
  count_distinct_implied = h.count_distinct_implied;
  grouping_sets_implied = h.grouping_sets_implied;
  nested_aggregate_implied = h.nested_aggregate_implied;
  group_index_implied = h.group_index_implied;
}
AggregateFacts-Adds unsupported_operator h = record {
  minmax_implied = h.minmax_implied;
  list_implied = h.list_implied;
  filtered_list_implied = h.filtered_list_implied;
  count_distinct_implied = h.count_distinct_implied;
  grouping_sets_implied = h.grouping_sets_implied;
  nested_aggregate_implied = h.nested_aggregate_implied;
  group_index_implied = h.group_index_implied;
}
AggregateFacts-Adds (limit _) h = record {
  minmax_implied = h.minmax_implied;
  list_implied = h.list_implied;
  filtered_list_implied = h.filtered_list_implied;
  count_distinct_implied = h.count_distinct_implied;
  grouping_sets_implied = h.grouping_sets_implied;
  nested_aggregate_implied = h.nested_aggregate_implied;
  group_index_implied = h.group_index_implied;
}
AggregateFacts-Adds (offset _) h = record {
  minmax_implied = h.minmax_implied;
  list_implied = h.list_implied;
  filtered_list_implied = h.filtered_list_implied;
  count_distinct_implied = h.count_distinct_implied;
  grouping_sets_implied = h.grouping_sets_implied;
  nested_aggregate_implied = h.nested_aggregate_implied;
  group_index_implied = h.group_index_implied;
}
AggregateFacts-Adds no_order h = record {
  minmax_implied = h.minmax_implied;
  list_implied = h.list_implied;
  filtered_list_implied = h.filtered_list_implied;
  count_distinct_implied = h.count_distinct_implied;
  grouping_sets_implied = h.grouping_sets_implied;
  nested_aggregate_implied = h.nested_aggregate_implied;
  group_index_implied = h.group_index_implied;
}
AggregateFacts-Adds (order _ _) h = record {
  minmax_implied = h.minmax_implied;
  list_implied = h.list_implied;
  filtered_list_implied = h.filtered_list_implied;
  count_distinct_implied = h.count_distinct_implied;
  grouping_sets_implied = h.grouping_sets_implied;
  nested_aggregate_implied = h.nested_aggregate_implied;
  group_index_implied = h.group_index_implied;
}
AggregateFacts-Adds (columns _) h = record {
  minmax_implied = h.minmax_implied;
  list_implied = h.list_implied;
  filtered_list_implied = h.filtered_list_implied;
  count_distinct_implied = h.count_distinct_implied;
  grouping_sets_implied = h.grouping_sets_implied;
  nested_aggregate_implied = h.nested_aggregate_implied;
  group_index_implied = h.group_index_implied;
}
AggregateFacts-Adds (aggregate_type _) h = record {
  minmax_implied = h.minmax_implied;
  list_implied = h.list_implied;
  filtered_list_implied = h.filtered_list_implied;
  count_distinct_implied = h.count_distinct_implied;
  grouping_sets_implied = h.grouping_sets_implied;
  nested_aggregate_implied = h.nested_aggregate_implied;
  group_index_implied = h.group_index_implied;
}
AggregateFacts-Adds (partition _ _ _) h = record {
  minmax_implied = h.minmax_implied;
  list_implied = h.list_implied;
  filtered_list_implied = h.filtered_list_implied;
  count_distinct_implied = h.count_distinct_implied;
  grouping_sets_implied = h.grouping_sets_implied;
  nested_aggregate_implied = h.nested_aggregate_implied;
  group_index_implied = h.group_index_implied;
}
AggregateFacts-Adds (outermost _ _ e) h = record {
  minmax_implied = h.minmax_implied;
  list_implied = h.list_implied;
  filtered_list_implied = h.filtered_list_implied;
  count_distinct_implied = h.count_distinct_implied;
  grouping_sets_implied = h.grouping_sets_implied;
  nested_aggregate_implied = h.nested_aggregate_implied;
  group_index_implied = e;
}

-- What is found of a join's type comes with the join.
pub record JoinFacts (a : PlanAnalysis) : Type 0 where
  pub left_join_implied : implies a.found_left_join a.found_join ≡ true
  pub full_outer_implied : implies a.found_full_outer a.found_join ≡ true
  pub semi_anti_join_implied : implies a.found_semi_anti_join a.found_join ≡ true
  pub single_join_implied : implies a.found_single_join a.found_join ≡ true
  pub delim_join_implied : implies a.found_delim_join a.found_join ≡ true
  pub full_outer_left_implied : implies a.found_full_outer a.found_left_join ≡ true
  pub union_distinct_implied : implies a.found_union_distinct a.found_distinct ≡ true

JoinFacts-Adds : {a b : PlanAnalysis} → Adds a b → JoinFacts a → JoinFacts b
JoinFacts-Adds aggregation h = record {
  left_join_implied = h.left_join_implied;
  full_outer_implied = h.full_outer_implied;
  semi_anti_join_implied = h.semi_anti_join_implied;
  single_join_implied = h.single_join_implied;
  delim_join_implied = h.delim_join_implied;
  full_outer_left_implied = h.full_outer_left_implied;
  union_distinct_implied = h.union_distinct_implied;
}
JoinFacts-Adds projection h = record {
  left_join_implied = h.left_join_implied;
  full_outer_implied = h.full_outer_implied;
  semi_anti_join_implied = h.semi_anti_join_implied;
  single_join_implied = h.single_join_implied;
  delim_join_implied = h.delim_join_implied;
  full_outer_left_implied = h.full_outer_left_implied;
  union_distinct_implied = h.union_distinct_implied;
}
JoinFacts-Adds having h = record {
  left_join_implied = h.left_join_implied;
  full_outer_implied = h.full_outer_implied;
  semi_anti_join_implied = h.semi_anti_join_implied;
  single_join_implied = h.single_join_implied;
  delim_join_implied = h.delim_join_implied;
  full_outer_left_implied = h.full_outer_left_implied;
  union_distinct_implied = h.union_distinct_implied;
}
JoinFacts-Adds distinct h = record {
  left_join_implied = h.left_join_implied;
  full_outer_implied = h.full_outer_implied;
  semi_anti_join_implied = h.semi_anti_join_implied;
  single_join_implied = h.single_join_implied;
  delim_join_implied = h.delim_join_implied;
  full_outer_left_implied = h.full_outer_left_implied;
  union_distinct_implied = implies-true _;
}
JoinFacts-Adds union_distinct h = record {
  left_join_implied = h.left_join_implied;
  full_outer_implied = h.full_outer_implied;
  semi_anti_join_implied = h.semi_anti_join_implied;
  single_join_implied = h.single_join_implied;
  delim_join_implied = h.delim_join_implied;
  full_outer_left_implied = h.full_outer_left_implied;
  union_distinct_implied = refl;
}
JoinFacts-Adds (minmax _) h = record {
  left_join_implied = h.left_join_implied;
  full_outer_implied = h.full_outer_implied;
  semi_anti_join_implied = h.semi_anti_join_implied;
  single_join_implied = h.single_join_implied;
  delim_join_implied = h.delim_join_implied;
  full_outer_left_implied = h.full_outer_left_implied;
  union_distinct_implied = h.union_distinct_implied;
}
JoinFacts-Adds (list _) h = record {
  left_join_implied = h.left_join_implied;
  full_outer_implied = h.full_outer_implied;
  semi_anti_join_implied = h.semi_anti_join_implied;
  single_join_implied = h.single_join_implied;
  delim_join_implied = h.delim_join_implied;
  full_outer_left_implied = h.full_outer_left_implied;
  union_distinct_implied = h.union_distinct_implied;
}
JoinFacts-Adds (filtered_list _) h = record {
  left_join_implied = h.left_join_implied;
  full_outer_implied = h.full_outer_implied;
  semi_anti_join_implied = h.semi_anti_join_implied;
  single_join_implied = h.single_join_implied;
  delim_join_implied = h.delim_join_implied;
  full_outer_left_implied = h.full_outer_left_implied;
  union_distinct_implied = h.union_distinct_implied;
}
JoinFacts-Adds (left_join e) h = record {
  left_join_implied = e;
  full_outer_implied = h.full_outer_implied;
  semi_anti_join_implied = h.semi_anti_join_implied;
  single_join_implied = h.single_join_implied;
  delim_join_implied = h.delim_join_implied;
  full_outer_left_implied = implies-true _;
  union_distinct_implied = h.union_distinct_implied;
}
JoinFacts-Adds (full_outer e) h = record {
  left_join_implied = e;
  full_outer_implied = e;
  semi_anti_join_implied = h.semi_anti_join_implied;
  single_join_implied = h.single_join_implied;
  delim_join_implied = h.delim_join_implied;
  full_outer_left_implied = refl;
  union_distinct_implied = h.union_distinct_implied;
}
JoinFacts-Adds (semi_anti_join e) h = record {
  left_join_implied = h.left_join_implied;
  full_outer_implied = h.full_outer_implied;
  semi_anti_join_implied = e;
  single_join_implied = h.single_join_implied;
  delim_join_implied = h.delim_join_implied;
  full_outer_left_implied = h.full_outer_left_implied;
  union_distinct_implied = h.union_distinct_implied;
}
JoinFacts-Adds join h = record {
  left_join_implied = implies-true _;
  full_outer_implied = implies-true _;
  semi_anti_join_implied = implies-true _;
  single_join_implied = implies-true _;
  delim_join_implied = implies-true _;
  full_outer_left_implied = h.full_outer_left_implied;
  union_distinct_implied = h.union_distinct_implied;
}
JoinFacts-Adds delim_join h = record {
  left_join_implied = implies-true _;
  full_outer_implied = implies-true _;
  semi_anti_join_implied = implies-true _;
  single_join_implied = implies-true _;
  delim_join_implied = refl;
  full_outer_left_implied = h.full_outer_left_implied;
  union_distinct_implied = h.union_distinct_implied;
}
JoinFacts-Adds (single_join e) h = record {
  left_join_implied = h.left_join_implied;
  full_outer_implied = h.full_outer_implied;
  semi_anti_join_implied = h.semi_anti_join_implied;
  single_join_implied = e;
  delim_join_implied = h.delim_join_implied;
  full_outer_left_implied = h.full_outer_left_implied;
  union_distinct_implied = h.union_distinct_implied;
}
JoinFacts-Adds asof_join h = record {
  left_join_implied = implies-true _;
  full_outer_implied = implies-true _;
  semi_anti_join_implied = implies-true _;
  single_join_implied = implies-true _;
  delim_join_implied = implies-true _;
  full_outer_left_implied = h.full_outer_left_implied;
  union_distinct_implied = h.union_distinct_implied;
}
JoinFacts-Adds positional_join h = record {
  left_join_implied = implies-true _;
  full_outer_implied = implies-true _;
  semi_anti_join_implied = implies-true _;
  single_join_implied = implies-true _;
  delim_join_implied = implies-true _;
  full_outer_left_implied = h.full_outer_left_implied;
  union_distinct_implied = h.union_distinct_implied;
}
JoinFacts-Adds sample h = record {
  left_join_implied = h.left_join_implied;
  full_outer_implied = h.full_outer_implied;
  semi_anti_join_implied = h.semi_anti_join_implied;
  single_join_implied = h.single_join_implied;
  delim_join_implied = h.delim_join_implied;
  full_outer_left_implied = h.full_outer_left_implied;
  union_distinct_implied = h.union_distinct_implied;
}
JoinFacts-Adds window h = record {
  left_join_implied = h.left_join_implied;
  full_outer_implied = h.full_outer_implied;
  semi_anti_join_implied = h.semi_anti_join_implied;
  single_join_implied = h.single_join_implied;
  delim_join_implied = h.delim_join_implied;
  full_outer_left_implied = h.full_outer_left_implied;
  union_distinct_implied = h.union_distinct_implied;
}
JoinFacts-Adds top_k h = record {
  left_join_implied = h.left_join_implied;
  full_outer_implied = h.full_outer_implied;
  semi_anti_join_implied = h.semi_anti_join_implied;
  single_join_implied = h.single_join_implied;
  delim_join_implied = h.delim_join_implied;
  full_outer_left_implied = h.full_outer_left_implied;
  union_distinct_implied = h.union_distinct_implied;
}
JoinFacts-Adds (count_distinct _) h = record {
  left_join_implied = h.left_join_implied;
  full_outer_implied = h.full_outer_implied;
  semi_anti_join_implied = h.semi_anti_join_implied;
  single_join_implied = h.single_join_implied;
  delim_join_implied = h.delim_join_implied;
  full_outer_left_implied = h.full_outer_left_implied;
  union_distinct_implied = h.union_distinct_implied;
}
JoinFacts-Adds (grouping_sets _) h = record {
  left_join_implied = h.left_join_implied;
  full_outer_implied = h.full_outer_implied;
  semi_anti_join_implied = h.semi_anti_join_implied;
  single_join_implied = h.single_join_implied;
  delim_join_implied = h.delim_join_implied;
  full_outer_left_implied = h.full_outer_left_implied;
  union_distinct_implied = h.union_distinct_implied;
}
JoinFacts-Adds (nested_aggregate _) h = record {
  left_join_implied = h.left_join_implied;
  full_outer_implied = h.full_outer_implied;
  semi_anti_join_implied = h.semi_anti_join_implied;
  single_join_implied = h.single_join_implied;
  delim_join_implied = h.delim_join_implied;
  full_outer_left_implied = h.full_outer_left_implied;
  union_distinct_implied = h.union_distinct_implied;
}
JoinFacts-Adds volatile_expression h = record {
  left_join_implied = h.left_join_implied;
  full_outer_implied = h.full_outer_implied;
  semi_anti_join_implied = h.semi_anti_join_implied;
  single_join_implied = h.single_join_implied;
  delim_join_implied = h.delim_join_implied;
  full_outer_left_implied = h.full_outer_left_implied;
  union_distinct_implied = h.union_distinct_implied;
}
JoinFacts-Adds non_foldable_unnest h = record {
  left_join_implied = h.left_join_implied;
  full_outer_implied = h.full_outer_implied;
  semi_anti_join_implied = h.semi_anti_join_implied;
  single_join_implied = h.single_join_implied;
  delim_join_implied = h.delim_join_implied;
  full_outer_left_implied = h.full_outer_left_implied;
  union_distinct_implied = h.union_distinct_implied;
}
JoinFacts-Adds unsupported_aggregate h = record {
  left_join_implied = h.left_join_implied;
  full_outer_implied = h.full_outer_implied;
  semi_anti_join_implied = h.semi_anti_join_implied;
  single_join_implied = h.single_join_implied;
  delim_join_implied = h.delim_join_implied;
  full_outer_left_implied = h.full_outer_left_implied;
  union_distinct_implied = h.union_distinct_implied;
}
JoinFacts-Adds unsupported_filtered_aggregate h = record {
  left_join_implied = h.left_join_implied;
  full_outer_implied = h.full_outer_implied;
  semi_anti_join_implied = h.semi_anti_join_implied;
  single_join_implied = h.single_join_implied;
  delim_join_implied = h.delim_join_implied;
  full_outer_left_implied = h.full_outer_left_implied;
  union_distinct_implied = h.union_distinct_implied;
}
JoinFacts-Adds unsupported_join_type h = record {
  left_join_implied = h.left_join_implied;
  full_outer_implied = h.full_outer_implied;
  semi_anti_join_implied = h.semi_anti_join_implied;
  single_join_implied = h.single_join_implied;
  delim_join_implied = h.delim_join_implied;
  full_outer_left_implied = h.full_outer_left_implied;
  union_distinct_implied = h.union_distinct_implied;
}
JoinFacts-Adds unsupported_order_by h = record {
  left_join_implied = h.left_join_implied;
  full_outer_implied = h.full_outer_implied;
  semi_anti_join_implied = h.semi_anti_join_implied;
  single_join_implied = h.single_join_implied;
  delim_join_implied = h.delim_join_implied;
  full_outer_left_implied = h.full_outer_left_implied;
  union_distinct_implied = h.union_distinct_implied;
}
JoinFacts-Adds unsupported_operator h = record {
  left_join_implied = h.left_join_implied;
  full_outer_implied = h.full_outer_implied;
  semi_anti_join_implied = h.semi_anti_join_implied;
  single_join_implied = h.single_join_implied;
  delim_join_implied = h.delim_join_implied;
  full_outer_left_implied = h.full_outer_left_implied;
  union_distinct_implied = h.union_distinct_implied;
}
JoinFacts-Adds (limit _) h = record {
  left_join_implied = h.left_join_implied;
  full_outer_implied = h.full_outer_implied;
  semi_anti_join_implied = h.semi_anti_join_implied;
  single_join_implied = h.single_join_implied;
  delim_join_implied = h.delim_join_implied;
  full_outer_left_implied = h.full_outer_left_implied;
  union_distinct_implied = h.union_distinct_implied;
}
JoinFacts-Adds (offset _) h = record {
  left_join_implied = h.left_join_implied;
  full_outer_implied = h.full_outer_implied;
  semi_anti_join_implied = h.semi_anti_join_implied;
  single_join_implied = h.single_join_implied;
  delim_join_implied = h.delim_join_implied;
  full_outer_left_implied = h.full_outer_left_implied;
  union_distinct_implied = h.union_distinct_implied;
}
JoinFacts-Adds no_order h = record {
  left_join_implied = h.left_join_implied;
  full_outer_implied = h.full_outer_implied;
  semi_anti_join_implied = h.semi_anti_join_implied;
  single_join_implied = h.single_join_implied;
  delim_join_implied = h.delim_join_implied;
  full_outer_left_implied = h.full_outer_left_implied;
  union_distinct_implied = h.union_distinct_implied;
}
JoinFacts-Adds (order _ _) h = record {
  left_join_implied = h.left_join_implied;
  full_outer_implied = h.full_outer_implied;
  semi_anti_join_implied = h.semi_anti_join_implied;
  single_join_implied = h.single_join_implied;
  delim_join_implied = h.delim_join_implied;
  full_outer_left_implied = h.full_outer_left_implied;
  union_distinct_implied = h.union_distinct_implied;
}
JoinFacts-Adds (columns _) h = record {
  left_join_implied = h.left_join_implied;
  full_outer_implied = h.full_outer_implied;
  semi_anti_join_implied = h.semi_anti_join_implied;
  single_join_implied = h.single_join_implied;
  delim_join_implied = h.delim_join_implied;
  full_outer_left_implied = h.full_outer_left_implied;
  union_distinct_implied = h.union_distinct_implied;
}
JoinFacts-Adds (aggregate_type _) h = record {
  left_join_implied = h.left_join_implied;
  full_outer_implied = h.full_outer_implied;
  semi_anti_join_implied = h.semi_anti_join_implied;
  single_join_implied = h.single_join_implied;
  delim_join_implied = h.delim_join_implied;
  full_outer_left_implied = h.full_outer_left_implied;
  union_distinct_implied = h.union_distinct_implied;
}
JoinFacts-Adds (partition _ _ _) h = record {
  left_join_implied = h.left_join_implied;
  full_outer_implied = h.full_outer_implied;
  semi_anti_join_implied = h.semi_anti_join_implied;
  single_join_implied = h.single_join_implied;
  delim_join_implied = h.delim_join_implied;
  full_outer_left_implied = h.full_outer_left_implied;
  union_distinct_implied = h.union_distinct_implied;
}
JoinFacts-Adds (outermost _ _ _) h = record {
  left_join_implied = h.left_join_implied;
  full_outer_implied = h.full_outer_implied;
  semi_anti_join_implied = h.semi_anti_join_implied;
  single_join_implied = h.single_join_implied;
  delim_join_implied = h.delim_join_implied;
  full_outer_left_implied = h.full_outer_left_implied;
  union_distinct_implied = h.union_distinct_implied;
}

AggregateFacts-merge :
    (a body : PlanAnalysis)
    → AggregateFacts a
    → AggregateFacts body
    → AggregateFacts (merge_facts a body)
unfolding merge_facts
AggregateFacts-merge a body h k = record {
  minmax_implied = h.minmax_implied;
  list_implied = h.list_implied;
  filtered_list_implied = h.filtered_list_implied;
  count_distinct_implied = h.count_distinct_implied;
  grouping_sets_implied = h.grouping_sets_implied;
  nested_aggregate_implied = h.nested_aggregate_implied;
  group_index_implied = h.group_index_implied;
}

JoinFacts-merge :
    (a body : PlanAnalysis) → JoinFacts a → JoinFacts body → JoinFacts (merge_facts a body)
unfolding merge_facts
JoinFacts-merge a body h k = record {
  left_join_implied = h.left_join_implied;
  full_outer_implied = h.full_outer_implied;
  semi_anti_join_implied = h.semi_anti_join_implied;
  single_join_implied = h.single_join_implied;
  delim_join_implied = h.delim_join_implied;
  full_outer_left_implied = h.full_outer_left_implied;
  union_distinct_implied = h.union_distinct_implied;
}

new_AggregateFacts : AggregateFacts new_analysis
new_AggregateFacts = record {
  minmax_implied = refl;
  list_implied = refl;
  filtered_list_implied = refl;
  count_distinct_implied = refl;
  grouping_sets_implied = refl;
  nested_aggregate_implied = refl;
  group_index_implied = refl;
}

new_JoinFacts : JoinFacts new_analysis
new_JoinFacts = record {
  left_join_implied = refl;
  full_outer_implied = refl;
  semi_anti_join_implied = refl;
  single_join_implied = refl;
  delim_join_implied = refl;
  full_outer_left_implied = refl;
  union_distinct_implied = refl;
}

-- What the analysis finds of aggregate functions, of grouping sets, of nested aggregates and of the
-- outermost aggregate's index it finds only together with an aggregate.
pub analyze_plan-AggregateFacts : (p : CheckedPlan) → AggregateFacts (analyze_plan p)
unfolding analyze_plan
analyze_plan-AggregateFacts p =
    Grows-Kept {P = AggregateFacts}
      (record {
        adds_kept = AggregateFacts-Adds;
        merge_kept = AggregateFacts-merge;
        new_kept = new_AggregateFacts;
      })
      (analyze_node-Grows p new_analysis) new_AggregateFacts

-- The analysis finds an outer, semi, anti, single or delim join only together with a join, a full
-- outer join only together with a left join, and a UNION that removes duplicates only together with
-- a DISTINCT.
pub analyze_plan-JoinFacts : (p : CheckedPlan) → JoinFacts (analyze_plan p)
unfolding analyze_plan
analyze_plan-JoinFacts p =
    Grows-Kept {P = JoinFacts}
      (record {
        adds_kept = JoinFacts-Adds;
        merge_kept = JoinFacts-merge;
        new_kept = new_JoinFacts;
      })
      (analyze_node-Grows p new_analysis) new_JoinFacts
