-- ===== src/Checker/Lasts.antt =====
-- src/core/incremental_checker.cpp: facts that stay once they are found.
use openivm.Base.{true, false, ◌≡◌, refl}
use openivm.Classifier.Facts.{PlanAnalysis}
use openivm.Checker.Facts.{merge_facts}
use openivm.Checker.Adds.{
  Adds, aggregation, projection, having, distinct, union_distinct, minmax, list, filtered_list,
  left_join, full_outer, semi_anti_join, join, delim_join, single_join, asof_join, positional_join,
  sample, window, top_k, count_distinct, grouping_sets, nested_aggregate, volatile_expression,
  non_foldable_unnest, unsupported_aggregate, unsupported_filtered_aggregate, unsupported_join_type,
  unsupported_order_by, unsupported_operator, limit, offset, no_order, order, columns,
  aggregate_type, partition, outermost, Grows, Grows-Lasting,
}

found_aggregation-Adds :
    {a b : PlanAnalysis} → Adds a b → a.found_aggregation ≡ true → b.found_aggregation ≡ true
found_aggregation-Adds aggregation h = refl
found_aggregation-Adds projection h = h
found_aggregation-Adds having h = h
found_aggregation-Adds distinct h = h
found_aggregation-Adds union_distinct h = h
found_aggregation-Adds (minmax _) h = h
found_aggregation-Adds (list _) h = h
found_aggregation-Adds (filtered_list _) h = h
found_aggregation-Adds (left_join _) h = h
found_aggregation-Adds (full_outer _) h = h
found_aggregation-Adds (semi_anti_join _) h = h
found_aggregation-Adds join h = h
found_aggregation-Adds delim_join h = h
found_aggregation-Adds (single_join _) h = h
found_aggregation-Adds asof_join h = h
found_aggregation-Adds positional_join h = h
found_aggregation-Adds sample h = h
found_aggregation-Adds window h = h
found_aggregation-Adds top_k h = h
found_aggregation-Adds (count_distinct _) h = h
found_aggregation-Adds (grouping_sets _) h = h
found_aggregation-Adds (nested_aggregate _) h = h
found_aggregation-Adds volatile_expression h = h
found_aggregation-Adds non_foldable_unnest h = h
found_aggregation-Adds unsupported_aggregate h = h
found_aggregation-Adds unsupported_filtered_aggregate h = h
found_aggregation-Adds unsupported_join_type h = h
found_aggregation-Adds unsupported_order_by h = h
found_aggregation-Adds unsupported_operator h = h
found_aggregation-Adds (limit _) h = h
found_aggregation-Adds (offset _) h = h
found_aggregation-Adds no_order h = h
found_aggregation-Adds (order _ _) h = h
found_aggregation-Adds (columns _) h = h
found_aggregation-Adds (aggregate_type _) h = h
found_aggregation-Adds (partition _ _ _) h = h
found_aggregation-Adds (outermost _ _ _) h = h

-- Once an aggregate is found, it stays found.
pub found_aggregation-lasts :
    {a b : PlanAnalysis} → Grows a b → a.found_aggregation ≡ true → b.found_aggregation ≡ true
unfolding merge_facts
found_aggregation-lasts =
    Grows-Lasting (record { adds_lasting = found_aggregation-Adds; merge_lasting = λ _ h. h })

found_join-Adds : {a b : PlanAnalysis} → Adds a b → a.found_join ≡ true → b.found_join ≡ true
found_join-Adds aggregation h = h
found_join-Adds projection h = h
found_join-Adds having h = h
found_join-Adds distinct h = h
found_join-Adds union_distinct h = h
found_join-Adds (minmax _) h = h
found_join-Adds (list _) h = h
found_join-Adds (filtered_list _) h = h
found_join-Adds (left_join _) h = h
found_join-Adds (full_outer _) h = h
found_join-Adds (semi_anti_join _) h = h
found_join-Adds join h = refl
found_join-Adds delim_join h = refl
found_join-Adds (single_join _) h = h
found_join-Adds asof_join h = refl
found_join-Adds positional_join h = refl
found_join-Adds sample h = h
found_join-Adds window h = h
found_join-Adds top_k h = h
found_join-Adds (count_distinct _) h = h
found_join-Adds (grouping_sets _) h = h
found_join-Adds (nested_aggregate _) h = h
found_join-Adds volatile_expression h = h
found_join-Adds non_foldable_unnest h = h
found_join-Adds unsupported_aggregate h = h
found_join-Adds unsupported_filtered_aggregate h = h
found_join-Adds unsupported_join_type h = h
found_join-Adds unsupported_order_by h = h
found_join-Adds unsupported_operator h = h
found_join-Adds (limit _) h = h
found_join-Adds (offset _) h = h
found_join-Adds no_order h = h
found_join-Adds (order _ _) h = h
found_join-Adds (columns _) h = h
found_join-Adds (aggregate_type _) h = h
found_join-Adds (partition _ _ _) h = h
found_join-Adds (outermost _ _ _) h = h

-- Once a join is found, it stays found.
pub found_join-lasts : {a b : PlanAnalysis} → Grows a b → a.found_join ≡ true → b.found_join ≡ true
unfolding merge_facts
found_join-lasts =
    Grows-Lasting (record { adds_lasting = found_join-Adds; merge_lasting = λ _ h. h })

incompatible-Adds :
    {a b : PlanAnalysis}
    → Adds a b
    → a.incremental_compatible ≡ false
    → b.incremental_compatible ≡ false
incompatible-Adds aggregation h = h
incompatible-Adds projection h = h
incompatible-Adds having h = h
incompatible-Adds distinct h = h
incompatible-Adds union_distinct h = h
incompatible-Adds (minmax _) h = h
incompatible-Adds (list _) h = h
incompatible-Adds (filtered_list _) h = h
incompatible-Adds (left_join _) h = h
incompatible-Adds (full_outer _) h = h
incompatible-Adds (semi_anti_join _) h = h
incompatible-Adds join h = h
incompatible-Adds delim_join h = h
incompatible-Adds (single_join _) h = h
incompatible-Adds asof_join h = h
incompatible-Adds positional_join h = h
incompatible-Adds sample h = h
incompatible-Adds window h = h
incompatible-Adds top_k h = h
incompatible-Adds (count_distinct _) h = h
incompatible-Adds (grouping_sets _) h = h
incompatible-Adds (nested_aggregate _) h = h
incompatible-Adds volatile_expression h = refl
incompatible-Adds non_foldable_unnest h = refl
incompatible-Adds unsupported_aggregate h = refl
incompatible-Adds unsupported_filtered_aggregate h = refl
incompatible-Adds unsupported_join_type h = refl
incompatible-Adds unsupported_order_by h = refl
incompatible-Adds unsupported_operator h = refl
incompatible-Adds (limit _) h = h
incompatible-Adds (offset _) h = h
incompatible-Adds no_order h = h
incompatible-Adds (order _ _) h = h
incompatible-Adds (columns _) h = h
incompatible-Adds (aggregate_type _) h = h
incompatible-Adds (partition _ _ _) h = h
incompatible-Adds (outermost _ _ _) h = h

pub incompatible-lasts :
    {a b : PlanAnalysis}
    → Grows a b
    → a.incremental_compatible ≡ false
    → b.incremental_compatible ≡ false
unfolding merge_facts
incompatible-lasts =
    Grows-Lasting (record { adds_lasting = incompatible-Adds; merge_lasting = λ _ h. rw h refl })
