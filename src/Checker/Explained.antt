-- ===== src/Checker/Explained.antt =====
-- src/core/incremental_checker.cpp: a plan is incompatible exactly if the analysis set one of seven facts.
use openivm.Base.{◌≡◌, refl, Bool, true, not, ◌&&◌, ◌||◌, ap, ◌∙◌, arith, Bool-cases}
use openivm.Classifier.Facts.{PlanAnalysis, new_analysis}
use openivm.Checker.Operators.{CheckedPlan}
use openivm.Checker.Facts.{merge_facts}
use openivm.Checker.Analyze.{analyze_plan}
use openivm.Checker.Adds.{
  Adds, aggregation, projection, having, distinct, union_distinct, minmax, list, filtered_list,
  left_join, full_outer, semi_anti_join, join, delim_join, single_join, asof_join, positional_join,
  sample, window, top_k, count_distinct, grouping_sets, nested_aggregate, volatile_expression,
  non_foldable_unnest, unsupported_aggregate, unsupported_filtered_aggregate, unsupported_join_type,
  unsupported_order_by, unsupported_operator, limit, offset, no_order, order, columns,
  aggregate_type, partition, outermost, Grows-Kept,
}
use openivm.Checker.Grows.{analyze_node-Grows}

-- Whether one of the facts is set that rule refresh out.
abbrev pub found_fatal : PlanAnalysis → Bool
found_fatal a =
    a.found_volatile_expression || a.found_non_foldable_unnest || a.found_unsupported_aggregate
    || a.found_unsupported_filtered_aggregate || a.found_unsupported_join_type
    || a.found_unsupported_order_by || a.found_unsupported_operator

abbrev Explained : PlanAnalysis → Type 0
Explained a = a.incremental_compatible ≡ not (found_fatal a)

or_true : (b : Bool) → (b || true) ≡ true
or_true b = ground (arith, Bool-cases b)

Explained-Adds : {a b : PlanAnalysis} → Adds a b → Explained a → Explained b
Explained-Adds aggregation h = h
Explained-Adds projection h = h
Explained-Adds having h = h
Explained-Adds distinct h = h
Explained-Adds union_distinct h = h
Explained-Adds (minmax _) h = h
Explained-Adds (list _) h = h
Explained-Adds (filtered_list _) h = h
Explained-Adds (left_join _) h = h
Explained-Adds (full_outer _) h = h
Explained-Adds (semi_anti_join _) h = h
Explained-Adds join h = h
Explained-Adds delim_join h = h
Explained-Adds (single_join _) h = h
Explained-Adds asof_join h = h
Explained-Adds positional_join h = h
Explained-Adds sample h = h
Explained-Adds window h = h
Explained-Adds top_k h = h
Explained-Adds (count_distinct _) h = h
Explained-Adds (grouping_sets _) h = h
Explained-Adds (nested_aggregate _) h = h
Explained-Adds volatile_expression h = refl
Explained-Adds non_foldable_unnest h = simp (or_true) refl
Explained-Adds unsupported_aggregate h = simp (or_true) refl
Explained-Adds unsupported_filtered_aggregate h = simp (or_true) refl
Explained-Adds unsupported_join_type h = simp (or_true) refl
Explained-Adds unsupported_order_by h = simp (or_true) refl
Explained-Adds unsupported_operator h = simp (or_true) refl
Explained-Adds (limit _) h = h
Explained-Adds (offset _) h = h
Explained-Adds no_order h = h
Explained-Adds (order _ _) h = h
Explained-Adds (columns _) h = h
Explained-Adds (aggregate_type _) h = h
Explained-Adds (partition _ _ _) h = h
Explained-Adds (outermost _ _ _) h = h

not_or : (a b c d : Bool) → a ≡ not c → b ≡ not d → (a && b) ≡ not (c || d)
not_or a b c d h k = rw h (rw k (ground (arith, Bool-cases c, Bool-cases d)))

or_swap : (a b c d : Bool) → ((a || b) || (c || d)) ≡ ((a || c) || (b || d))
or_swap a b c d = ground (arith, Bool-cases a, Bool-cases b, Bool-cases c, Bool-cases d)

found_fatal-merge_facts :
    (a body : PlanAnalysis) → (found_fatal a || found_fatal body) ≡ found_fatal (merge_facts a body)
unfolding merge_facts
found_fatal-merge_facts a body = simp (or_swap) refl

Explained-merge :
    (a body : PlanAnalysis) → Explained a → Explained body → Explained (merge_facts a body)
unfolding merge_facts
Explained-merge a body h k = not_or _ _ _ _ h k ∙ ap not (found_fatal-merge_facts a body)

-- The analysis of a plan finds it compatible exactly if it found no volatile expression, no UNNEST
-- that cannot be folded, and no unsupported aggregate, filtered aggregate, join type, order or
-- operator.
pub analyze_plan-found_fatal :
    (p : CheckedPlan) → (analyze_plan p).incremental_compatible ≡ not (found_fatal (analyze_plan p))
unfolding analyze_plan
analyze_plan-found_fatal p =
    Grows-Kept {P = Explained}
      (record { adds_kept = Explained-Adds; merge_kept = Explained-merge; new_kept = refl })
      (analyze_node-Grows p new_analysis) refl
