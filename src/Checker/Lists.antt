-- ===== src/Checker/Lists.antt =====
-- src/core/incremental_checker.cpp: the lists that the analysis collects side by side.
use openivm.Base.{
  ◌≡◌, refl, sym, Bool, true, false, not, ◌||◌, ◌&&◌, arith, Bool-cases, ◌∙◌, List, [], ◌∷◌, ◌++◌,
  Bytes, length, length-append, bytes_eq, inl, inr, bytes_eq_sound,
}
use openivm.Classifier.Facts.{PlanAnalysis, new_analysis}
use openivm.Checker.Operators.{CheckedPlan}
use openivm.Checker.Facts.{merge_facts, member}
use openivm.Checker.Analyze.{analyze_plan}
use openivm.Checker.Adds.{
  Adds, aggregation, projection, having, distinct, union_distinct, minmax, list, filtered_list,
  left_join, full_outer, semi_anti_join, join, delim_join, single_join, asof_join, positional_join,
  sample, window, top_k, count_distinct, grouping_sets, nested_aggregate, volatile_expression,
  non_foldable_unnest, unsupported_aggregate, unsupported_filtered_aggregate, unsupported_join_type,
  unsupported_order_by, unsupported_operator, limit, offset, no_order, order, columns,
  aggregate_type, partition, outermost, Grows-Kept,
}
use openivm.Checker.Grows.{analyze_node-Grows}

-- No name stands in the list twice.
abbrev pub no_duplicates : List Bytes → Bool
no_duplicates [] = true
no_duplicates (n ∷ ns) = not (member n ns) && no_duplicates ns

pub record Lists (a : PlanAnalysis) : Type 0 where
  pub partitions_once : no_duplicates a.window_partition_columns ≡ true
  pub partition_indexes :
      length a.window_partition_columns ≡ length a.window_partition_column_indexes
  pub order_directions : length a.top_k_order_columns ≡ length a.top_k_order_desc

length-snoc {ℓ} :
    {A B : Type ℓ} (xs : List A) (ys : List B) (x : A) (y : B)
    → length xs ≡ length ys
    → length (xs ++ x ∷ []) ≡ length (ys ++ y ∷ [])
length-snoc xs ys x y h = omega (arith, length-append xs (x ∷ []), length-append ys (y ∷ []))

bytes_eq_sym : (s t : Bytes) → bytes_eq s t ≡ bytes_eq t s
bytes_eq_sym s t = elim (Bool-cases (bytes_eq s t)) [
  | inl e ↦ rw (bytes_eq_sound s t e) refl
  | inr e ↦ elim (Bool-cases (bytes_eq t s)) [
    | inr f ↦ e ∙ sym f
    | inl f ↦ rw (bytes_eq_sound t s f) refl
  ]
]

member-append :
    (n : Bytes) (ns ms : List Bytes) → member n (ns ++ ms) ≡ (member n ns || member n ms)
unfolding member
member-append n [] ms = refl
member-append n (x ∷ ns) ms = ground (arith, member-append n ns ms)

no_duplicates-snoc :
    (ns : List Bytes) (n : Bytes)
    → no_duplicates ns ≡ true
    → member n ns ≡ false
    → no_duplicates (ns ++ n ∷ []) ≡ true
unfolding member
no_duplicates-snoc [] n h e = refl
no_duplicates-snoc (x ∷ ns) n h e =
    rw (member-append x ns (n ∷ [])) (ground (arith, no_duplicates-snoc ns n, bytes_eq_sym n x))

Lists-Adds : {a b : PlanAnalysis} → Adds a b → Lists a → Lists b
Lists-Adds aggregation h = record {
  partitions_once = h.partitions_once;
  partition_indexes = h.partition_indexes;
  order_directions = h.order_directions;
}
Lists-Adds projection h = record {
  partitions_once = h.partitions_once;
  partition_indexes = h.partition_indexes;
  order_directions = h.order_directions;
}
Lists-Adds having h = record {
  partitions_once = h.partitions_once;
  partition_indexes = h.partition_indexes;
  order_directions = h.order_directions;
}
Lists-Adds distinct h = record {
  partitions_once = h.partitions_once;
  partition_indexes = h.partition_indexes;
  order_directions = h.order_directions;
}
Lists-Adds union_distinct h = record {
  partitions_once = h.partitions_once;
  partition_indexes = h.partition_indexes;
  order_directions = h.order_directions;
}
Lists-Adds (minmax _) h = record {
  partitions_once = h.partitions_once;
  partition_indexes = h.partition_indexes;
  order_directions = h.order_directions;
}
Lists-Adds (list _) h = record {
  partitions_once = h.partitions_once;
  partition_indexes = h.partition_indexes;
  order_directions = h.order_directions;
}
Lists-Adds (filtered_list _) h = record {
  partitions_once = h.partitions_once;
  partition_indexes = h.partition_indexes;
  order_directions = h.order_directions;
}
Lists-Adds (left_join _) h = record {
  partitions_once = h.partitions_once;
  partition_indexes = h.partition_indexes;
  order_directions = h.order_directions;
}
Lists-Adds (full_outer _) h = record {
  partitions_once = h.partitions_once;
  partition_indexes = h.partition_indexes;
  order_directions = h.order_directions;
}
Lists-Adds (semi_anti_join _) h = record {
  partitions_once = h.partitions_once;
  partition_indexes = h.partition_indexes;
  order_directions = h.order_directions;
}
Lists-Adds join h = record {
  partitions_once = h.partitions_once;
  partition_indexes = h.partition_indexes;
  order_directions = h.order_directions;
}
Lists-Adds delim_join h = record {
  partitions_once = h.partitions_once;
  partition_indexes = h.partition_indexes;
  order_directions = h.order_directions;
}
Lists-Adds (single_join _) h = record {
  partitions_once = h.partitions_once;
  partition_indexes = h.partition_indexes;
  order_directions = h.order_directions;
}
Lists-Adds asof_join h = record {
  partitions_once = h.partitions_once;
  partition_indexes = h.partition_indexes;
  order_directions = h.order_directions;
}
Lists-Adds positional_join h = record {
  partitions_once = h.partitions_once;
  partition_indexes = h.partition_indexes;
  order_directions = h.order_directions;
}
Lists-Adds sample h = record {
  partitions_once = h.partitions_once;
  partition_indexes = h.partition_indexes;
  order_directions = h.order_directions;
}
Lists-Adds window h = record {
  partitions_once = h.partitions_once;
  partition_indexes = h.partition_indexes;
  order_directions = h.order_directions;
}
Lists-Adds top_k h = record {
  partitions_once = h.partitions_once;
  partition_indexes = h.partition_indexes;
  order_directions = h.order_directions;
}
Lists-Adds (count_distinct _) h = record {
  partitions_once = h.partitions_once;
  partition_indexes = h.partition_indexes;
  order_directions = h.order_directions;
}
Lists-Adds (grouping_sets _) h = record {
  partitions_once = h.partitions_once;
  partition_indexes = h.partition_indexes;
  order_directions = h.order_directions;
}
Lists-Adds (nested_aggregate _) h = record {
  partitions_once = h.partitions_once;
  partition_indexes = h.partition_indexes;
  order_directions = h.order_directions;
}
Lists-Adds volatile_expression h = record {
  partitions_once = h.partitions_once;
  partition_indexes = h.partition_indexes;
  order_directions = h.order_directions;
}
Lists-Adds non_foldable_unnest h = record {
  partitions_once = h.partitions_once;
  partition_indexes = h.partition_indexes;
  order_directions = h.order_directions;
}
Lists-Adds unsupported_aggregate h = record {
  partitions_once = h.partitions_once;
  partition_indexes = h.partition_indexes;
  order_directions = h.order_directions;
}
Lists-Adds unsupported_filtered_aggregate h = record {
  partitions_once = h.partitions_once;
  partition_indexes = h.partition_indexes;
  order_directions = h.order_directions;
}
Lists-Adds unsupported_join_type h = record {
  partitions_once = h.partitions_once;
  partition_indexes = h.partition_indexes;
  order_directions = h.order_directions;
}
Lists-Adds unsupported_order_by h = record {
  partitions_once = h.partitions_once;
  partition_indexes = h.partition_indexes;
  order_directions = h.order_directions;
}
Lists-Adds unsupported_operator h = record {
  partitions_once = h.partitions_once;
  partition_indexes = h.partition_indexes;
  order_directions = h.order_directions;
}
Lists-Adds (limit _) h = record {
  partitions_once = h.partitions_once;
  partition_indexes = h.partition_indexes;
  order_directions = h.order_directions;
}
Lists-Adds (offset _) h = record {
  partitions_once = h.partitions_once;
  partition_indexes = h.partition_indexes;
  order_directions = h.order_directions;
}
Lists-Adds no_order h = record {
  partitions_once = h.partitions_once;
  partition_indexes = h.partition_indexes;
  order_directions = refl;
}
Lists-Adds (order _ _) h = record {
  partitions_once = h.partitions_once;
  partition_indexes = h.partition_indexes;
  order_directions = length-snoc _ _ _ _ h.order_directions;
}
Lists-Adds (columns _) h = record {
  partitions_once = h.partitions_once;
  partition_indexes = h.partition_indexes;
  order_directions = h.order_directions;
}
Lists-Adds (aggregate_type _) h = record {
  partitions_once = h.partitions_once;
  partition_indexes = h.partition_indexes;
  order_directions = h.order_directions;
}
Lists-Adds (partition name index e) h = record {
  partitions_once = no_duplicates-snoc _ name h.partitions_once e;
  partition_indexes = length-snoc _ _ _ _ h.partition_indexes;
  order_directions = h.order_directions;
}
Lists-Adds (outermost _ _ _) h = record {
  partitions_once = h.partitions_once;
  partition_indexes = h.partition_indexes;
  order_directions = h.order_directions;
}

Lists-merge : (a body : PlanAnalysis) → Lists a → Lists body → Lists (merge_facts a body)
unfolding merge_facts
Lists-merge a body h k = record {
  partitions_once = h.partitions_once;
  partition_indexes = h.partition_indexes;
  order_directions = h.order_directions;
}

new_Lists : Lists new_analysis
new_Lists = record { partitions_once = refl; partition_indexes = refl; order_directions = refl }

-- The analysis names every partition column once, with as many positions as columns, and as many
-- directions as columns of an order.
pub analyze_plan-Lists : (p : CheckedPlan) → Lists (analyze_plan p)
unfolding analyze_plan
analyze_plan-Lists p =
    Grows-Kept {P = Lists}
      (record { adds_kept = Lists-Adds; merge_kept = Lists-merge; new_kept = new_Lists })
      (analyze_node-Grows p new_analysis) new_Lists
