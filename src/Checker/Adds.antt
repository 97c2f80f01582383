-- ===== src/Checker/Adds.antt =====
-- src/core/incremental_checker.cpp: the elementary additions that the analysis is made of.
use openivm.Base.{
  ℕ, Bool, true, false, List, [], ◌∷◌, ◌++◌, Option, some, Bytes, ◌≡◌, if◌then◌else◌,
}
use openivm.Classifier.Facts.{PlanAnalysis, new_analysis}
use openivm.Checker.Facts.{merge_facts, member}

-- One elementary addition.
pub data Adds : PlanAnalysis → PlanAnalysis → Type 0 where
  aggregation : {a : PlanAnalysis} → Adds a (record a { found_aggregation = true })
  projection : {a : PlanAnalysis} → Adds a (record a { found_projection = true })
  having : {a : PlanAnalysis} → Adds a (record a { found_having = true })
  distinct : {a : PlanAnalysis} → Adds a (record a { found_distinct = true })
  union_distinct :
      {a : PlanAnalysis} → Adds a (record a { found_distinct = true; found_union_distinct = true })
  minmax :
      {a : PlanAnalysis} → a.found_aggregation ≡ true → Adds a (record a { found_minmax = true })
  list : {a : PlanAnalysis} → a.found_aggregation ≡ true → Adds a (record a { found_list = true })
  filtered_list :
      {a : PlanAnalysis}
      → a.found_aggregation ≡ true
      → Adds a (record a { found_filtered_list = true })
  left_join :
      {a : PlanAnalysis} → a.found_join ≡ true → Adds a (record a { found_left_join = true })
  full_outer :
      {a : PlanAnalysis}
      → a.found_join ≡ true
      → Adds a (record a { found_left_join = true; found_full_outer = true })
  semi_anti_join :
      {a : PlanAnalysis} → a.found_join ≡ true → Adds a (record a { found_semi_anti_join = true })
  join : {a : PlanAnalysis} → Adds a (record a { found_join = true })
  delim_join : {a : PlanAnalysis} → Adds a (record a { found_join = true; found_delim_join = true })
  single_join :
      {a : PlanAnalysis} → a.found_join ≡ true → Adds a (record a { found_single_join = true })
  asof_join : {a : PlanAnalysis} → Adds a (record a { found_join = true; found_asof_join = true })
  positional_join :
      {a : PlanAnalysis} → Adds a (record a { found_join = true; found_positional_join = true })
  sample : {a : PlanAnalysis} → Adds a (record a { found_sample = true })
  window : {a : PlanAnalysis} → Adds a (record a { found_window = true })
  top_k : {a : PlanAnalysis} → Adds a (record a { found_top_k = true })
  count_distinct :
      {a : PlanAnalysis}
      → a.found_aggregation ≡ true
      → Adds a (record a { found_count_distinct = true })
  grouping_sets :
      {a : PlanAnalysis}
      → a.found_aggregation ≡ true
      → Adds a (record a { found_grouping_sets = true })
  nested_aggregate :
      {a : PlanAnalysis}
      → a.found_aggregation ≡ true
      → Adds a (record a { found_nested_aggregate = true })
  volatile_expression :
      {a : PlanAnalysis}
      → Adds a (record a { incremental_compatible = false; found_volatile_expression = true })
  non_foldable_unnest :
      {a : PlanAnalysis}
      → Adds a (record a { incremental_compatible = false; found_non_foldable_unnest = true })
  unsupported_aggregate :
      {a : PlanAnalysis}
      → Adds a (record a { incremental_compatible = false; found_unsupported_aggregate = true })
  unsupported_filtered_aggregate :
      {a : PlanAnalysis}
      → Adds a
          (record a { incremental_compatible = false; found_unsupported_filtered_aggregate = true })
  unsupported_join_type :
      {a : PlanAnalysis}
      → Adds a (record a { incremental_compatible = false; found_unsupported_join_type = true })
  unsupported_order_by :
      {a : PlanAnalysis}
      → Adds a (record a { incremental_compatible = false; found_unsupported_order_by = true })
  unsupported_operator :
      {a : PlanAnalysis}
      → Adds a (record a { incremental_compatible = false; found_unsupported_operator = true })
  limit : {a : PlanAnalysis} → (n : ℕ) → Adds a (record a { top_k_limit = n })
  offset : {a : PlanAnalysis} → (n : ℕ) → Adds a (record a { top_k_offset = n })
  no_order :
      {a : PlanAnalysis} → Adds a (record a { top_k_order_columns = []; top_k_order_desc = [] })
  order :
      {a : PlanAnalysis}
      → (name : Bytes) (descending : Bool)
      → Adds a (record a {
        top_k_order_columns = a.top_k_order_columns ++ name ∷ [];
        top_k_order_desc = a.top_k_order_desc ++ descending ∷ [];
      })
  columns :
      {a : PlanAnalysis}
      → (names : List Bytes)
      → Adds a (record a { aggregate_columns = a.aggregate_columns ++ names })
  aggregate_type :
      {a : PlanAnalysis}
      → (name : Bytes) → Adds a (record a { aggregate_types = a.aggregate_types ++ name ∷ [] })
  partition :
      {a : PlanAnalysis}
      → (name : Bytes) (index : Option ℕ) → member name a.window_partition_columns ≡ false
      → Adds a (record a {
        window_partition_columns = a.window_partition_columns ++ name ∷ [];
        window_partition_column_indexes = a.window_partition_column_indexes ++ index ∷ [];
      })
  outermost :
      {a : PlanAnalysis}
      → (count index : ℕ) → a.found_aggregation ≡ true
      → Adds a (record a { group_count = count; group_index = some index })

-- A sequence of additions; the body of a CTE has its own, from a new analysis.
pub data Grows : PlanAnalysis → PlanAnalysis → Type 0 where
  same : {a : PlanAnalysis} → Grows a a
  adds : {a b : PlanAnalysis} → Adds a b → Grows a b
  next : {a b c : PlanAnalysis} → Grows a b → Grows b c → Grows a c
  merges : {a body : PlanAnalysis} → Grows new_analysis body → Grows a (merge_facts a body)

-- A relation that the additions and a merge keep.
pub record Kept (P : PlanAnalysis → Type 0) : Type 0 where
  pub adds_kept : {a b : PlanAnalysis} → Adds a b → P a → P b
  pub merge_kept : (a body : PlanAnalysis) → P a → P body → P (merge_facts a body)
  pub new_kept : P new_analysis

pub Grows-Kept : {P : PlanAnalysis → Type 0} {a b : PlanAnalysis} → Kept P → Grows a b → P a → P b
Grows-Kept k same h = h
Grows-Kept k (adds s) h = k.adds_kept s h
Grows-Kept k (next s t) h = Grows-Kept k t (Grows-Kept k s h)
Grows-Kept k (merges s) h = k.merge_kept _ _ h (Grows-Kept k s k.new_kept)

pub if-Grows :
    {a x y : PlanAnalysis} (b : Bool) → Grows a x → Grows a y → Grows a (if b then x else y)
if-Grows true h k = h
if-Grows false h k = k

-- What a merge keeps whatever the body.
pub record Lasting (P : PlanAnalysis → Type 0) : Type 0 where
  pub adds_lasting : {a b : PlanAnalysis} → Adds a b → P a → P b
  pub merge_lasting : {a : PlanAnalysis} (body : PlanAnalysis) → P a → P (merge_facts a body)

pub Grows-Lasting :
    {P : PlanAnalysis → Type 0} {a b : PlanAnalysis} → Lasting P → Grows a b → P a → P b
Grows-Lasting l same h = h
Grows-Lasting l (adds s) h = l.adds_lasting s h
Grows-Lasting l (next s t) h = Grows-Lasting l t (Grows-Lasting l s h)
Grows-Lasting l (merges s) h = l.merge_lasting _ h
