-- ===== src/Checker/Refusal.antt =====
-- src/core/incremental_checker.cpp: a refused operator makes the analysis refuse the plan.
use openivm.Base.{
  ◌≡◌, ◌⊎◌, refl, ◌∙◌, Bool, true, false, ◌&&◌, ◌||◌, not, arith, Bool-cases, inl, inr,
  if◌then◌else◌, List, [], ◌∷◌, Option, none, some,
}
use openivm.Classifier.Facts.{PlanAnalysis, new_analysis}
use openivm.Classifier.Reasons.{is_set}
use openivm.DeltaModel.Types.{LogicalOperatorType}
use openivm.DeltaModel.Types
use openivm.Checker.Operators.{
  CheckedOperator, CheckedPlan, checked, CheckedPlans, no_subplans, child, BoundAggregate,
  AggregateNode,
}
use openivm.Checker.Facts.{merge_facts}
use openivm.Checker.Analyze.{
  all_children, first_child, cte_children, descent, outer_passthrough, analyze_node,
  analyze_children, analyze_first, analyze_cte,
}
use openivm.Checker.Local.{local_facts}
use openivm.Checker.Lasts.{incompatible-lasts}
use openivm.Checker.Grows.{analyze_node-Grows, analyze_children-Grows, analyze_first-Grows}
use openivm.Checker.Offends.{
  aggregate_offends, any_offends, aggregate_node_offends, own_offence, offends, children_offend,
  first_offends, cte_offends,
}
use openivm.Checker.Supported.{local_facts-compatible}

abbrev pub compatible : PlanAnalysis → Bool
compatible a = a.incremental_compatible

-- What is refused inside an aggregate is refused outside of one.
aggregate_offends_outside :
    (inside : Bool) (agg : BoundAggregate)
    → aggregate_offends true agg ≡ true
    → aggregate_offends inside agg ≡ true
unfolding aggregate_offends
aggregate_offends_outside true agg h = h
aggregate_offends_outside false agg h = ground arith

any_offends_outside :
    (inside : Bool) (aggs : List (Option BoundAggregate))
    → any_offends true aggs ≡ true
    → any_offends inside aggs ≡ true
unfolding any_offends
any_offends_outside inside [] h = h
any_offends_outside inside (none ∷ aggs) h = any_offends_outside inside aggs h
any_offends_outside inside (some agg ∷ aggs) h =
    ground (arith, aggregate_offends_outside inside agg, any_offends_outside inside aggs)

aggregate_node_offends_outside :
    (inside : Bool) (agg : Option AggregateNode)
    → aggregate_node_offends true agg ≡ true
    → aggregate_node_offends inside agg ≡ true
unfolding aggregate_node_offends
aggregate_node_offends_outside inside none h = h
aggregate_node_offends_outside inside (some agg) h =
    ground (arith, any_offends_outside inside agg.aggregates)

pub own_offence_outside :
    (inside : Bool) (t : LogicalOperatorType) (op : CheckedOperator)
    → own_offence true t op ≡ true
    → own_offence inside t op ≡ true
unfolding own_offence
own_offence_outside inside Types.logical_create_table op h = h
own_offence_outside inside Types.logical_insert op h = h
own_offence_outside inside Types.logical_dummy_scan op h = h
own_offence_outside inside Types.logical_get op h = h
own_offence_outside inside Types.logical_expression_get op h = h
own_offence_outside inside Types.logical_chunk_get op h = h
own_offence_outside inside Types.logical_delim_get op h = h
own_offence_outside inside Types.logical_cte_ref op h = h
own_offence_outside inside Types.logical_unnest op h = h
own_offence_outside inside Types.logical_materialized_cte op h = h
own_offence_outside inside Types.logical_filter op h = h
own_offence_outside inside Types.logical_projection op h = h
own_offence_outside inside Types.logical_union op h = h
own_offence_outside inside Types.logical_sample op h = h
own_offence_outside inside Types.logical_distinct op h = h
own_offence_outside inside Types.logical_comparison_join op h = h
own_offence_outside inside Types.logical_asof_join op h = h
own_offence_outside inside Types.logical_any_join op h = h
own_offence_outside inside Types.logical_dependent_join op h = h
own_offence_outside inside Types.logical_delim_join op h = h
own_offence_outside inside Types.logical_join op h = h
own_offence_outside inside Types.logical_cross_product op h = h
own_offence_outside inside Types.logical_positional_join op h = h
own_offence_outside inside Types.logical_aggregate_and_group_by op h =
    aggregate_node_offends_outside inside op.aggregate h
own_offence_outside inside Types.logical_window op h = h
own_offence_outside inside Types.logical_top_n op h = h
own_offence_outside inside Types.logical_order_by op h = h
own_offence_outside inside Types.logical_limit op h = h
own_offence_outside inside Types.other_type op h = h

or_cases : (b c : Bool) → (b || c) ≡ true → (b ≡ true) ⊎ (c ≡ true)
or_cases true c h = inl refl
or_cases false c h = inr h

refused : (a b : Bool) → b ≡ true → (a && not b) ≡ false
refused a b h = rw h (ground (arith, Bool-cases a))

merge_facts-left :
    (a body : PlanAnalysis) → compatible a ≡ false → compatible (merge_facts a body) ≡ false
unfolding merge_facts
merge_facts-left a body h = rw h refl

merge_facts-right :
    (a body : PlanAnalysis) → compatible body ≡ false → compatible (merge_facts a body) ≡ false
unfolding merge_facts
merge_facts-right a body h = rw h (ground (arith, Bool-cases (compatible a)))

pub merge_facts-accepted :
    (a body : PlanAnalysis)
    → compatible a ≡ true
    → compatible body ≡ true
    → compatible (merge_facts a body) ≡ true
unfolding merge_facts
merge_facts-accepted a body h k = rw (h, k) refl

pub if-both {ℓ} :
    {A : Type ℓ} {c : A} (f : PlanAnalysis → A) (b : Bool) (x y : PlanAnalysis)
    → f x ≡ c
    → f y ≡ c
    → f (if b then x else y) ≡ c
if-both f true x y h k = h
if-both f false x y h k = k

local_facts-refused :
    (t : LogicalOperatorType) (op : CheckedOperator) (ps : CheckedPlans) (a : PlanAnalysis)
    → own_offence true t op ≡ true
    → compatible (local_facts t op ps a) ≡ false
local_facts-refused t op ps a h =
    local_facts-compatible t op ps a
    ∙ refused _ _ (own_offence_outside (is_set a.group_index) t op h)

pub true_not_false : true ≡ false → ⊥
true_not_false e = cc

mutual
  unfolding analyze_node analyze_children analyze_first analyze_cte offends children_offend
      first_offends cte_offends

  pub analyze_node-refused :
      (p : CheckedPlan) (a : PlanAnalysis)
      → offends true p ≡ true
      → compatible (analyze_node p a) ≡ false
  analyze_node-refused (checked op ps) a =
      elim (descent op.type)
        as (λ d.
          elim d [
            | all_children ↦ own_offence true op.type op || children_offend true ps
            | first_child ↦ own_offence true op.type op || first_offends true ps
            | cte_children ↦ cte_offends true ps
          ]
            ≡ true
          → compatible (elim d [
            | all_children ↦ analyze_children ps (local_facts op.type op ps a)
            | first_child ↦ analyze_first ps (local_facts op.type op ps a)
            | cte_children ↦ analyze_cte ps a
          ])
            ≡ false) [
              | all_children ↦ λ h. elim (or_cases _ _ h) [
                | inl own ↦
                    incompatible-lasts (analyze_children-Grows ps _)
                      (local_facts-refused op.type op ps a own)
                | inr below ↦ analyze_children-refused ps _ below
              ]
              | first_child ↦ λ h. elim (or_cases _ _ h) [
                | inl own ↦
                    incompatible-lasts (analyze_first-Grows ps _)
                      (local_facts-refused op.type op ps a own)
                | inr below ↦ analyze_first-refused ps _ below
              ]
              | cte_children ↦ λ h. analyze_cte-refused ps a h
            ]

  analyze_children-refused :
      (ps : CheckedPlans) (a : PlanAnalysis)
      → children_offend true ps ≡ true
      → compatible (analyze_children ps a) ≡ false
  analyze_children-refused no_subplans a h = cc
  analyze_children-refused (child p ps) a h = elim (or_cases _ _ h) [
    | inl here ↦ incompatible-lasts (analyze_children-Grows ps _) (analyze_node-refused p a here)
    | inr there ↦ analyze_children-refused ps _ there
  ]

  analyze_first-refused :
      (ps : CheckedPlans) (a : PlanAnalysis)
      → first_offends true ps ≡ true
      → compatible (analyze_first ps a) ≡ false
  analyze_first-refused no_subplans a h = cc
  analyze_first-refused (child p ps) a h = analyze_node-refused p a h

  analyze_cte-refused :
      (ps : CheckedPlans) (a : PlanAnalysis)
      → cte_offends true ps ≡ true
      → compatible (analyze_cte ps a) ≡ false
  analyze_cte-refused no_subplans a h = cc
  analyze_cte-refused (child body no_subplans) a h = cc
  analyze_cte-refused (child body (child outer ps)) a h =
      let seen = analyze_node outer a in
      let alone = analyze_node body new_analysis in
      elim (or_cases _ _ h) [
        | inl out ↦
            let bad = analyze_node-refused outer a out in
            if-both compatible (outer_passthrough seen) (analyze_node body seen)
              (merge_facts seen alone) (incompatible-lasts (analyze_node-Grows body seen) bad)
              (merge_facts-left _ _ bad)
        | inr inner ↦
            if-both compatible (outer_passthrough seen) (analyze_node body seen)
              (merge_facts seen alone) (analyze_node-refused body seen inner)
              (merge_facts-right _ _ (analyze_node-refused body new_analysis inner))
      ]
