-- ===== src/Checker/Acceptance.antt =====
-- src/core/incremental_checker.cpp: a plan without refused operators stays compatible.
use openivm.Base.{◌≡◌, refl, sym, ◌∙◌, Bool, true, false, ◌&&◌, ◌||◌, not, Bool-cases, inl, inr}
use openivm.Classifier.Facts.{PlanAnalysis, new_analysis}
use openivm.Classifier.Reasons.{is_set}
use openivm.DeltaModel.Types.{LogicalOperatorType}
use openivm.Checker.Operators.{
  CheckedOperator, CheckedPlan, checked, CheckedPlans, no_subplans, child,
}
use openivm.Checker.Facts.{merge_facts}
use openivm.Checker.Analyze.{
  all_children, first_child, cte_children, descent, outer_passthrough, analyze_node,
  analyze_children, analyze_first, analyze_cte,
}
use openivm.Checker.Local.{local_facts}
use openivm.Checker.Offends.{own_offence, offends, children_offend, first_offends, cte_offends}
use openivm.Checker.Supported.{local_facts-compatible}
use openivm.Checker.Refusal.{
  compatible, own_offence_outside, merge_facts-accepted, if-both, true_not_false,
}

none_of : (b c : Bool) → (b || c) ≡ false → (b ≡ false) × (c ≡ false)
none_of true c h = cc
none_of false c h = (refl, h)

own_offence_inside :
    (inside : Bool) (t : LogicalOperatorType) (op : CheckedOperator)
    → own_offence false t op ≡ false
    → own_offence inside t op ≡ false
own_offence_inside false t op h = h
own_offence_inside true t op h = elim (Bool-cases (own_offence true t op)) [
  | inl e ↦ elim (true_not_false (sym (own_offence_outside false t op e) ∙ h)) [ ]
  | inr e ↦ e
]

accepted : (a b : Bool) → a ≡ true → b ≡ false → (a && not b) ≡ true
accepted a b h k = rw (h, k) refl

local_facts-accepted :
    (t : LogicalOperatorType) (op : CheckedOperator) (ps : CheckedPlans) (a : PlanAnalysis)
    → own_offence false t op ≡ false
    → compatible a ≡ true
    → compatible (local_facts t op ps a) ≡ true
local_facts-accepted t op ps a h c =
    local_facts-compatible t op ps a
    ∙ accepted _ _ c (own_offence_inside (is_set a.group_index) t op h)

mutual
  unfolding analyze_node analyze_children analyze_first analyze_cte offends children_offend
      first_offends cte_offends

  pub analyze_node-accepted :
      (p : CheckedPlan) (a : PlanAnalysis)
      → offends false p ≡ false
      → compatible a ≡ true
      → compatible (analyze_node p a) ≡ true
  analyze_node-accepted (checked op ps) a =
      elim (descent op.type)
        as (λ d.
          elim d [
            | all_children ↦ own_offence false op.type op || children_offend false ps
            | first_child ↦ own_offence false op.type op || first_offends false ps
            | cte_children ↦ cte_offends false ps
          ]
            ≡ false
          → compatible a ≡ true
          → compatible (elim d [
            | all_children ↦ analyze_children ps (local_facts op.type op ps a)
            | first_child ↦ analyze_first ps (local_facts op.type op ps a)
            | cte_children ↦ analyze_cte ps a
          ])
            ≡ true) [
              | all_children ↦ λ h c.
                  let fine = none_of _ _ h in
                  analyze_children-accepted ps _ fine.1
                    (local_facts-accepted op.type op ps a fine.0 c)
              | first_child ↦ λ h c.
                  let fine = none_of _ _ h in
                  analyze_first-accepted ps _ fine.1 (local_facts-accepted op.type op ps a fine.0 c)
              | cte_children ↦ λ h c. analyze_cte-accepted ps a h c
            ]

  analyze_children-accepted :
      (ps : CheckedPlans) (a : PlanAnalysis)
      → children_offend false ps ≡ false
      → compatible a ≡ true
      → compatible (analyze_children ps a) ≡ true
  analyze_children-accepted no_subplans a h c = c
  analyze_children-accepted (child p ps) a h c =
      let fine = none_of _ _ h in
      analyze_children-accepted ps _ fine.1 (analyze_node-accepted p a fine.0 c)

  analyze_first-accepted :
      (ps : CheckedPlans) (a : PlanAnalysis)
      → first_offends false ps ≡ false
      → compatible a ≡ true
      → compatible (analyze_first ps a) ≡ true
  analyze_first-accepted no_subplans a h c = c
  analyze_first-accepted (child p ps) a h c = analyze_node-accepted p a h c

  analyze_cte-accepted :
      (ps : CheckedPlans) (a : PlanAnalysis)
      → cte_offends false ps ≡ false
      → compatible a ≡ true
      → compatible (analyze_cte ps a) ≡ true
  analyze_cte-accepted no_subplans a h c = c
  analyze_cte-accepted (child body no_subplans) a h c = c
  analyze_cte-accepted (child body (child outer ps)) a h c =
      let fine = none_of _ _ h in
      let seen = analyze_node outer a in
      let good = analyze_node-accepted outer a fine.0 c in
      if-both compatible (outer_passthrough seen) (analyze_node body seen)
        (merge_facts seen (analyze_node body new_analysis))
        (analyze_node-accepted body seen fine.1 good)
        (merge_facts-accepted _ _ good (analyze_node-accepted body new_analysis fine.1 refl))
