-- ===== src/Checker/Refused.antt =====
-- src/core/incremental_checker.cpp: which plans the analysis refuses, and how such a view is refreshed.
use openivm.Base.{◌≡◌, refl, sym, ap, ◌∙◌, true, false, Bool-cases, inl, inr}
use openivm.Classifier.Facts.{new_analysis, PlanFlags, DeltaViewModelInput, DeltaViewModel}
use openivm.Classifier.Select.{is_full_refresh}
use openivm.Classifier.Decide.{decide}
use openivm.Classifier.Decision.{decide-incremental}
use openivm.Checker.Refusal.{analyze_node-refused}
use openivm.Checker.Acceptance.{analyze_node-accepted}
use openivm.Checker.Operators.{CheckedPlan}
use openivm.Checker.Analyze.{analyze_plan, validate_incremental_plan}
use openivm.Checker.Offends.{offends}
use openivm.Checker.Refusal.{compatible, true_not_false}

analyze_plan-refused :
    (p : CheckedPlan) → offends true p ≡ true → compatible (analyze_plan p) ≡ false
unfolding analyze_plan
analyze_plan-refused p h = analyze_node-refused p new_analysis h

-- A plan that the analysis visits a refused operator of is not valid for incremental refresh, `first`
-- being fine wherever it stands.
pub validate_incremental_plan-refused :
    (p : CheckedPlan) → offends true p ≡ true → validate_incremental_plan p ≡ false
unfolding validate_incremental_plan
validate_incremental_plan-refused p h = analyze_plan-refused p h

-- A plan without refused operators, `first` being one of the refused functions, is valid for
-- incremental refresh.
pub validate_incremental_plan-accepted :
    (p : CheckedPlan) → offends false p ≡ false → validate_incremental_plan p ≡ true
unfolding validate_incremental_plan analyze_plan
validate_incremental_plan-accepted p h = analyze_node-accepted p new_analysis h refl

-- A view whose plan has a refused operator that the analysis visits is refreshed in full, whatever
-- else is known of it.
pub decide-refused :
    (p : CheckedPlan) (model : DeltaViewModel) (facts : PlanFlags) (input : DeltaViewModelInput)
    → facts.analysis ≡ analyze_plan p
    → offends true p ≡ true
    → is_full_refresh (decide model facts input).type ≡ true
decide-refused p model facts input e h =
    elim (Bool-cases (is_full_refresh (decide model facts input).type)) [
      | inl full ↦ full
      | inr other ↦
          elim (true_not_false (
            sym (decide-incremental model facts input other).0
            ∙ ap compatible e
            ∙ analyze_plan-refused p h)) [ ]
    ]
