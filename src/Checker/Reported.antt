-- ===== src/Checker/Reported.antt =====
-- The checker (src/core/incremental_checker.cpp) and the classifier (src/core/ivm_view_classifier.cpp)
-- together: a plan is incompatible exactly if the classifier reports a reason for it.
use openivm.Base.{
  ◌≡◌, refl, sym, ap, ◌∙◌, Bool, true, false, not, ◌&&◌, ◌||◌, List, [], ◌∷◌, ◌++◌, arith,
  Bool-cases, inl, inr, is_empty,
}
use openivm.Classifier.Types.{
  DeltaUnsupportedReason, unsupported_function, unsupported_unnest, unsupported_aggregate,
  unsupported_filtered_aggregate, unsupported_join_type, unsupported_order_by, unsupported_operator,
  add_unique, has, same, same_sound, DeltaUnsupportedReason-discrete,
}
use openivm.Classifier.Facts.{PlanFlags, DeltaViewModelInput, DeltaViewModel}
use openivm.Classifier.Reasons.{add_reason_if, build_unsupported_reasons}
use openivm.Checker.Operators.{CheckedPlan}
use openivm.Checker.Analyze.{analyze_plan}
use openivm.Checker.Explained.{found_fatal, analyze_plan-found_fatal}

-- A reason that says that the analysis of the plan met something that is not supported.
abbrev pub from_plan : DeltaUnsupportedReason → Bool
from_plan unsupported_function = true
from_plan unsupported_unnest = true
from_plan unsupported_aggregate = true
from_plan unsupported_filtered_aggregate = true
from_plan unsupported_join_type = true
from_plan unsupported_order_by = true
from_plan unsupported_operator = true
from_plan _ = false

abbrev pub any_from_plan : List DeltaUnsupportedReason → Bool
any_from_plan [] = false
any_from_plan (r ∷ rs) = from_plan r || any_from_plan rs

any_from_plan-append :
    (rs qs : List DeltaUnsupportedReason)
    → any_from_plan (rs ++ qs) ≡ (any_from_plan rs || any_from_plan qs)
any_from_plan-append [] qs = refl
any_from_plan-append (r ∷ rs) qs =
    ground (arith, any_from_plan-append rs qs, Bool-cases (from_plan r))

has-from_plan :
    (rs : List DeltaUnsupportedReason) (r : DeltaUnsupportedReason)
    → has DeltaUnsupportedReason-discrete rs r ≡ true
    → (any_from_plan rs || from_plan r) ≡ any_from_plan rs
unfolding has
has-from_plan [] r h = cc
has-from_plan (q ∷ rs) r h = elim (Bool-cases (same DeltaUnsupportedReason-discrete q r)) [
  | inl e ↦
      let e = ap from_plan (same_sound DeltaUnsupportedReason-discrete q r e) in
      ground (arith, e, Bool-cases (from_plan q), Bool-cases (any_from_plan rs))
  | inr ne ↦
      let rest = has-from_plan rs r (ground arith) in
      ground (
        arith,
        rest,
        Bool-cases (from_plan q),
        Bool-cases (from_plan r),
        Bool-cases (any_from_plan rs),
      )
]

or_false : (b : Bool) → (b || false) ≡ b
or_false b = ground (arith, Bool-cases b)

any_from_plan-add_reason_if :
    (condition : Bool) (r : DeltaUnsupportedReason) (rs : List DeltaUnsupportedReason)
    → any_from_plan (add_reason_if condition r rs)
      ≡ (any_from_plan rs || (condition && from_plan r))
unfolding add_reason_if add_unique
any_from_plan-add_reason_if false r rs = ground (arith, Bool-cases (any_from_plan rs))
any_from_plan-add_reason_if true r rs =
    elim (Bool-cases (has DeltaUnsupportedReason-discrete rs r)) [
      | inl e ↦ rw e (sym (has-from_plan rs r e))
      | inr e ↦ rw e (
          any_from_plan-append rs (r ∷ [])
          ∙ ap (λ b. any_from_plan rs || b) (or_false (from_plan r)))
    ]

and_false : (b : Bool) → (b && false) ≡ false
and_false b = ground (arith, Bool-cases b)

and_true : (b : Bool) → (b && true) ≡ b
and_true b = ground (arith, Bool-cases b)

with_fallback :
    (fatal compatible none reported : Bool)
    → reported ≡ fatal
    → compatible ≡ not fatal
    → (reported || ((not compatible && none) && true)) ≡ not compatible
with_fallback true compatible none reported h k = rw h (rw k refl)
with_fallback false compatible none reported h k = rw h (rw k refl)

-- The last reason is only added to a list that has none.
any_from_plan-fallback :
    (rs : List DeltaUnsupportedReason) (compatible fatal : Bool)
    → compatible ≡ not fatal
    → any_from_plan rs ≡ fatal
    → any_from_plan (add_reason_if (not compatible && is_empty rs) unsupported_operator rs)
      ≡ not compatible
any_from_plan-fallback rs compatible fatal explained reported =
    any_from_plan-add_reason_if (not compatible && is_empty rs) unsupported_operator rs
    ∙ with_fallback fatal compatible (is_empty rs) (any_from_plan rs) reported explained

-- For a compatible plan no reason is about the plan, for an incompatible one there is one.
build_unsupported_reasons-from_plan :
    (model : DeltaViewModel) (flags : PlanFlags) (input : DeltaViewModelInput)
    → model.unsupported_reasons ≡ []
    → flags.analysis.incremental_compatible ≡ not (found_fatal flags.analysis)
    → any_from_plan (build_unsupported_reasons model flags input).unsupported_reasons
      ≡ not flags.analysis.incremental_compatible
unfolding build_unsupported_reasons
build_unsupported_reasons-from_plan model flags input empty explained =
    any_from_plan-fallback _ flags.analysis.incremental_compatible (found_fatal flags.analysis)
      explained (simp (any_from_plan-add_reason_if, and_false, and_true, or_false, empty) refl)

-- The reasons that the classifier builds from the analysis of a plan say that something in the plan is
-- not supported exactly if the checker found the plan incompatible.
pub analyze_plan-reasons :
    (p : CheckedPlan) (model : DeltaViewModel) (flags : PlanFlags) (input : DeltaViewModelInput)
    → model.unsupported_reasons ≡ []
    → flags.analysis ≡ analyze_plan p
    → any_from_plan (build_unsupported_reasons model flags input).unsupported_reasons
      ≡ not (analyze_plan p).incremental_compatible
analyze_plan-reasons p model flags input empty same_analysis =
    build_unsupported_reasons-from_plan model flags input empty (
      ap (λ a. a.incremental_compatible) same_analysis
      ∙ analyze_plan-found_fatal p
      ∙ ap (λ a. not (found_fatal a)) (sym same_analysis))
    ∙ ap (λ a. not a.incremental_compatible) same_analysis
