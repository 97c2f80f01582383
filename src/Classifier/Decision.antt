-- ===== src/Classifier/Decision.antt =====
-- What `BuildDeltaViewModel` of src/core/ivm_view_classifier.cpp promises of the refresh type and the
-- aux states.
use openivm.Base.{
  ◌≡◌, refl, sym, ap, ◌∙◌, Bool, true, false, ◌&&◌, [], is_empty, Bool-cases, inl, inr,
}
use openivm.Classifier.Types.{RefreshType, full_refresh, distinct_incremental, semi_anti_recompute}
use openivm.Classifier.Facts.{PlanAnalysis, PlanFlags, DeltaViewModelInput, DeltaViewModel}
use openivm.Classifier.Reasons.{is_set, build_unsupported_reasons, build_model_features}
use openivm.Classifier.Select.{
  attach_by_type, attach_aux_requirements, select_group_recompute_affected_mode,
  build_update_semantics, is_full_refresh, select_refresh_type,
}
use openivm.Classifier.Decide.{mark_unrecognized, choose, decide}
use openivm.Classifier.Choice.{build_model_features-stateful, select_refresh_type-Allowed}

attach_by_type-type :
    (t : RefreshType) (model : DeltaViewModel) (input : DeltaViewModelInput)
    → (attach_by_type t model input).type ≡ model.type
unfolding attach_by_type
attach_by_type-type RefreshType.aggregate_group model input = refl
attach_by_type-type RefreshType.simple_aggregate model input = refl
attach_by_type-type RefreshType.simple_projection model input = refl
attach_by_type-type RefreshType.full_refresh model input = refl
attach_by_type-type RefreshType.aggregate_having model input = refl
attach_by_type-type RefreshType.window_partition model input = refl
attach_by_type-type RefreshType.group_recompute model input = refl
attach_by_type-type RefreshType.top_k model input = refl
attach_by_type-type RefreshType.distinct_incremental model input = refl
attach_by_type-type RefreshType.semi_anti_recompute model input = refl
attach_by_type-type RefreshType.current_diff_recompute model input = refl

mark_unrecognized-type : (model : DeltaViewModel) → (mark_unrecognized model).type ≡ model.type
unfolding mark_unrecognized
mark_unrecognized-type model = elim (Bool-cases model.warn_unrecognized_pattern) [
  | inl e ↦ rw e refl
  | inr e ↦ rw e refl
]

-- What comes after the choice keeps the type.
decide-type :
    (model : DeltaViewModel) (facts : PlanFlags) (input : DeltaViewModelInput)
    → (decide model facts input).type ≡ (choose model facts input).type
unfolding decide build_update_semantics attach_aux_requirements select_group_recompute_affected_mode
decide-type model facts input = attach_by_type-type _ _ input ∙ mark_unrecognized-type _

-- A candidate that the type needs is there, and the model gets it.
attach_by_type-distinct :
    (t : RefreshType) (model : DeltaViewModel) (input : DeltaViewModelInput)
    → t ≡ distinct_incremental
    → (attach_by_type t model input).distinct_aux ≡ input.distinct_aux_candidate
unfolding attach_by_type
attach_by_type-distinct t model input e = rw e refl

attach_by_type-semi_anti :
    (t : RefreshType) (model : DeltaViewModel) (input : DeltaViewModelInput)
    → t ≡ semi_anti_recompute
    → (attach_by_type t model input).semi_anti_aux ≡ input.semi_anti_aux_candidate
unfolding attach_by_type
attach_by_type-semi_anti t model input e = rw e refl

and_right : (b c : Bool) → (b && c) ≡ true → c ≡ true
and_right true c h = h
and_right false c h = cc

-- If the type chosen for a model that had no features is DISTINCT_INCREMENTAL, the model has a distinct
-- aux state: the candidate that it is taken from is there.
pub decide-distinct_aux :
    (model : DeltaViewModel) (facts : PlanFlags) (input : DeltaViewModelInput)
    → model.features ≡ []
    → (decide model facts input).type ≡ distinct_incremental
    → is_set (decide model facts input).distinct_aux ≡ true
unfolding decide build_update_semantics attach_aux_requirements choose
decide-distinct_aux model facts input fresh e =
    let m = build_unsupported_reasons model facts input in
    let m3 =
      mark_unrecognized
        (select_group_recompute_affected_mode (choose model facts input) facts.analysis input) in
    let stateful =
      build_model_features-stateful m facts.analysis input
        (unfold build_unsupported_reasons in fresh) in
    let allowed =
      select_refresh_type-Allowed (build_model_features m facts.analysis input) facts.analysis
        input in
    ap is_set
      (attach_by_type-distinct m3.type m3 input (sym (attach_by_type-type m3.type m3 input) ∙ e))
    ∙ and_right (is_empty m.unsupported_reasons) _
        (sym stateful.1 ∙ allowed.distinct_feature (sym (decide-type model facts input) ∙ e))

-- If the type chosen for a model that had no features is SEMI_ANTI_RECOMPUTE, the model has a
-- semi-anti aux state: the candidate that it is taken from is there.
pub decide-semi_anti_aux :
    (model : DeltaViewModel) (facts : PlanFlags) (input : DeltaViewModelInput)
    → model.features ≡ []
    → (decide model facts input).type ≡ semi_anti_recompute
    → is_set (decide model facts input).semi_anti_aux ≡ true
unfolding decide build_update_semantics attach_aux_requirements choose
decide-semi_anti_aux model facts input fresh e =
    let m = build_unsupported_reasons model facts input in
    let m3 =
      mark_unrecognized
        (select_group_recompute_affected_mode (choose model facts input) facts.analysis input) in
    let stateful =
      build_model_features-stateful m facts.analysis input
        (unfold build_unsupported_reasons in fresh) in
    let allowed =
      select_refresh_type-Allowed (build_model_features m facts.analysis input) facts.analysis
        input in
    ap is_set
      (attach_by_type-semi_anti m3.type m3 input (sym (attach_by_type-type m3.type m3 input) ∙ e))
    ∙ and_right (is_empty m.unsupported_reasons) _
        (sym stateful.2 ∙ allowed.semi_anti_feature (sym (decide-type model facts input) ∙ e))

construct-full :
    (model : DeltaViewModel) (a : PlanAnalysis) (input : DeltaViewModelInput)
    → input.has_unsupported_incremental_construct ≡ true
    → (select_refresh_type model a input).type ≡ full_refresh
unfolding select_refresh_type
construct-full model a input e = rw e refl

incompatible-full :
    (model : DeltaViewModel) (a : PlanAnalysis) (input : DeltaViewModelInput)
    → input.has_unsupported_incremental_construct ≡ false
    → a.incremental_compatible ≡ false
    → (select_refresh_type model a input).type ≡ full_refresh
unfolding select_refresh_type
incompatible-full model a input e c = rw e (rw c refl)

true_not_false : true ≡ false → ⊥
true_not_false e = cc

-- A view that is not refreshed in full has a plan that is compatible and has no unsupported
-- construct.
pub decide-incremental :
    (model : DeltaViewModel) (facts : PlanFlags) (input : DeltaViewModelInput)
    → is_full_refresh (decide model facts input).type ≡ false
    → (facts.analysis.incremental_compatible ≡ true)
      × (input.has_unsupported_incremental_construct ≡ false)
unfolding choose
decide-incremental model facts input h =
    let chosen = sym (ap is_full_refresh (decide-type model facts input)) ∙ h in
    elim (Bool-cases input.has_unsupported_incremental_construct) [
      | inl e ↦
          elim (true_not_false
            (sym (ap is_full_refresh (construct-full _ facts.analysis input e)) ∙ chosen)) [ ]
      | inr e ↦ elim (Bool-cases facts.analysis.incremental_compatible) [
        | inl c ↦ (c, e)
        | inr c ↦
            elim (true_not_false (
              sym (ap is_full_refresh (incompatible-full _ facts.analysis input e c)) ∙ chosen)) [ ]
      ]
    ]
