-- ===== src/Classifier/Decide.antt =====
-- `BuildDeltaViewModel` of src/core/ivm_view_classifier.cpp, from the model whose group columns are
-- built to the one whose update semantics are.
use openivm.Base.{if◌then◌else◌}
use openivm.Classifier.Types.{
  unrecognized_pattern, full_only, add_unique, DeltaUnsupportedReason-discrete,
  DeltaModelFeature-discrete,
}
use openivm.Classifier.Facts.{PlanFlags, DeltaViewModelInput, DeltaViewModel}
use openivm.Classifier.Reasons.{build_unsupported_reasons, build_model_features}
use openivm.Classifier.Select.{
  select_refresh_type, select_group_recompute_affected_mode, attach_aux_requirements,
  build_update_semantics,
}

-- `if (model.warn_unrecognized_pattern) ...`
unfoldable pub mark_unrecognized : DeltaViewModel → DeltaViewModel
mark_unrecognized model =
    if model.warn_unrecognized_pattern
    then record model {
      unsupported_reasons =
          add_unique DeltaUnsupportedReason-discrete model.unsupported_reasons unrecognized_pattern;
      features = add_unique DeltaModelFeature-discrete model.features full_only;
    }
    else model

unfoldable pub choose : DeltaViewModel → PlanFlags → DeltaViewModelInput → DeltaViewModel
choose model facts input =
    let m = build_unsupported_reasons model facts input in
    let m = build_model_features m facts.analysis input in
    select_refresh_type m facts.analysis input

unfoldable pub decide : DeltaViewModel → PlanFlags → DeltaViewModelInput → DeltaViewModel
unfolding choose
decide model facts input =
    let m = choose model facts input in
    let m = select_group_recompute_affected_mode m facts.analysis input in
    let m = mark_unrecognized m in
    let m = attach_aux_requirements m input in build_update_semantics m facts.analysis
