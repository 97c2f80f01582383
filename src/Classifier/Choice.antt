-- ===== src/Classifier/Choice.antt =====
-- What `BuildModelFeatures` and `SelectRefreshType` of src/core/ivm_view_classifier.cpp do with the aux
-- candidates.
use openivm.Base.{
  ◌≡◌, refl, sym, ap, ◌∙◌, Bool, true, false, ◌&&◌, ◌||◌, not, List, [], arith, is_empty,
  if◌then◌else◌, Bool-cases, inl, inr,
}
use openivm.Classifier.Types.{
  RefreshType, full_refresh, group_recompute, distinct_incremental, semi_anti_recompute,
  DeltaModelFeature, distinct_stateful, semi_anti_stateful, full_only, DeltaModelFeature-discrete,
  same, has, has-add_unique,
}
use openivm.Classifier.Facts.{PlanAnalysis, DeltaViewModelInput, DeltaViewModel, has_feature}
use openivm.Classifier.Reasons.{is_set, add_feature_if, build_model_features}
use openivm.Classifier.Select.{
  select_refresh_type, select_keyed, select_aggregate_or_projection, select_current_diff,
}

has-add_feature_if :
    (condition : Bool) (f g : DeltaModelFeature) (fs : List DeltaModelFeature)
    → has DeltaModelFeature-discrete (add_feature_if condition f fs) g
      ≡ (has DeltaModelFeature-discrete fs g || (condition && same DeltaModelFeature-discrete f g))
unfolding add_feature_if
has-add_feature_if true f g fs = has-add_unique DeltaModelFeature-discrete fs f g
has-add_feature_if false f g fs = ground (arith, Bool-cases (has DeltaModelFeature-discrete fs g))

pub and_false : (b : Bool) → (b && false) ≡ false
and_false b = ground (arith, Bool-cases b)

pub and_true : (b : Bool) → (b && true) ≡ b
and_true b = ground (arith, Bool-cases b)

pub or_false : (b : Bool) → (b || false) ≡ b
or_false b = ground (arith, Bool-cases b)

not-not : (b : Bool) → not (not b) ≡ b
not-not b = ground (arith, Bool-cases b)

-- A model that had no features gets FULL_ONLY exactly if it has unsupported reasons, and each of
-- DISTINCT_STATEFUL and SEMI_ANTI_STATEFUL exactly if it has none and the candidate is there.
pub build_model_features-stateful :
    (model : DeltaViewModel) (a : PlanAnalysis) (input : DeltaViewModelInput)
    → model.features ≡ []
    → (has_feature (build_model_features model a input) full_only
        ≡ not (is_empty model.unsupported_reasons))
      × (has_feature (build_model_features model a input) distinct_stateful
          ≡ (is_empty model.unsupported_reasons && is_set input.distinct_aux_candidate))
      × (has_feature (build_model_features model a input) semi_anti_stateful
          ≡ (is_empty model.unsupported_reasons && is_set input.semi_anti_aux_candidate))
unfolding build_model_features has_feature DeltaModelFeature-discrete
build_model_features-stateful model a input fresh = (
  simp (has-add_feature_if, fresh, and_false, and_true, or_false, not-not) refl,
  simp (has-add_feature_if, fresh, and_false, and_true, or_false, not-not) refl,
  simp (has-add_feature_if, fresh, and_false, and_true, or_false, not-not) refl,
)

-- The types that need a feature of the model.
needs_feature : RefreshType → Bool
needs_feature distinct_incremental = true
needs_feature semi_anti_recompute = true
needs_feature _ = false

pub record Allowed (model : DeltaViewModel) (chosen : DeltaViewModel) : Type 0 where
  pub distinct_feature :
      chosen.type ≡ distinct_incremental → has_feature model distinct_stateful ≡ true
  pub semi_anti_feature :
      chosen.type ≡ semi_anti_recompute → has_feature model semi_anti_stateful ≡ true

false_not_true : false ≡ true → ⊥
false_not_true e = cc

no_need : (model chosen : DeltaViewModel) → needs_feature chosen.type ≡ false → Allowed model chosen
unfolding needs_feature
no_need model chosen h = record {
  distinct_feature = λ e. elim (false_not_true (sym h ∙ ap needs_feature e)) [ ];
  semi_anti_feature = λ e. elim (false_not_true (sym h ∙ ap needs_feature e)) [ ];
}

recompute_type : (b : Bool) → needs_feature (if b then group_recompute else full_refresh) ≡ false
unfolding needs_feature
recompute_type b = ground (arith, Bool-cases b)

semi_anti_choice :
    (b : Bool) → (if b then semi_anti_recompute else full_refresh) ≡ distinct_incremental → ⊥
semi_anti_choice true e = cc
semi_anti_choice false e = cc

semi_anti_choice_set :
    (b : Bool) → (if b then semi_anti_recompute else full_refresh) ≡ semi_anti_recompute → b ≡ true
semi_anti_choice_set true e = refl
semi_anti_choice_set false e = cc

distinct_choice :
    (b : Bool) → (if b then distinct_incremental else group_recompute) ≡ semi_anti_recompute → ⊥
distinct_choice true e = cc
distinct_choice false e = cc

distinct_choice_set :
    (b : Bool)
    → (if b then distinct_incremental else group_recompute) ≡ distinct_incremental
    → b ≡ true
distinct_choice_set true e = refl
distinct_choice_set false e = cc

select_aggregate_or_projection-no_need :
    (model : DeltaViewModel) (a : PlanAnalysis) (input : DeltaViewModelInput)
    → needs_feature (select_aggregate_or_projection model a input).type ≡ false
unfolding select_aggregate_or_projection needs_feature
select_aggregate_or_projection-no_need model a input = ground arith

select_keyed-Allowed :
    (model : DeltaViewModel) (a : PlanAnalysis) (input : DeltaViewModelInput)
    → Allowed model (select_keyed model a input)
unfolding select_keyed needs_feature
select_keyed-Allowed model a input =
    let keyed = not (is_empty model.group_columns) in
    elim (Bool-cases (a.found_grouping_sets)) [
      | inl e ↦ rw e (no_need model _ (recompute_type keyed))
      | inr e ↦ rw e (elim (Bool-cases (a.found_semi_anti_join && a.found_aggregation)) [
        | inl e ↦ rw e (no_need model _ (recompute_type keyed))
        | inr e ↦ rw e (elim (Bool-cases (a.found_semi_anti_join && not a.found_aggregation)) [
          | inl e ↦ rw e (record {
            distinct_feature = λ t. elim (semi_anti_choice _ t) [ ];
            semi_anti_feature = semi_anti_choice_set _;
          })
          | inr e ↦ rw e (elim (Bool-cases (a.found_filtered_list && keyed)) [
            | inl e ↦ rw e (no_need model _ refl)
            | inr e ↦ rw e (elim (Bool-cases (a.found_filtered_list)) [
              | inl e ↦ rw e (no_need model _ refl)
              | inr e ↦ rw e (elim (Bool-cases (a.found_count_distinct && keyed)) [
                | inl e ↦ rw e (no_need model _ refl)
                | inr e ↦
                    rw e
                      (elim (Bool-cases
                        (a.found_distinct && not model.distinct_at_top && a.found_aggregation)) [
                          | inl e ↦ rw e (record {
                            distinct_feature = distinct_choice_set _;
                            semi_anti_feature = λ t. elim (distinct_choice _ t) [ ];
                          })
                          | inr e ↦
                              rw e (elim (Bool-cases (model.union_distinct_over_agg && keyed)) [
                                | inl e ↦ rw e (no_need model _ refl)
                                | inr e ↦
                                    rw e
                                      (elim (Bool-cases (
                                        a.found_union_distinct
                                        && not a.found_aggregation
                                        && keyed)) [
                                          | inl e ↦ rw e (no_need model _ refl)
                                          | inr e ↦
                                              rw e
                                                (elim (Bool-cases (
                                                  a.found_distinct && model.distinct_at_top
                                                  && keyed)) [
                                                    | inl e ↦ rw e (no_need model _ refl)
                                                    | inr e ↦
                                                        rw e
                                                          (elim (Bool-cases (
                                                            not (is_empty model.strategy_reasons)
                                                            && keyed)) [
                                                              | inl e ↦ rw e (no_need model _ refl)
                                                              | inr e ↦ rw e (
                                                                no_need model _ (
                                                                select_aggregate_or_projection-no_need
                                                                model _ input))
                                                            ])
                                                  ])
                                        ])
                              ])
                        ])
              ])
            ])
          ])
        ])
      ])
    ]

-- Every branch of the choice that needs a feature looks at it first.
pub select_refresh_type-Allowed :
    (model : DeltaViewModel) (a : PlanAnalysis) (input : DeltaViewModelInput)
    → Allowed model (select_refresh_type model a input)
unfolding select_refresh_type select_current_diff needs_feature
select_refresh_type-Allowed model a input =
    let keyed = not (is_empty model.group_columns) in
    elim (Bool-cases (input.has_unsupported_incremental_construct)) [
      | inl e ↦ rw e (no_need model _ refl)
      | inr e ↦ rw e (elim (Bool-cases (not a.incremental_compatible)) [
        | inl e ↦ rw e (no_need model _ refl)
        | inr e ↦ rw e (elim (Bool-cases (a.found_sample)) [
          | inl e ↦ rw e (no_need model _ refl)
          | inr e ↦ rw e (elim (Bool-cases (a.found_positional_join)) [
            | inl e ↦ rw e (no_need model _ refl)
            | inr e ↦
                rw e
                  (elim (Bool-cases (
                    a.found_asof_join
                    && a.found_window
                    && not (is_empty model.window_partition_columns))) [
                      | inl e ↦ rw e (no_need model _ refl)
                      | inr e ↦
                          rw e
                            (elim (Bool-cases (a.found_asof_join && a.found_aggregation && keyed)) [
                              | inl e ↦ rw e (no_need model _ refl)
                              | inr e ↦ rw e (elim (Bool-cases (a.found_asof_join)) [
                                | inl e ↦ rw e (no_need model _ refl)
                                | inr e ↦ rw e (elim (Bool-cases (a.found_window)) [
                                  | inl e ↦ rw e (no_need model _ refl)
                                  | inr e ↦ rw e (select_keyed-Allowed model _ _)
                                ])
                              ])
                            ])
                    ])
          ])
        ])
      ])
    ]
