-- ===== src/Classifier/Types.antt =====
-- The enumerations of src/include/core/ivm_view_classifier.hpp and openivm_constants.hpp, with
-- `AddUnique` of src/include/core/vector_utils.hpp.
use openivm.Base.{
  ◌≡◌, refl, sym, ap, ◌∙◌, Bool, true, false, ◌||◌, List, [], ◌∷◌, ◌++◌, arith, if◌then◌else◌,
  Bool-cases, inl, inr,
}

pub data RefreshType : Type 0 where
  aggregate_group simple_aggregate simple_projection full_refresh aggregate_having : RefreshType
  window_partition group_recompute top_k distinct_incremental semi_anti_recompute : RefreshType
  current_diff_recompute : RefreshType

pub data GroupRecomputeAffectedMode : Type 0 where
  source_delta source_delta_relax_aggregate_filter current_diff : GroupRecomputeAffectedMode

pub data DeltaStrategyReason : Type 0 where
  union_over_aggregate union_distinct_group_recompute : DeltaStrategyReason
  join_key_group_fallback delim_aggregate_group_fallback : DeltaStrategyReason
  scalar_delim_projection_group_fallback join_aggregate_projection_fallback : DeltaStrategyReason
  nested_aggregate_group_fallback repeated_cte_aggregate_group_fallback : DeltaStrategyReason
  semi_anti_aggregate_group_fallback outer_join_aggregate_recompute : DeltaStrategyReason
  asof_current_diff_recompute sample_current_diff_recompute : DeltaStrategyReason
  positional_current_diff_recompute : DeltaStrategyReason

pub data DeltaModelFeature : Type 0 where
  linear bilinear outer_join_stateful aggregate_linear aggregate_non_linear : DeltaModelFeature
  aggregate_having count_distinct_stateful filtered_list_stateful : DeltaModelFeature
  grouping_sets_stateful distinct_stateful window_affected_partition : DeltaModelFeature
  semi_anti_stateful asof_stateful sample_global_recompute : DeltaModelFeature
  positional_global_recompute current_diff_recompute full_only : DeltaModelFeature

pub data DeltaUnsupportedReason : Type 0 where
  unsupported_set_operation unsupported_pivot unsupported_function : DeltaUnsupportedReason
  unsupported_unnest unsupported_aggregate unsupported_filtered_aggregate : DeltaUnsupportedReason
  unsupported_join_type unsupported_order_by unsupported_operator : DeltaUnsupportedReason
  grouping_sets_no_keys filtered_list_no_keys semi_anti_with_aggregate : DeltaUnsupportedReason
  semi_anti_missing_aux unrecognized_pattern : DeltaUnsupportedReason

pub data DeltaUpdateSemantics : Type 0 where
  append_only_safe delete_sensitive update_sensitive : DeltaUpdateSemantics
  minmax_insert_only_safe projection_delete_skip_safe : DeltaUpdateSemantics
  aggregate_delete_skip_safe : DeltaUpdateSemantics

unfoldable pub RefreshType-discrete : Discrete RefreshType
RefreshType-discrete = hlevel

unfoldable pub DeltaStrategyReason-discrete : Discrete DeltaStrategyReason
DeltaStrategyReason-discrete = hlevel

unfoldable pub DeltaModelFeature-discrete : Discrete DeltaModelFeature
DeltaModelFeature-discrete = hlevel

unfoldable pub DeltaUnsupportedReason-discrete : Discrete DeltaUnsupportedReason
DeltaUnsupportedReason-discrete = hlevel

unfoldable pub DeltaUpdateSemantics-discrete : Discrete DeltaUpdateSemantics
DeltaUpdateSemantics-discrete = hlevel

module _ {ℓ} {A : Type ℓ} (discrete : Discrete A) where
  abbrev pub same : A → A → Bool
  same x y = elim (discrete x y) [ yes _ ↦ true | no _ ↦ false ]

  -- The search of `HasFeature` and `AddUnique`.
  unfoldable pub has : List A → A → Bool
  has [] x = false
  has (y ∷ ys) x = same y x || has ys x

  unfoldable pub add_unique : List A → A → List A
  unfolding has
  add_unique ys x = if has ys x then ys else ys ++ x ∷ []

  pub same_sound : (x y : A) → same x y ≡ true → x ≡ y
  same_sound x y h =
      elim (discrete x y) as (λ d. elim d [ yes _ ↦ true | no _ ↦ false ] ≡ true → x ≡ y) [
        | yes e ↦ λ _. e
        | no _ ↦ λ f. cc f
      ]
        h

  pub same_refl : (x : A) → same x x ≡ true
  same_refl x = elim (discrete x x) as (λ d. elim d [ yes _ ↦ true | no _ ↦ false ] ≡ true) [
    | yes e ↦ refl
    | no ne ↦ absurd (ne refl)
  ]

  has-append : (ys zs : List A) (x : A) → has (ys ++ zs) x ≡ (has ys x || has zs x)
  unfolding has
  has-append [] zs x = refl
  has-append (y ∷ ys) zs x = ground (arith, has-append ys zs x)

  -- Adding an entry adds it and nothing else.
  pub has-add_unique : (ys : List A) (x y : A) → has (add_unique ys x) y ≡ (has ys y || same x y)
  unfolding add_unique
  has-add_unique ys x y = elim (Bool-cases (has ys x)) [
    | inr new ↦ rw new (has-append ys (x ∷ []) y ∙ unfold has in ground arith)
    | inl old ↦ elim (Bool-cases (same x y)) [
      | inr other ↦ rw (old, other) (ground arith)
      | inl e ↦
          rw (old, e)
            (ap (has ys) (sym (same_sound x y e)) ∙ old ∙ ground (arith, Bool-cases (has ys y)))
    ]
  ]
