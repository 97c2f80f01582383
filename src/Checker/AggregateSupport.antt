-- ===== src/Checker/AggregateSupport.antt =====
-- src/core/incremental_checker.cpp: what joins and aggregates do to the compatibility of the plan.
use openivm.Base.{
  ◌≡◌, refl, ap, ◌∙◌, Bool, true, false, ◌&&◌, ◌||◌, not, List, [], ◌∷◌, Option, none, some, arith,
  Bool-cases, if◌then◌else◌, ℕ, codes, bytes_eq,
}
use openivm.Classifier.Facts.{PlanAnalysis}
use openivm.Classifier.Reasons.{is_set}
use openivm.DeltaModel.Types.{LogicalOperatorType, JoinType}
use openivm.DeltaModel.Types
use openivm.Checker.Operators.{AggregateNode, BoundAggregate}
use openivm.Checker.Facts.{
  mark_volatile_if, mark_non_foldable_if, mark_join_type, mark_supported, mark_count_distinct,
  mark_filter, mark_minmax, mark_list, add_aggregate_type, mark_aggregate, mark_aggregates,
  supported_join_type, member, supported_aggregates,
}
use openivm.Checker.Local.{mark_join, mark_grouping_sets, mark_outermost, mark_aggregate_node}
use openivm.Checker.Offends.{aggregate_offends, any_offends, aggregate_node_offends, join_offends}

abbrev pub compatible : PlanAnalysis → Bool
compatible a = a.incremental_compatible

-- The value of an if whose branches have it, and that of one whose first branch refuses.
pub if-same {ℓ} :
    {A : Type ℓ} (f : PlanAnalysis → A) (b : Bool) (x y : PlanAnalysis) {c : A}
    → f x ≡ c
    → f y ≡ c
    → f (if b then x else y) ≡ c
if-same f true x y h k = h
if-same f false x y h k = k

if-refuses :
    (b : Bool) (x a : PlanAnalysis)
    → compatible x ≡ false
    → compatible (if b then x else a) ≡ (compatible a && not b)
if-refuses true x a h = h ∙ ground (arith, Bool-cases (compatible a))
if-refuses false x a h = ground (arith, Bool-cases (compatible a))

pub and_true : (b : Bool) → b ≡ (b && true)
and_true b = ground (arith, Bool-cases b)

pub and_and : (a b c d : Bool) → a ≡ (c && not b) → (a && not d) ≡ (c && not (b || d))
and_and a b c d h = rw h (ground (arith, Bool-cases b, Bool-cases c, Bool-cases d))

pub mark_volatile_if-compatible :
    (b : Bool) (a : PlanAnalysis) → compatible (mark_volatile_if b a) ≡ (compatible a && not b)
unfolding mark_volatile_if
mark_volatile_if-compatible b a = if-refuses b _ a refl

pub mark_non_foldable_if-compatible :
    (b : Bool) (a : PlanAnalysis) → compatible (mark_non_foldable_if b a) ≡ (compatible a && not b)
unfolding mark_non_foldable_if
mark_non_foldable_if-compatible b a = if-refuses b _ a refl

pub mark_join-compatible :
    (t : Option JoinType) (a : PlanAnalysis)
    → compatible (mark_join t a) ≡ (compatible a && not (join_offends t))
unfolding mark_join mark_join_type join_offends supported_join_type
mark_join-compatible none a = and_true _
mark_join-compatible (some Types.inner_join) a = and_true _
mark_join-compatible (some Types.left_join) a = and_true _
mark_join-compatible (some Types.right_join) a = and_true _
mark_join-compatible (some Types.outer_join) a = and_true _
mark_join-compatible (some Types.semi_join) a = and_true _
mark_join-compatible (some Types.anti_join) a = and_true _
mark_join-compatible (some Types.mark_join) a = and_true _
mark_join-compatible (some Types.single_join) a = and_true _
mark_join-compatible (some Types.other_join) a = ground (arith, Bool-cases (compatible a))

-- The steps for one aggregate: which of them refuse, and that none sets the group index.
mark_supported-compatible :
    (agg : BoundAggregate) (a : PlanAnalysis)
    → compatible (mark_supported agg a) ≡ (
        compatible a
        && not (
            not (member agg.function_name supported_aggregates)
            && not (bytes_eq agg.function_name (codes "first") && is_set a.group_index)))
unfolding mark_supported
mark_supported-compatible agg a = if-refuses _ _ a refl

mark_filter-compatible :
    (agg : BoundAggregate) (a : PlanAnalysis)
    → compatible (mark_filter agg a)
      ≡ (compatible a && not (agg.has_filter && not (bytes_eq agg.function_name (codes "list"))))
unfolding mark_filter
mark_filter-compatible agg a = ground (
  arith,
  Bool-cases agg.has_filter,
  Bool-cases (bytes_eq agg.function_name (codes "list")),
  Bool-cases (compatible a),
)

mark_count_distinct-compatible :
    (agg : BoundAggregate) (a : PlanAnalysis)
    → compatible (mark_count_distinct agg a) ≡ compatible a
unfolding mark_count_distinct
mark_count_distinct-compatible agg a = if-same compatible _ _ _ refl refl

mark_minmax-compatible :
    (agg : BoundAggregate) (a : PlanAnalysis) → compatible (mark_minmax agg a) ≡ compatible a
unfolding mark_minmax
mark_minmax-compatible agg a = if-same compatible _ _ _ refl refl

mark_list-compatible :
    (agg : BoundAggregate) (a : PlanAnalysis) → compatible (mark_list agg a) ≡ compatible a
unfolding mark_list
mark_list-compatible agg a = if-same compatible _ _ _ refl refl

add_aggregate_type-compatible :
    (agg : BoundAggregate) (a : PlanAnalysis) → compatible (add_aggregate_type agg a) ≡ compatible a
unfolding add_aggregate_type
add_aggregate_type-compatible agg a = if-same compatible _ _ _ refl refl

mark_supported-group_index :
    (agg : BoundAggregate) (a : PlanAnalysis) → (mark_supported agg a).group_index ≡ a.group_index
unfolding mark_supported
mark_supported-group_index agg a = if-same (λ b. b.group_index) _ _ _ refl refl

mark_count_distinct-group_index :
    (agg : BoundAggregate) (a : PlanAnalysis)
    → (mark_count_distinct agg a).group_index ≡ a.group_index
unfolding mark_count_distinct
mark_count_distinct-group_index agg a = if-same (λ b. b.group_index) _ _ _ refl refl

mark_filter-group_index :
    (agg : BoundAggregate) (a : PlanAnalysis) → (mark_filter agg a).group_index ≡ a.group_index
unfolding mark_filter
mark_filter-group_index agg a =
    if-same (λ b. b.group_index) agg.has_filter _ _
      (if-same (λ b. b.group_index) (bytes_eq agg.function_name (codes "list")) _ _ refl refl) refl

mark_minmax-group_index :
    (agg : BoundAggregate) (a : PlanAnalysis) → (mark_minmax agg a).group_index ≡ a.group_index
unfolding mark_minmax
mark_minmax-group_index agg a = if-same (λ b. b.group_index) _ _ _ refl refl

mark_list-group_index :
    (agg : BoundAggregate) (a : PlanAnalysis) → (mark_list agg a).group_index ≡ a.group_index
unfolding mark_list
mark_list-group_index agg a = if-same (λ b. b.group_index) _ _ _ refl refl

add_aggregate_type-group_index :
    (agg : BoundAggregate) (a : PlanAnalysis)
    → (add_aggregate_type agg a).group_index ≡ a.group_index
unfolding add_aggregate_type
add_aggregate_type-group_index agg a = if-same (λ b. b.group_index) _ _ _ refl refl

mark_aggregate-compatible :
    (agg : BoundAggregate) (a : PlanAnalysis)
    → compatible (mark_aggregate agg a)
      ≡ (compatible a && not (aggregate_offends (is_set a.group_index) agg))
unfolding mark_aggregate aggregate_offends
mark_aggregate-compatible agg a =
    add_aggregate_type-compatible agg _
    ∙ mark_list-compatible agg _
    ∙ mark_minmax-compatible agg _
    ∙ mark_filter-compatible agg _
    ∙ and_and _ _ _ _ (mark_count_distinct-compatible agg _ ∙ mark_supported-compatible agg a)

mark_aggregate-group_index :
    (agg : BoundAggregate) (a : PlanAnalysis) → (mark_aggregate agg a).group_index ≡ a.group_index
unfolding mark_aggregate
mark_aggregate-group_index agg a =
    add_aggregate_type-group_index agg _
    ∙ mark_list-group_index agg _
    ∙ mark_minmax-group_index agg _
    ∙ mark_filter-group_index agg _
    ∙ mark_count_distinct-group_index agg _
    ∙ mark_supported-group_index agg a

mark_aggregates-compatible :
    (aggs : List (Option BoundAggregate)) (a : PlanAnalysis)
    → compatible (mark_aggregates aggs a)
      ≡ (compatible a && not (any_offends (is_set a.group_index) aggs))
unfolding mark_aggregates any_offends
mark_aggregates-compatible [] a = and_true _
mark_aggregates-compatible (none ∷ aggs) a = mark_aggregates-compatible aggs a
mark_aggregates-compatible (some agg ∷ aggs) a =
    mark_aggregates-compatible aggs (mark_aggregate agg a)
    ∙ ap (λ g. compatible (mark_aggregate agg a) && not (any_offends (is_set g) aggs))
        (mark_aggregate-group_index agg a)
    ∙ and_and _ _ _ _ (mark_aggregate-compatible agg a)

mark_grouping_sets-compatible :
    (agg : AggregateNode) (a : PlanAnalysis) → compatible (mark_grouping_sets agg a) ≡ compatible a
unfolding mark_grouping_sets
mark_grouping_sets-compatible agg a = if-same compatible _ _ _ refl refl

mark_grouping_sets-group_index :
    (agg : AggregateNode) (a : PlanAnalysis)
    → (mark_grouping_sets agg a).group_index ≡ a.group_index
unfolding mark_grouping_sets
mark_grouping_sets-group_index agg a = if-same (λ b. b.group_index) _ _ _ refl refl

mark_outermost-compatible :
    (agg : AggregateNode) (n : ℕ) (a : PlanAnalysis)
    → compatible (mark_outermost agg n a) ≡ compatible a
unfolding mark_outermost
mark_outermost-compatible agg n a = if-same compatible _ _ _ refl refl

pub mark_aggregate_node-compatible :
    (agg : Option AggregateNode) (a : PlanAnalysis)
    → compatible (mark_aggregate_node agg a)
      ≡ (compatible a && not (aggregate_node_offends (is_set a.group_index) agg))
unfolding mark_aggregate_node aggregate_node_offends
mark_aggregate_node-compatible none a = and_true _
mark_aggregate_node-compatible (some agg) a =
    let start = mark_grouping_sets agg (record a { found_aggregation = true }) in
    mark_outermost-compatible agg _ _
    ∙ mark_volatile_if-compatible _ _
    ∙ and_and _ _ _ _ (
        mark_aggregates-compatible agg.aggregates start
        ∙ ap (λ g. compatible start && not (any_offends (is_set g) agg.aggregates))
            (mark_grouping_sets-group_index agg _)
        ∙ ap (λ c. c && not (any_offends (is_set a.group_index) agg.aggregates))
            (mark_grouping_sets-compatible agg _))
