-- ===== src/DeltaModel/Fallback.antt =====
-- What src/core/ivm_delta_model.cpp falls back to where a plan is not supported.
use openivm.Base.{
  ℕ, ◌≡◌, refl, Bool, false, List, [], ◌∷◌, Option, none, some, Bytes, is_empty, All, All-append,
}
use openivm.Classifier.Facts.{DeltaViewModel, SourceOccurrence}
use openivm.DeltaModel.Types.{
  full_recompute, full_only, DeltaModelNode, LogicalOperator, Plan, operator, Plans, no_plans,
  plan_of,
}
use openivm.DeltaModel.Maintenance.{build_node_maintenance, node_update_semantics}
use openivm.DeltaModel.Node.{node_kind_for_operator, rule_kind_for_node}
use openivm.DeltaModel.Build.{
  PlanContext, make_node, source_of, with_source, build_node, build_children, refresh_maintenance,
  build_delta_model_nodes,
}

module _ (ci_equals : Bytes → Bytes → Bool) (ctx : PlanContext) (P : DeltaModelNode → Type 0)
    (made : (op : LogicalOperator) (nodes : List DeltaModelNode) (children : List ℕ)
      → P (make_node ci_equals ctx op nodes children)) where
  mutual
    unfolding build_node build_children

    build_node-All :
        (p : Plan) (nodes : List DeltaModelNode)
        → All P nodes
        → All P (build_node ci_equals ctx p nodes).0
    build_node-All (operator op ps) nodes all =
        All-append P _ _ (build_children-All ps nodes all) (made op _ _, tt)

    build_children-All :
        (ps : Plans) (nodes : List DeltaModelNode)
        → All P nodes
        → All P (build_children ci_equals ctx ps nodes).0
    build_children-All no_plans nodes all = all
    build_children-All (plan_of p ps) nodes all =
        build_children-All ps _ (build_node-All p nodes all)

-- A node that is not maintained by deltas at all.
abbrev pub IsFullOnly : DeltaModelNode → Type 0
IsFullOnly node = (node.rule ≡ full_only) × (node.update_semantics ≡ [])

abbrev pub IsFullRecompute : DeltaModelNode → Type 0
IsFullRecompute node = IsFullOnly node × (node.maintenance.mode ≡ full_recompute)

with_source-IsFullOnly :
    (ci_equals : Bytes → Bytes → Bool) (source : Option SourceOccurrence) (node : DeltaModelNode)
    → IsFullOnly node
    → IsFullOnly (with_source ci_equals source node)
unfolding with_source
with_source-IsFullOnly ci_equals none node h = h
with_source-IsFullOnly ci_equals (some o) node h = h

refresh_maintenance-All :
    (model : DeltaViewModel) (nodes : List DeltaModelNode)
    → All IsFullOnly nodes
    → All IsFullRecompute (refresh_maintenance model nodes)
unfolding refresh_maintenance
refresh_maintenance-All model [] _ = tt
refresh_maintenance-All model (node ∷ nodes) ((rule, none_safe), all) = (
  ((rule, none_safe), unfold build_node_maintenance in rw rule refl),
  refresh_maintenance-All model nodes all,
)

module _ (ci_equals : Bytes → Bytes → Bool) (ctx : PlanContext)
    (unsupported : is_empty ctx.model.unsupported_reasons ≡ false) where
  make_node-IsFullOnly :
      (op : LogicalOperator) (nodes : List DeltaModelNode) (children : List ℕ)
      → IsFullOnly (make_node ci_equals ctx op nodes children)
  unfolding make_node
  make_node-IsFullOnly op nodes children =
      let full : rule_kind_for_node (node_kind_for_operator op) op ctx.model ctx.analysis
          ≡ full_only =
        unfold rule_kind_for_node in rw unsupported refl in
      with_source-IsFullOnly ci_equals (source_of ci_equals ctx op (node_kind_for_operator op)) _
        (full, rw full (unfold node_update_semantics in refl))

  -- If the view has an unsupported construct, every node of its delta model has the rule FULL_ONLY,
  -- no update semantics and the mode FULL_RECOMPUTE, whatever the plan.
  pub build_delta_model_nodes-IsFullRecompute :
      (plan : Option Plan) → All IsFullRecompute (build_delta_model_nodes ci_equals ctx plan).0
  unfolding build_delta_model_nodes
  build_delta_model_nodes-IsFullRecompute none = tt
  build_delta_model_nodes-IsFullRecompute (some plan) =
      refresh_maintenance-All ctx.model _
        (build_node-All ci_equals ctx IsFullOnly make_node-IsFullOnly plan [] tt)
