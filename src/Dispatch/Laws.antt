-- ===== src/Dispatch/Laws.antt =====
-- Both dispatches of src/delta/operators/dispatch.cpp agree, and src/delta/delta_compiler.cpp finds the node that
-- belongs to an operator.
use openivm.Base.{
  ◌≡◌, refl, sym, ap, ◌∙◌, ℕ, suc, ◌-◌, ◌≤◌, Bool, true, false, ◌||◌, List, [], ◌∷◌, Option, none,
  some, Bytes, arith, get_elem?, Bool-cases, inl, inr, ◌⊎◌, if◌then◌else◌,
}
use mathlib.Core.Option.{some-injective}
use openivm.Classifier.Reasons.{is_set}
use openivm.DeltaModel.Types
use openivm.DeltaModel.Types.{
  DeltaModelNodeKind, DeltaModelNode, LogicalOperatorType, JoinType, LogicalOperator, Plan,
}
use openivm.DeltaModel.Node.{node_kind_for_operator, kind_of, join_kind}
use openivm.DeltaModel.Build.{PlanContext, build_delta_model_nodes}
use openivm.DeltaModel.Structure.{NodesOk, build_delta_model_nodes-NodesOk}
use openivm.Dispatch.{
  Dispatch, compiles, constant_zero_delta, static_constant_leaf, is_delim_join_shape,
  compile_delta_operator_with_model, compile_copied_delta_subtree, is_operator, node_by_plan,
  find_node,
}

-- A constant of the query itself never changes, one in a copied subtree stands for its rows.
abbrev pub as_model_leaf : Dispatch → Dispatch
as_model_leaf (compiles static_constant_leaf) = compiles constant_zero_delta
as_model_leaf d = d

of_type :
    (t : LogicalOperatorType) (j : Option JoinType)
    → compile_delta_operator_with_model (kind_of t j) t
      ≡ as_model_leaf (compile_copied_delta_subtree t)
unfolding compile_delta_operator_with_model compile_copied_delta_subtree kind_of join_kind
    is_delim_join_shape
of_type Types.logical_get j = refl
of_type Types.logical_filter j = refl
of_type Types.logical_projection j = refl
of_type Types.logical_aggregate_and_group_by j = refl
of_type Types.logical_window j = refl
of_type Types.logical_distinct j = refl
of_type Types.logical_union j = refl
of_type Types.logical_top_n j = refl
of_type Types.logical_limit j = refl
of_type Types.logical_order_by j = refl
of_type Types.logical_unnest j = refl
of_type Types.logical_asof_join j = refl
of_type Types.logical_positional_join j = refl
of_type Types.logical_sample j = refl
of_type Types.logical_dummy_scan j = refl
of_type Types.logical_expression_get j = refl
of_type Types.logical_chunk_get j = refl
of_type Types.logical_cte_ref j = refl
of_type Types.logical_materialized_cte j = refl
of_type Types.logical_comparison_join none = refl
of_type Types.logical_comparison_join (some Types.inner_join) = refl
of_type Types.logical_comparison_join (some Types.left_join) = refl
of_type Types.logical_comparison_join (some Types.right_join) = refl
of_type Types.logical_comparison_join (some Types.outer_join) = refl
of_type Types.logical_comparison_join (some Types.semi_join) = refl
of_type Types.logical_comparison_join (some Types.anti_join) = refl
of_type Types.logical_comparison_join (some Types.mark_join) = refl
of_type Types.logical_comparison_join (some Types.single_join) = refl
of_type Types.logical_comparison_join (some Types.other_join) = refl
of_type Types.logical_any_join none = refl
of_type Types.logical_any_join (some Types.inner_join) = refl
of_type Types.logical_any_join (some Types.left_join) = refl
of_type Types.logical_any_join (some Types.right_join) = refl
of_type Types.logical_any_join (some Types.outer_join) = refl
of_type Types.logical_any_join (some Types.semi_join) = refl
of_type Types.logical_any_join (some Types.anti_join) = refl
of_type Types.logical_any_join (some Types.mark_join) = refl
of_type Types.logical_any_join (some Types.single_join) = refl
of_type Types.logical_any_join (some Types.other_join) = refl
of_type Types.logical_dependent_join none = refl
of_type Types.logical_dependent_join (some Types.inner_join) = refl
of_type Types.logical_dependent_join (some Types.left_join) = refl
of_type Types.logical_dependent_join (some Types.right_join) = refl
of_type Types.logical_dependent_join (some Types.outer_join) = refl
of_type Types.logical_dependent_join (some Types.semi_join) = refl
of_type Types.logical_dependent_join (some Types.anti_join) = refl
of_type Types.logical_dependent_join (some Types.mark_join) = refl
of_type Types.logical_dependent_join (some Types.single_join) = refl
of_type Types.logical_dependent_join (some Types.other_join) = refl
of_type Types.logical_delim_join none = refl
of_type Types.logical_delim_join (some Types.inner_join) = refl
of_type Types.logical_delim_join (some Types.left_join) = refl
of_type Types.logical_delim_join (some Types.right_join) = refl
of_type Types.logical_delim_join (some Types.outer_join) = refl
of_type Types.logical_delim_join (some Types.semi_join) = refl
of_type Types.logical_delim_join (some Types.anti_join) = refl
of_type Types.logical_delim_join (some Types.mark_join) = refl
of_type Types.logical_delim_join (some Types.single_join) = refl
of_type Types.logical_delim_join (some Types.other_join) = refl
of_type Types.logical_join none = refl
of_type Types.logical_join (some Types.inner_join) = refl
of_type Types.logical_join (some Types.left_join) = refl
of_type Types.logical_join (some Types.right_join) = refl
of_type Types.logical_join (some Types.outer_join) = refl
of_type Types.logical_join (some Types.semi_join) = refl
of_type Types.logical_join (some Types.anti_join) = refl
of_type Types.logical_join (some Types.mark_join) = refl
of_type Types.logical_join (some Types.single_join) = refl
of_type Types.logical_join (some Types.other_join) = refl
of_type Types.logical_cross_product none = refl
of_type Types.logical_cross_product (some Types.inner_join) = refl
of_type Types.logical_cross_product (some Types.left_join) = refl
of_type Types.logical_cross_product (some Types.right_join) = refl
of_type Types.logical_cross_product (some Types.outer_join) = refl
of_type Types.logical_cross_product (some Types.semi_join) = refl
of_type Types.logical_cross_product (some Types.anti_join) = refl
of_type Types.logical_cross_product (some Types.mark_join) = refl
of_type Types.logical_cross_product (some Types.single_join) = refl
of_type Types.logical_cross_product (some Types.other_join) = refl
of_type Types.logical_create_table j = refl
of_type Types.logical_insert j = refl
of_type Types.logical_delim_get j = refl
of_type Types.other_type j = refl

-- An operator of the query and one of a copied subtree are compiled by the same function, or both not
-- at all; only a constant has a zero delta in the query and its rows in a copied subtree.
pub compile_delta_operator_with_model-copied :
    (op : LogicalOperator)
    → compile_delta_operator_with_model (node_kind_for_operator op) op.type
      ≡ as_model_leaf (compile_copied_delta_subtree op.type)
unfolding node_kind_for_operator
compile_delta_operator_with_model-copied op = of_type op.type op.join_type

is_operator_sound : (p : Option ℕ) (number : ℕ) → is_operator p number ≡ true → p ≡ some number
unfolding is_operator
is_operator_sound none number h = cc
is_operator_sound (some n) number h = ap some (ground arith)

-- What the map holds is the position of a node of the operator.
record EntryOk (k : ℕ) (nodes : List DeltaModelNode) (number id : ℕ) : Type 0 where
  pub node : DeltaModelNode
  pub behind : k ≤ id
  pub position : get_elem? nodes (id - k) ≡ some node
  pub owner : node.plan_node ≡ some number

none-some : {id : ℕ} → none ≡ some id → ⊥
none-some e = cc

node_by_plan-cases :
    (node : DeltaModelNode) (nodes : List DeltaModelNode) (number id : ℕ)
    → node_by_plan (node ∷ nodes) number ≡ some id
    → ((node.plan_node ≡ some number) × (node.id ≡ id)) ⊎ (node_by_plan nodes number ≡ some id)
unfolding node_by_plan
node_by_plan-cases node nodes number id h = later-cases (node_by_plan nodes number) h
  where
    later-cases :
        (later : Option ℕ)
        → elim later [
          | none ↦ if is_operator node.plan_node number then some node.id else none
          | some i ↦ some i
        ]
          ≡ some id
        → ((node.plan_node ≡ some number) × (node.id ≡ id)) ⊎ (later ≡ some id)
    later-cases none e = elim (Bool-cases (is_operator node.plan_node number)) [
      | inl own ↦
          inl (is_operator_sound node.plan_node number own, some-injective _ _ (rw own at e))
      | inr other ↦ elim (none-some (rw other at e)) [ ]
    ]
    later-cases (some i) e = inr e

no_entry : (number id : ℕ) → node_by_plan [] number ≡ some id → ⊥
unfolding node_by_plan
no_entry number id h = cc

node_by_plan-EntryOk :
    (k : ℕ) (nodes : List DeltaModelNode) (number id : ℕ)
    → NodesOk k nodes
    → node_by_plan nodes number ≡ some id
    → EntryOk k nodes number id
node_by_plan-EntryOk k [] number id ok h = elim (no_entry number id h) [ ]
node_by_plan-EntryOk k (node ∷ nodes) number id (here, rest) h =
    elim (node_by_plan-cases node nodes number id h) [
      | inl (owned, numbered) ↦
          let at : id ≡ k = sym numbered ∙ here.numbered in
          let first : id - k ≡ 0 = omega (arith, at) in
          record {
            node = node;
            behind = omega (arith, at);
            position = ap (get_elem? (node ∷ nodes)) first;
            owner = owned;
          }
      | inr later ↦
          let entry = node_by_plan-EntryOk (suc k) nodes number id rest later in
          let next : id - k ≡ suc (id - suc k) = omega (arith, entry.behind) in
          record {
            node = entry.node;
            behind = omega (arith, entry.behind);
            position = ap (get_elem? (node ∷ nodes)) next ∙ entry.position;
            owner = entry.owner;
          }
    ]

-- Whether a node of the model is one of the operator.
abbrev pub has_operator : List DeltaModelNode → ℕ → Bool
has_operator [] number = false
has_operator (node ∷ nodes) number = is_operator node.plan_node number || has_operator nodes number

abbrev pub is_owned : Option DeltaModelNode → ℕ → Bool
is_owned none number = false
is_owned (some node) number = is_operator node.plan_node number

is_set-node_by_plan :
    (nodes : List DeltaModelNode) (number : ℕ)
    → is_set (node_by_plan nodes number) ≡ has_operator nodes number
unfolding node_by_plan
is_set-node_by_plan [] number = refl
is_set-node_by_plan (node ∷ nodes) number =
    one_more (is_operator node.plan_node number) node.id (node_by_plan nodes number)
    ∙ ap (λ b. is_operator node.plan_node number || b) (is_set-node_by_plan nodes number)
  where
    one_more :
        (own : Bool) (id : ℕ) (later : Option ℕ)
        → is_set (elim later [ none ↦ if own then some id else none | some i ↦ some i ])
          ≡ (own || is_set later)
    one_more own id none = ground (arith, Bool-cases own)
    one_more own id (some i) = ground (arith, Bool-cases own)

is_operator_complete : (p : Option ℕ) (number : ℕ) → p ≡ some number → is_operator p number ≡ true
unfolding is_operator
is_operator_complete p number h = rw h (ground arith)

found :
    (nodes : List DeltaModelNode) (number : ℕ) (entry : Option ℕ)
    → NodesOk 0 nodes
    → node_by_plan nodes number ≡ entry
    → is_owned (elim entry [ none ↦ none | some id ↦ get_elem? nodes id ]) number ≡ is_set entry
found nodes number none ok e = refl
found nodes number (some id) ok e =
    let entry = node_by_plan-EntryOk 0 nodes number id ok e in
    let same : id ≡ id - 0 = omega arith in
    ap (λ i. is_owned (get_elem? nodes i) number) same
    ∙ ap (λ n. is_owned n number) entry.position
    ∙ is_operator_complete entry.node.plan_node number entry.owner

find_node-is_owned :
    (nodes : List DeltaModelNode) (number : ℕ)
    → NodesOk 0 nodes
    → is_owned (find_node nodes number) number ≡ has_operator nodes number
unfolding find_node
find_node-is_owned nodes number ok =
    found nodes number (node_by_plan nodes number) ok refl ∙ is_set-node_by_plan nodes number

-- In the delta model of a plan, a node is found for every operator that has one, and it is a node of
-- this operator, as the assertion before its delta is compiled wants.
pub find_node-has_operator :
    (ci_equals : Bytes → Bytes → Bool) (ctx : PlanContext) (plan : Plan) (number : ℕ)
    → is_owned (find_node (build_delta_model_nodes ci_equals ctx (some plan)).0 number) number
      ≡ has_operator (build_delta_model_nodes ci_equals ctx (some plan)).0 number
find_node-has_operator ci_equals ctx plan number =
    find_node-is_owned (build_delta_model_nodes ci_equals ctx (some plan)).0 number
      (build_delta_model_nodes-NodesOk ci_equals ctx plan).2
