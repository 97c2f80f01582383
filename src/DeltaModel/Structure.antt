-- ===== src/DeltaModel/Structure.antt =====
-- The shape of the delta model that src/core/ivm_delta_model.cpp makes of a plan.
use openivm.Base.{
  ℕ, suc, ◌+◌, ◌-◌, ◌<◌, ◌≤◌, ◌≡◌, refl, ap, ◌∙◌, Bool, true, ◌||◌, List, [], ◌∷◌, ◌++◌, Option,
  none, some, Bytes, arith, is_empty, length, length-append, All, Bool-cases,
}
use mathlib.Core.Path.{subst}
use openivm.Classifier.Facts.{DeltaViewModel, SourceOccurrence}
use openivm.Classifier.Reasons.{is_set}
use openivm.DeltaModel.Types.{
  DeltaModelNode, LogicalOperator, Plan, operator, Plans, no_plans, plan_of,
}
use openivm.DeltaModel.Node.{node_kind_for_operator}
use openivm.DeltaModel.Build.{
  PlanContext, make_node, source_of, with_source, build_node, build_children, refresh_maintenance,
  build_delta_model_nodes,
}

-- How many operators a plan has.
abbrev mutual
  pub size : Plan → ℕ
  size (operator op ps) = suc (size_all ps)

  pub size_all : Plans → ℕ
  size_all no_plans = 0
  size_all (plan_of p ps) = size p + size_all ps

-- The node at position k: its number is its position, its children stand before it, it knows its
-- operator, and a scan with a table name knows which occurrence of the table it reads.
pub record NodeOk (k : ℕ) (node : DeltaModelNode) : Type 0 where
  pub numbered : node.id ≡ k
  pub children_before : All (λ c. c < k) node.children
  pub plan_node_set : is_set node.plan_node ≡ true
  pub occurrence_set : (is_empty node.source_table || is_set node.source_occurrence) ≡ true
  pub index_set : (is_empty node.source_table || is_set node.source_table_index) ≡ true

abbrev pub NodesOk : ℕ → List DeltaModelNode → Type 0
NodesOk k [] = Unit
NodesOk k (node ∷ nodes) = NodeOk k node × NodesOk (suc k) nodes

or_true : (b : Bool) → (b || true) ≡ true
or_true b = ground (arith, Bool-cases b)

module _ (ci_equals : Bytes → Bytes → Bool) where
  -- A node without a table keeps what holds of it when it learns its source.
  with_source-NodeOk :
      (k : ℕ) (source : Option SourceOccurrence) (node : DeltaModelNode)
      → node.id ≡ k
      → All (λ c. c < k) node.children
      → is_set node.plan_node ≡ true
      → node.source_table ≡ []
      → NodeOk k (with_source ci_equals source node)
  unfolding with_source
  with_source-NodeOk k none node number before plan no_table = record {
    numbered = number;
    children_before = before;
    plan_node_set = plan;
    occurrence_set = rw no_table refl;
    index_set = rw no_table refl;
  }
  with_source-NodeOk k (some o) node number before plan no_table = record {
    numbered = number;
    children_before = before;
    plan_node_set = plan;
    occurrence_set = or_true _;
    index_set = or_true _;
  }

module _ (ci_equals : Bytes → Bytes → Bool) (ctx : PlanContext) where
  make_node-NodeOk :
      (op : LogicalOperator) (nodes : List DeltaModelNode) (children : List ℕ)
      → All (λ c. c < length nodes) children
      → NodeOk (length nodes) (make_node ci_equals ctx op nodes children)
  unfolding make_node
  make_node-NodeOk op nodes children before =
      with_source-NodeOk ci_equals (length nodes)
        (source_of ci_equals ctx op (node_kind_for_operator op)) _ refl before refl refl

NodesOk-append :
    (k : ℕ) (xs : List DeltaModelNode) (node : DeltaModelNode)
    → NodesOk k xs
    → NodeOk (k + length xs) node
    → NodesOk k (xs ++ node ∷ [])
NodesOk-append k [] node all h = (subst (λ n. NodeOk n node) (omega arith) h, tt)
NodesOk-append k (x ∷ xs) node (here, all) h =
    (here, NodesOk-append (suc k) xs node all (subst (λ n. NodeOk n node) (omega arith) h))

All-weaken : (m n : ℕ) (cs : List ℕ) → m ≤ n → All (λ c. c < m) cs → All (λ c. c < n) cs
All-weaken m n [] le _ = tt
All-weaken m n (c ∷ cs) le (h, hs) = (omega arith, All-weaken m n cs le hs)

module _ (ci_equals : Bytes → Bytes → Bool) (ctx : PlanContext) where
  mutual
    unfolding build_node build_children

    -- The nodes that a plan adds are as many as its operators.
    length-build_node :
        (p : Plan) (nodes : List DeltaModelNode)
        → length (build_node ci_equals ctx p nodes).0 ≡ length nodes + size p
    length-build_node (operator op ps) nodes = omega (
      arith,
      length-append (build_children ci_equals ctx ps nodes).0 (
          make_node ci_equals ctx op (build_children ci_equals ctx ps nodes).0
            (build_children ci_equals ctx ps nodes).1
          ∷ []),
      length-build_children ps nodes,
    )

    length-build_children :
        (ps : Plans) (nodes : List DeltaModelNode)
        → length (build_children ci_equals ctx ps nodes).0 ≡ length nodes + size_all ps
    length-build_children no_plans nodes = omega arith
    length-build_children (plan_of p ps) nodes = omega (
      arith,
      length-build_node p nodes,
      length-build_children ps (build_node ci_equals ctx p nodes).0,
    )

  -- A plan's own node is the last one.
  build_node-id :
      (p : Plan) (nodes : List DeltaModelNode)
      → suc ((build_node ci_equals ctx p nodes).1) ≡ length (build_node ci_equals ctx p nodes).0
  unfolding build_node
  build_node-id (operator op ps) nodes = omega (
    arith,
    length-append (build_children ci_equals ctx ps nodes).0 (
        make_node ci_equals ctx op (build_children ci_equals ctx ps nodes).0
          (build_children ci_equals ctx ps nodes).1
        ∷ []),
  )

  build_children-ids :
      (ps : Plans) (nodes : List DeltaModelNode)
      → All
          (λ c. c < length (build_children ci_equals ctx ps nodes).0)
          (build_children ci_equals ctx ps nodes).1
  unfolding build_children
  build_children-ids no_plans nodes = tt
  build_children-ids (plan_of p ps) nodes =
      let after = (build_node ci_equals ctx p nodes).0 in
      (
        omega (arith, build_node-id p nodes, length-build_children ps after),
        build_children-ids ps after,
      )

  mutual
    unfolding build_node build_children

    build_node-NodesOk :
        (p : Plan) (nodes : List DeltaModelNode)
        → NodesOk 0 nodes
        → NodesOk 0 (build_node ci_equals ctx p nodes).0
    build_node-NodesOk (operator op ps) nodes ok =
        NodesOk-append 0 _
          (make_node ci_equals ctx op (build_children ci_equals ctx ps nodes).0
            (build_children ci_equals ctx ps nodes).1)
          (build_children-NodesOk ps nodes ok)
          (subst
            (λ n. NodeOk n (
              make_node ci_equals ctx op (build_children ci_equals ctx ps nodes).0
                (build_children ci_equals ctx ps nodes).1))
            (omega arith)
            (make_node-NodeOk ci_equals ctx op (build_children ci_equals ctx ps nodes).0
              (build_children ci_equals ctx ps nodes).1 (build_children-ids ps nodes)))

    build_children-NodesOk :
        (ps : Plans) (nodes : List DeltaModelNode)
        → NodesOk 0 nodes
        → NodesOk 0 (build_children ci_equals ctx ps nodes).0
    build_children-NodesOk no_plans nodes ok = ok
    build_children-NodesOk (plan_of p ps) nodes ok =
        build_children-NodesOk ps (build_node ci_equals ctx p nodes).0
          (build_node-NodesOk p nodes ok)

refresh_maintenance-NodesOk :
    (k : ℕ) (model : DeltaViewModel) (nodes : List DeltaModelNode)
    → NodesOk k nodes
    → NodesOk k (refresh_maintenance model nodes)
unfolding refresh_maintenance
refresh_maintenance-NodesOk k model [] ok = tt
refresh_maintenance-NodesOk k model (node ∷ nodes) (here, ok) = (
  record {
    numbered = here.numbered;
    children_before = here.children_before;
    plan_node_set = here.plan_node_set;
    occurrence_set = here.occurrence_set;
    index_set = here.index_set;
  },
  refresh_maintenance-NodesOk (suc k) model nodes ok,
)

length-refresh_maintenance :
    (model : DeltaViewModel) (nodes : List DeltaModelNode)
    → length (refresh_maintenance model nodes) ≡ length nodes
unfolding refresh_maintenance
length-refresh_maintenance model [] = refl
length-refresh_maintenance model (node ∷ nodes) = ap suc (length-refresh_maintenance model nodes)

module _ (ci_equals : Bytes → Bytes → Bool) (ctx : PlanContext) where
  -- The model of a plan has one node per operator, the last of them the root; each node's number is
  -- its position, its children stand before it, it names its operator, and a scan with a table name
  -- has its occurrence and table index.
  pub build_delta_model_nodes-NodesOk :
      (plan : Plan)
      → (length (build_delta_model_nodes ci_equals ctx (some plan)).0 ≡ size plan)
        × ((build_delta_model_nodes ci_equals ctx (some plan)).1 ≡ some (size plan - 1))
        × NodesOk 0 (build_delta_model_nodes ci_equals ctx (some plan)).0
  unfolding build_delta_model_nodes
  build_delta_model_nodes-NodesOk plan =
      let (nodes, root) = build_node ci_equals ctx plan [] in
      (
        length-refresh_maintenance ctx.model _
            ∙ omega (arith, length-build_node ci_equals ctx plan []),
        ap some (
            omega (
              arith,
              length-build_node ci_equals ctx plan [],
              build_node-id ci_equals ctx plan [],
            )),
        refresh_maintenance-NodesOk 0 ctx.model _ (build_node-NodesOk ci_equals ctx plan [] tt),
      )
