-- ===== src/DeltaModel/Domains.antt =====
-- src/core/ivm_delta_model.cpp: the affected domains of the base model. The lineage of the plan's
-- sources is a parameter: the tables of all sources, and how many sources there are.
use openivm.Base.{
  ℕ, suc, Bool, true, false, ◌&&◌, ◌||◌, not, List, [], ◌∷◌, ◌++◌, Option, none, some, Bytes, leb,
  is_empty, if◌then◌else◌, get_elem?,
}
use openivm.Classifier.Types.{same}
use openivm.Classifier.Facts.{PlanAnalysis, DeltaViewModel, SemiAntiAuxMeta, has_semi_anti_aux}
use openivm.DeltaModel.Types.{
  DeltaModelNodeKind, aggregate, semi_anti, DeltaModelNodeKind-discrete, group, semi_anti_predicate,
  DeltaAffectedDomainKind-discrete, DeltaAffectedDomain, DeltaModelNode,
}
use openivm.DeltaModel.Build.{add_string_ci}

-- The part of the model that the domains change.
pub record DomainState : Type 0 where
  pub nodes : List DeltaModelNode
  pub domains : List DeltaAffectedDomain

-- `FindFirstNodeId`
unfoldable pub find_first_node_id : List DeltaModelNode → DeltaModelNodeKind → Option ℕ
find_first_node_id [] kind = none
find_first_node_id (node ∷ nodes) kind =
    let rest = find_first_node_id nodes kind in
    if same DeltaModelNodeKind-discrete node.kind kind then some node.id else rest

root_if : Option DeltaModelNode → DeltaModelNodeKind → ℕ → Option ℕ → Option ℕ
root_if none kind root first = first
root_if (some node) kind root first =
    if same DeltaModelNodeKind-discrete node.kind kind then some root else first

-- `FindRootOrFirstNodeId`
unfoldable pub find_root_or_first_node_id :
    List DeltaModelNode → Option ℕ → DeltaModelNodeKind → Option ℕ
unfolding find_first_node_id root_if
find_root_or_first_node_id nodes none kind = find_first_node_id nodes kind
find_root_or_first_node_id nodes (some root) kind =
    root_if (get_elem? nodes root) kind root (find_first_node_id nodes kind)

-- `model.nodes[id].affected_domains.push_back(domain)`
unfoldable pub push_domain : List DeltaModelNode → ℕ → DeltaAffectedDomain → List DeltaModelNode
push_domain [] id domain = []
push_domain (node ∷ nodes) ℕ.zero domain =
    record node { affected_domains = node.affected_domains ++ domain ∷ [] } ∷ nodes
push_domain (node ∷ nodes) (suc id) domain = node ∷ push_domain nodes id domain

module _ (ci_equals : Bytes → Bytes → Bool) where
  unfoldable pub same_keys : List Bytes → List Bytes → Bool
  same_keys [] [] = true
  same_keys [] (d ∷ ds) = false
  same_keys (c ∷ cs) [] = false
  same_keys (c ∷ cs) (d ∷ ds) = ci_equals c d && same_keys cs ds

  -- The loop of `AddAffectedDomain`: whether a domain is there already.
  unfoldable pub has_domain : List DeltaAffectedDomain → DeltaAffectedDomain → Bool
  unfolding same_keys
  has_domain [] domain = false
  has_domain (existing ∷ rest) domain =
      (same DeltaAffectedDomainKind-discrete existing.kind domain.kind
        && same_keys existing.key_columns domain.key_columns)
      || has_domain rest domain

  unfoldable pub push_at :
      Option ℕ → List DeltaModelNode → DeltaAffectedDomain → List DeltaModelNode
  push_at none nodes domain = nodes
  push_at (some id) nodes domain = push_domain nodes id domain

  -- `AddAffectedDomain`
  unfoldable pub add_affected_domain : DeltaAffectedDomain → DomainState → DomainState
  unfolding has_domain push_domain push_at
  add_affected_domain domain st = if has_domain st.domains domain then st else record {
    nodes = push_at domain.node_id st.nodes domain;
    domains = st.domains ++ domain ∷ [];
  }

  unfoldable pub group_domain :
      DeltaViewModel
      → PlanAnalysis
      → List Bytes
      → ℕ
      → Option ℕ
      → List DeltaModelNode
      → DeltaAffectedDomain
  group_domain model a tables occurrences root nodes = record {
    kind = group;
    node_id = find_root_or_first_node_id nodes root aggregate;
    key_columns = model.group_columns;
    source_tables = tables;
    delta_local = not a.found_join && leb occurrences 1;
    needs_base_lookup = a.found_join;
  }

  unfoldable pub semi_anti_domain : SemiAntiAuxMeta → List DeltaModelNode → DeltaAffectedDomain
  semi_anti_domain meta nodes = record {
    kind = semi_anti_predicate;
    node_id = find_first_node_id nodes semi_anti;
    key_columns = meta.left_cols;
    source_tables =
        add_string_ci ci_equals (add_string_ci ci_equals [] meta.left_table) meta.right_table;
    delta_local = false;
    needs_base_lookup = true;
  }

  unfoldable pub add_semi_anti : Option SemiAntiAuxMeta → DomainState → DomainState
  add_semi_anti none st = st
  add_semi_anti (some meta) st = add_affected_domain (semi_anti_domain meta st.nodes) st

  -- `BuildDeltaModelBaseAffectedDomains`
  unfoldable pub build_base_affected_domains :
      DeltaViewModel → PlanAnalysis → List Bytes → ℕ → Option ℕ → DomainState → DomainState
  unfolding add_affected_domain group_domain semi_anti_domain add_semi_anti
  build_base_affected_domains model a tables occurrences root st =
      let grouped =
        if not (is_empty model.group_columns)
        then add_affected_domain (group_domain model a tables occurrences root st.nodes) st
        else st in
      if has_semi_anti_aux model then add_semi_anti model.semi_anti_aux grouped else grouped
