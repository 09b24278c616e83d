-- ===== src/Agentic/Orchestration/Delegation.antt =====
-- A delegation plan stays within the authority that it is made under.
use palwakf_agentic_ai_syste.Prelude.{
  String, ◌≡◌, refl, ◌||◌, not, Option, none, some, List, [], ◌∷◌, ◌==◌, eq_iff, contains,
  contains→Elem, Elem, ok, >>=-eq-ok, raise_if-eq-ok, arith,
}
use palwakf_agentic_ai_syste.Agentic.Contracts.{
  RunRequest, contains_provider, contains_provider→Elem,
}
use palwakf_agentic_ai_syste.Agentic.Experience.{
  delegation_cross_project_or_task_denied, delegation_agent_expansion_denied,
  delegation_task_class_expansion_denied, delegation_provider_expansion_denied,
}
use palwakf_agentic_ai_syste.Agentic.ExternalContracts.{WorkspaceStatePackage}
use palwakf_agentic_ai_syste.Agentic.Orchestration.{
  DelegationNode, DelegationPlan, check_delegation, delegation_node, delegate_nodes, plan,
}

-- The node of a request: it has the request's agent, role, task class, objective, provider and skills, and the
-- request is for the package's project and task, with an agent, a task class and a provider of its envelope.
pub record IsNodeOf (state : WorkspaceStatePackage) (node_id : String) (parent : Option String)
    (request : RunRequest) (node : DelegationNode) : Type 0 where
  pub placed : (node.node_id ≡ node_id) × (node.parent_node_id ≡ parent)
  pub assigned : (node.agent_id ≡ request.agent_id) × (node.role_id ≡ request.role_id)
  pub described : (node.task_class ≡ request.task_class) × (node.objective ≡ request.objective)
  pub equipped : (node.provider_id ≡ request.provider_id) × (node.skill_ids ≡ request.skill_ids)
  pub own : (request.project_id ≡ state.project_id) × (request.task_id ≡ state.task_id)
  pub allowed :
      Elem node.agent_id state.authorization.allowed_agent_ids
      × Elem node.task_class state.authorization.allowed_task_classes
      × Elem node.provider_id state.authorization.allowed_provider_ids

-- One node for each request, in their order, below a root.
abbrev pub AreNodesOf :
    WorkspaceStatePackage → String → List (String × RunRequest) → List DelegationNode → Type 0
AreNodesOf state root [] [] = Unit
AreNodesOf state root [] (node ∷ nodes) = ⊥
AreNodesOf state root (entry ∷ entries) [] = ⊥
AreNodesOf state root (entry ∷ entries) (node ∷ nodes) =
    IsNodeOf state entry.0 (some root) entry.1 node × AreNodesOf state root entries nodes

check_delegation-eq-ok :
    (state : WorkspaceStatePackage) (node_id : String) (parent : Option String)
    (request : RunRequest)
    → check_delegation state request ≡ ok tt
    → IsNodeOf state node_id parent request (delegation_node node_id parent request)
unfolding check_delegation delegation_node
check_delegation-eq-ok state node_id parent request e =
    let auth = state.authorization in
    let (own, e1) =
      raise_if-eq-ok
        (not (request.project_id == state.project_id) || not (request.task_id == state.task_id))
        delegation_cross_project_or_task_denied _ e in
    let (agent, e2) =
      raise_if-eq-ok (not (contains request.agent_id auth.allowed_agent_ids))
        delegation_agent_expansion_denied _ e1 in
    let (task, e3) =
      raise_if-eq-ok (not (contains request.task_class auth.allowed_task_classes))
        delegation_task_class_expansion_denied _ e2 in
    let (provider, _) =
      raise_if-eq-ok (not (contains_provider request.provider_id auth.allowed_provider_ids))
        delegation_provider_expansion_denied _ e3 in
    record {
      placed = (refl, refl);
      assigned = (refl, refl);
      described = (refl, refl);
      equipped = (refl, refl);
      own = (
        ground (arith, eq_iff request.project_id state.project_id),
        ground (arith, eq_iff request.task_id state.task_id),
      );
      allowed = (
        contains→Elem request.agent_id auth.allowed_agent_ids (ground arith),
        contains→Elem request.task_class auth.allowed_task_classes (ground arith),
        contains_provider→Elem request.provider_id auth.allowed_provider_ids (ground arith),
      );
    }

delegate_nodes-eq-ok :
    (state : WorkspaceStatePackage) (root : String) (requests : List (String × RunRequest))
    (nodes : List DelegationNode)
    → delegate_nodes state root requests ≡ ok nodes
    → AreNodesOf state root requests nodes
unfolding delegate_nodes
delegate_nodes-eq-ok state root [] nodes e = let same : nodes ≡ [] = ground arith in rw same tt
delegate_nodes-eq-ok state root ((node_id, request) ∷ requests) nodes e =
    let (_, c, e1) = >>=-eq-ok (check_delegation state request) _ e in
    let (rest, r, e2) = >>=-eq-ok (delegate_nodes state root requests) _ e1 in
    let same : nodes ≡ delegation_node node_id (some root) request ∷ rest = ground arith in
    rw same (
      check_delegation-eq-ok state node_id (some root) request c,
      delegate_nodes-eq-ok state root requests rest r,
    )

-- A plan that is made is for the package's project and task. It has a root, the node of the first request, and
-- one child of the root for each other request, in their order. Each node has its request's agent, role, task
-- class, objective, provider and skills, and the request is for the project and the task and within the envelope.
pub plan-IsDelegable :
    (state : WorkspaceStatePackage) (node_id : String) (primary : RunRequest)
    (delegates : List (String × RunRequest)) (p : DelegationPlan)
    → plan state (node_id, primary) delegates ≡ ok p
    → (root : DelegationNode) × (children : List DelegationNode) × (p.nodes ≡ root ∷ children)
      × (p.project_id ≡ state.project_id)
      × (p.task_id ≡ state.task_id)
      × IsNodeOf state node_id none primary root
      × AreNodesOf state node_id delegates children
unfolding plan
plan-IsDelegable state node_id primary delegates p e =
    let (_, c, e1) = >>=-eq-ok (check_delegation state primary) _ e in
    let (children, r, e2) = >>=-eq-ok (delegate_nodes state node_id delegates) _ e1 in
    (
      delegation_node node_id none primary,
      children,
      ground arith,
      ground arith,
      ground arith,
      check_delegation-eq-ok state node_id none primary c,
      delegate_nodes-eq-ok state node_id delegates children r,
    )
