-- ===== src/Agentic/Orchestration.antt =====
-- agentic_core_v1/orchestration.py: a plan that delegates within one envelope.
pub mod Delegation
use palwakf_agentic_ai_syste.Prelude.{
  ◌>>=◌, ◌>>◌, String, ◌||◌, not, Option, none, some, List, [], ◌∷◌, ◌==◌, contains, Result, ok,
  raise_if,
}
use palwakf_agentic_ai_syste.Agentic.Contracts.{ProviderId, contains_provider, RunRequest}
use palwakf_agentic_ai_syste.Agentic.Experience.{
  LearningError, delegation_cross_project_or_task_denied, delegation_agent_expansion_denied,
  delegation_task_class_expansion_denied, delegation_provider_expansion_denied,
}
use palwakf_agentic_ai_syste.Agentic.ExternalContracts.{WorkspaceStatePackage}

pub record DelegationNode : Type 0 where
  pub node_id : String
  pub parent_node_id : Option String
  pub agent_id : String
  pub role_id : String
  pub task_class : String
  pub objective : String
  pub provider_id : ProviderId
  pub skill_ids : List String

pub record DelegationPlan : Type 0 where
  pub project_id : String
  pub task_id : String
  pub nodes : List DelegationNode

-- The checks of one request in `MultiAgentOrchestrator.plan`.
unfoldable pub check_delegation :
    WorkspaceStatePackage → RunRequest → Result LearningError (Unit {0})
check_delegation state request = do
  raise_if (not (request.project_id == state.project_id) || not (request.task_id == state.task_id))
      delegation_cross_project_or_task_denied
  raise_if (not (contains request.agent_id state.authorization.allowed_agent_ids))
      delegation_agent_expansion_denied
  raise_if (not (contains request.task_class state.authorization.allowed_task_classes))
      delegation_task_class_expansion_denied
  raise_if (not (contains_provider request.provider_id state.authorization.allowed_provider_ids))
      delegation_provider_expansion_denied
  ok tt

unfoldable pub delegation_node : String → Option String → RunRequest → DelegationNode
delegation_node node_id parent request = record {
  node_id = node_id;
  parent_node_id = parent;
  agent_id = request.agent_id;
  role_id = request.role_id;
  task_class = request.task_class;
  objective = request.objective;
  provider_id = request.provider_id;
  skill_ids = request.skill_ids;
}

-- The turns of the loop after the first; each request comes with the id of its node.
unfoldable pub delegate_nodes :
    WorkspaceStatePackage
    → String
    → List (String × RunRequest)
    → Result LearningError (List DelegationNode)
delegate_nodes state root [] = ok []
delegate_nodes state root ((node_id, request) ∷ requests) = do
  check_delegation state request
  rest ← delegate_nodes state root requests
  ok (delegation_node node_id (some root) request ∷ rest)

-- `MultiAgentOrchestrator.plan`
unfoldable pub plan :
    WorkspaceStatePackage
    → String × RunRequest
    → List (String × RunRequest)
    → Result LearningError DelegationPlan
plan state (node_id, primary) delegates = do
  check_delegation state primary
  nodes ← delegate_nodes state node_id delegates
  ok (record {
    project_id = state.project_id;
    task_id = state.task_id;
    nodes = delegation_node node_id none primary ∷ nodes;
  })
