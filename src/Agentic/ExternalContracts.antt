-- ===== src/Agentic/ExternalContracts.antt =====
-- agentic_core_v1/external_contracts.py: the state package that binds a run, and the submission to the mind.
use palwakf_agentic_ai_syste.Prelude.{
  String, Bool, true, false, ◌&&◌, ◌||◌, not, List, [], ◌∷◌, any, ◌==◌, list_eq, Result, ok, ◌>>◌,
  raise_if,
}
use palwakf_agentic_ai_syste.Agentic.Contracts.{
  ProviderId, provider_eq, Issuer, workspace_manager, human_explicit, AuthorizationEnvelope,
  RunRequest,
}
use text.Mathlib.Text.{starts_with}
use palwakf_agentic_ai_syste.Agentic.Experience.{
  LearningError, LearningCandidate, candidate_ids, mind_submission_scope_mismatch,
  state_package_project_authority_mismatch, state_package_task_authority_mismatch,
  state_package_issuer_mismatch, workspace_task_branch_required,
  workspace_network_write_authority_rejected, run_state_package_mismatch,
  run_state_package_scope_mismatch, run_repository_binding_mismatch,
  run_task_branch_binding_mismatch, run_base_sha_binding_mismatch,
  run_expected_head_binding_mismatch, run_authorization_binding_mismatch,
}

pub record WorkspaceStatePackage : Type 0 where
  pub state_package_id : String
  pub project_id : String
  pub task_id : String
  pub repository : String
  pub task_branch : String
  pub base_sha : String
  pub expected_head : String
  pub authorization : AuthorizationEnvelope
  pub authority_source : Issuer

abbrev pub issuer_eq : Issuer → Issuer → Bool
issuer_eq workspace_manager workspace_manager = true
issuer_eq human_explicit human_explicit = true
issuer_eq _ _ = false

-- Building a `WorkspaceStatePackage`: `bind_authority`.
unfoldable pub bind_authority : WorkspaceStatePackage → Result LearningError WorkspaceStatePackage
bind_authority state = do
  raise_if (not (state.authorization.project_id == state.project_id))
      state_package_project_authority_mismatch
  raise_if (not (state.authorization.task_id == state.task_id))
      state_package_task_authority_mismatch
  raise_if (not (issuer_eq state.authorization.issuer state.authority_source))
      state_package_issuer_mismatch
  ok state

-- `validate_workspace_package`
unfoldable pub validate_workspace_package : WorkspaceStatePackage → Result LearningError (Unit {0})
validate_workspace_package state = do
  raise_if (not (starts_with state.task_branch "task/")) workspace_task_branch_required
  raise_if state.authorization.allow_network_write workspace_network_write_authority_rejected
  ok tt

abbrev providers_eq : List ProviderId → List ProviderId → Bool
providers_eq [] [] = true
providers_eq [] (q ∷ qs) = false
providers_eq (p ∷ ps) [] = false
providers_eq (p ∷ ps) (q ∷ qs) = provider_eq p q && providers_eq ps qs

abbrev bool_eq : Bool → Bool → Bool
bool_eq true b = b
bool_eq false b = not b

-- `==` of two envelopes
unfoldable pub authorization_eq : AuthorizationEnvelope → AuthorizationEnvelope → Bool
authorization_eq a b =
    a.authorization_id == b.authorization_id
    && issuer_eq a.issuer b.issuer
    && a.project_id == b.project_id
    && a.task_id == b.task_id
    && list_eq a.allowed_agent_ids b.allowed_agent_ids
    && list_eq a.allowed_task_classes b.allowed_task_classes
    && providers_eq a.allowed_provider_ids b.allowed_provider_ids
    && list_eq a.allowed_model_providers b.allowed_model_providers
    && list_eq a.allowed_filesystem_roots b.allowed_filesystem_roots
    && list_eq a.allowed_path_patterns b.allowed_path_patterns
    && bool_eq a.read_only b.read_only
    && bool_eq a.allow_network_read b.allow_network_read
    && bool_eq a.allow_network_write b.allow_network_write

-- `validate_run_binding`
unfoldable pub validate_run_binding :
    WorkspaceStatePackage → RunRequest → Result LearningError (Unit {0})
validate_run_binding state request = do
  raise_if (not (request.state_package_id == state.state_package_id)) run_state_package_mismatch
  raise_if (not (request.project_id == state.project_id) || not (request.task_id == state.task_id))
      run_state_package_scope_mismatch
  raise_if (not (request.environment.repository == state.repository))
      run_repository_binding_mismatch
  raise_if (not (request.environment.task_branch == state.task_branch))
      run_task_branch_binding_mismatch
  raise_if (not (request.environment.base_sha == state.base_sha)) run_base_sha_binding_mismatch
  raise_if (not (request.environment.expected_head == state.expected_head))
      run_expected_head_binding_mismatch
  raise_if (not (authorization_eq request.authorization state.authorization))
      run_authorization_binding_mismatch
  ok tt

pub record MindCandidateSubmission : Type 0 where
  pub project_id : String
  pub task_id : String
  pub submitted_ids : List String
  pub auto_promotion : Bool

-- `mind_submission`
unfoldable pub mind_submission :
    WorkspaceStatePackage → List LearningCandidate → Result LearningError MindCandidateSubmission
mind_submission state candidates = do
  raise_if
      (any (λ c. not (c.project_id == state.project_id) || not (c.task_id == state.task_id))
        candidates)
      mind_submission_scope_mismatch
  ok (record {
    project_id = state.project_id;
    task_id = state.task_id;
    submitted_ids = candidate_ids candidates;
    auto_promotion = false;
  })
