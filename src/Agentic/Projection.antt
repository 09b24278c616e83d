-- ===== src/Agentic/Projection.antt =====
-- agentic_core_v1/registry_projection.py: the agents that the role registry gives rise to.
-- `agents/registry_v2.yaml` is data that the caller supplies as its list of roles.
use palwakf_agentic_ai_syste.Prelude.{
  String, ◌&&◌, not, Option, none, some, List, [], ◌∷◌, map, is_empty, contains,
}
use palwakf_agentic_ai_syste.Prelude.Dict.{Dict, get}
use palwakf_agentic_ai_syste.Agentic.Contracts.{UnifiedAgent, native, hermes}
use mathlib.Core.Option.{get_or}
use Prim.Native.String.{◌++◌}

-- The fields of a role that the projection reads; a missing `allowed_skills` is the empty list.
pub record Role : Type 0 where
  pub role_id : String
  pub allowed_skills : List String

-- `agent_id` of each entry of local_agent_core/registry.py
abbrev pub runtime_ids : List String
runtime_ids =
    "policy_guardian_agent_v1" ∷ "local_agent_coordinator_v1" ∷ "evidence_audit_agent_v1"
    ∷ "repository_test_triage_agent_v1" ∷ "task_planning_runbook_agent_v1"
    ∷ "human_review_copilot_v1" ∷ []

abbrev pub role_to_runtime : Dict String
role_to_runtime =
    ("coordinator", "local_agent_coordinator_v1")
    ∷ ("sovereignty_reviewer", "policy_guardian_agent_v1")
    ∷ ("knowledge_researcher", "evidence_audit_agent_v1")
    ∷ ("ui_ux_designer", "task_planning_runbook_agent_v1")
    ∷ ("documentation_handoff", "human_review_copilot_v1")
    ∷ ("product_analyst", "task_planning_runbook_agent_v1")
    ∷ ("solution_architect", "task_planning_runbook_agent_v1")
    ∷ ("qa_security_reviewer", "policy_guardian_agent_v1")
    ∷ ("tester", "repository_test_triage_agent_v1")
    ∷ ("coding_builder", "repository_test_triage_agent_v1")
    ∷ ("frontend_engineer", "repository_test_triage_agent_v1")
    ∷ ("backend_engineer", "repository_test_triage_agent_v1")
    ∷ ("database_engineer", "policy_guardian_agent_v1")
    ∷ ("release_engineer", "human_review_copilot_v1")
    ∷ []

-- `ROLE_TASK_CLASSES.update`: the roles with a second task class
abbrev pub extra_task_classes : Dict String
extra_task_classes =
    ("coordinator", "TASK_PLANNING")
    ∷ ("sovereignty_reviewer", "POLICY_REVIEW")
    ∷ ("knowledge_researcher", "EVIDENCE_REVIEW")
    ∷ ("tester", "TEST_TRIAGE")
    ∷ ("coding_builder", "REPOSITORY_ANALYSIS")
    ∷ ("frontend_engineer", "FRONTEND_ANALYSIS")
    ∷ ("backend_engineer", "BACKEND_ANALYSIS")
    ∷ []

abbrev pub with_extra : Option String → List String
with_extra none = "READ_ONLY_DIAGNOSTIC" ∷ []
with_extra (some extra) = "READ_ONLY_DIAGNOSTIC" ∷ extra ∷ []

abbrev pub classes_of_known : Option String → String → List String
classes_of_known none role_id = []
classes_of_known (some _) role_id = with_extra (get role_id extra_task_classes)

-- `ROLE_TASK_CLASSES.get(role_id, [])`
unfoldable pub role_task_classes : String → List String
unfolding get
role_task_classes role_id = classes_of_known (get role_id role_to_runtime) role_id

-- `ROLE_TO_RUNTIME.get(role_id, "UNMAPPED")`
unfoldable pub runtime_of : String → String
unfolding get
runtime_of role_id = get_or (get role_id role_to_runtime) "UNMAPPED"

-- The body of the loop of `build_projection`.
unfoldable pub project : String → Role → UnifiedAgent
unfolding role_task_classes runtime_of contains
project source_commit_sha role = record {
  agent_id = role.role_id ++ "_agentic_v1";
  role_id = role.role_id;
  runtime_profile_id = runtime_of role.role_id;
  skill_ids = role.allowed_skills;
  tool_bindings = "repository_manifest_read" ∷ [];
  model_route = "ollama" ∷ "none" ∷ [];
  execution_provider_policy = native ∷ hermes ∷ [];
  memory_scopes = "RUN_EPHEMERAL_ONLY" ∷ [];
  allowed_projects = "EXTERNAL_AUTHORITY_REQUIRED" ∷ [];
  permission_profile = "EXTERNAL_ENVELOPE_FAIL_CLOSED";
  filesystem_scope = "READ_ONLY_BY_DEFAULT";
  network_scope = "DENY_BY_DEFAULT";
  data_limit = "RESOURCE_BUDGET_ENFORCED";
  evidence_requirement = "RUN_RECEIPT_REQUIRED";
  maturity = "MEGA_BATCH_A_CANDIDATE";
  authority_status = "EXTERNAL_AUTHORITY_REQUIRED";
  source_commit_sha = source_commit_sha;
  allowed_task_classes = role_task_classes role.role_id;
  runnable = contains (runtime_of role.role_id) runtime_ids && not (is_empty role.allowed_skills);
}

unfoldable pub build_projection : List Role → String → List UnifiedAgent
unfolding project
build_projection roles source_commit_sha = map (project source_commit_sha) roles
