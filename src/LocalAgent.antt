-- ===== src/LocalAgent.antt =====
-- local_agent_core/policy.py and get_agent of registry.py: what a workspace lets its local agents prepare, and
-- when the model pilot may run. The rows that WorkspaceCoreStore reads are arguments. Keys whose value is the
-- same in every answer, and the texts that describe an agent, are left out.
pub mod Decision
mod Tests
use palwakf_agentic_ai_syste.Prelude.{
  String, Bool, true, false, ◌&&◌, not, Option, none, some, List, [], ◌∷◌, ◌==◌, if◌then◌else◌,
  contains, is_empty, Result, ok, err, ◌>>=◌, or_raise,
}
use palwakf_agentic_ai_syste.Prelude.Text.{strip, lower, is_blank, sorted_set}

pub data LocalAgentError : Type 0 where
  local_agent_not_found : LocalAgentError

pub record RegisteredAgent : Type 0 where
  pub agent_id : String
  pub allowed_capabilities : List String
  pub execution_mode : String

abbrev prepare_only : String → List String → RegisteredAgent
prepare_only agent_id capabilities = record {
  agent_id = agent_id;
  allowed_capabilities = capabilities;
  execution_mode = "LOCAL_DETERMINISTIC_PREPARE_ONLY";
}

-- `AGENT_REGISTRY`
unfoldable pub agent_registry : List RegisteredAgent
agent_registry =
    prepare_only "policy_guardian_agent_v1" ("policy_review" ∷ "risk_flags" ∷ "review_gate" ∷ [])
    ∷ prepare_only "local_agent_coordinator_v1"
        ("request_routing" ∷ "agent_selection" ∷ "bounded_plan" ∷ [])
    ∷ prepare_only "evidence_audit_agent_v1"
        ("evidence_summary" ∷ "gap_detection" ∷ "audit_packet" ∷ [])
    ∷ record {
      agent_id = "repository_test_triage_agent_v1";
      allowed_capabilities = "manifest_analysis" ∷ "test_failure_triage" ∷ "risk_flags" ∷ [];
      execution_mode = "INPUT_ONLY_ANALYSIS";
    }
    ∷ prepare_only "task_planning_runbook_agent_v1"
        ("mega_batch_plan" ∷ "uat_plan" ∷ "rollback_prompts" ∷ [])
    ∷ prepare_only "human_review_copilot_v1"
        ("review_packet" ∷ "decision_prompts" ∷ "evidence_links" ∷ [])
    ∷ []

unfoldable pub lookup_agent : String → List RegisteredAgent → Option RegisteredAgent
lookup_agent agent_id [] = none
lookup_agent agent_id (agent ∷ agents) =
    if agent.agent_id == agent_id then some agent else lookup_agent agent_id agents

-- `get_agent`
unfoldable pub get_agent : String → Result LocalAgentError RegisteredAgent
get_agent agent_id = or_raise (lookup_agent agent_id agent_registry) local_agent_not_found

-- `PROHIBITED_CAPABILITIES`
unfoldable pub prohibited_capabilities : List String
prohibited_capabilities =
    "shell" ∷ "shell_execution" ∷ "git_write" ∷ "database_write" ∷ "deployment" ∷ "external_network"
    ∷ "browser_automation" ∷ "model_execution" ∷ "pilot_execution" ∷ "cross_workspace_access"
    ∷ "memory_write" ∷ []

pub record WorkspaceRow : Type 0 where
  pub workspace_id : String
  pub classification : String
  pub lifecycle_state : String

pub record PolicyRow : Type 0 where
  pub policy_pack_id : String
  pub policy_version : String
  pub non_transferable_constraints : List String

pub record Controls : Type 0 where
  pub workspace_id : String
  pub workspace_classification : String
  pub workspace_lifecycle_state : String
  pub policy_pack_id : String
  pub policy_version : String
  pub agent_id : String
  pub agent_execution_mode : String
  pub agent_prepare_eligible : Bool
  pub agent_prepare_mode : String
  pub non_transferable_constraints : List String

-- `controls_for_workspace`
unfoldable pub controls_for_workspace :
    WorkspaceRow → PolicyRow → String → Result LocalAgentError Controls
controls_for_workspace workspace policy agent_id = do
  agent ← get_agent agent_id
  let active = workspace.lifecycle_state == "active"
  ok (record {
    workspace_id = workspace.workspace_id;
    workspace_classification = workspace.classification;
    workspace_lifecycle_state = workspace.lifecycle_state;
    policy_pack_id = policy.policy_pack_id;
    policy_version = policy.policy_version;
    agent_id = agent.agent_id;
    agent_execution_mode = agent.execution_mode;
    agent_prepare_eligible = active;
    agent_prepare_mode =
        if active
        then "HUMAN_EXPLICIT_LOCAL_PREPARE_ONLY"
        else "READ_ONLY_DECLARATION_ONLY_UNTIL_WORKSPACE_ACTIVATION";
    non_transferable_constraints = policy.non_transferable_constraints;
  })

pub data RequestDecision : Type 0 where
  prepare_allowed review_or_deny_required : RequestDecision

pub data RequestReason : Type 0 where
  workspace_not_active prohibited_capability_requested : RequestReason
  prepare_only_with_human_review : RequestReason

pub record Assessment : Type 0 where
  pub decision : RequestDecision
  pub requested_capabilities : List String
  pub prohibited : List String
  pub reason : RequestReason

-- `{item.strip().lower() for item in requested_capabilities if item.strip()}`
unfoldable pub normalized : List String → List String
normalized [] = []
normalized (item ∷ items) =
    let rest = normalized items in if is_blank (strip item) then rest else lower (strip item) ∷ rest

-- `xs & PROHIBITED_CAPABILITIES`
unfoldable pub only_prohibited : List String → List String
only_prohibited [] = []
only_prohibited (x ∷ xs) =
    let rest = only_prohibited xs in if contains x prohibited_capabilities then x ∷ rest else rest

-- `assess_request`
unfoldable pub assess_request : Controls → List String → Assessment
assess_request controls items =
    let requested = normalized items in
    let prohibited = sorted_set (only_prohibited requested) in
    record {
      decision =
          if controls.agent_prepare_eligible && is_empty prohibited
          then prepare_allowed
          else review_or_deny_required;
      requested_capabilities = sorted_set requested;
      prohibited = prohibited;
      reason =
          if not controls.agent_prepare_eligible
          then workspace_not_active
          else (if is_empty prohibited
              then prepare_only_with_human_review
              else prohibited_capability_requested);
    }

abbrev pub model_pilot_workspace_id : String
model_pilot_workspace_id = "palwakf_government"

abbrev pub model_pilot_agent_id : String
model_pilot_agent_id = "task_planning_runbook_agent_v1"

pub record PilotControls : Type 0 where
  pub workspace_id : String
  pub agent_id : String
  pub pilot_config_enabled : Bool
  pub pilot_route_enabled : Bool
  pub allowed_capabilities : List String
  pub model_execution : String

-- `model_pilot_controls`
unfoldable pub model_pilot_controls : Controls → String → String → Bool → PilotControls
model_pilot_controls controls workspace_id agent_id enabled =
    let permitted =
      workspace_id == model_pilot_workspace_id
      && agent_id == model_pilot_agent_id
      && controls.agent_prepare_eligible in
    record {
      workspace_id = workspace_id;
      agent_id = agent_id;
      pilot_config_enabled = enabled;
      pilot_route_enabled = permitted && enabled;
      allowed_capabilities = if permitted then "draft_runbook" ∷ [] else [];
      model_execution = if permitted && enabled then "LOCAL_OLLAMA_PILOT" else "NONE";
    }

pub data PilotReason : Type 0 where
  model_pilot_workspace_not_allowed model_pilot_agent_not_allowed : PilotReason
  pilot_workspace_not_active model_pilot_disabled local_planning_draft_only : PilotReason

pub record PilotAssessment : Type 0 where
  pub allowed : Bool
  pub reason : PilotReason
  pub controls : PilotControls

-- `assess_model_pilot`; `allowed` is the decision ALLOW.
unfoldable pub assess_model_pilot : Controls → String → String → Bool → PilotAssessment
assess_model_pilot controls workspace_id agent_id enabled =
    let pilot = model_pilot_controls controls workspace_id agent_id enabled in
    let deny : PilotReason → PilotAssessment =
      λ reason. record { allowed = false; reason = reason; controls = pilot } in
    if not (workspace_id == model_pilot_workspace_id)
    then deny model_pilot_workspace_not_allowed
    else (if not (agent_id == model_pilot_agent_id)
        then deny model_pilot_agent_not_allowed
        else (if not controls.agent_prepare_eligible
            then deny pilot_workspace_not_active
            else (if not enabled then deny model_pilot_disabled else record {
              allowed = true;
              reason = local_planning_draft_only;
              controls = pilot;
            })))
