-- ===== src/LocalAgent/Tests.antt =====
-- The local agents of an active workspace, at concrete inputs.
use palwakf_agentic_ai_syste.Prelude.Text.{rstrip, lstrip, lower, is_space}
use palwakf_agentic_ai_syste.Prelude.{
  contains, String, ◌≡◌, refl, ◌↔◌, true, List, [], ◌∷◌, ok, err,
}
use palwakf_agentic_ai_syste.LocalAgent.{
  local_agent_not_found, agent_registry, lookup_agent, get_agent, WorkspaceRow, PolicyRow, Controls,
  controls_for_workspace, prepare_allowed, normalized, only_prohibited, prohibited_capabilities,
  assess_request, assess_model_pilot,
}
use palwakf_agentic_ai_syste.LocalAgent.Decision.{
  IsHarmless, assess_request_iff, assess_model_pilot_iff,
}

abbrev workspace : WorkspaceRow
workspace = record {
  workspace_id = "palwakf_government";
  classification = "government";
  lifecycle_state = "active";
}

abbrev policy : PolicyRow
policy = record {
  policy_pack_id = "pack";
  policy_version = "1";
  non_transferable_constraints = "NO_CROSS_WORKSPACE" ∷ [];
}

abbrev controls : Controls
controls = record {
  workspace_id = "palwakf_government";
  workspace_classification = "government";
  workspace_lifecycle_state = "active";
  policy_pack_id = "pack";
  policy_version = "1";
  agent_id = "task_planning_runbook_agent_v1";
  agent_execution_mode = "LOCAL_DETERMINISTIC_PREPARE_ONLY";
  agent_prepare_eligible = true;
  agent_prepare_mode = "HUMAN_EXPLICIT_LOCAL_PREPARE_ONLY";
  non_transferable_constraints = "NO_CROSS_WORKSPACE" ∷ [];
}

controlled : controls_for_workspace workspace policy "task_planning_runbook_agent_v1" ≡ ok controls
unfolding controls_for_workspace get_agent lookup_agent agent_registry
controlled = refl

test_unknown_agent : get_agent "planner" ≡ err local_agent_not_found
unfolding get_agent lookup_agent agent_registry
test_unknown_agent = refl

abbrev items : List String
items = "UAT_Plan" ∷ " Shell " ∷ "  " ∷ []

test_prohibited : (assess_request controls items).prohibited ≡ "shell" ∷ []
unfolding assess_request only_prohibited normalized rstrip lstrip is_space contains
    prohibited_capabilities lower
test_prohibited = refl

assess_request_iff_example :
    (assess_request controls items).decision ≡ prepare_allowed
    ↔ ((workspace.lifecycle_state ≡ "active") × IsHarmless items)
assess_request_iff_example =
    assess_request_iff workspace policy "task_planning_runbook_agent_v1" controls items controlled

assess_model_pilot_iff_example :
    let answer = assess_model_pilot controls controls.workspace_id controls.agent_id true in
    (answer.allowed ≡ true ↔ (
      (controls.workspace_id ≡ "palwakf_government")
      × (controls.agent_id ≡ "task_planning_runbook_agent_v1")
      × (controls.agent_prepare_eligible ≡ true)
      × (true ≡ true)))
    × (answer.controls.pilot_route_enabled ≡ answer.allowed)
assess_model_pilot_iff_example =
    assess_model_pilot_iff controls controls.workspace_id controls.agent_id true
