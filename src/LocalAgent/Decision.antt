-- ===== src/LocalAgent/Decision.antt =====
-- The decisions of local_agent_core/policy.py, exactly.
use palwakf_agentic_ai_syste.Prelude.{
  String, ◌≡◌, refl, ◌∙◌, ◌↔◌, Bool, true, false, ◌&&◌, not, List, [], ◌∷◌, ◌==◌, contains, All,
  is_empty, ok, >>=-eq-ok, arith, eq_iff,
}
use palwakf_agentic_ai_syste.Prelude.Text.{strip, lower, is_blank, sorted_set, insert_text}
use Prim.Native.String.{[] as no_text, ◌∷◌ as more_text}
use palwakf_agentic_ai_syste.LocalAgent.{
  WorkspaceRow, PolicyRow, Controls, get_agent, controls_for_workspace, prohibited_capabilities,
  prepare_allowed, normalized, only_prohibited, assess_request, model_pilot_workspace_id,
  model_pilot_agent_id, model_pilot_controls, assess_model_pilot,
}

-- No item is a prohibited capability, spaces around it and the case of its letters aside.
abbrev pub IsHarmless : List String → Type 0
IsHarmless items = All (λ item. contains (lower (strip item)) prohibited_capabilities ≡ false) items

-- The same, by the list.
harmless : List String → Bool
harmless [] = true
harmless (item ∷ items) =
    not (contains (lower (strip item)) prohibited_capabilities) && harmless items

harmless→IsHarmless : (items : List String) → harmless items ≡ true → IsHarmless items
unfolding harmless
harmless→IsHarmless [] h = tt
harmless→IsHarmless (x ∷ items) h = (ground arith, harmless→IsHarmless items (ground arith))

IsHarmless→harmless : (items : List String) → IsHarmless items → harmless items ≡ true
unfolding harmless
IsHarmless→harmless [] h = refl
IsHarmless→harmless (x ∷ items) (first, rest) = ground (arith, IsHarmless→harmless items rest)

insert_text-is_empty : (x : String) (xs : List String) → is_empty (insert_text x xs) ≡ false
insert_text-is_empty x [] = refl
insert_text-is_empty x (y ∷ ys) = ground arith

sorted_set-is_empty : (xs : List String) → is_empty (sorted_set xs) ≡ is_empty xs
sorted_set-is_empty [] = refl
sorted_set-is_empty (x ∷ xs) = insert_text-is_empty x (sorted_set xs)

is_blank→harmless :
    (s : String) → is_blank s ≡ true → contains (lower s) prohibited_capabilities ≡ false
unfolding lower contains prohibited_capabilities
is_blank→harmless no_text h = refl
is_blank→harmless (more_text c s) h = absurd (ground arith)

only_prohibited-harmless :
    (items : List String) → is_empty (only_prohibited (normalized items)) ≡ harmless items
unfolding only_prohibited normalized harmless
only_prohibited-harmless [] = refl
only_prohibited-harmless (item ∷ items) =
    ground (arith, only_prohibited-harmless items, is_blank→harmless (strip item))

-- A preparation is allowed exactly when the workspace is active and no requested item is a prohibited
-- capability, spaces around it and the case of its letters aside.
pub assess_request_iff :
    (workspace : WorkspaceRow) (policy : PolicyRow) (agent_id : String) (controls : Controls)
    (items : List String)
    → controls_for_workspace workspace policy agent_id ≡ ok controls
    → (assess_request controls items).decision ≡ prepare_allowed
      ↔ ((workspace.lifecycle_state ≡ "active") × IsHarmless items)
unfolding controls_for_workspace assess_request
assess_request_iff workspace policy agent_id controls items e =
    let (agent, _, built) = >>=-eq-ok (get_agent agent_id) _ e in
    let active : controls.agent_prepare_eligible ≡ (workspace.lifecycle_state == "active") =
      ground arith in
    let clean : is_empty (sorted_set (only_prohibited (normalized items))) ≡ harmless items =
      sorted_set-is_empty (only_prohibited (normalized items)) ∙ only_prohibited-harmless items in
    (
      λ d.
          let both : controls.agent_prepare_eligible && harmless items ≡ true = ground arith in
          (
            ground (arith, eq_iff workspace.lifecycle_state "active"),
            harmless→IsHarmless items (ground arith),
          ),
      λ both.
          let fine = IsHarmless→harmless items both.1 in
          let state = both.0 in ground (arith, eq_iff workspace.lifecycle_state "active"),
    )

-- The model pilot is allowed exactly on its own workspace and agent, in an active workspace, when it is
-- enabled; and the controls that the answer carries open the route exactly when it is allowed.
pub assess_model_pilot_iff :
    (controls : Controls) (workspace_id agent_id : String) (enabled : Bool)
    → let answer = assess_model_pilot controls workspace_id agent_id enabled in
      (answer.allowed ≡ true ↔ (
        (workspace_id ≡ "palwakf_government")
        × (agent_id ≡ "task_planning_runbook_agent_v1")
        × (controls.agent_prepare_eligible ≡ true)
        × (enabled ≡ true)))
      × (answer.controls.pilot_route_enabled ≡ answer.allowed)
unfolding assess_model_pilot model_pilot_controls
assess_model_pilot_iff controls workspace_id agent_id enabled =
    ground
      (arith, eq_iff workspace_id model_pilot_workspace_id, eq_iff agent_id model_pilot_agent_id)
