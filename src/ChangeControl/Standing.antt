-- ===== src/ChangeControl/Standing.antt =====
-- `_recompute_project_state`, `_run_readiness` and the summary of `_cockpit`: what is derived from the state.
pub mod Counted
pub mod Derived
use palwakf_agentic_ai_syste.Prelude.{
  ℕ, zero, suc, ◌+◌, ◌*◌, String, Bool, true, false, ◌&&◌, ◌||◌, not, Option, none, some, List, [],
  ◌∷◌, ◌++◌, if◌then◌else◌, is_empty, length, nat_eq,
}
use palwakf_agentic_ai_syste.Prelude.Dict.{Dict}
use palwakf_agentic_ai_syste.ChangeControl.Schema.{
  EntityStatus, human_review, accepted, returned, rejected, ImplementationStatus,
  approved_for_apply, applied_awaiting_review, rolled_back, accepted_implementation, QualityTool,
  Model, Plan, Proposal, Implementation, Db,
}
use palwakf_agentic_ai_syste.ChangeControl.Models.{is_planning_approved}
use palwakf_agentic_ai_syste.ChangeControl.Contexts.{quality_baseline_summary}
use palwakf_agentic_ai_syste.ChangeControl.Plans.{is_human_review, decimal}
use palwakf_agentic_ai_syste.ChangeControl.Proposals.{is_accepted}
use palwakf_agentic_ai_syste.ChangeControl.Implementations.{
  is_approved_for_apply, is_awaiting_review,
}
use Prim.Native.Nat.{min}
use Prim.Native.String.{◌++◌ as concat}

-- `sum(1 for item in values if test)`
unfoldable pub count_values : {V : Type 0} → (V → Bool) → Dict V → ℕ
count_values test [] = 0
count_values test ((k, v) ∷ d) = let rest = count_values test d in if test v then suc rest else rest

abbrev pub is_rejected : EntityStatus → Bool
is_rejected human_review = false
is_rejected accepted = false
is_rejected returned = false
is_rejected rejected = true

abbrev pub is_accepted_implementation : ImplementationStatus → Bool
is_accepted_implementation approved_for_apply = false
is_accepted_implementation applied_awaiting_review = false
is_accepted_implementation rolled_back = false
is_accepted_implementation accepted_implementation = true

pub data ProjectStatus : Type 0 where
  controlled_operational foundation_ready : ProjectStatus

pub record ProjectState : Type 0 where
  pub revision : ℕ
  pub status : ProjectStatus
  pub progress_percent : ℕ
  pub accepted_plans : ℕ
  pub accepted_proposals : ℕ
  pub accepted_implementations : ℕ
  pub pending_implementation_reviews : ℕ
  pub rejected_artifacts : ℕ
  pub risks : List String

-- `_recompute_project_state`, with the revision that PROJECT_STATE_FILE holds
unfoldable pub recompute_project_state : ℕ → Db → ProjectState
recompute_project_state revision db =
    let plans = count_values (λ (p : Plan). is_accepted p.status) db.plans in
    let proposals = count_values (λ (p : Proposal). is_accepted p.status) db.proposals in
    let implementations =
      count_values (λ (i : Implementation). is_accepted_implementation i.status)
        db.implementations in
    let pending =
      count_values (λ (i : Implementation). is_awaiting_review i.status) db.implementations in
    let rejections =
      count_values (λ (p : Plan). is_rejected p.status) db.plans
      + count_values (λ (p : Proposal). is_rejected p.status) db.proposals in
    record {
      revision = revision + 1;
      status =
          if not (nat_eq implementations 0) || not (nat_eq plans 0)
          then controlled_operational
          else foundation_ready;
      progress_percent = min 100 (plans * 15 + proposals * 20 + implementations * 35);
      accepted_plans = plans;
      accepted_proposals = proposals;
      accepted_implementations = implementations;
      pending_implementation_reviews = pending;
      rejected_artifacts = rejections;
      risks =
          (if nat_eq pending 0 then [] else "Applied implementation awaiting human review." ∷ [])
          ++ (if nat_eq plans 0 then "No accepted local-model plan yet." ∷ [] else [])
          ++ (if nat_eq rejections 0
              then []
              else concat (decimal rejections)
                  " rejected planning or proposal artifacts require review."
                ∷ []);
    }

-- A gate of the readiness report: PASS or HOLD.
pub record Gate : Type 0 where
  pub gate : String
  pub passed : Bool

abbrev pub all_pass : List Gate → Bool
all_pass [] = true
all_pass (g ∷ gates) = g.passed && all_pass gates

-- The gates of `_run_readiness`
unfoldable pub readiness_gates : List QualityTool → Db → List Gate
readiness_gates baselines db =
    record { gate = "runtime_state_initialized"; passed = true }
    ∷ record {
      gate = "quality_baselines_present";
      passed = not (is_empty (quality_baseline_summary baselines));
    }
    ∷ record {
      gate = "local_model_planning_approved";
      passed =
          not (nat_eq (count_values (λ (m : Model). is_planning_approved m.state) db.models) 0);
    }
    ∷ record {
      gate = "no_applied_implementation_awaiting_review";
      passed =
          nat_eq
            (count_values (λ (i : Implementation). is_awaiting_review i.status) db.implementations)
            0;
    }
    ∷ record { gate = "external_network_disabled"; passed = true }
    ∷ record { gate = "shell_git_self_apply_disabled"; passed = true }
    ∷ []

pub data Readiness : Type 0 where
  ready_for_controlled_local_use hold : Readiness

-- `_run_readiness`
unfoldable pub run_readiness : List QualityTool → Db → Readiness × List Gate
run_readiness baselines db =
    let gates = readiness_gates baselines db in
    (if all_pass gates then ready_for_controlled_local_use else hold, gates)

-- The summary of `_cockpit`
pub record Summary : Type 0 where
  pub approved_models : ℕ
  pub plans_waiting_review : ℕ
  pub accepted_plans : ℕ
  pub proposals_waiting_review : ℕ
  pub approved_for_apply : ℕ
  pub implementation_reviews : ℕ

unfoldable pub cockpit_summary : Db → Summary
cockpit_summary db = record {
  approved_models = count_values (λ (m : Model). is_planning_approved m.state) db.models;
  plans_waiting_review = count_values (λ (p : Plan). is_human_review p.status) db.plans;
  accepted_plans = count_values (λ (p : Plan). is_accepted p.status) db.plans;
  proposals_waiting_review = count_values (λ (p : Proposal). is_human_review p.status) db.proposals;
  approved_for_apply =
      count_values (λ (i : Implementation). is_approved_for_apply i.status) db.implementations;
  implementation_reviews =
      count_values (λ (i : Implementation). is_awaiting_review i.status) db.implementations;
}
