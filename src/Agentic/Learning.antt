-- ===== src/Agentic/Learning.antt =====
-- agentic_core_v1/learning_service.py: a run and what is learned from it, for review elsewhere.
pub mod Candidates
mod Tests
use palwakf_agentic_ai_syste.Prelude.{
  ◌>>=◌, ◌>>◌, String, Bool, true, false, none, List, [], ◌∷◌, Result, ok, err,
}
use palwakf_agentic_ai_syste.Agentic.Contracts.{RunRequest, RunReceipt}
use palwakf_agentic_ai_syste.Agentic.Paths.{PathSystem}
use palwakf_agentic_ai_syste.Agentic.Authority.{AuthorityCode, Runtime}
use palwakf_agentic_ai_syste.Agentic.Scan.{World}
use palwakf_agentic_ai_syste.Agentic.Evidence.{EvidenceStore}
use palwakf_agentic_ai_syste.Agentic.Execute.{execute}
use palwakf_agentic_ai_syste.Agentic.Experience.{
  LearningError, EvaluationReceipt, LearningCandidate, ExperienceRecord, ExperienceStore,
  add_experience, add_evaluation, add_candidate, evaluate, derive, MindReviewEnvelope,
  build_mind_review, authority_error,
}
use palwakf_agentic_ai_syste.Agentic.ExternalContracts.{
  WorkspaceStatePackage, validate_workspace_package, validate_run_binding, MindCandidateSubmission,
  mind_submission,
}

-- The ids that one call of `execute_and_learn` draws.
pub record Draw : Type 0 where
  pub run_id : String
  pub experience_id : String
  pub evaluation_id : String
  pub lesson_id : String
  pub gate_id : String

pub record Learned : Type 0 where
  pub receipt : RunReceipt
  pub evaluation : EvaluationReceipt
  pub candidates : List LearningCandidate
  pub mind_review : MindReviewEnvelope
  pub submission : MindCandidateSubmission
  pub institutional_knowledge_promoted : Bool
  pub external_review_required : Bool
  pub evidence_store : EvidenceStore
  pub experience_store : ExperienceStore

unfoldable pub experience_of : String → RunRequest → RunReceipt → ExperienceRecord
experience_of experience_id request receipt = record {
  experience_id = experience_id;
  project_id = receipt.project_id;
  task_id = receipt.task_id;
  run_id = receipt.run_id;
  agent_id = receipt.agent_id;
  role_id = receipt.role_id;
  objective = request.objective;
  final_result = receipt.final_result;
  changed_files = receipt.changed_files;
  errors = receipt.errors;
  evidence_refs = receipt.evidence;
}

-- The loop that stores the candidates.
unfoldable pub add_candidates : List LearningCandidate → ExperienceStore → ExperienceStore
add_candidates [] store = store
add_candidates (item ∷ items) store = add_candidates items (add_candidate item store)

abbrev pub as_learning : {A : Type 0} → Result AuthorityCode A → Result LearningError A
as_learning (ok a) = ok a
as_learning (err code) = err (authority_error code)

module _ (fingerprint : RunRequest → String) (sys : PathSystem) (runtime : Runtime) where
  -- What follows the run in `execute_and_learn`.
  unfoldable pub learn :
      WorkspaceStatePackage
      → RunRequest
      → Draw
      → ExperienceStore
      → RunReceipt × EvidenceStore
      → Result LearningError Learned
  learn state request draw store (receipt, evidence) = do
    let evaluation = evaluate draw.evaluation_id receipt
    let observed =
        add_evaluation evaluation
          (add_experience (experience_of draw.experience_id request receipt) store)
    candidates ← derive receipt evaluation state.authorization draw.lesson_id draw.gate_id
    mind_review ← build_mind_review state.project_id candidates
    submission ← mind_submission state candidates
    ok (record {
      receipt = receipt;
      evaluation = evaluation;
      candidates = candidates;
      mind_review = mind_review;
      submission = submission;
      institutional_knowledge_promoted = false;
      external_review_required = true;
      evidence_store = evidence;
      experience_store = add_candidates candidates observed;
    })

  unfoldable pub execute_and_learn :
      World
      → EvidenceStore
      → ExperienceStore
      → WorkspaceStatePackage
      → RunRequest
      → Draw
      → Result LearningError Learned
  execute_and_learn w evidence store state request draw = do
    validate_workspace_package state
    validate_run_binding state request
    ran ← as_learning (execute fingerprint sys runtime w evidence draw.run_id request none)
    learn state request draw store ran
