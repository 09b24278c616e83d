-- ===== src/Agentic/Experience.antt =====
-- agentic_core_v1/learning.py: what a run leaves, its evaluation and the candidates derived from it. The ids
-- that a model draws are arguments, times are left out, and a score, which is 0.0 or 1.0, is a number.
use palwakf_agentic_ai_syste.Prelude.{
  ℕ, String, Bool, true, false, ◌&&◌, ◌||◌, not, List, [], ◌∷◌, ◌++◌, map, any, ◌==◌, if◌then◌else◌,
  contains, is_empty, Result, ok, ◌>>◌, raise_if,
}
use palwakf_agentic_ai_syste.Prelude.Dict.{Dict, put}
use palwakf_agentic_ai_syste.Agentic.Contracts.{
  AuthorizationEnvelope, RunReceipt, ErrorItem, EvidenceItem,
}
use palwakf_agentic_ai_syste.Agentic.Authority.{AuthorityCode}

-- The `ValueError`s, by their text, and the error of the run.
pub data LearningError : Type 0 where
  learning_cross_project_denied learning_task_authority_mismatch : LearningError
  mind_review_cross_project_denied mind_submission_scope_mismatch : LearningError
  state_package_project_authority_mismatch state_package_task_authority_mismatch : LearningError
  state_package_issuer_mismatch : LearningError
  workspace_task_branch_required workspace_network_write_authority_rejected : LearningError
  run_state_package_mismatch run_state_package_scope_mismatch : LearningError
  run_repository_binding_mismatch run_task_branch_binding_mismatch : LearningError
  run_base_sha_binding_mismatch run_expected_head_binding_mismatch : LearningError
  run_authorization_binding_mismatch : LearningError
  delegation_cross_project_or_task_denied delegation_agent_expansion_denied : LearningError
  delegation_task_class_expansion_denied delegation_provider_expansion_denied : LearningError
  authority_error : AuthorityCode → LearningError

pub record EvaluationReceipt : Type 0 where
  pub evaluation_id : String
  pub project_id : String
  pub task_id : String
  pub run_id : String
  pub score : ℕ
  pub passed : Bool
  pub reasons : List String

pub record Failure : Type 0 where
  pub classification : String
  pub confidence : String
  pub root_cause : String
  pub preventive_gate_allowed : Bool

pub data EvidenceRef : Type 0 where
  receipt_evidence : EvidenceItem → EvidenceRef
  evaluation_receipt : String → Bool → ℕ → List String → EvidenceRef
  failure_classification : Failure → EvidenceRef

-- The candidate types that the engine makes.
pub data CandidateType : Type 0 where
  project_lesson preventive_gate_candidate : CandidateType

-- `promotion_status` can only be EXTERNAL_REVIEW_REQUIRED.
pub record LearningCandidate : Type 0 where
  pub candidate_id : String
  pub project_id : String
  pub task_id : String
  pub source_run_id : String
  pub candidate_type : CandidateType
  pub evidence_refs : List EvidenceRef

pub record ExperienceRecord : Type 0 where
  pub experience_id : String
  pub project_id : String
  pub task_id : String
  pub run_id : String
  pub agent_id : String
  pub role_id : String
  pub objective : String
  pub final_result : String
  pub changed_files : List String
  pub errors : List ErrorItem
  pub evidence_refs : List EvidenceItem

-- `ExperienceStore`: its three dictionaries; each item is also written to `<id>.json` below the root.
pub data LearningFile : Type 0 where
  experience_file : ExperienceRecord → LearningFile
  evaluation_file : EvaluationReceipt → LearningFile
  candidate_file : LearningCandidate → LearningFile

pub record ExperienceStore : Type 0 where
  pub experiences : Dict ExperienceRecord
  pub evaluations : Dict EvaluationReceipt
  pub candidates : Dict LearningCandidate
  pub files : Dict LearningFile

-- The `add` methods; their `write_text` is taken to succeed.
unfoldable pub add_experience : ExperienceRecord → ExperienceStore → ExperienceStore
add_experience item store = record store {
  experiences = put item.experience_id item store.experiences;
  files = put item.experience_id (experience_file item) store.files;
}

unfoldable pub add_evaluation : EvaluationReceipt → ExperienceStore → ExperienceStore
add_evaluation item store = record store {
  evaluations = put item.evaluation_id item store.evaluations;
  files = put item.evaluation_id (evaluation_file item) store.files;
}

unfoldable pub add_candidate : LearningCandidate → ExperienceStore → ExperienceStore
add_candidate item store = record store {
  candidates = put item.candidate_id item store.candidates;
  files = put item.candidate_id (candidate_file item) store.files;
}

-- `EvaluationEngine.evaluate`
unfoldable pub evaluate : String → RunReceipt → EvaluationReceipt
evaluate evaluation_id receipt =
    let no_write = is_empty receipt.changed_files in
    let no_errors = is_empty receipt.errors in
    let pass = receipt.final_result == "PASS" in
    let passed = pass && no_write && no_errors in
    record {
      evaluation_id = evaluation_id;
      project_id = receipt.project_id;
      task_id = receipt.task_id;
      run_id = receipt.run_id;
      score = if passed then 1 else 0;
      passed = passed;
      reasons =
          (if pass then "RUN_RESULT_PASS" else "RUN_RESULT_NOT_PASS")
          ∷ (if no_write then "NO_PROJECT_MUTATION" else "PROJECT_MUTATION_OBSERVED")
          ∷ (if no_errors then "NO_ERRORS" else "ERRORS_PRESENT")
          ∷ [];
    }

-- `_classify_failure`
unfoldable pub classify_failure : RunReceipt → EvaluationReceipt → Failure
classify_failure receipt evaluation =
    if contains "PROJECT_MUTATION_OBSERVED" evaluation.reasons
      || not (is_empty receipt.changed_files)
    then record {
      classification = "POLICY_FAILURE";
      confidence = "HIGH";
      root_cause = "PROJECT_MUTATION_OBSERVED";
      preventive_gate_allowed = true;
    }
    else record {
      classification = "UNKNOWN_FAILURE";
      confidence = "LOW";
      root_cause = "UNRESOLVED";
      preventive_gate_allowed = false;
    }

unfoldable pub candidate_of :
    RunReceipt → String → CandidateType → List EvidenceRef → LearningCandidate
candidate_of receipt candidate_id candidate_type refs = record {
  candidate_id = candidate_id;
  project_id = receipt.project_id;
  task_id = receipt.task_id;
  source_run_id = receipt.run_id;
  candidate_type = candidate_type;
  evidence_refs = refs;
}

-- `failure_evidence` of `derive`
unfoldable pub failure_evidence : RunReceipt → EvaluationReceipt → List EvidenceRef
failure_evidence receipt evaluation =
    map receipt_evidence receipt.evidence
    ++ evaluation_receipt evaluation.evaluation_id evaluation.passed evaluation.score
        evaluation.reasons
      ∷ failure_classification (classify_failure receipt evaluation)
      ∷ []

-- `LearningEngine.derive`, with the ids of the candidates that it may make
unfoldable pub derive :
    RunReceipt
    → EvaluationReceipt
    → AuthorizationEnvelope
    → String
    → String
    → Result LearningError (List LearningCandidate)
derive receipt evaluation authorization lesson_id gate_id = do
  raise_if (not (receipt.project_id == authorization.project_id)) learning_cross_project_denied
  raise_if (not (receipt.task_id == authorization.task_id)) learning_task_authority_mismatch
  let failure = classify_failure receipt evaluation
  let refs = map receipt_evidence receipt.evidence
  let failure_refs = failure_evidence receipt evaluation
  ok (
      if evaluation.passed
      then candidate_of receipt lesson_id project_lesson refs ∷ []
      else candidate_of receipt lesson_id project_lesson failure_refs
        ∷ (if failure.preventive_gate_allowed
            then candidate_of receipt gate_id preventive_gate_candidate failure_refs ∷ []
            else []))

pub record MindReviewEnvelope : Type 0 where
  pub project_id : String
  pub candidate_ids : List String
  pub accepted_project_knowledge : Bool

abbrev pub candidate_ids : List LearningCandidate → List String
candidate_ids items = map (λ c. c.candidate_id) items

-- `build_mind_review`
unfoldable pub build_mind_review :
    String → List LearningCandidate → Result LearningError MindReviewEnvelope
build_mind_review project_id candidates = do
  raise_if (any (λ c. not (c.project_id == project_id)) candidates) mind_review_cross_project_denied
  ok (record {
    project_id = project_id;
    candidate_ids = candidate_ids candidates;
    accepted_project_knowledge = false;
  })
