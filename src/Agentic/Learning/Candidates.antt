-- ===== src/Agentic/Learning/Candidates.antt =====
-- What `execute_and_learn` makes of a run: one candidate, for review elsewhere.
use palwakf_agentic_ai_syste.Prelude.{
  String, ◌≡◌, refl, ◌∙◌, Bool, true, false, ◌||◌, not, Option, none, some, [], ◌∷◌, map, ◌==◌,
  eq_iff, eq_refl, is_empty, contains, ok, raise_if-eq-ok, arith,
}
use palwakf_agentic_ai_syste.Agentic.Contracts.{RunRequest, RunReceipt}
use palwakf_agentic_ai_syste.Agentic.Paths.{FilePath, PathSystem}
use palwakf_agentic_ai_syste.Agentic.Authority.{Runtime}
use palwakf_agentic_ai_syste.Agentic.Scan.{World, Progress}
use palwakf_agentic_ai_syste.Agentic.Evidence.{
  EvidenceStore, base_receipt, persist_receipt, interrupted_receipt,
}
use palwakf_agentic_ai_syste.Agentic.Execute.{Interruption, interruption, finish, run_from, execute}
use palwakf_agentic_ai_syste.Agentic.Execute.Rounds.{candidates, execute-Parts}
use palwakf_agentic_ai_syste.Agentic.Execute.Safety.{execute-IsSafe}
use palwakf_agentic_ai_syste.Agentic.Experience.{
  LearningCandidate, ExperienceStore, add_experience, add_evaluation, evaluate, classify_failure,
  candidate_of, failure_evidence, derive, build_mind_review,
  state_package_project_authority_mismatch, state_package_task_authority_mismatch,
  run_state_package_mismatch, run_state_package_scope_mismatch, receipt_evidence, project_lesson,
}
use palwakf_agentic_ai_syste.Agentic.ExternalContracts.{
  WorkspaceStatePackage, bind_authority, validate_workspace_package, validate_run_binding,
  mind_submission,
}
use palwakf_agentic_ai_syste.Agentic.Learning.{
  add_candidates, Draw, Learned, experience_of, learn, execute_and_learn,
}

-- The envelope of a state package is for its project and its task.
bind_authority-eq-ok :
    (state : WorkspaceStatePackage)
    → bind_authority state ≡ ok state
    → (state.authorization.project_id ≡ state.project_id)
      × (state.authorization.task_id ≡ state.task_id)
unfolding bind_authority
bind_authority-eq-ok state e =
    let (p, e1) =
      raise_if-eq-ok (not (state.authorization.project_id == state.project_id))
        state_package_project_authority_mismatch _ e in
    let (t, _) =
      raise_if-eq-ok (not (state.authorization.task_id == state.task_id))
        state_package_task_authority_mismatch _ e1 in
    (
      ground (arith, eq_iff state.authorization.project_id state.project_id),
      ground (arith, eq_iff state.authorization.task_id state.task_id),
    )

validate_run_binding-eq-ok :
    (state : WorkspaceStatePackage) (request : RunRequest)
    → validate_run_binding state request ≡ ok tt
    → (request.project_id ≡ state.project_id) × (request.task_id ≡ state.task_id)
unfolding validate_run_binding
validate_run_binding-eq-ok state request e =
    let (_, e1) =
      raise_if-eq-ok (not (request.state_package_id == state.state_package_id))
        run_state_package_mismatch _ e in
    let (scope, _) =
      raise_if-eq-ok
        (not (request.project_id == state.project_id) || not (request.task_id == state.task_id))
        run_state_package_scope_mismatch _ e1 in
    (
      ground (arith, eq_iff request.project_id state.project_id),
      ground (arith, eq_iff request.task_id state.task_id),
    )

-- A receipt for the state package of a run that changed nothing.
abbrev IsOwn : WorkspaceStatePackage → RunReceipt → Type 0
IsOwn state receipt =
    (receipt.project_id ≡ state.project_id)
    × (receipt.task_id ≡ state.task_id)
    × (receipt.changed_files ≡ [])

-- One lesson of the package's project and task, from this run.
abbrev pub IsLesson : WorkspaceStatePackage → RunReceipt → LearningCandidate → Type 0
IsLesson state receipt c =
    (c.project_id ≡ state.project_id)
    × (c.task_id ≡ state.task_id)
    × (c.source_run_id ≡ receipt.run_id)
    × (c.candidate_type ≡ project_lesson)

derive-IsLesson :
    (state : WorkspaceStatePackage) (receipt : RunReceipt)
    (evaluation_id lesson_id gate_id : String)
    → IsOwn state receipt
    → state.authorization.project_id ≡ state.project_id
    → state.authorization.task_id ≡ state.task_id
    → (c : LearningCandidate) × (derive receipt
          (evaluate evaluation_id receipt)
          state.authorization
          lesson_id
          gate_id
        ≡ ok (c ∷ []))
      × IsLesson state receipt c
unfolding derive evaluate classify_failure candidate_of contains
derive-IsLesson state receipt evaluation_id lesson_id gate_id (p, t, n) owner task =
    go (receipt.final_result == "PASS") (is_empty receipt.errors) refl refl
  where
    go :
        (a b : Bool)
        → (receipt.final_result == "PASS") ≡ a
        → is_empty receipt.errors ≡ b
        → (c : LearningCandidate) × (derive receipt
              (evaluate evaluation_id receipt)
              state.authorization
              lesson_id
              gate_id
            ≡ ok (c ∷ []))
          × IsLesson state receipt c
    go true true h k = (
      candidate_of receipt lesson_id project_lesson (map receipt_evidence receipt.evidence),
      rw
          (
            derive,
            evaluate,
            h,
            k,
            n,
            p,
            t,
            owner,
            task,
            eq_refl state.project_id,
            eq_refl state.task_id,
          )
          refl,
      (p, t, refl, refl),
    )
    go true false h k = (
      candidate_of receipt lesson_id project_lesson
          (failure_evidence receipt (evaluate evaluation_id receipt)),
      rw
          (
            derive,
            evaluate,
            h,
            k,
            n,
            p,
            t,
            owner,
            task,
            eq_refl state.project_id,
            eq_refl state.task_id,
          )
          refl,
      (p, t, refl, refl),
    )
    go false true h k = (
      candidate_of receipt lesson_id project_lesson
          (failure_evidence receipt (evaluate evaluation_id receipt)),
      rw
          (
            derive,
            evaluate,
            h,
            k,
            n,
            p,
            t,
            owner,
            task,
            eq_refl state.project_id,
            eq_refl state.task_id,
          )
          refl,
      (p, t, refl, refl),
    )
    go false false h k = (
      candidate_of receipt lesson_id project_lesson
          (failure_evidence receipt (evaluate evaluation_id receipt)),
      rw
          (
            derive,
            evaluate,
            h,
            k,
            n,
            p,
            t,
            owner,
            task,
            eq_refl state.project_id,
            eq_refl state.task_id,
          )
          refl,
      (p, t, refl, refl),
    )

-- The review envelope and the submission are of the package's project and task and name this candidate alone;
-- nothing is accepted or promoted, and a review elsewhere is required.
pub record IsPending (state : WorkspaceStatePackage) (c : LearningCandidate) (learned : Learned)
    : Type 0 where
  pub reviewed :
      (learned.mind_review.project_id ≡ state.project_id)
      × (learned.mind_review.candidate_ids ≡ c.candidate_id ∷ [])
  pub submitted :
      (learned.submission.project_id ≡ state.project_id)
      × (learned.submission.task_id ≡ state.task_id)
      × (learned.submission.submitted_ids ≡ c.candidate_id ∷ [])
  pub unaccepted : learned.mind_review.accepted_project_knowledge ≡ false
  pub unpromoted :
      (learned.submission.auto_promotion ≡ false)
      × (learned.institutional_knowledge_promoted ≡ false)
  pub elsewhere : learned.external_review_required ≡ true

learn-IsLesson :
    (fingerprint : RunRequest → String) (sys : PathSystem) (runtime : Runtime)
    (state : WorkspaceStatePackage) (request : RunRequest) (draw : Draw) (store : ExperienceStore)
    (receipt : RunReceipt) (evidence : EvidenceStore) (c : LearningCandidate)
    → derive receipt
        (evaluate draw.evaluation_id receipt)
        state.authorization
        draw.lesson_id
        draw.gate_id
      ≡ ok (c ∷ [])
    → IsLesson state receipt c
    → (learned : Learned) × (learn fingerprint sys runtime state request draw store
          (receipt, evidence)
        ≡ ok learned)
      × (learned.receipt ≡ receipt)
      × (learned.candidates ≡ c ∷ [])
      × (learned.evaluation ≡ evaluate draw.evaluation_id receipt)
      × IsPending state c learned
unfolding learn build_mind_review mind_submission
learn-IsLesson fingerprint sys runtime state request draw store receipt evidence c d (p, t, _, _) =
    (
      record {
        receipt = receipt;
        evaluation = evaluate draw.evaluation_id receipt;
        candidates = c ∷ [];
        mind_review = record {
          project_id = state.project_id;
          candidate_ids = c.candidate_id ∷ [];
          accepted_project_knowledge = false;
        };
        submission = record {
          project_id = state.project_id;
          task_id = state.task_id;
          submitted_ids = c.candidate_id ∷ [];
          auto_promotion = false;
        };
        institutional_knowledge_promoted = false;
        external_review_required = true;
        evidence_store = evidence;
        experience_store = add_candidates (c ∷ []) (
            add_evaluation (evaluate draw.evaluation_id receipt)
              (add_experience (experience_of draw.experience_id request receipt) store));
      },
      rw (d, p, t, eq_refl state.project_id, eq_refl state.task_id) refl,
      refl,
      refl,
      refl,
      record {
        reviewed = (refl, refl);
        submitted = (refl, refl, refl);
        unaccepted = refl;
        unpromoted = (refl, refl);
        elsewhere = refl;
      },
    )

module _ (fingerprint : RunRequest → String) (sys : PathSystem) (runtime : Runtime) where
  finish-scope :
      (w : World) (store : EvidenceStore) (request : RunRequest) (run_id : String)
      (resumed_from : Option String) (p : Progress) (stop : Option Interruption)
      → let receipt =
          (finish fingerprint sys runtime w store request run_id resumed_from p stop).0 in
        (receipt.project_id ≡ request.project_id) × (receipt.task_id ≡ request.task_id)
  unfolding finish base_receipt persist_receipt interrupted_receipt
  finish-scope w store request run_id resumed_from p none = (refl, refl)
  finish-scope w store request run_id resumed_from p (some stop) = (refl, refl)

  execute-scope :
      (w : World) (store : EvidenceStore) (run_id : String) (request : RunRequest)
      (checkpoint : Option FilePath) (result : RunReceipt × EvidenceStore)
      → execute fingerprint sys runtime w store run_id request checkpoint ≡ ok result
      → (result.0.project_id ≡ request.project_id) × (result.0.task_id ≡ request.task_id)
  execute-scope w store run_id request checkpoint result h =
      let parts =
        execute-Parts fingerprint sys runtime w store run_id request checkpoint result h in
      let outcome =
        run_from fingerprint sys runtime w request (candidates fingerprint sys runtime w request)
          parts.index parts.start.progress in
      rw parts.ended (
        finish-scope w store request run_id parts.start.resumed_from outcome.0
          (interruption w outcome.1))

  -- What is learned from a run: its receipt, a PASS exactly when it ended as PASS with no error, and one
  -- lesson, which is submitted for review and not accepted.
  abbrev pub IsLearned : WorkspaceStatePackage → Draw → RunReceipt → Learned → Type 0
  IsLearned state draw receipt learned =
      (learned.receipt ≡ receipt)
      × (learned.evaluation ≡ evaluate draw.evaluation_id receipt)
      × ((c : LearningCandidate) × IsLesson state receipt c
          × (learned.candidates ≡ c ∷ [])
          × IsPending state c learned)

  -- Once the state package and its binding are accepted and the run returns, no check of the learning refuses
  -- it, however the run ended (the writes of the experience store's files are taken to succeed): it makes
  -- exactly one candidate, a lesson of this run and never a preventive gate. The candidate is submitted for a
  -- review elsewhere, for the package's project and task, and is neither accepted nor promoted.
  pub execute_and_learn_succeeds :
      (w : World) (evidence : EvidenceStore) (store : ExperienceStore)
      (state : WorkspaceStatePackage) (request : RunRequest) (draw : Draw)
      (result : RunReceipt × EvidenceStore)
      → bind_authority state ≡ ok state
      → validate_workspace_package state ≡ ok tt
      → validate_run_binding state request ≡ ok tt
      → execute fingerprint sys runtime w evidence draw.run_id request none ≡ ok result
      → (learned : Learned) × (execute_and_learn fingerprint sys runtime w evidence store state
            request draw
          ≡ ok learned)
        × IsLearned state draw result.0 learned
  execute_and_learn_succeeds w evidence store state request draw result a b c e =
      let (owner, task) = bind_authority-eq-ok state a in
      let (project, work) = validate_run_binding-eq-ok state request c in
      let (p, t) = execute-scope w evidence draw.run_id request none result e in
      let safe =
        execute-IsSafe fingerprint sys runtime w evidence draw.run_id request none result e in
      let (lesson, d, l) =
        derive-IsLesson state result.0 draw.evaluation_id draw.lesson_id draw.gate_id
          (p ∙ project, t ∙ work, safe.no_change) owner task in
      let (learned, done, r, cs, v, pending) =
        learn-IsLesson fingerprint sys runtime state request draw store result.0 result.1 lesson d
          l in
      (learned, unfold execute_and_learn in rw (b, c, e) done, (r, v, (lesson, l, cs, pending)))
