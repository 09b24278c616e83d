-- ===== src/Operations/Lifecycle/Steps.antt =====
-- The transactions of governed_operations/store.py as a step relation on the database.
pub mod Inversion
pub mod Runs
use palwakf_agentic_ai_syste.Prelude.{
  ℕ, suc, String, ◌≡◌, ◌≢◌, true, false, any, ◌==◌, Option, none, some, [], ◌∷◌, ◌++◌, ok,
}
use palwakf_agentic_ai_syste.Operations.Schema.{
  TaskStatus, approved, under_review, approve, GovernedTaskCreate, TransitionRequest, ReviewRequest,
  EvidenceCreate, TaskRow, EvidenceRow, ReviewRow, AuditPayload, operations_bound, draft_created,
  evidence_recorded, transitioned, review_recorded, Db,
}
use palwakf_agentic_ai_syste.Operations.Audit.{audit}
use palwakf_agentic_ai_syste.Operations.Tasks.{
  allowed_transition, row_task, permission_intersection, find_task, find_key, missing_categories,
  update_task,
}
use palwakf_agentic_ai_syste.Operations.Lifecycle.{
  Moment, Site, new_task, new_evidence, new_event, destination_of, new_review,
}

abbrev pub with_task : Db → TaskRow → Db
with_task db row = record db { governed_tasks = db.governed_tasks ++ row ∷ [] }

abbrev pub with_evidence : Db → EvidenceRow → Db
with_evidence db row = record db { evidence_records = db.evidence_records ++ row ∷ [] }

abbrev pub with_review : Db → ReviewRow → Db
with_review db row = record db { human_reviews = db.human_reviews ++ row ∷ [] }

module _ (site : Site) where
  abbrev pub with_move : Db → TaskRow → TaskStatus → TransitionRequest → Moment → Db
  with_move db row destination payload moment = record db {
    task_transition_events =
        db.task_transition_events ++ new_event site row destination payload moment db ∷ [];
    governed_tasks =
        update_task row.task_id destination (suc row.version) moment.now db.governed_tasks;
  }

  -- The audit log gets one event, whichever.
  abbrev pub IsAudited : Db → Db → Type 0
  IsAudited db db' =
      (task_id : Option String) × (event_type : String) × (actor_id : String)
      × (payload : AuditPayload) × (now : ℕ) × (audit site.digests task_id event_type actor_id
            payload now db
          ≡ ok db')

  -- The audit log gets this event, at this time.
  abbrev pub IsAuditedAs : Option String → String → String → AuditPayload → ℕ → Db → Db → Type 0
  IsAuditedAs task_id event_type actor_id payload now db db' =
      audit site.digests task_id event_type actor_id payload now db ≡ ok db'

  -- The event of a binding.
  abbrev pub IsBindingAudited : ℕ → Db → Db → Type 0
  IsBindingAudited = IsAuditedAs none "WORKSPACE_OPERATIONS_BOUND" "system" (
      operations_bound site.workspace.workspace_id site.workspace.policy_pack_id
        site.workspace.policy_version)

  -- The event of a new task.
  abbrev pub IsTaskAudited : GovernedTaskCreate → String → Moment → Db → Db → Type 0
  IsTaskAudited payload key moment =
      IsAuditedAs (some (new_task site payload key moment).task_id) "TASK_DRAFT_CREATED"
        payload.requested_by
        (draft_created site.workspace.workspace_id payload.risk_level site.workspace.policy_pack_id
          (site.digests.snapshot_hash
            (permission_intersection site.workspace payload.requested_roles)))
        moment.audited_at

  -- The event of new evidence.
  abbrev pub IsEvidenceAudited : EvidenceCreate → Moment → Db → Db → Type 0
  IsEvidenceAudited payload moment =
      IsAuditedAs payload.task_id "EVIDENCE_RECORDED" payload.actor_id
        (evidence_recorded site.workspace.workspace_id
          (new_evidence site payload moment).evidence_id payload.category payload.trust_level)
        moment.audited_at

  -- The event of a move, which is made in the database `db`.
  abbrev pub IsMoveAudited : TaskRow → TaskStatus → TransitionRequest → Moment → Db → Db → Type 0
  IsMoveAudited row destination payload moment db db' =
      (updated : TaskRow) × (row_task row.task_id (with_move db row destination payload moment)
        ≡ ok updated)
      × IsAuditedAs (some row.task_id) "TASK_TRANSITION" payload.actor_id
          (transitioned row.status destination
            (new_event site row destination payload moment db).content.event_id
            updated.workspace_id)
          moment.audited_at (with_move db row destination payload moment) db'

  -- The event of a review.
  abbrev pub IsReviewAudited : String → ReviewRequest → Moment → Db → Db → Type 0
  IsReviewAudited task_id payload moment =
      IsAuditedAs (some task_id) "HUMAN_REVIEW_RECORDED" payload.actor_id
        (review_recorded (new_review site task_id payload moment).review_id payload.decision
          site.workspace.workspace_id)
        moment.audited_at

  -- The row is the task that its own id selects.
  abbrev pub IsTask : Db → TaskRow → Type 0
  IsTask db row = find_task row.task_id db.governed_tasks ≡ some row

  -- One committed transaction.
  pub data Step : Db → Db → Type 0 where
    bound :
        {db db' : Db} (now : ℕ)
        → any (λ row. row.event_type == "WORKSPACE_OPERATIONS_BOUND") db.audit_events ≡ false
        → IsBindingAudited now db db'
        → Step db db'
    task_added :
        {db db' : Db} (payload : GovernedTaskCreate) (key : String) (moment : Moment)
        → find_key key db.governed_tasks ≡ none
        → find_task (new_task site payload key moment).task_id db.governed_tasks ≡ none
        → IsTaskAudited payload key moment (with_task db (new_task site payload key moment)) db'
        → Step db db'
    evidence_added :
        {db db' : Db} (payload : EvidenceCreate) (moment : Moment)
        → IsEvidenceAudited payload moment (with_evidence db (new_evidence site payload moment)) db'
        → Step db db'
    task_moved :
        {db db' : Db} (row : TaskRow) (destination : TaskStatus) (payload : TransitionRequest)
        (moment : Moment)
        → IsTask db row
        → destination ≢ approved
        → allowed_transition row.status destination ≡ true
        → payload.expected_version ≡ row.version
        → IsMoveAudited row destination payload moment db db'
        → Step db db'
    task_reviewed :
        {db mid db' : Db} (row : TaskRow) (payload : ReviewRequest) (moved_at reviewed_at : Moment)
        → IsTask db row
        → row.status ≡ under_review
        → payload.expected_version ≡ row.version
        → (payload.decision ≡ approve → missing_categories row db ≡ [])
        → IsMoveAudited row
            (destination_of payload.decision)
            payload.transition_request
            moved_at
            db
            mid
        → IsReviewAudited row.task_id payload reviewed_at
            (with_review mid (new_review site row.task_id payload reviewed_at))
            db'
        → Step db db'

  pub data Run : Db → Db → Type 0 where
    done : {db : Db} → Run db db
    next : {db mid db' : Db} → Step db mid → Run mid db' → Run db db'

  pub one : {db db' : Db} → Step db db' → Run db db'
  one s = next s done

  pub Run-trans : {db mid db' : Db} → Run db mid → Run mid db' → Run db db'
  Run-trans done r = r
  Run-trans (next s q) r = next s (Run-trans q r)
