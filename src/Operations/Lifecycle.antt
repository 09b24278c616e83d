-- ===== src/Operations/Lifecycle.antt =====
-- governed_operations/store.py: the operations that write, and router.py: the calls that reach them. The
-- ids and the times that an operation draws are its arguments. Calls run one after the other.
pub mod Steps
pub mod Tables
pub mod Moves
pub mod Gate
pub mod Commits
pub mod Rollback
pub mod Stale
pub mod Replay
pub mod Audited
use palwakf_agentic_ai_syste.Prelude.Json.{string}
use palwakf_agentic_ai_syste.Prelude.{
  ℕ, suc, String, Bool, true, false, ◌||◌, not, Option, none, some, List, [], ◌∷◌, ◌++◌, any, ◌==◌,
  if◌then◌else◌, ltb, nat_eq, Result, ok, err, ◌>>=◌, ◌>>◌, raise_if,
}
use palwakf_agentic_ai_syste.Prelude.Text.{is_blank}
use palwakf_agentic_ai_syste.Prelude.Dict.{put}
use palwakf_agentic_ai_syste.Operations.Schema.{
  TaskStatus, draft, inbox, under_review, approved, rejected, returned, archived, Decision, approve,
  reject, return, GovernedTaskCreate, TransitionRequest, ReviewRequest, EvidenceCreate,
  WorkspacePolicy, TaskRow, TransitionRecord, TransitionRow, ReviewRow, EvidenceRow,
  operations_bound, draft_created, evidence_recorded, transitioned, review_recorded, Db, OpError,
  idempotency_key_required, idempotency_key_payload_mismatch, invalid_task_transition,
  task_version_conflict, review_requires_under_review, approval_evidence_gate_blocked,
  integrity_error, Digests,
}
use palwakf_agentic_ai_syste.Operations.Audit.{last_hash, refers, audit}
use palwakf_agentic_ai_syste.Operations.Tasks.{
  allowed_transition, display_status_of, checked_task_id, permission_intersection, find_task,
  find_key, row_task, missing_categories, latest, update_task,
}
use Prim.Native.String.{count, ◌++◌ as concat}

-- What one write draws: `uuid4().hex[:18].upper()`, and the times of the row and of its audit event.
pub record Moment : Type 0 where
  pub uid : String
  pub now : ℕ
  pub audited_at : ℕ

-- What the writes of one workspace depend on. `later` is the order that SQLite gives to two events with
-- the same time.
pub record Site : Type 0 where
  pub digests : Digests
  pub workspace : WorkspacePolicy
  pub later : Bool

-- `with con:` commits what the block wrote, or rolls all of it back when the block raises.
abbrev pub transact : {A : Type 0} → (Db → Result OpError (A × Db)) → Db → Result OpError A × Db
transact block db = elim (block db) [
  | ok (answer, written) ↦ (ok answer, written)
  | err e ↦ (err e, db)
]

-- What follows `initialize_workspace`, which may raise.
abbrev pub after_binding :
    {A : Type 0}
    → (Db → Result OpError (A × Db))
    → Result OpError (Unit {0}) × Db
    → Result OpError A × Db
after_binding block (ok _, bound) = transact block bound
after_binding block (err e, bound) = (err e, bound)

-- `if payload.task_id: self._row_task(...)`: an empty text is not looked up.
unfoldable pub check_owner : Option String → Db → Result OpError (Unit {0})
check_owner none db = ok tt
check_owner (some task_id) db =
    if is_blank task_id
    then ok tt
    else (do checked ← checked_task_id task_id; row ← row_task checked db; ok tt)

unfoldable pub destination_of : Decision → TaskStatus
destination_of approve = approved
destination_of reject = rejected
destination_of return = returned

abbrev pub is_approve : Decision → Bool
is_approve approve = true
is_approve reject = false
is_approve return = false

abbrev pub is_under_review : TaskStatus → Bool
is_under_review under_review = true
is_under_review _ = false

-- The checks of `review` that precede its writes.
unfoldable pub check_review : TaskRow → ReviewRequest → Db → Result OpError (Unit {0})
check_review row payload db = do
  raise_if (not (is_under_review row.status)) review_requires_under_review
  raise_if (not (nat_eq payload.expected_version row.version)) task_version_conflict
  raise_if
      (if is_approve payload.decision
        then elim (missing_categories row db) [ [] ↦ false | _ ↦ true ]
        else false)
      approval_evidence_gate_blocked
  ok tt

module _ (site : Site) where
  -- The transaction of `initialize_workspace`: the binding is recorded once.
  unfoldable pub bind_workspace : ℕ → Db → Result OpError (Unit {0} × Db)
  bind_workspace now db =
      if any (λ row. row.event_type == "WORKSPACE_OPERATIONS_BOUND") db.audit_events
      then ok (tt, db)
      else (do
        bound ←
            audit site.digests none "WORKSPACE_OPERATIONS_BOUND" "system"
              (operations_bound site.workspace.workspace_id site.workspace.policy_pack_id
                site.workspace.policy_version)
              now db
        ok (tt, bound))

  -- `initialize_workspace`, then the transaction of the operation.
  abbrev pub initialized :
      {A : Type 0} → ℕ → (Db → Result OpError (A × Db)) → Db → Result OpError A × Db
  initialized now block db = after_binding block (transact (bind_workspace now) db)

  -- The row that `create_task` inserts.
  unfoldable pub new_task : GovernedTaskCreate → String → Moment → TaskRow
  new_task payload key moment = record {
    task_id = concat "GWS-" moment.uid;
    idempotency_key = key;
    payload_fingerprint = site.digests.fingerprint payload;
    workspace_id = site.workspace.workspace_id;
    policy_pack_id = site.workspace.policy_pack_id;
    policy_version = site.workspace.policy_version;
    permission_snapshot = permission_intersection site.workspace payload.requested_roles;
    status = draft;
    version = 1;
    title = payload.title;
    request = payload.request;
    system_scope = payload.system_scope;
    risk_level = payload.risk_level;
    requested_by = payload.requested_by;
    requested_roles = payload.requested_roles;
    allowed_paths = payload.allowed_paths;
    forbidden_actions = payload.forbidden_actions;
    evidence_required = payload.evidence_required;
    execution_state = "NOT_EXECUTED";
    created_at = moment.now;
    updated_at = moment.now;
  }

  -- The transaction of `create_task`; the answer is the task, and whether it is a replay.
  unfoldable pub insert_task :
      GovernedTaskCreate → String → Moment → Db → Result OpError ((TaskRow × Bool) × Db)
  insert_task payload key moment db = elim (find_key key db.governed_tasks) [
    | some existing ↦ do
      raise_if (not (existing.payload_fingerprint == site.digests.fingerprint payload))
          idempotency_key_payload_mismatch
      ok ((existing, true), db)
    | none ↦ do
      let row = new_task payload key moment
      raise_if (any (λ other. other.task_id == row.task_id) db.governed_tasks) integrity_error
      audited ←
          audit site.digests (some row.task_id) "TASK_DRAFT_CREATED" payload.requested_by
            (draft_created site.workspace.workspace_id payload.risk_level
              site.workspace.policy_pack_id
              (site.digests.snapshot_hash
                (permission_intersection site.workspace payload.requested_roles)))
            moment.audited_at (record db { governed_tasks = db.governed_tasks ++ row ∷ [] })
      ok ((row, false), audited)
  ]

  -- `create_task`
  unfoldable pub create_task :
      GovernedTaskCreate → String → ℕ → Moment → Db → Result OpError (TaskRow × Bool) × Db
  create_task payload key bound_at moment db =
      if is_blank key || ltb 160 (count key)
      then (err idempotency_key_required, db)
      else initialized bound_at (insert_task payload key moment) db

  -- The row that `add_evidence` inserts.
  unfoldable pub new_evidence : EvidenceCreate → Moment → EvidenceRow
  new_evidence payload moment = record {
    evidence_id = concat "GWE-" moment.uid;
    task_id = payload.task_id;
    category = payload.category;
    source_type = payload.source_type;
    trust_level = payload.trust_level;
    raw_status = payload.raw_status;
    display_status = display_status_of payload.trust_level;
    summary = payload.summary;
    source_reference = payload.source_reference;
    metadata =
        put "scope_contract" (string "NO_CROSS_WORKSPACE_READ_WRITE")
          (put "workspace_id" (string site.workspace.workspace_id) payload.metadata);
    created_by = payload.actor_id;
    created_at = moment.now;
    content_hash = site.digests.evidence_hash payload site.workspace.workspace_id;
  }

  -- The transaction of `add_evidence`.
  unfoldable pub insert_evidence : EvidenceCreate → Moment → Db → Result OpError (EvidenceRow × Db)
  insert_evidence payload moment db = do
    check_owner payload.task_id db
    let row = new_evidence payload moment
    raise_if (any (λ other. other.evidence_id == row.evidence_id) db.evidence_records)
        integrity_error
    raise_if (not (refers row.task_id db.governed_tasks)) integrity_error
    audited ←
        audit site.digests payload.task_id "EVIDENCE_RECORDED" payload.actor_id
          (evidence_recorded site.workspace.workspace_id row.evidence_id payload.category
            payload.trust_level)
          moment.audited_at (record db { evidence_records = db.evidence_records ++ row ∷ [] })
    ok (row, audited)

  -- `add_evidence`
  unfoldable pub add_evidence : EvidenceCreate → ℕ → Moment → Db → Result OpError EvidenceRow × Db
  add_evidence payload bound_at moment db = initialized bound_at (insert_evidence payload moment) db

  -- The event that `_record_transition` inserts.
  unfoldable pub new_event : TaskRow → TaskStatus → TransitionRequest → Moment → Db → TransitionRow
  new_event row destination payload moment db =
      let content : TransitionRecord = record {
        event_id = concat "GWT-" moment.uid;
        task_id = row.task_id;
        from_status = row.status;
        to_status = destination;
        actor_id = payload.actor_id;
        rationale = payload.rationale;
        evidence_ids = payload.evidence_ids;
        occurred_at = moment.now;
        previous_hash = elim (latest site.later row.task_id none db.task_transition_events) [
          | none ↦ none
          | some prior ↦ some prior.event_hash
        ];
      } in
      record { content = content; event_hash = site.digests.transition_hash content }

  -- `_record_transition`
  unfoldable pub record_transition :
      TaskRow → TaskStatus → TransitionRequest → Moment → Db → Result OpError (TaskRow × Db)
  record_transition row destination payload moment db = do
    raise_if (not (allowed_transition row.status destination)) invalid_task_transition
    raise_if (not (nat_eq payload.expected_version row.version)) task_version_conflict
    let event = new_event row destination payload moment db
    raise_if
        (any (λ other. other.content.event_id == event.content.event_id) db.task_transition_events)
        integrity_error
    raise_if (not (refers (some row.task_id) db.governed_tasks)) integrity_error
    let written : Db = record db {
      task_transition_events = db.task_transition_events ++ event ∷ [];
      governed_tasks =
          update_task row.task_id destination (suc row.version) moment.now db.governed_tasks;
    }
    updated ← row_task row.task_id written
    audited ←
        audit site.digests (some row.task_id) "TASK_TRANSITION" payload.actor_id
          (transitioned row.status destination event.content.event_id updated.workspace_id)
          moment.audited_at written
    ok (updated, audited)

  -- The transaction of `transition`.
  unfoldable pub move_task :
      String → TaskStatus → TransitionRequest → Moment → Db → Result OpError (TaskRow × Db)
  move_task task_id destination payload moment db = do
    checked ← checked_task_id task_id
    row ← row_task checked db
    record_transition row destination payload moment db

  -- `transition`
  unfoldable pub transition :
      String → TaskStatus → TransitionRequest → ℕ → Moment → Db → Result OpError TaskRow × Db
  transition task_id destination payload bound_at moment db =
      initialized bound_at (move_task task_id destination payload moment) db

  -- The row that `review` inserts.
  unfoldable pub new_review : String → ReviewRequest → Moment → ReviewRow
  new_review task_id payload moment =
      let review_id = concat "GWR-" moment.uid in
      record {
        review_id = review_id;
        task_id = task_id;
        decision = payload.decision;
        reviewer_id = payload.actor_id;
        rationale = payload.rationale;
        evidence_ids = payload.evidence_ids;
        created_at = moment.now;
        event_hash = site.digests.review_hash review_id task_id payload site.workspace.workspace_id;
      }

  -- The review's own row and event.
  unfoldable pub insert_review : String → ReviewRequest → Moment → Db → Result OpError Db
  insert_review task_id payload moment db = do
    let entry = new_review task_id payload moment
    raise_if (any (λ other. other.review_id == entry.review_id) db.human_reviews) integrity_error
    raise_if (not (refers (some task_id) db.governed_tasks)) integrity_error
    audit site.digests (some task_id) "HUMAN_REVIEW_RECORDED" payload.actor_id
        (review_recorded entry.review_id payload.decision site.workspace.workspace_id)
        moment.audited_at (record db { human_reviews = db.human_reviews ++ entry ∷ [] })

  -- The transaction of `review`.
  unfoldable pub decide :
      String → ReviewRequest → Moment → Moment → Db → Result OpError (TaskRow × Db)
  decide task_id payload moved reviewed db = do
    checked ← checked_task_id task_id
    row ← row_task checked db
    check_review row payload db
    (updated, written) ←
        record_transition row (destination_of payload.decision) payload.transition_request moved db
    audited ← insert_review task_id payload reviewed written
    ok (updated, audited)

  -- `review`
  unfoldable pub review :
      String → ReviewRequest → ℕ → Moment → Moment → Db → Result OpError TaskRow × Db
  review task_id payload bound_at moved reviewed db =
      initialized bound_at (decide task_id payload moved reviewed) db

-- The calls of the router that write.
pub data Call : Type 0 where
  create : GovernedTaskCreate → String → ℕ → Moment → Call
  evidence : EvidenceCreate → ℕ → Moment → Call
  submit start_review archive : String → TransitionRequest → ℕ → Moment → Call
  judge : String → ReviewRequest → ℕ → Moment → Moment → Call

-- An answer of a call: the task and whether it is a replay, the evidence, or the task.
pub data Answer : Type 0 where
  created : TaskRow → Bool → Answer
  recorded_evidence : EvidenceRow → Answer
  moved : TaskRow → Answer

abbrev pub answered :
    {A : Type 0} → (A → Answer) → Result OpError A × Db → Result OpError Answer × Db
answered f (ok a, db) = (ok (f a), db)
answered f (err e, db) = (err e, db)

unfoldable pub handle : Site → Call → Db → Result OpError Answer × Db
handle site (create payload key bound_at moment) db =
    answered (λ answer. created answer.0 answer.1) (create_task site payload key bound_at moment db)
handle site (evidence payload bound_at moment) db =
    answered recorded_evidence (add_evidence site payload bound_at moment db)
handle site (submit task_id payload bound_at moment) db =
    answered moved (transition site task_id inbox payload bound_at moment db)
handle site (start_review task_id payload bound_at moment) db =
    answered moved (transition site task_id under_review payload bound_at moment db)
handle site (archive task_id payload bound_at moment) db =
    answered moved (transition site task_id archived payload bound_at moment db)
handle site (judge task_id payload bound_at moved_at reviewed_at) db =
    answered moved (review site task_id payload bound_at moved_at reviewed_at db)

-- The calls in the order in which they are handled.
unfoldable pub handle_all : Site → List Call → Db → Db
handle_all site [] db = db
handle_all site (call ∷ calls) db = handle_all site calls (handle site call db).1
