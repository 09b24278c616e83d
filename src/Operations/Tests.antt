-- ===== src/Operations/Tests.antt =====
-- One workspace's task at concrete inputs: it is created, submitted, reviewed and approved.
use palwakf_agentic_ai_syste.Prelude.{
  contains, ℕ, String, ◌≡◌, refl, ◌↔◌, ◌⊎◌, inl, inr, arith, true, false, Option, none, some, List,
  [], ◌∷◌, map, ok, err, if◌then◌else◌, ◌==◌,
}
use palwakf_agentic_ai_syste.Operations.History.{
  order_by, list_history, insert_by, event_failures, check_events, events_of, TaskIntegrity,
  task_integrity,
}
use palwakf_agentic_ai_syste.Operations.History.Intact.{IsChronological, IsLinked, AreIntact}
use palwakf_agentic_ai_syste.Operations.History.Recorded.{record_transition-task_integrity}
use palwakf_agentic_ai_syste.Operations.Schema.{
  draft, inbox, TransitionRow, GovernedTaskCreate, TransitionRequest, ReviewRequest, EvidenceCreate,
  low, verified, approve, approved, under_review, approval_evidence_gate_blocked, TaskRow, AuditRow,
  Db, AuditPayload, operations_bound, draft_created, evidence_recorded, transitioned,
  review_recorded, workspace_governed_task_not_found, Digests, OpError,
}
use palwakf_agentic_ai_syste.Operations.Audit.{
  row_failures, refers, check_rows, audit, last_hash, recorded, audit_row, audit_integrity,
}
use palwakf_agentic_ai_syste.Operations.Audit.Chain.{IsChained, audit_integrity_iff}
use palwakf_agentic_ai_syste.Operations.Audit.Commitment.{NoCollision, audit_integrity-commits}
use palwakf_agentic_ai_syste.Operations.Tasks.{
  allowed_transition, latest, update_task, present_categories, missing_categories, missing,
  row_task, find_key, checked_task_id, find_task,
}
use palwakf_agentic_ai_syste.Operations.Lifecycle.{
  review, decide, check_review, transition, move_task, insert_task, Moment, Site, create_task, Call,
  create, evidence, submit, start_review, judge, archive, handle, handle_all, record_transition,
  destination_of, insert_review, new_event, new_review, bind_workspace, new_task, new_evidence,
  moved,
}
use palwakf_agentic_ai_syste.Operations.Lifecycle.Steps.{Run}
use palwakf_agentic_ai_syste.Operations.Lifecycle.Moves.{Moves, handle_all-IsKept}
use palwakf_agentic_ai_syste.Operations.Lifecycle.Gate.{IsGated, handle_all-IsGated}
use palwakf_agentic_ai_syste.Operations.Lifecycle.Audited.{handle_all-audit_integrity}
use palwakf_agentic_ai_syste.Operations.Lifecycle.Rollback.{handle-rollback}
use palwakf_agentic_ai_syste.Operations.Lifecycle.Replay.{create_task-replay}
use palwakf_agentic_ai_syste.Operations.Encoding.{
  write_payload, read_payload, read_payload-write_payload,
}
use Prim.Native.String.{◌++◌ as concat}
use palwakf_agentic_ai_syste.Operations.Lifecycle.Steps.Runs.{handle-Run}
use palwakf_agentic_ai_syste.Operations.Lifecycle.Stale.{handle-stale}

-- Digests that name what they digest.
abbrev hash_text : Option String → String
hash_text none = "-"
hash_text (some previous) = previous

abbrev payload_id : AuditPayload → String
payload_id (operations_bound a b c) = a
payload_id (draft_created a r b c) = a
payload_id (evidence_recorded a b c t) = b
payload_id (transitioned s t a b) = a
payload_id (review_recorded a d b) = a

abbrev digests : Digests
digests = record {
  audit_hash = λ r. concat (hash_text r.previous_hash) r.audit_id;
  audit_name = λ task event actor now payload. concat event (payload_id payload);
  transition_hash = λ r. r.event_id;
  review_hash = λ review_id task_id payload workspace. review_id;
  evidence_hash = λ payload workspace. payload.summary;
  snapshot_hash = λ snapshot. snapshot.policy.policy_hash;
  fingerprint = λ payload. payload.title;
  dumps = write_payload;
  loads = read_payload;
}

abbrev site : Site
site = record {
  digests = digests;
  workspace = record {
    workspace_id = "w1";
    policy_pack_id = "pack";
    policy_version = "1";
    lifecycle_state = "ACTIVE";
    human_review = "REQUIRED";
    policy_hash = "POLICY";
  };
  later = true;
}

-- The same, with a shorter text of the payload, which does not read back.
abbrev quick_site : Site
quick_site = record site { digests = record digests { dumps = payload_id } }

abbrev empty : Db
empty = record {
  governed_tasks = [];
  task_transition_events = [];
  human_reviews = [];
  evidence_records = [];
  audit_events = [];
}

abbrev at : String → ℕ → Moment
at uid now = record { uid = uid; now = now; audited_at = now }

abbrev task_create : GovernedTaskCreate
task_create = record {
  title = "Review the tests";
  request = "Look at the failing tests.";
  system_scope = "tests";
  risk_level = low;
  requested_by = "amal";
  requested_roles = "coordinator" ∷ [];
  allowed_paths = [];
  forbidden_actions = [];
  evidence_required = "log" ∷ [];
}

abbrev step_request : ℕ → TransitionRequest
step_request version = record {
  actor_id = "amal";
  rationale = "Ready for review.";
  evidence_ids = [];
  expected_version = version;
}

abbrev approval : ReviewRequest
approval = record { transition_request = step_request 3; decision = approve }

abbrev the_log : EvidenceCreate
the_log = record {
  actor_id = "amal";
  task_id = some "GWS-1";
  category = "log";
  source_type = "file";
  trust_level = verified;
  raw_status = "ok";
  summary = "The log of the tests.";
  source_reference = "log.txt";
  metadata = [];
}

-- The whole life of the task, with an approval before the evidence is there, which fails.
abbrev calls : List Call
calls =
    create task_create "key" 1 (at "1" 1)
    ∷ submit "GWS-1" (step_request 1) 2 (at "2" 2)
    ∷ start_review "GWS-1" (step_request 2) 3 (at "3" 3)
    ∷ judge "GWS-1" approval 4 (at "4" 4) (at "4" 4)
    ∷ evidence the_log 5 (at "5" 5)
    ∷ judge "GWS-1" approval 6 (at "6" 6) (at "6" 6)
    ∷ []

abbrev later_calls : List Call
later_calls = archive "GWS-1" (step_request 4) 7 (at "7" 7) ∷ []

abbrev created_db : Db
created_db = handle_all site (create task_create "key" 1 (at "1" 1) ∷ []) empty

test_archived :
    (handle site (archive "GWS-1" (step_request 4) 7 (at "7" 7)) empty).0
    ≡ err workspace_governed_task_not_found
unfolding handle transition bind_workspace audit refers move_task checked_task_id row_task find_task
test_archived = refl

sound_empty : (audit_integrity digests empty).passed ≡ true
unfolding audit_integrity check_rows
sound_empty = refl

nothing-IsGated : IsGated empty
unfolding find_task
nothing-IsGated task_id row f s = absurd (ground arith)

abbrev new_row : TaskRow
new_row = new_task site task_create "key" (at "1" 1)

found : find_task "GWS-1" created_db.governed_tasks ≡ some new_row
unfolding find_task handle_all handle create_task bind_workspace audit refers insert_task find_key
    audit_row new_task
found = refl

created_first : (create_task site task_create "key" 1 (at "1" 1) empty).0 ≡ ok (new_row, false)
unfolding create_task bind_workspace audit refers insert_task find_key audit_row new_task
created_first = refl

abbrev bound_row : AuditRow
bound_row =
    audit_row digests none none "WORKSPACE_OPERATIONS_BOUND" "system"
      (operations_bound "w1" "pack" "1") 1

abbrev bound_db : Db
bound_db = record empty { audit_events = bound_row ∷ [] }

sound_bound : (audit_integrity digests bound_db).passed ≡ true
unfolding audit_integrity check_rows row_failures audit_row recorded
sound_bound = refl

no_collision : NoCollision digests (bound_row ∷ []) (bound_row ∷ [])
no_collision a b (inl p) (inl q) e = rw (p, q) refl
no_collision a b (inl p) (inr q) e = absurd q
no_collision a b (inr p) q e = absurd p

-- The task as it stands when its review starts.
abbrev reviewing : Db
reviewing = record bound_db {
  governed_tasks = record new_row { status = under_review; version = 3 } ∷ [];
  evidence_records = new_evidence site the_log (at "5" 5) ∷ [];
}

test_approved :
    map
      (λ row. row.status)
      (handle quick_site
        (judge "GWS-1" approval 6 (at "6" 6) (at "6" 6))
        reviewing).1.governed_tasks
    ≡ approved ∷ []
unfolding handle review bind_workspace audit_row decide checked_task_id row_task find_task new_task
    check_review missing_categories missing contains present_categories new_evidence
    record_transition allowed_transition audit last_hash refers destination_of insert_review
    new_event new_review latest update_task
test_approved = refl

-- Without the evidence it is refused.
test_refused :
    (handle quick_site
      (judge "GWS-1" approval 6 (at "6" 6) (at "6" 6))
      (record reviewing { evidence_records = [] })).0
    ≡ err approval_evidence_gate_blocked
unfolding handle review bind_workspace audit_row decide checked_task_id row_task find_task new_task
    check_review missing_categories missing contains present_categories
test_refused = refl

abbrev approved_row : TaskRow
approved_row = record new_row { status = approved; version = 4; updated_at = 6 }

approved_first :
    (handle quick_site (judge "GWS-1" approval 6 (at "6" 6) (at "6" 6)) reviewing).0
    ≡ ok (moved approved_row)
unfolding handle review bind_workspace audit_row decide checked_task_id row_task find_task new_task
    check_review missing_categories missing contains present_categories new_evidence
    record_transition allowed_transition audit last_hash refers destination_of insert_review
    new_event new_review latest update_task
approved_first = refl

audit_integrity_iff_example :
    (((audit_integrity digests bound_db).passed ≡ true)
      ↔ IsChained digests none bound_db.audit_events)
    × ((audit_integrity digests bound_db).terminal_hash ≡ last_hash bound_db.audit_events)
audit_integrity_iff_example = audit_integrity_iff digests bound_db

audit_integrity-commits_example :
    map (recorded digests) bound_db.audit_events ≡ map (recorded digests) bound_db.audit_events
audit_integrity-commits_example =
    audit_integrity-commits digests bound_db bound_db sound_bound sound_bound refl no_collision

handle-Run_example : Run site empty (handle site (create task_create "key" 1 (at "1" 1)) empty).1
handle-Run_example = handle-Run site (create task_create "key" 1 (at "1" 1)) empty

handle_all-audit_integrity_example :
    (audit_integrity digests (handle_all site calls empty)).passed ≡ true
handle_all-audit_integrity_example =
    handle_all-audit_integrity site read_payload-write_payload calls empty sound_empty

handle_all-IsGated_example : IsGated (handle_all site calls empty)
handle_all-IsGated_example = handle_all-IsGated site calls empty nothing-IsGated

handle_all-IsKept_example :
    (last : TaskRow) × (find_task "GWS-1"
        (handle_all site
          (submit "GWS-1" (step_request 1) 2 (at "2" 2) ∷ [])
          created_db).governed_tasks
      ≡ some last)
    × Moves new_row last
handle_all-IsKept_example =
    handle_all-IsKept site "GWS-1" new_row (submit "GWS-1" (step_request 1) 2 (at "2" 2) ∷ [])
      created_db found

handle-rollback_example :
    let db = (handle site (archive "GWS-1" (step_request 4) 7 (at "7" 7)) empty).1 in
    (db ≡ empty) ⊎ ((now : ℕ) × (bind_workspace site now empty ≡ ok (tt, db)))
handle-rollback_example =
    handle-rollback site (archive "GWS-1" (step_request 4) 7 (at "7" 7)) empty
      workspace_governed_task_not_found test_archived

create_task-replay_example :
    let written = (create_task site task_create "key" 1 (at "1" 1) empty).1 in
    create_task site task_create "key" 8 (at "8" 8) written ≡ (ok (new_row, true), written)
create_task-replay_example =
    create_task-replay site task_create "key" 1 (at "1" 1) empty new_row false 8 (at "8" 8)
      created_first

handle-stale_example :
    let first = (handle quick_site (judge "GWS-1" approval 6 (at "6" 6) (at "6" 6)) reviewing).1 in
    (e : OpError) × ((handle quick_site
        (archive "GWS-1" (step_request 3) 8 (at "8" 8))
        (handle_all quick_site (evidence the_log 7 (at "7" 7) ∷ []) first)).0
      ≡ err e)
handle-stale_example =
    handle-stale quick_site (judge "GWS-1" approval 6 (at "6" 6) (at "6" 6))
      (archive "GWS-1" (step_request 3) 8 (at "8" 8)) "GWS-1" 3 (evidence the_log 7 (at "7" 7) ∷ [])
      reviewing (moved approved_row) (refl, refl) (refl, refl) approved_first

-- The task after its first move.
abbrev first_event : TransitionRow
first_event = record {
  content = record {
    event_id = "GWT-2";
    task_id = "GWS-1";
    from_status = draft;
    to_status = inbox;
    actor_id = "amal";
    rationale = "Ready for review.";
    evidence_ids = [];
    occurred_at = 2;
    previous_hash = none;
  };
  event_hash = "GWT-2";
}

abbrev inbox_row : TaskRow
inbox_row = record new_row { status = inbox; version = 2; updated_at = 2 }

abbrev submitted : Db
submitted = record bound_db {
  governed_tasks = inbox_row ∷ [];
  task_transition_events = first_event ∷ [];
}

abbrev second_event : TransitionRow
second_event = record {
  content = record first_event.content {
    event_id = "GWT-3";
    from_status = inbox;
    to_status = under_review;
    occurred_at = 3;
    previous_hash = some "GWT-2";
  };
  event_hash = "GWT-3";
}

abbrev started_row : TaskRow
started_row = record inbox_row { status = under_review; version = 3; updated_at = 3 }

abbrev started : Db
started = record submitted {
  governed_tasks = started_row ∷ [];
  task_transition_events = first_event ∷ second_event ∷ [];
  audit_events =
      bound_row
      ∷ audit_row digests (some bound_row.event_hash) (some "GWS-1") "TASK_TRANSITION" "amal"
          (transitioned inbox under_review "GWT-3" "w1") 3
      ∷ [];
}

started_first :
    record_transition site inbox_row under_review (step_request 2) (at "3" 3) submitted
    ≡ ok (started_row, started)
unfolding record_transition allowed_transition new_event refers new_task row_task find_task
    update_task audit audit_row latest last_hash
started_first = refl

submitted-AreIntact : AreIntact digests submitted.task_transition_events
unfolding events_of
submitted-AreIntact task_id =
    elim ("GWS-1" == task_id)
      as (λ b.
        IsChronological (if b then first_event ∷ [] else [])
        × IsLinked digests none (if b then first_event ∷ [] else [])) [
          | true ↦ ((tt, tt), (refl, refl, tt))
          | false ↦ (tt, tt)
        ]

abbrev started_answer : TaskIntegrity
started_answer = record { event_count = 2; failures = []; terminal_hash = some "GWT-3" }

started_integrity : task_integrity digests true "GWS-1" started ≡ ok started_answer
unfolding task_integrity list_history checked_task_id row_task find_task new_task order_by
    check_events events_of insert_by event_failures
started_integrity = refl

record_transition-task_integrity_example :
    AreIntact digests started.task_transition_events × (started_answer.failures ≡ [])
unfolding events_of new_task
record_transition-task_integrity_example =
    record_transition-task_integrity site inbox_row started_row under_review (step_request 2)
      (at "3" 3) submitted started true "GWS-1" started_answer submitted-AreIntact (omega arith, tt)
      started_first started_integrity
