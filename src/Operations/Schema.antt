-- ===== src/Operations/Schema.antt =====
-- governed_operations/contracts.py and the tables of `initialize_workspace`. A table is the list of its
-- rows in the order of insertion. A timestamp is a number: `isoformat` texts in UTC sort as the times do.
use palwakf_agentic_ai_syste.Prelude.Json.{Json}
use palwakf_agentic_ai_syste.Prelude.{ℕ, String, Option, List}

pub data TaskStatus : Type 0 where
  draft inbox under_review approved rejected returned archived : TaskStatus

pub data Decision : Type 0 where
  approve reject return : Decision

pub data TrustLevel : Type 0 where
  official verified working unverified : TrustLevel

pub data RiskLevel : Type 0 where
  low medium high critical : RiskLevel

pub record GovernedTaskCreate : Type 0 where
  pub title : String
  pub request : String
  pub system_scope : String
  pub risk_level : RiskLevel
  pub requested_by : String
  pub requested_roles : List String
  pub allowed_paths : List String
  pub forbidden_actions : List String
  pub evidence_required : List String

pub record TransitionRequest : Type 0 where
  pub actor_id : String
  pub rationale : String
  pub evidence_ids : List String
  pub expected_version : ℕ

pub record ReviewRequest : Type 0 where
  pub transition_request : TransitionRequest
  pub open transition_request use *
  pub decision : Decision

pub record EvidenceCreate : Type 0 where
  pub actor_id : String
  pub task_id : Option String
  pub category : String
  pub source_type : String
  pub trust_level : TrustLevel
  pub raw_status : String
  pub summary : String
  pub source_reference : String
  pub metadata : List (String × Json)

-- What `workspace_summary` and `workspace_policy` answer for the workspace, as far as it is recorded.
pub record WorkspacePolicy : Type 0 where
  pub workspace_id : String
  pub policy_pack_id : String
  pub policy_version : String
  pub lifecycle_state : String
  pub human_review : String
  pub policy_hash : String

-- The fields of `_permission_intersection` that depend on the workspace or on the request; the others
-- are the constants NONE, DENY, NOT_EXECUTED and the like.
pub record PermissionSnapshot : Type 0 where
  pub policy : WorkspacePolicy
  pub requested_roles : List String
  pub permitted_roles : List String

pub record TaskRow : Type 0 where
  pub task_id : String
  pub idempotency_key : String
  pub payload_fingerprint : String
  pub workspace_id : String
  pub policy_pack_id : String
  pub policy_version : String
  pub permission_snapshot : PermissionSnapshot
  pub status : TaskStatus
  pub version : ℕ
  pub title : String
  pub request : String
  pub system_scope : String
  pub risk_level : RiskLevel
  pub requested_by : String
  pub requested_roles : List String
  pub allowed_paths : List String
  pub forbidden_actions : List String
  pub evidence_required : List String
  pub execution_state : String
  pub created_at : ℕ
  pub updated_at : ℕ

-- The record that a transition event hashes, and its row.
pub record TransitionRecord : Type 0 where
  pub event_id : String
  pub task_id : String
  pub from_status : TaskStatus
  pub to_status : TaskStatus
  pub actor_id : String
  pub rationale : String
  pub evidence_ids : List String
  pub occurred_at : ℕ
  pub previous_hash : Option String

pub record TransitionRow : Type 0 where
  pub content : TransitionRecord
  pub event_hash : String

pub record ReviewRow : Type 0 where
  pub review_id : String
  pub task_id : String
  pub decision : Decision
  pub reviewer_id : String
  pub rationale : String
  pub evidence_ids : List String
  pub created_at : ℕ
  pub event_hash : String

pub record EvidenceRow : Type 0 where
  pub evidence_id : String
  pub task_id : Option String
  pub category : String
  pub source_type : String
  pub trust_level : TrustLevel
  pub raw_status : String
  pub display_status : String
  pub summary : String
  pub source_reference : String
  pub metadata : List (String × Json)
  pub created_by : String
  pub created_at : ℕ
  pub content_hash : String

-- The payloads of the audit events.
pub data AuditPayload : Type 0 where
  operations_bound : String → String → String → AuditPayload
  draft_created : String → RiskLevel → String → String → AuditPayload
  evidence_recorded : String → String → String → TrustLevel → AuditPayload
  transitioned : TaskStatus → TaskStatus → String → String → AuditPayload
  review_recorded : String → Decision → String → AuditPayload

-- The record that an audit event hashes, and its row, which holds the payload as JSON text.
pub record AuditRecord : Type 0 where
  pub audit_id : String
  pub task_id : Option String
  pub event_type : String
  pub actor_id : String
  pub occurred_at : ℕ
  pub payload : AuditPayload
  pub previous_hash : Option String

pub record AuditRow : Type 0 where
  pub audit_id : String
  pub task_id : Option String
  pub event_type : String
  pub actor_id : String
  pub occurred_at : ℕ
  pub payload_json : String
  pub previous_hash : Option String
  pub event_hash : String

pub record Db : Type 0 where
  pub governed_tasks : List TaskRow
  pub task_transition_events : List TransitionRow
  pub human_reviews : List ReviewRow
  pub evidence_records : List EvidenceRow
  pub audit_events : List AuditRow

-- `HTTPException` with the code of its detail, and SQLite's `IntegrityError`.
pub data OpError : Type 0 where
  invalid_workspace_governed_task_id workspace_governed_task_not_found : OpError
  idempotency_key_required idempotency_key_payload_mismatch : OpError
  invalid_task_transition task_version_conflict : OpError
  review_requires_under_review approval_evidence_gate_blocked : OpError
  integrity_error : OpError

-- The digests (`_hash(_json(record))`, SHA-256 of canonical JSON) and the JSON text of a payload.
pub record Digests : Type 0 where
  pub audit_hash : AuditRecord → String
  -- the text that `audit_id` is cut from, by its five parts
  pub audit_name : Option String → String → String → ℕ → AuditPayload → String
  pub transition_hash : TransitionRecord → String
  -- of the review's id, the task's id, the request and the workspace
  pub review_hash : String → String → ReviewRequest → String → String
  pub evidence_hash : EvidenceCreate → String → String
  pub snapshot_hash : PermissionSnapshot → String
  pub fingerprint : GovernedTaskCreate → String
  pub dumps : AuditPayload → String
  pub loads : String → AuditPayload
