-- ===== src/Operations/Tasks.antt =====
-- governed_operations/store.py: the task ids, the permitted transitions, the permission snapshot, the
-- reading of a task and the evidence gate.
use palwakf_agentic_ai_syste.Prelude.{
  ℕ, String, Bool, true, false, ◌&&◌, ◌||◌, not, Option, none, some, List, [], ◌∷◌, map, ◌==◌,
  if◌then◌else◌, ltb, nat_eq, Result, ok, err, ◌>>◌, raise_if, contains,
}
use palwakf_agentic_ai_syste.Prelude.Text.{strip, is_blank, sorted_set}
use palwakf_agentic_ai_syste.Operations.Schema.{
  TaskStatus, draft, inbox, under_review, approved, rejected, returned, archived, TrustLevel,
  official, verified, working, unverified, WorkspacePolicy, PermissionSnapshot, TaskRow,
  TransitionRow, EvidenceRow, Db, OpError, invalid_workspace_governed_task_id,
  workspace_governed_task_not_found,
}
use text.Mathlib.Text.{starts_with}
use Prim.Native.String.{count}

-- `_ALLOWED_TRANSITIONS`
unfoldable pub allowed_transition : TaskStatus → TaskStatus → Bool
allowed_transition draft inbox = true
allowed_transition draft archived = true
allowed_transition inbox under_review = true
allowed_transition inbox archived = true
allowed_transition under_review approved = true
allowed_transition under_review rejected = true
allowed_transition under_review returned = true
allowed_transition returned inbox = true
allowed_transition returned archived = true
allowed_transition approved archived = true
allowed_transition rejected archived = true
allowed_transition _ _ = false

-- `_DISPLAY_STATUS`
unfoldable pub display_status_of : TrustLevel → String
display_status_of official = "\u{631}\u{633}\u{645}\u{64a}"
display_status_of verified = "\u{645}\u{62a}\u{62d}\u{642}\u{642}"
display_status_of working =
    "\u{642}\u{64a}\u{62f} \u{627}\u{644}\u{645}\u{631}\u{627}\u{62c}\u{639}\u{629}"
display_status_of unverified = "\u{63a}\u{64a}\u{631} \u{645}\u{62a}\u{62d}\u{642}\u{642}"

-- `_task_id`
unfoldable pub checked_task_id : String → Result OpError String
checked_task_id value = do
  raise_if (not (starts_with value "GWS-") || ltb 48 (count value))
      invalid_workspace_governed_task_id
  ok value

abbrev pub non_blank : List String → List String
non_blank [] = []
non_blank (x ∷ xs) = if is_blank x then non_blank xs else x ∷ non_blank xs

abbrev pub permitted : List String → List String
permitted [] = []
permitted (role ∷ roles) =
    if contains role (
      "coordinator" ∷ "sovereignty_reviewer" ∷ "documentation_handoff" ∷ "knowledge_researcher"
      ∷ [])
    then role ∷ permitted roles
    else permitted roles

-- `_permission_intersection`
unfoldable pub permission_intersection : WorkspacePolicy → List String → PermissionSnapshot
permission_intersection workspace roles =
    let requested = sorted_set (non_blank (map strip roles)) in
    record {
      policy = workspace;
      requested_roles = requested;
      permitted_roles = permitted requested;
    }

-- The row that a primary key selects.
unfoldable pub find_task : String → List TaskRow → Option TaskRow
find_task task_id [] = none
find_task task_id (row ∷ rows) = if row.task_id == task_id then some row else find_task task_id rows

-- The row of an idempotency key, which is UNIQUE.
unfoldable pub find_key : String → List TaskRow → Option TaskRow
find_key key [] = none
find_key key (row ∷ rows) = if row.idempotency_key == key then some row else find_key key rows

-- `_row_task`
unfoldable pub row_task : String → Db → Result OpError TaskRow
row_task task_id db = elim (find_task task_id db.governed_tasks) [
  | none ↦ err workspace_governed_task_not_found
  | some row ↦ ok row
]

-- The categories of the evidence recorded for a task.
unfoldable pub present_categories : String → List EvidenceRow → List String
present_categories task_id [] = []
present_categories task_id (row ∷ rows) = elim row.task_id [
  | none ↦ present_categories task_id rows
  | some owner ↦
      if owner == task_id
      then row.category ∷ present_categories task_id rows
      else present_categories task_id rows
]

unfoldable pub missing : List String → List String → List String
missing [] present = []
missing (item ∷ required) present =
    if contains item present then missing required present else item ∷ missing required present

-- `_required_evidence`: the missing categories, none of which is the gate's PASS.
unfoldable pub missing_categories : TaskRow → Db → List String
missing_categories row db =
    missing row.evidence_required (present_categories row.task_id db.evidence_records)

-- The event of a task with the greatest time. SQL does not say which of two events with the same time
-- comes first: `later` says whether it is the one inserted later.
unfoldable pub latest :
    Bool → String → Option TransitionRow → List TransitionRow → Option TransitionRow
latest later task_id best [] = best
latest later task_id best (row ∷ rows) =
    if row.content.task_id == task_id
    then latest later task_id
        (elim best [
          | none ↦ some row
          | some other ↦
              if ltb other.content.occurred_at row.content.occurred_at
                || (later && nat_eq other.content.occurred_at row.content.occurred_at)
              then some row
              else some other
        ])
        rows
    else latest later task_id best rows

-- `UPDATE governed_tasks SET status=?, version=?, updated_at=? WHERE task_id=?`
unfoldable pub update_task : String → TaskStatus → ℕ → ℕ → List TaskRow → List TaskRow
update_task task_id destination revision now [] = []
update_task task_id destination revision now (row ∷ rows) =
    (if row.task_id == task_id
      then record row { status = destination; version = revision; updated_at = now }
      else row)
    ∷ update_task task_id destination revision now rows
