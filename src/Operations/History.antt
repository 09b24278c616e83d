-- ===== src/Operations/History.antt =====
-- governed_operations/store.py: the operations that only read, and `task_integrity`, on a database that is
-- there. Their answers are rows; a status that no task can have is left out of `list_tasks`.
pub mod Intact
pub mod Recorded
use palwakf_agentic_ai_syste.Prelude.{
  ℕ, suc, String, Bool, true, false, ◌||◌, ◌&&◌, not, Option, none, some, List, [], ◌∷◌, ◌++◌, ◌==◌,
  if◌then◌else◌, ltb, nat_eq, take, is_empty, length, Result, ok, err, ◌>>=◌, ◌>>◌,
}
use palwakf_agentic_ai_syste.Operations.Schema.{
  TaskStatus, draft, inbox, under_review, approved, rejected, returned, archived, TaskRow,
  TransitionRow, ReviewRow, EvidenceRow, Db, OpError, Digests,
}
use palwakf_agentic_ai_syste.Operations.Audit.{opt_eq}
use palwakf_agentic_ai_syste.Operations.Tasks.{
  checked_task_id, row_task, missing_categories, present_categories,
}

-- `ORDER BY` a time. SQL does not say which of two rows with the same time comes first: `tied` says
-- whether it is the one inserted later.
unfoldable pub insert_by : {A : Type 0} → (A → ℕ) → Bool → A → List A → List A
insert_by time tied x [] = x ∷ []
insert_by time tied x (y ∷ ys) =
    let rest = insert_by time tied x ys in
    if ltb (time y) (time x) || (tied && nat_eq (time y) (time x)) then y ∷ rest else x ∷ y ∷ ys

unfoldable pub order_by : {A : Type 0} → (A → ℕ) → Bool → List A → List A
order_by time tied [] = []
order_by time tied (x ∷ xs) = insert_by time tied x (order_by time tied xs)

unfoldable pub reverse_onto : {A : Type 0} → List A → List A → List A
reverse_onto [] ys = ys
reverse_onto (x ∷ xs) ys = reverse_onto xs (x ∷ ys)

-- `ORDER BY ... DESC`
abbrev pub order_desc : {A : Type 0} → (A → ℕ) → Bool → List A → List A
order_desc time tied rows = reverse_onto (order_by time (not tied) rows) []

-- `WHERE task_id=?`
unfoldable pub events_of : String → List TransitionRow → List TransitionRow
events_of task_id [] = []
events_of task_id (row ∷ rows) =
    let rest = events_of task_id rows in if row.content.task_id == task_id then row ∷ rest else rest

-- `list_history`, of a task that is there
unfoldable pub list_history : Bool → String → Db → Result OpError (List TransitionRow)
list_history tied task_id db = do
  checked ← checked_task_id task_id
  row ← row_task checked db
  ok (order_by (λ e. e.content.occurred_at) tied (events_of task_id db.task_transition_events))

pub data EventFailure : Type 0 where
  previous_hash_mismatch event_hash_mismatch : String → EventFailure

pub record TaskIntegrity : Type 0 where
  pub event_count : ℕ
  pub failures : List EventFailure
  pub terminal_hash : Option String

-- The failures that one event adds.
unfoldable pub event_failures : Digests → Option String → TransitionRow → List EventFailure
event_failures h previous row =
    (if opt_eq row.content.previous_hash previous
      then []
      else previous_hash_mismatch row.content.event_id ∷ [])
    ++ (if row.event_hash == h.transition_hash row.content
        then []
        else event_hash_mismatch row.content.event_id ∷ [])

-- The loop of `task_integrity`
unfoldable pub check_events :
    Digests → Option String → List TransitionRow → List EventFailure × Option String
check_events h previous [] = ([], previous)
check_events h previous (row ∷ rows) =
    let (failures, terminal) = check_events h (some row.event_hash) rows in
    (event_failures h previous row ++ failures, terminal)

-- `task_integrity`
unfoldable pub task_integrity : Digests → Bool → String → Db → Result OpError TaskIntegrity
task_integrity h tied task_id db = do
  history ← list_history tied task_id db
  let (failures, terminal) = check_events h none history
  ok (record { event_count = length history; failures = failures; terminal_hash = terminal })

-- `get_task`
unfoldable pub get_task : String → Db → Result OpError TaskRow
get_task task_id db = do checked ← checked_task_id task_id; row_task checked db

-- `==` of two statuses
abbrev pub status_code : TaskStatus → ℕ
status_code draft = 0
status_code inbox = 1
status_code under_review = 2
status_code approved = 3
status_code rejected = 4
status_code returned = 5
status_code archived = 6

-- `WHERE status=?`
unfoldable pub with_status : Option TaskStatus → List TaskRow → List TaskRow
with_status none rows = rows
with_status (some status) [] = []
with_status (some status) (row ∷ rows) =
    let rest = with_status (some status) rows in
    if nat_eq (status_code row.status) (status_code status) then row ∷ rest else rest

-- `min(max(limit, 1), 250)`
abbrev pub clamp : ℕ → ℕ
clamp limit = if ltb limit 1 then 1 else if ltb 250 limit then 250 else limit

-- `list_tasks`
unfoldable pub list_tasks : Bool → Option TaskStatus → ℕ → Db → List TaskRow
list_tasks tied status limit db =
    take (clamp limit) (order_desc (λ t. t.updated_at) tied (with_status status db.governed_tasks))

-- `task_readiness`: the row, and the categories that are missing
unfoldable pub task_readiness : String → Db → Result OpError (TaskRow × List String)
task_readiness task_id db = do
  checked ← checked_task_id task_id
  row ← row_task checked db
  ok (row, missing_categories row db)

unfoldable pub reviews_of : String → List ReviewRow → List ReviewRow
reviews_of task_id [] = []
reviews_of task_id (row ∷ rows) =
    let rest = reviews_of task_id rows in if row.task_id == task_id then row ∷ rest else rest

-- `list_reviews`
unfoldable pub list_reviews : Bool → Option String → Db → Result OpError (List ReviewRow)
list_reviews tied none db = ok (order_desc (λ r. r.created_at) tied db.human_reviews)
list_reviews tied (some task_id) db =
    if task_id == "" then ok (order_desc (λ r. r.created_at) tied db.human_reviews) else do
      row ← row_task task_id db
      ok (order_desc (λ r. r.created_at) tied (reviews_of task_id db.human_reviews))

unfoldable pub evidence_of : String → List EvidenceRow → List EvidenceRow
evidence_of task_id [] = []
evidence_of task_id (row ∷ rows) =
    let rest = evidence_of task_id rows in
    if opt_eq row.task_id (some task_id) then row ∷ rest else rest

-- `list_evidence`
unfoldable pub list_evidence : Bool → Option String → Db → Result OpError (List EvidenceRow)
list_evidence tied none db = ok (order_desc (λ e. e.created_at) tied db.evidence_records)
list_evidence tied (some task_id) db =
    if task_id == "" then ok (order_desc (λ e. e.created_at) tied db.evidence_records) else do
      row ← row_task task_id db
      ok (order_desc (λ e. e.created_at) tied (evidence_of task_id db.evidence_records))
