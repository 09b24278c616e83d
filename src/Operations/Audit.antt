-- ===== src/Operations/Audit.antt =====
-- governed_operations/store.py: `_audit` and `audit_integrity`, the append-only log in which each event
-- carries the hash of the one before it.
pub mod Chain
pub mod Commitment
use palwakf_agentic_ai_syste.Prelude.{
  ℕ, suc, ◌+◌, String, ◌≡◌, Bool, true, false, ◌&&◌, not, Option, none, some, List, [], ◌∷◌, ◌++◌,
  any, ◌==◌, if◌then◌else◌, Result, ok, err, ◌>>=◌, ◌>>◌, raise_if,
}
use palwakf_agentic_ai_syste.Operations.Schema.{
  AuditPayload, AuditRecord, AuditRow, TaskRow, Db, OpError, integrity_error, Digests,
}

-- `event_hash` of the row with the greatest sequence number
unfoldable pub last_hash : List AuditRow → Option String
last_hash [] = none
last_hash (row ∷ []) = some row.event_hash
last_hash (row ∷ next ∷ rows) = last_hash (next ∷ rows)

-- A foreign key to `governed_tasks(task_id)`; NULL refers to nothing.
unfoldable pub refers : Option String → List TaskRow → Bool
refers none tasks = true
refers (some task_id) tasks = any (λ task. task.task_id == task_id) tasks

abbrev pub opt_eq : Option String → Option String → Bool
opt_eq none none = true
opt_eq none (some b) = false
opt_eq (some a) none = false
opt_eq (some a) (some b) = a == b

pub data Failure : Type 0 where
  previous_hash_mismatch event_hash_mismatch : ℕ → Failure

pub record Integrity : Type 0 where
  pub passed : Bool
  pub failures : List Failure
  pub terminal_hash : Option String

module _ (h : Digests) where
  -- The row that `_audit` inserts.
  unfoldable pub audit_row :
      Option String → Option String → String → String → AuditPayload → ℕ → AuditRow
  audit_row previous_hash task_id event_type actor_id payload now =
      let content : AuditRecord = record {
        audit_id = h.audit_name task_id event_type actor_id now payload;
        task_id = task_id;
        event_type = event_type;
        actor_id = actor_id;
        occurred_at = now;
        payload = payload;
        previous_hash = previous_hash;
      } in
      record {
        audit_id = content.audit_id;
        task_id = task_id;
        event_type = event_type;
        actor_id = actor_id;
        occurred_at = now;
        payload_json = h.dumps payload;
        previous_hash = previous_hash;
        event_hash = h.audit_hash content;
      }

  -- `_audit`; `audit_id` is unique, and `task_id` refers to a task.
  unfoldable pub audit : Option String → String → String → AuditPayload → ℕ → Db → Result OpError Db
  audit task_id event_type actor_id payload now db = do
    let row = audit_row (last_hash db.audit_events) task_id event_type actor_id payload now
    raise_if (any (λ other. other.audit_id == row.audit_id) db.audit_events) integrity_error
    raise_if (not (refers task_id db.governed_tasks)) integrity_error
    ok (record db { audit_events = db.audit_events ++ row ∷ [] })

  -- The record that `audit_integrity` hashes again.
  unfoldable pub recorded : AuditRow → AuditRecord
  recorded row = record {
    audit_id = row.audit_id;
    task_id = row.task_id;
    event_type = row.event_type;
    actor_id = row.actor_id;
    occurred_at = row.occurred_at;
    payload = h.loads row.payload_json;
    previous_hash = row.previous_hash;
  }

  -- The failures that one row adds.
  unfoldable pub row_failures : Option String → ℕ → AuditRow → List Failure
  row_failures previous sequence_no row =
      (if opt_eq row.previous_hash previous then [] else previous_hash_mismatch sequence_no ∷ [])
      ++ (if row.event_hash == h.audit_hash (recorded row)
          then []
          else event_hash_mismatch sequence_no ∷ [])

  -- The loop of `audit_integrity`: the failures, and the hash that it ends with.
  unfoldable pub check_rows : Option String → ℕ → List AuditRow → List Failure × Option String
  check_rows previous sequence_no [] = ([], previous)
  check_rows previous sequence_no (row ∷ rows) =
      let (failures, terminal) = check_rows (some row.event_hash) (suc sequence_no) rows in
      (row_failures previous sequence_no row ++ failures, terminal)

  -- `audit_integrity`
  unfoldable pub audit_integrity : Db → Integrity
  audit_integrity db =
      let (failures, terminal) = check_rows none 1 db.audit_events in
      record {
        passed = elim failures [ [] ↦ true | _ ↦ false ];
        failures = failures;
        terminal_hash = terminal;
      }
