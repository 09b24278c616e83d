-- ===== src/Operations/Lifecycle/Moves.antt =====
-- What a run of governed_operations/store.py does to a task: it is never lost, its status moves along
-- `_ALLOWED_TRANSITIONS`, and each move takes the next version.
use palwakf_agentic_ai_syste.Prelude.{
  ℕ, suc, String, ◌≡◌, refl, ◌∙◌, inl, inr, true, some, List, ◌==◌, Bool-cases, arith, eq_iff,
}
use palwakf_agentic_ai_syste.Operations.Schema.{
  TaskStatus, under_review, Decision, approve, reject, return, TaskRow, Db,
}
use palwakf_agentic_ai_syste.Operations.Tasks.{allowed_transition, find_task, update_task}
use palwakf_agentic_ai_syste.Operations.Lifecycle.{
  Site, new_task, new_evidence, new_review, destination_of, Call, handle_all,
}
use palwakf_agentic_ai_syste.Operations.Lifecycle.Steps.{
  with_task, with_evidence, with_review, with_move, IsTask, Step, bound, task_added, evidence_added,
  task_moved, task_reviewed, Run, done, next,
}
use palwakf_agentic_ai_syste.Operations.Lifecycle.Tables.{
  audited-tables, find_task-append-some, moved_row, find_task-update_task,
}
use palwakf_agentic_ai_syste.Operations.Lifecycle.Steps.Runs.{handle_all-Run}

-- Any number of permitted moves, each of which adds 1 to the version and changes nothing else of the task
-- but the time of its last change.
pub data Moves : TaskRow → TaskRow → Type 0 where
  stay : {row : TaskRow} → Moves row row
  move :
      {row last : TaskRow} (destination : TaskStatus) (now : ℕ)
      → allowed_transition row.status destination ≡ true
      → Moves (moved_row row destination (suc row.version) now) last
      → Moves row last

Moves-trans : {row mid last : TaskRow} → Moves row mid → Moves mid last → Moves row last
Moves-trans stay m = m
Moves-trans (move destination now a n) m = move destination now a (Moves-trans n m)

module _ (site : Site) where
  -- The task is still there, and moved at most as permitted.
  abbrev pub IsKept : String → TaskRow → Db → Type 0
  IsKept task_id row db =
      (last : TaskRow) × (find_task task_id db.governed_tasks ≡ some last) × Moves row last

  update-IsKept :
      (task_id : String) (found row : TaskRow) (destination : TaskStatus) (now : ℕ) (db db' : Db)
      → find_task task_id db.governed_tasks ≡ some found
      → IsTask site db row
      → allowed_transition row.status destination ≡ true
      → db'.governed_tasks
        ≡ update_task row.task_id destination (suc row.version) now db.governed_tasks
      → IsKept task_id found db'
  update-IsKept task_id found row destination now db db' f t a e =
      let looked =
        find_task-update_task row.task_id task_id destination (suc row.version) now
          db.governed_tasks found f in
      elim (Bool-cases (task_id == row.task_id)) [
        | inl h ↦
            let same : found ≡ row = ground (arith, eq_iff task_id row.task_id) in
            (
              moved_row row destination (suc row.version) now,
              ground (arith),
              rw same (move destination now a stay),
            )
        | inr h ↦ (found, ground arith, stay)
      ]

  allowed_destination_of :
      (decision : Decision) → allowed_transition under_review (destination_of decision) ≡ true
  unfolding allowed_transition destination_of
  allowed_destination_of approve = refl
  allowed_destination_of reject = refl
  allowed_destination_of return = refl

  Step-IsKept :
      (task_id : String) (row : TaskRow) {db db' : Db}
      → Step site db db'
      → find_task task_id db.governed_tasks ≡ some row
      → IsKept task_id row db'
  Step-IsKept task_id row {db = db} {db' = db'} (bound _ _ a) f =
      (row, rw (audited-tables site db db' (_, _, _, _, _, a)).0 f, stay)
  Step-IsKept task_id row {db = db} {db' = db'} (task_added payload key moment _ _ a) f =
      let added = new_task site payload key moment in
      (
        row,
        rw (audited-tables site (with_task db added) db' (_, _, _, _, _, a)).0
            (find_task-append-some task_id db.governed_tasks added row f),
        stay,
      )
  Step-IsKept task_id row {db = db} {db' = db'} (evidence_added payload moment a) f = (
    row,
    rw
        (audited-tables site (with_evidence db (new_evidence site payload moment)) db'
          (_, _, _, _, _, a)).0
        f,
    stay,
  )
  Step-IsKept task_id found {db = db} {db' = db'}
        (task_moved row destination payload moment t n permitted c (_, _, a)) f =
      update-IsKept task_id found row destination moment.now db db' f t permitted
        (audited-tables site (with_move site db row destination payload moment) db'
          (_, _, _, _, _, a)).0
  Step-IsKept task_id found {db = db} {db' = db'}
        (task_reviewed {mid = mid} row payload moved_at reviewed_at t under c g (_, _, a) b) f =
      let destination = destination_of payload.decision in
      let moved = with_move site db row destination payload.transition_request moved_at in
      let reviewed = with_review mid (new_review site row.task_id payload reviewed_at) in
      update-IsKept task_id found row destination moved_at.now db db' f t
        (rw under (allowed_destination_of payload.decision))
        ((audited-tables site reviewed db' (_, _, _, _, _, b)).0
          ∙ (audited-tables site moved mid (_, _, _, _, _, a)).0)

  Run-IsKept :
      (task_id : String) (row : TaskRow) {db db' : Db}
      → Run site db db'
      → find_task task_id db.governed_tasks ≡ some row
      → IsKept task_id row db'
  Run-IsKept task_id row done f = (row, f, stay)
  Run-IsKept task_id row (next s r) f =
      let (mid, g, m) = Step-IsKept task_id row s f in
      let (last, k, n) = Run-IsKept task_id mid r g in (last, k, Moves-trans m n)

  -- Whatever the calls, a task stays in the table, and what happens to it is a chain of moves that
  -- `_ALLOWED_TRANSITIONS` permits, each with the next version; no other column but `updated_at` changes.
  pub handle_all-IsKept :
      (task_id : String) (row : TaskRow) (calls : List Call) (db : Db)
      → find_task task_id db.governed_tasks ≡ some row
      → IsKept task_id row (handle_all site calls db)
  handle_all-IsKept task_id row calls db f = Run-IsKept task_id row (handle_all-Run site calls db) f
