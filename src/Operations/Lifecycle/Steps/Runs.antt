-- ===== src/Operations/Lifecycle/Steps/Runs.antt =====
-- The calls of governed_operations/router.py as runs of transactions.
use palwakf_agentic_ai_syste.Prelude.{
  ℕ, String, ◌≡◌, refl, ◌∙◌, ◌≢◌, inl, inr, Bool, true, false, not, List, [], ◌∷◌, any, Result, ok,
  err, ◌||◌, ltb, >>=-eq-ok, raise_if-eq-ok, arith, ◌==◌, Option-cases, Bool-cases,
}
use palwakf_agentic_ai_syste.Prelude.Text.{is_blank}
use Prim.Native.String.{count}
use palwakf_agentic_ai_syste.Operations.Schema.{
  TaskStatus, approved, inbox, under_review, archived, GovernedTaskCreate, TransitionRequest,
  ReviewRequest, EvidenceCreate, TaskRow, EvidenceRow, Db, OpError, integrity_error,
}
use palwakf_agentic_ai_syste.Operations.Audit.{audit, refers}
use palwakf_agentic_ai_syste.Operations.Tasks.{checked_task_id, find_key, row_task}
use palwakf_agentic_ai_syste.Operations.Lifecycle.{
  Moment, Site, transact, after_binding, bind_workspace, initialized, new_task, insert_task,
  create_task, new_evidence, insert_evidence, add_evidence, record_transition, move_task,
  transition, destination_of, check_review, check_owner, insert_review, decide, review, Call,
  create, evidence, submit, start_review, archive, judge, Answer, answered, handle, handle_all,
}
use palwakf_agentic_ai_syste.Operations.Lifecycle.Steps.{
  IsMoveAudited, IsTask, Step, bound, task_added, evidence_added, task_moved, task_reviewed, Run,
  done, Run-trans, one,
}
use palwakf_agentic_ai_syste.Operations.Lifecycle.Steps.Inversion.{
  find_task-none, row_task-eq-ok, record_transition-eq-ok, checked_task_id-eq, check_review-eq-ok,
  insert_review-eq-ok,
}

module _ (site : Site) where
  insert_task-Run :
      (payload : GovernedTaskCreate) (key : String) (moment : Moment) (db db' : Db)
      (answer : TaskRow × Bool)
      → insert_task site payload key moment db ≡ ok (answer, db')
      → Run site db db'
  unfolding insert_task
  insert_task-Run payload key moment db db' answer e =
      elim (Option-cases (find_key key db.governed_tasks)) [
        | inr (existing, h) ↦ let same : db' ≡ db = ground arith in rw same done
        | inl h ↦
            let (fresh, e1) =
              raise_if-eq-ok
                (any (λ other. other.task_id == (new_task site payload key moment).task_id)
                  db.governed_tasks)
                integrity_error _ (rw (insert_task, h) at e) in
            let (audited, a, e2) = >>=-eq-ok (audit site.digests _ _ _ _ _ _) _ e1 in
            let same : db' ≡ audited = ground arith in
            one site (
              task_added payload key moment h
                (find_task-none (new_task site payload key moment).task_id db.governed_tasks fresh)
                (rw same a))
      ]

  move_task-Run :
      (task_id : String) (destination : TaskStatus) (payload : TransitionRequest) (moment : Moment)
      (db db' : Db) (answer : TaskRow)
      → destination ≢ approved
      → move_task site task_id destination payload moment db ≡ ok (answer, db')
      → Run site db db'
  unfolding move_task
  move_task-Run task_id destination payload moment db db' answer n e =
      let (checked, c, e1) = >>=-eq-ok (checked_task_id task_id) _ e in
      let (row, r, e2) = >>=-eq-ok (row_task checked db) _ e1 in
      let (permitted, current, a) =
        record_transition-eq-ok site row answer destination payload moment db db' e2 in
      one site (
        task_moved row destination payload moment (row_task-eq-ok checked db row r).1 n permitted
          current a)

  insert_evidence-Run :
      (payload : EvidenceCreate) (moment : Moment) (db db' : Db) (answer : EvidenceRow)
      → insert_evidence site payload moment db ≡ ok (answer, db')
      → Run site db db'
  unfolding insert_evidence
  insert_evidence-Run payload moment db db' answer e =
      let row = new_evidence site payload moment in
      let (_, _, e1) = >>=-eq-ok (check_owner payload.task_id db) _ e in
      let (_, e2) =
        raise_if-eq-ok (any (λ other. other.evidence_id == row.evidence_id) db.evidence_records)
          integrity_error _ e1 in
      let (_, e3) =
        raise_if-eq-ok (not (refers row.task_id db.governed_tasks)) integrity_error _ e2 in
      let (audited, a, e4) = >>=-eq-ok (audit site.digests _ _ _ _ _ _) _ e3 in
      let same : db' ≡ audited = ground arith in
      one site (evidence_added payload moment (rw same a))

  decided-Step :
      (task_id : String) (row : TaskRow) (payload : ReviewRequest) (moved_at reviewed_at : Moment)
      (db mid audited db' : Db)
      → row.task_id ≡ task_id
      → db' ≡ audited
      → IsTask site db row
      → check_review row payload db ≡ ok tt
      → IsMoveAudited site row
          (destination_of payload.decision)
          payload.transition_request
          moved_at
          db
          mid
      → insert_review site task_id payload reviewed_at mid ≡ ok audited
      → Step site db db'
  decided-Step task_id row payload moved_at reviewed_at db mid audited db' owner same found g
        written a =
      let (under, current, gate) = check_review-eq-ok row payload db g in
      task_reviewed row payload moved_at reviewed_at found under current gate written
        (rw (owner, same) (insert_review-eq-ok site task_id payload reviewed_at mid audited a))

  decide-Run :
      (task_id : String) (payload : ReviewRequest) (moved_at reviewed_at : Moment) (db db' : Db)
      (answer : TaskRow)
      → decide site task_id payload moved_at reviewed_at db ≡ ok (answer, db')
      → Run site db db'
  unfolding decide
  decide-Run task_id payload moved_at reviewed_at db db' answer e =
      let (checked, c, e1) = >>=-eq-ok (checked_task_id task_id) _ e in
      let (row, r, e2) = >>=-eq-ok (row_task checked db) _ e1 in
      let (_, g, e3) = >>=-eq-ok (check_review row payload db) _ e2 in
      let (moved, m, e4) =
        >>=-eq-ok
          (record_transition site row (destination_of payload.decision) payload.transition_request
            moved_at db)
          _ e3 in
      let (audited, a, e5) =
        >>=-eq-ok (insert_review site task_id payload reviewed_at moved.1) _ e4 in
      let same : db' ≡ audited = ground arith in
      let (named, found) = row_task-eq-ok checked db row r in
      let owner : row.task_id ≡ task_id = named ∙ checked_task_id-eq task_id checked c in
      let (_, _, written) =
        record_transition-eq-ok site row moved.0 (destination_of payload.decision)
          payload.transition_request moved_at db moved.1 m in
      one site (
        decided-Step task_id row payload moved_at reviewed_at db moved.1 audited db' owner same
          found g written a)

  -- The binding is one audited step, or none.
  bind_workspace-Run :
      (now : ℕ) (db db' : Db) → bind_workspace site now db ≡ ok (tt, db') → Run site db db'
  unfolding bind_workspace
  bind_workspace-Run now db db' e =
      elim (Bool-cases
        (any (λ row. row.event_type == "WORKSPACE_OPERATIONS_BOUND") db.audit_events)) [
          | inl h ↦ let same : db' ≡ db = ground arith in rw same done
          | inr h ↦
              let (audited, a, e1) =
                >>=-eq-ok (audit site.digests _ _ _ _ _ _) _ (rw (bind_workspace, h) at e) in
              let same : db' ≡ audited = ground arith in one site (bound now h (rw same a))
        ]

  transact-Run :
      {A : Type 0} (block : Db → Result OpError (A × Db)) (db : Db)
      → ((db' : Db) (answer : A) → block db ≡ ok (answer, db') → Run site db db')
      → Run site db (transact block db).1
  transact-Run {A = A} block db f = go (block db) refl
    where
      go : (m : Result OpError (A × Db)) → block db ≡ m → Run site db (transact block db).1
      go (ok (answer, written)) h = rw (transact, h) (f written answer h)
      go (err x) h = rw (transact, h) done

  after_binding-Run :
      {A : Type 0} (block : Db → Result OpError (A × Db)) (db : Db)
      (r : Result OpError (Unit {0}) × Db)
      → ((bound_db db' : Db) (answer : A)
          → block bound_db ≡ ok (answer, db')
          → Run site bound_db db')
      → Run site db r.1
      → Run site db (after_binding block r).1
  after_binding-Run block db (ok _, bound_db) f run =
      Run-trans site run (transact-Run block bound_db (f bound_db))
  after_binding-Run block db (err e, bound_db) f run = run

  initialized-Run :
      {A : Type 0} (now : ℕ) (block : Db → Result OpError (A × Db)) (db : Db)
      → ((bound_db db' : Db) (answer : A)
          → block bound_db ≡ ok (answer, db')
          → Run site bound_db db')
      → Run site db (initialized site now block db).1
  initialized-Run now block db f =
      after_binding-Run block db (transact (bind_workspace site now) db) f
        (transact-Run (bind_workspace site now) db (λ db' _ e. bind_workspace-Run now db db' e))

  create_task-Run :
      (payload : GovernedTaskCreate) (key : String) (now : ℕ) (moment : Moment) (db : Db)
      → Run site db (create_task site payload key now moment db).1
  unfolding create_task
  create_task-Run payload key now moment db = go (is_blank key || ltb 160 (count key)) refl
    where
      go :
          (b : Bool)
          → is_blank key || ltb 160 (count key) ≡ b
          → Run site db (create_task site payload key now moment db).1
      go true h = rw (create_task, h) done
      go false h =
          rw (create_task, h)
            (initialized-Run now (insert_task site payload key moment) db
              (insert_task-Run payload key moment))

  answered-database :
      {A : Type 0} (f : A → Answer) (r : Result OpError A × Db) → (answered f r).1 ≡ r.1
  answered-database f (ok a, db) = refl
  answered-database f (err e, db) = refl

  -- Every call of the router, one that fails included, takes the database through transactions of the five
  -- kinds, each with its own audit event: the binding, if the log has none yet; a new task, whose key and id are new;
  -- new evidence; a permitted move of the expected version other than to approved; or a review, with its move, that
  -- checked the state and the version and, to approve, the evidence. An event has the type, the actor, the task and
  -- the payload of its kind.
  pub handle-Run : (call : Call) (db : Db) → Run site db (handle site call db).1
  unfolding handle add_evidence transition review
  handle-Run (create payload key now moment) db =
      rw answered-database (create_task-Run payload key now moment db)
  handle-Run (evidence payload now moment) db = rw answered-database (
      initialized-Run now (insert_evidence site payload moment) db
        (insert_evidence-Run payload moment))
  handle-Run (submit task_id payload now moment) db = rw answered-database (
      initialized-Run now (move_task site task_id inbox payload moment) db
        (λ b d a e. move_task-Run task_id inbox payload moment b d a (ground arith) e))
  handle-Run (start_review task_id payload now moment) db = rw answered-database (
      initialized-Run now (move_task site task_id under_review payload moment) db
        (λ b d a e. move_task-Run task_id under_review payload moment b d a (ground arith) e))
  handle-Run (archive task_id payload now moment) db = rw answered-database (
      initialized-Run now (move_task site task_id archived payload moment) db
        (λ b d a e. move_task-Run task_id archived payload moment b d a (ground arith) e))
  handle-Run (judge task_id payload now moved_at reviewed_at) db = rw answered-database (
      initialized-Run now (decide site task_id payload moved_at reviewed_at) db
        (decide-Run task_id payload moved_at reviewed_at))

  pub handle_all-Run : (calls : List Call) (db : Db) → Run site db (handle_all site calls db)
  unfolding handle_all
  handle_all-Run [] db = done
  handle_all-Run (call ∷ calls) db =
      Run-trans site (handle-Run call db) (handle_all-Run calls (handle site call db).1)
