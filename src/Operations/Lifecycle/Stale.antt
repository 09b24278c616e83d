-- ===== src/Operations/Lifecycle/Stale.antt =====
-- The version that a request to governed_operations expects: of two requests on one version, one is refused.
use palwakf_agentic_ai_syste.Prelude.{
  ℕ, suc, ◌≤◌, String, ◌≡◌, refl, sym, ap, ◌∙◌, some, List, Result, ok, err, arith, eq_refl,
  >>=-eq-ok,
}
use palwakf_agentic_ai_syste.Operations.Schema.{
  TaskStatus, inbox, under_review, archived, TransitionRequest, ReviewRequest, TaskRow, Db, OpError,
}
use palwakf_agentic_ai_syste.Operations.Tasks.{find_task, checked_task_id, row_task}
use palwakf_agentic_ai_syste.Operations.Lifecycle.{
  Site, Moment, initialized, record_transition, move_task, transition, destination_of, check_review,
  new_review, insert_review, decide, review, Call, create, evidence, submit, start_review, archive,
  judge, Answer, moved, answered, handle, handle_all,
}
use palwakf_agentic_ai_syste.Operations.Lifecycle.Steps.{with_review, with_move, IsTask}
use palwakf_agentic_ai_syste.Operations.Lifecycle.Steps.Inversion.{
  row_task-eq-ok, record_transition-eq-ok, checked_task_id-eq, insert_review-eq-ok,
}
use palwakf_agentic_ai_syste.Operations.Lifecycle.Tables.{
  audited-tables, moved_row, find_task-update_task,
}
use palwakf_agentic_ai_syste.Operations.Lifecycle.Moves.{Moves, stay, move, handle_all-IsKept}
use palwakf_agentic_ai_syste.Operations.Lifecycle.Commits.{initialized-eq-ok, answered-eq-ok}

-- The task that a call is about and the version that it expects.
abbrev pub Expects : Call → String → ℕ → Type 0
Expects (create payload key now moment) task_id version = ⊥
Expects (evidence payload now moment) task_id version = ⊥
Expects (submit named payload now moment) task_id version =
    (named ≡ task_id) × (payload.expected_version ≡ version)
Expects (start_review named payload now moment) task_id version =
    (named ≡ task_id) × (payload.expected_version ≡ version)
Expects (archive named payload now moment) task_id version =
    (named ≡ task_id) × (payload.expected_version ≡ version)
Expects (judge named payload now moved_at reviewed_at) task_id version =
    (named ≡ task_id) × (payload.expected_version ≡ version)

-- The task had the version, and has the next.
abbrev Advances : String → ℕ → Db → Db → Type 0
Advances task_id version db db' =
    (row : TaskRow) × (last : TaskRow) × (find_task task_id db.governed_tasks ≡ some row)
    × (row.version ≡ version)
    × (find_task task_id db'.governed_tasks ≡ some last)
    × (last.version ≡ suc version)

Advances-carried :
    (db mid db' : Db) {task_id owner : String} {version : ℕ}
    → task_id ≡ owner
    → db'.governed_tasks ≡ mid.governed_tasks
    → Advances owner version db mid
    → Advances task_id version db db'
Advances-carried db mid db' p t (row, last, f, v, l, w) = (row, last, rw p f, v, rw (p, t) l, w)

Moves-version : {row last : TaskRow} → Moves row last → row.version ≤ last.version
Moves-version stay = omega arith
Moves-version (move destination now a m) = let later = Moves-version m in omega arith

module _ (site : Site) where
  record_transition-Advances :
      (row updated : TaskRow) (destination : TaskStatus) (payload : TransitionRequest)
      (moment : Moment) (db db' : Db)
      → IsTask site db row
      → record_transition site row destination payload moment db ≡ ok (updated, db')
      → Advances row.task_id payload.expected_version db db'
  record_transition-Advances row updated destination payload moment db db' f e =
      let (_, current, (_, _, a)) =
        record_transition-eq-ok site row updated destination payload moment db db' e in
      let tables =
        audited-tables site (with_move site db row destination payload moment) db'
          (_, _, _, _, _, a) in
      let looked =
        find_task-update_task row.task_id row.task_id destination (suc row.version) moment.now
          db.governed_tasks row f in
      (
        row,
        moved_row row destination (suc row.version) moment.now,
        f,
        ground arith,
        rw tables.0 (looked ∙ rw (eq_refl row.task_id) refl),
        ground arith,
      )

  move_task-Advances :
      (task_id : String) (destination : TaskStatus) (payload : TransitionRequest) (moment : Moment)
      (db db' : Db) (answer : TaskRow)
      → move_task site task_id destination payload moment db ≡ ok (answer, db')
      → Advances task_id payload.expected_version db db'
  unfolding move_task
  move_task-Advances task_id destination payload moment db db' answer e =
      let (checked, c, e1) = >>=-eq-ok (checked_task_id task_id) _ e in
      let (row, r, e2) = >>=-eq-ok (row_task checked db) _ e1 in
      let (named, found) = row_task-eq-ok checked db row r in
      let owner : task_id ≡ row.task_id = sym (named ∙ checked_task_id-eq task_id checked c) in
      rw owner (record_transition-Advances row answer destination payload moment db db' found e2)

  decide-Advances :
      (task_id : String) (payload : ReviewRequest) (moved_at reviewed_at : Moment) (db db' : Db)
      (answer : TaskRow)
      → decide site task_id payload moved_at reviewed_at db ≡ ok (answer, db')
      → Advances task_id payload.expected_version db db'
  unfolding decide
  decide-Advances task_id payload moved_at reviewed_at db db' answer e =
      let (checked, c, e1) = >>=-eq-ok (checked_task_id task_id) _ e in
      let (row, r, e2) = >>=-eq-ok (row_task checked db) _ e1 in
      let (_, g, e3) = >>=-eq-ok (check_review row payload db) _ e2 in
      let (written, m, e4) =
        >>=-eq-ok
          (record_transition site row (destination_of payload.decision) payload.transition_request
            moved_at db)
          _ e3 in
      let (audited, a, e5) =
        >>=-eq-ok (insert_review site task_id payload reviewed_at written.1) _ e4 in
      let same : db' ≡ audited = ground arith in
      let (named, found) = row_task-eq-ok checked db row r in
      let owner : task_id ≡ row.task_id = sym (named ∙ checked_task_id-eq task_id checked c) in
      let tables =
        audited-tables site (with_review written.1 (new_review site task_id payload reviewed_at))
          audited
          (
            _,
            _,
            _,
            _,
            _,
            insert_review-eq-ok site task_id payload reviewed_at written.1 audited a,
          ) in
      Advances-carried db written.1 db' owner (ap (λ d. d.governed_tasks) same ∙ tables.0) (
        record_transition-Advances row written.0 (destination_of payload.decision)
          payload.transition_request moved_at db written.1 found m)

  -- A block that advances its task, after the binding.
  initialized-Advances :
      {A : Type 0} (now : ℕ) (block : Db → Result OpError (A × Db)) (f : A → Answer) (db : Db)
      (answer : Answer) (task_id : String) (version : ℕ)
      → ((bound_db db' : Db) (a : A)
          → block bound_db ≡ ok (a, db')
          → Advances task_id version bound_db db')
      → (answered f (initialized site now block db)).0 ≡ ok answer
      → Advances task_id version db (answered f (initialized site now block db)).1
  initialized-Advances now block f db answer task_id version g e =
      let (a, h, same) = answered-eq-ok f (initialized site now block db) answer e in
      let (bound_db, tables, written) = initialized-eq-ok site now block db a h in
      let (row, last, k, v, l, w) = g bound_db (initialized site now block db).1 a written in
      (row, last, rw tables at k, v, rw same l, w)

  handle-Advances :
      (call : Call) (task_id : String) (version : ℕ) (db : Db) (answer : Answer)
      → Expects call task_id version
      → (handle site call db).0 ≡ ok answer
      → Advances task_id version db (handle site call db).1
  unfolding handle transition review
  handle-Advances (create payload key now moment) task_id version db answer x e = absurd x
  handle-Advances (evidence payload now moment) task_id version db answer x e = absurd x
  handle-Advances (submit named payload now moment) task_id version db answer (p, q) e =
      initialized-Advances now (move_task site named inbox payload moment) moved db answer task_id
        version
        (λ b d a h. rw (sym p, sym q) (move_task-Advances named inbox payload moment b d a h)) e
  handle-Advances (start_review named payload now moment) task_id version db answer (p, q) e =
      initialized-Advances now (move_task site named under_review payload moment) moved db answer
        task_id version
        (λ b d a h.
          rw (sym p, sym q) (move_task-Advances named under_review payload moment b d a h))
        e
  handle-Advances (archive named payload now moment) task_id version db answer (p, q) e =
      initialized-Advances now (move_task site named archived payload moment) moved db answer
        task_id version
        (λ b d a h. rw (sym p, sym q) (move_task-Advances named archived payload moment b d a h)) e
  handle-Advances (judge named payload now moved_at reviewed_at) task_id version db answer (p, q)
        e =
      initialized-Advances now (decide site named payload moved_at reviewed_at) moved db answer
        task_id version
        (λ b d a h. rw (sym p, sym q) (decide-Advances named payload moved_at reviewed_at b d a h))
        e

  -- Of two calls on one task that expect the same version, the second is refused once the first has returned,
  -- whatever calls are handled between them: no update is lost.
  pub handle-stale :
      (first second : Call) (task_id : String) (version : ℕ) (between : List Call) (db : Db)
      (answer : Answer)
      → Expects first task_id version
      → Expects second task_id version
      → (handle site first db).0 ≡ ok answer
      → (e : OpError) × ((handle site second (handle_all site between (handle site first db).1)).0
          ≡ err e)
  handle-stale first second task_id version between db answer x y e =
      let after = handle_all site between (handle site first db).1 in
      let (_, next, _, _, f, v) = handle-Advances first task_id version db answer x e in
      let (last, g, m) = handle_all-IsKept site task_id next between (handle site first db).1 f in
      refused (handle site second after).0 refl last g (let later = Moves-version m in omega arith)
    where
      refused :
          (r : Result OpError Answer)
          → (handle site second (handle_all site between (handle site first db).1)).0 ≡ r
          → (last : TaskRow)
          → find_task task_id (handle_all site between (handle site first db).1).governed_tasks
            ≡ some last
          → suc version ≤ last.version
          → (err_value : OpError) × ((handle site second
                (handle_all site between (handle site first db).1)).0
              ≡ err err_value)
      refused (err x) q last g n = (x, q)
      refused (ok a) q last g n =
          let (row, _, f, v, _, _) =
            handle-Advances second task_id version
              (handle_all site between (handle site first db).1) a y q in
          let same : row ≡ last = ground arith in
          let revision : row.version ≡ last.version = ap (λ r. r.version) same in
          absurd (omega arith)
