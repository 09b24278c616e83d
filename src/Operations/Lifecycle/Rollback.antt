-- ===== src/Operations/Lifecycle/Rollback.antt =====
-- The failures of governed_operations/store.py: what a call that raises leaves behind.
use palwakf_agentic_ai_syste.Prelude.{
  ℕ, ◌≡◌, refl, ◌∙◌, ◌⊎◌, inl, inr, Bool, true, false, ◌||◌, ltb, Result, ok, err, arith,
}
use palwakf_agentic_ai_syste.Prelude.Text.{is_blank}
use palwakf_agentic_ai_syste.Operations.Schema.{
  inbox, under_review, archived, GovernedTaskCreate, Db, OpError,
}
use palwakf_agentic_ai_syste.Operations.Lifecycle.{
  Site, Moment, transact, after_binding, bind_workspace, initialized, insert_task, create_task,
  insert_evidence, add_evidence, move_task, transition, decide, review, Call, create, evidence,
  submit, start_review, archive, judge, Answer, answered, handle,
}
use Prim.Native.String.{String, count}

transact-rollback :
    {A : Type 0} (block : Db → Result OpError (A × Db)) (db : Db) (e : OpError)
    → (transact block db).0 ≡ err e
    → (transact block db).1 ≡ db
transact-rollback {A = A} block db e h = go (block db) refl
  where
    go : (m : Result OpError (A × Db)) → block db ≡ m → (transact block db).1 ≡ db
    go (ok (answer, written)) q = absurd (ground arith)
    go (err x) q = rw (transact, q) refl

answered-err :
    {A : Type 0} (f : A → Answer) (r : Result OpError A × Db) (e : OpError)
    → (answered f r).0 ≡ err e
    → (r.0 ≡ err e) × ((answered f r).1 ≡ r.1)
answered-err f (ok a, db) e h = absurd (ground arith)
answered-err f (err x, db) e h = (ground arith, refl)

module _ (site : Site) where
  -- The database is as before, or as `initialize_workspace` left it.
  abbrev pub IsRolledBack : Db → Db → Type 0
  IsRolledBack db db' = (db' ≡ db) ⊎ ((now : ℕ) × (bind_workspace site now db ≡ ok (tt, db')))

  after_binding-rollback :
      {A : Type 0} (block : Db → Result OpError (A × Db)) (r : Result OpError (Unit {0}) × Db)
      (e : OpError)
      → (after_binding block r).0 ≡ err e
      → (after_binding block r).1 ≡ r.1
  after_binding-rollback block (ok _, db) e h = transact-rollback block db e h
  after_binding-rollback block (err x, db) e h = refl

  bound_database : (now : ℕ) (db : Db) → IsRolledBack db (transact (bind_workspace site now) db).1
  bound_database now db = go (bind_workspace site now db) refl
    where
      go :
          (m : Result OpError (Unit {0} × Db))
          → bind_workspace site now db ≡ m
          → IsRolledBack db (transact (bind_workspace site now) db).1
      go (ok (_, written)) q = inr (now, q ∙ rw (transact, q) refl)
      go (err x) q = inl (rw (transact, q) refl)

  initialized-rollback :
      {A : Type 0} (now : ℕ) (block : Db → Result OpError (A × Db)) (db : Db) (e : OpError)
      → (initialized site now block db).0 ≡ err e
      → IsRolledBack db (initialized site now block db).1
  initialized-rollback now block db e h =
      rw (after_binding-rollback block (transact (bind_workspace site now) db) e h)
        (bound_database now db)

  create_task-rollback :
      (payload : GovernedTaskCreate) (key : String) (now : ℕ) (moment : Moment) (db : Db)
      (e : OpError)
      → (create_task site payload key now moment db).0 ≡ err e
      → IsRolledBack db (create_task site payload key now moment db).1
  unfolding create_task
  create_task-rollback payload key now moment db e h =
      go (is_blank key || ltb 160 (count key)) refl h
    where
      go :
          (b : Bool)
          → is_blank key || ltb 160 (count key) ≡ b
          → (create_task site payload key now moment db).0 ≡ err e
          → IsRolledBack db (create_task site payload key now moment db).1
      go true q h = rw (create_task, q) (inl refl)
      go false q h =
          rw (create_task, q)
            (initialized-rollback now (insert_task site payload key moment) db e
              (rw (create_task, q) at h))

  answered-rollback :
      {A : Type 0} (f : A → Answer) (r : Result OpError A × Db) (db : Db) (e : OpError)
      → (r.0 ≡ err e → IsRolledBack db r.1)
      → (answered f r).0 ≡ err e
      → IsRolledBack db (answered f r).1
  answered-rollback f r db e k h = let (failed, same) = answered-err f r e h in rw same (k failed)

  -- A call that raises leaves the database as it was, or as `initialize_workspace` left it, with the event
  -- of the binding.
  pub handle-rollback :
      (call : Call) (db : Db) (e : OpError)
      → (handle site call db).0 ≡ err e
      → IsRolledBack db (handle site call db).1
  unfolding handle add_evidence transition review
  handle-rollback (create payload key now moment) db e h =
      answered-rollback _ (create_task site payload key now moment db) db e
        (create_task-rollback payload key now moment db e) h
  handle-rollback (evidence payload now moment) db e h =
      answered-rollback _ (add_evidence site payload now moment db) db e
        (initialized-rollback now (insert_evidence site payload moment) db e) h
  handle-rollback (submit task_id payload now moment) db e h =
      answered-rollback _ (transition site task_id inbox payload now moment db) db e
        (initialized-rollback now (move_task site task_id inbox payload moment) db e) h
  handle-rollback (start_review task_id payload now moment) db e h =
      answered-rollback _ (transition site task_id under_review payload now moment db) db e
        (initialized-rollback now (move_task site task_id under_review payload moment) db e) h
  handle-rollback (archive task_id payload now moment) db e h =
      answered-rollback _ (transition site task_id archived payload now moment db) db e
        (initialized-rollback now (move_task site task_id archived payload moment) db e) h
  handle-rollback (judge task_id payload now moved_at reviewed_at) db e h =
      answered-rollback _ (review site task_id payload now moved_at reviewed_at db) db e
        (initialized-rollback now (decide site task_id payload moved_at reviewed_at) db e) h
