-- ===== src/Operations/Lifecycle/Commits.antt =====
-- The blocks `with con:` of governed_operations/store.py: what one that returns has written.
use palwakf_agentic_ai_syste.Prelude.{
  ℕ, ◌≡◌, refl, inl, inr, any, ◌==◌, Result, ok, err, arith, >>=-eq-ok, Bool-cases,
}
use palwakf_agentic_ai_syste.Operations.Schema.{Db, OpError}
use palwakf_agentic_ai_syste.Operations.Audit.{audit}
use palwakf_agentic_ai_syste.Operations.Audit.Chain.{audit-eq}
use palwakf_agentic_ai_syste.Operations.Lifecycle.{
  Site, transact, after_binding, bind_workspace, initialized, Answer, answered,
}

pub transact-eq-ok :
    {A : Type 0} (block : Db → Result OpError (A × Db)) (db : Db) (answer : A)
    → (transact block db).0 ≡ ok answer
    → block db ≡ ok (answer, (transact block db).1)
transact-eq-ok {A = A} block db answer h = go (block db) refl
  where
    go :
        (m : Result OpError (A × Db)) → block db ≡ m → block db ≡ ok (answer, (transact block db).1)
    go (ok (a, written)) q = rw (transact, q) (ground arith)
    go (err x) q = absurd (ground arith)

pub after_binding-eq-ok :
    {A : Type 0} (block : Db → Result OpError (A × Db)) (r : Result OpError (Unit {0}) × Db)
    (answer : A)
    → (after_binding block r).0 ≡ ok answer
    → (r.0 ≡ ok tt) × (block r.1 ≡ ok (answer, (after_binding block r).1))
after_binding-eq-ok block (ok _, db) answer h = (refl, transact-eq-ok block db answer h)
after_binding-eq-ok block (err x, db) answer h = absurd (ground arith)

pub answered-eq-ok :
    {A : Type 0} (f : A → Answer) (r : Result OpError A × Db) (answer : Answer)
    → (answered f r).0 ≡ ok answer
    → (a : A) × (r.0 ≡ ok a) × ((answered f r).1 ≡ r.1)
answered-eq-ok f (ok a, db) answer h = (a, refl, refl)
answered-eq-ok f (err x, db) answer h = absurd (ground arith)

module _ (site : Site) where
  bind_workspace-tasks :
      (now : ℕ) (db db' : Db)
      → bind_workspace site now db ≡ ok (tt, db')
      → db'.governed_tasks ≡ db.governed_tasks
  unfolding bind_workspace
  bind_workspace-tasks now db db' e =
      elim (Bool-cases
        (any (λ row. row.event_type == "WORKSPACE_OPERATIONS_BOUND") db.audit_events)) [
          | inl h ↦ let same : db' ≡ db = ground arith in rw same refl
          | inr h ↦
              let (audited, a, e1) =
                >>=-eq-ok (audit site.digests _ _ _ _ _ _) _ (rw (bind_workspace, h) at e) in
              let same : db' ≡ audited = ground arith in
              rw (same, audit-eq site.digests _ _ _ _ _ db audited a) refl
        ]

  -- The transaction of an operation that returns starts from the tasks as they were before the binding.
  pub initialized-eq-ok :
      {A : Type 0} (now : ℕ) (block : Db → Result OpError (A × Db)) (db : Db) (answer : A)
      → (initialized site now block db).0 ≡ ok answer
      → (bound_db : Db) × (bound_db.governed_tasks ≡ db.governed_tasks)
        × (block bound_db ≡ ok (answer, (initialized site now block db).1))
  initialized-eq-ok now block db answer h =
      let first = transact (bind_workspace site now) db in
      let (done, written) = after_binding-eq-ok block first answer h in
      (
        first.1,
        bind_workspace-tasks now db first.1 (transact-eq-ok (bind_workspace site now) db tt done),
        written,
      )
