-- ===== src/Operations/Lifecycle/Replay.antt =====
-- The idempotency key of `create_task`: the same request again answers with the task of the first time.
use palwakf_agentic_ai_syste.Prelude.{
  ℕ, String, ◌≡◌, refl, ◌∙◌, inl, inr, Bool, true, false, not, ◌||◌, Option, none, some, List, [],
  ◌∷◌, ◌++◌, any, ◌==◌, ltb, Option-cases, Bool-cases, Result, ok, >>=-eq-ok, raise_if-eq-ok, arith,
  eq_iff, eq_refl,
}
use palwakf_agentic_ai_syste.Prelude.Text.{is_blank}
use palwakf_agentic_ai_syste.Operations.Schema.{
  GovernedTaskCreate, AuditPayload, TaskRow, Db, OpError, integrity_error,
  idempotency_key_payload_mismatch,
}
use palwakf_agentic_ai_syste.Operations.Audit.{last_hash, audit_row, audit}
use palwakf_agentic_ai_syste.Operations.Audit.Chain.{audit-eq}
use palwakf_agentic_ai_syste.Operations.Tasks.{find_key}
use palwakf_agentic_ai_syste.Operations.Lifecycle.{
  Site, Moment, transact, after_binding, bind_workspace, initialized, new_task, insert_task,
  create_task,
}
use palwakf_agentic_ai_syste.Operations.Lifecycle.Steps.{with_task}
use Prim.Native.String.{count}
use palwakf_agentic_ai_syste.Operations.Lifecycle.Commits.{transact-eq-ok, after_binding-eq-ok}

-- The binding's event is in the log.
abbrev pub is_bound : Db → Bool
is_bound db = any (λ row. row.event_type == "WORKSPACE_OPERATIONS_BOUND") db.audit_events

any-append :
    {A : Type 0} (p : A → Bool) (xs : List A) (x : A) → any p (xs ++ x ∷ []) ≡ (any p xs || p x)
any-append p [] x = ground arith
any-append p (y ∷ ys) x = ground (arith, any-append p ys x)

find_key-append :
    (key : String) (rows : List TaskRow) (row : TaskRow)
    → find_key key rows ≡ none
    → row.idempotency_key ≡ key
    → find_key key (rows ++ row ∷ []) ≡ some row
unfolding find_key
find_key-append key [] row e k = ground (arith, eq_iff row.idempotency_key key)
find_key-append key (first ∷ rows) row e k = ground (arith, find_key-append key rows row)

module _ (site : Site) where
  audit-is_bound :
      (task_id : Option String) (event_type actor_id : String) (payload : AuditPayload) (now : ℕ)
      (db db' : Db)
      → audit site.digests task_id event_type actor_id payload now db ≡ ok db'
      → is_bound db' ≡ (is_bound db || event_type == "WORKSPACE_OPERATIONS_BOUND")
  unfolding audit_row
  audit-is_bound task_id event_type actor_id payload now db db' e =
      rw (audit-eq site.digests task_id event_type actor_id payload now db db' e) (
        any-append (λ row. row.event_type == "WORKSPACE_OPERATIONS_BOUND") db.audit_events
          (audit_row site.digests (last_hash db.audit_events) task_id event_type actor_id payload
            now))

  bind_workspace-is_bound :
      (now : ℕ) (db db' : Db) → bind_workspace site now db ≡ ok (tt, db') → is_bound db' ≡ true
  unfolding bind_workspace
  bind_workspace-is_bound now db db' e = elim (Bool-cases (is_bound db)) [
    | inl h ↦ let same : db' ≡ db = ground arith in rw same h
    | inr h ↦
        let (audited, a, e1) =
          >>=-eq-ok (audit site.digests _ _ _ _ _ _) _ (rw (bind_workspace, h) at e) in
        let same : db' ≡ audited = ground arith in
        rw (same, audit-is_bound _ _ _ _ _ db audited a) (ground arith)
  ]

  bind_workspace-again :
      (now : ℕ) (db : Db) → is_bound db ≡ true → bind_workspace site now db ≡ ok (tt, db)
  unfolding bind_workspace
  bind_workspace-again now db h = rw h

  inserted :
      (task_id : Option String) (actor_id : String) (payload : AuditPayload) (now : ℕ)
      (key print : String) (db audited db' : Db) (added task : TaskRow)
      → db' ≡ audited
      → task ≡ added
      → audit site.digests task_id "TASK_DRAFT_CREATED" actor_id payload now db ≡ ok audited
      → is_bound db ≡ true
      → find_key key db.governed_tasks ≡ some added
      → added.payload_fingerprint ≡ print
      → (find_key key db'.governed_tasks ≡ some task)
        × (task.payload_fingerprint ≡ print)
        × (is_bound db' ≡ true)
  inserted task_id actor_id payload now key print db audited db' added task same named a bound f p =
      rw (same, named)
        (
          rw (audit-eq site.digests _ _ _ _ _ db audited a) f,
          p,
          audit-is_bound _ _ _ _ _ db audited a ∙ rw bound refl,
        )

  initialized_bound :
      {A : Type 0} (now : ℕ) (block : Db → Result OpError (A × Db)) (db : Db)
      → is_bound db ≡ true
      → initialized site now block db ≡ transact block db
  initialized_bound now block db b = rw (initialized, transact, bind_workspace-again now db b) refl

  -- What an insertion that succeeds leaves for its key.
  insert_task-eq-ok :
      (payload : GovernedTaskCreate) (key : String) (moment : Moment) (db db' : Db) (task : TaskRow)
      (replayed : Bool)
      → insert_task site payload key moment db ≡ ok ((task, replayed), db')
      → is_bound db ≡ true
      → (find_key key db'.governed_tasks ≡ some task)
        × (task.payload_fingerprint ≡ site.digests.fingerprint payload)
        × (is_bound db' ≡ true)
  unfolding insert_task
  insert_task-eq-ok payload key moment db db' task replayed e bound =
      elim (Option-cases (find_key key db.governed_tasks)) [
        | inr (existing, h) ↦
            let (fits, e1) =
              raise_if-eq-ok
                (not (existing.payload_fingerprint == site.digests.fingerprint payload))
                idempotency_key_payload_mismatch _ (rw (insert_task, h) at e) in
            let same : db' ≡ db = ground arith in
            let named : task ≡ existing = ground arith in
            let eq = eq_iff existing.payload_fingerprint (site.digests.fingerprint payload) in
            (rw (same, named) h, rw named (ground arith), rw same bound)
        | inl h ↦
            let added = new_task site payload key moment in
            let (_, e1) =
              raise_if-eq-ok (any (λ other. other.task_id == added.task_id) db.governed_tasks)
                integrity_error _ (rw (insert_task, h) at e) in
            let (audited, a, e2) = >>=-eq-ok (audit site.digests _ _ _ _ _ _) _ e1 in
            let same : db' ≡ audited = ground arith in
            let named : task ≡ added = ground arith in
            inserted _ _ _ _ key (site.digests.fingerprint payload) (with_task db added) audited db'
              added task same named a bound
              (unfold new_task in
                find_key-append key db.governed_tasks (new_task site payload key moment) h refl)
              (unfold new_task in refl)
      ]

  -- What a creation that succeeds leaves for its key.
  abbrev IsSettled : GovernedTaskCreate → String → TaskRow → Db → Type 0
  IsSettled payload key task db =
      (is_blank key || ltb 160 (count key) ≡ false)
      × (find_key key db.governed_tasks ≡ some task)
      × (task.payload_fingerprint ≡ site.digests.fingerprint payload)
      × (is_bound db ≡ true)

  insert_task-again :
      (payload : GovernedTaskCreate) (key : String) (moment : Moment) (db : Db) (task : TaskRow)
      → find_key key db.governed_tasks ≡ some task
      → task.payload_fingerprint ≡ site.digests.fingerprint payload
      → insert_task site payload key moment db ≡ ok ((task, true), db)
  unfolding insert_task
  insert_task-again payload key moment db task f p =
      rw (insert_task, f, p, eq_refl (site.digests.fingerprint payload))

  replay-of_IsSettled :
      (payload : GovernedTaskCreate) (key : String) (now : ℕ) (moment : Moment) (db : Db)
      (task : TaskRow)
      → IsSettled payload key task db
      → create_task site payload key now moment db ≡ (ok (task, true), db)
  unfolding create_task
  replay-of_IsSettled payload key now moment db task (k, f, p, b) = rw (
    k,
    initialized_bound now (insert_task site payload key moment) db b,
    transact,
    insert_task-again payload key moment db task f p,
  )

  create_task-IsSettled :
      (payload : GovernedTaskCreate) (key : String) (now : ℕ) (moment : Moment) (db : Db)
      (task : TaskRow) (replayed : Bool)
      → (create_task site payload key now moment db).0 ≡ ok (task, replayed)
      → IsSettled payload key task (create_task site payload key now moment db).1
  unfolding create_task
  create_task-IsSettled payload key now moment db task replayed e =
      go (is_blank key || ltb 160 (count key)) refl e
    where
      go :
          (b : Bool)
          → is_blank key || ltb 160 (count key) ≡ b
          → (create_task site payload key now moment db).0 ≡ ok (task, replayed)
          → IsSettled payload key task (create_task site payload key now moment db).1
      go true q h = absurd (ground arith)
      go false q h =
          let block = insert_task site payload key moment in
          let first = transact (bind_workspace site now) db in
          let (done, written) =
            after_binding-eq-ok block first (task, replayed) (rw (create_task, q) at h) in
          let bound =
            bind_workspace-is_bound now db first.1
              (transact-eq-ok (bind_workspace site now) db tt done) in
          let settled =
            insert_task-eq-ok payload key moment first.1 (after_binding block first).1 task replayed
              written bound in
          rw (create_task, q) (refl, settled.0, settled.1, settled.2)

  -- The answer of `create_task` is repeated: after a call that succeeds, the same request with the same key
  -- answers with the same task as a replay and writes nothing.
  pub create_task-replay :
      (payload : GovernedTaskCreate) (key : String) (now : ℕ) (moment : Moment) (db : Db)
      (task : TaskRow) (replayed : Bool) (later_now : ℕ) (later_moment : Moment)
      → (create_task site payload key now moment db).0 ≡ ok (task, replayed)
      → let written = (create_task site payload key now moment db).1 in
        create_task site payload key later_now later_moment written ≡ (ok (task, true), written)
  create_task-replay payload key now moment db task replayed later_now later_moment e =
      replay-of_IsSettled payload key later_now later_moment
        (create_task site payload key now moment db).1 task
        (create_task-IsSettled payload key now moment db task replayed e)
