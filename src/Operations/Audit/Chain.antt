-- ===== src/Operations/Audit/Chain.antt =====
-- `audit_integrity` decides that the log is a hash chain, and `_audit` keeps it one.
use palwakf_agentic_ai_syste.Prelude.{
  ℕ, suc, String, ◌≡◌, refl, ◌↔◌, true, Option, none, some, List, [], ◌∷◌, ◌++◌, eq_iff, eq_refl,
  ◌∙◌, append-eq-nil, ok, arith,
}
use palwakf_agentic_ai_syste.Operations.Schema.{AuditPayload, AuditRow, Db, Digests}
use palwakf_agentic_ai_syste.Operations.Audit.{
  last_hash, opt_eq, audit_row, audit, recorded, row_failures, check_rows, audit_integrity,
}

opt_eq→eq : (a b : Option String) → opt_eq a b ≡ true → a ≡ b
opt_eq→eq none none h = refl
opt_eq→eq none (some b) h = absurd (ground arith)
opt_eq→eq (some a) none h = absurd (ground arith)
opt_eq→eq (some a) (some b) h = ground (arith, eq_iff a b)

pub opt_eq_refl : (a : Option String) → opt_eq a a ≡ true
opt_eq_refl none = refl
opt_eq_refl (some a) = eq_refl a

module _ (h : Digests) where
  -- Each row carries the hash of the row before it, and the hash of its own content.
  abbrev pub IsChained : Option String → List AuditRow → Type 0
  IsChained previous [] = Unit
  IsChained previous (row ∷ rows) =
      (row.previous_hash ≡ previous)
      × (row.event_hash ≡ h.audit_hash (recorded h row))
      × IsChained (some row.event_hash) rows

  abbrev pub terminal : Option String → List AuditRow → Option String
  terminal previous [] = previous
  terminal previous (row ∷ rows) = terminal (some row.event_hash) rows

  terminal-eq-last_hash :
      (previous : Option String) (row : AuditRow) (rows : List AuditRow)
      → terminal previous (row ∷ rows) ≡ last_hash (row ∷ rows)
  unfolding last_hash
  terminal-eq-last_hash previous row [] = refl
  terminal-eq-last_hash previous row (next ∷ rows) =
      terminal-eq-last_hash (some row.event_hash) next rows

  pub terminal-none : (rows : List AuditRow) → terminal none rows ≡ last_hash rows
  terminal-none [] = unfold last_hash in refl
  terminal-none (row ∷ rows) = terminal-eq-last_hash none row rows

  row_failures-nil :
      (previous : Option String) (n : ℕ) (row : AuditRow)
      → row_failures h previous n row ≡ []
      → (row.previous_hash ≡ previous) × (row.event_hash ≡ h.audit_hash (recorded h row))
  unfolding row_failures
  row_failures-nil previous n row e = ground (
    arith,
    opt_eq→eq row.previous_hash previous,
    eq_iff row.event_hash (h.audit_hash (recorded h row)),
  )

  row_failures-of_linked :
      (previous : Option String) (n : ℕ) (row : AuditRow)
      → row.previous_hash ≡ previous
      → row.event_hash ≡ h.audit_hash (recorded h row)
      → row_failures h previous n row ≡ []
  unfolding row_failures
  row_failures-of_linked previous n row p e =
      ground (arith, opt_eq_refl previous, eq_iff row.event_hash (h.audit_hash (recorded h row)))

  check_rows-cons :
      (previous : Option String) (n : ℕ) (row : AuditRow) (rows : List AuditRow)
      → (check_rows h previous n (row ∷ rows)).0
        ≡ row_failures h previous n row ++ (check_rows h (some row.event_hash) (suc n) rows).0
  unfolding check_rows
  check_rows-cons previous n row rows = refl

  check_rows_sound :
      (previous : Option String) (n : ℕ) (rows : List AuditRow)
      → (check_rows h previous n rows).0 ≡ []
      → IsChained previous rows
  check_rows_sound previous n [] e = tt
  check_rows_sound previous n (row ∷ rows) e =
      let (here, later) =
        append-eq-nil (row_failures h previous n row)
          (check_rows h (some row.event_hash) (suc n) rows).0 (rw check_rows-cons at e) in
      let (linked, hashed) = row_failures-nil previous n row here in
      (linked, hashed, check_rows_sound (some row.event_hash) (suc n) rows later)

  check_rows_complete :
      (previous : Option String) (n : ℕ) (rows : List AuditRow)
      → IsChained previous rows
      → (check_rows h previous n rows).0 ≡ []
  check_rows_complete previous n [] c = unfold check_rows in refl
  check_rows_complete previous n (row ∷ rows) c = rw (
    check_rows-cons,
    row_failures-of_linked previous n row c.0 c.1,
    check_rows_complete (some row.event_hash) (suc n) rows c.2,
  )

  terminal-check_rows :
      (previous : Option String) (n : ℕ) (rows : List AuditRow)
      → (check_rows h previous n rows).1 ≡ terminal previous rows
  unfolding check_rows
  terminal-check_rows previous n [] = refl
  terminal-check_rows previous n (row ∷ rows) =
      terminal-check_rows (some row.event_hash) (suc n) rows

  pub IsChained-append :
      (previous : Option String) (rows : List AuditRow) (row : AuditRow)
      → IsChained previous rows
      → row.previous_hash ≡ terminal previous rows
      → row.event_hash ≡ h.audit_hash (recorded h row)
      → IsChained previous (rows ++ row ∷ [])
  IsChained-append previous [] row c linked hashed = (linked, hashed, tt)
  IsChained-append previous (first ∷ rows) row c linked hashed =
      (c.0, c.1, IsChained-append (some first.event_hash) rows row c.2 linked hashed)

  -- The check passes exactly when the log is a hash chain from its first event on, and it reports the
  -- hash that the chain ends with.
  pub audit_integrity_iff :
      (db : Db)
      → (((audit_integrity h db).passed ≡ true) ↔ IsChained none db.audit_events)
        × ((audit_integrity h db).terminal_hash ≡ last_hash db.audit_events)
  unfolding audit_integrity
  audit_integrity_iff db = (
    (
      λ e. check_rows_sound none 1 db.audit_events (ground arith),
      λ c. rw (check_rows_complete none 1 db.audit_events c, audit_integrity),
    ),
    terminal-check_rows none 1 db.audit_events ∙ terminal-none db.audit_events,
  )

  -- An audit that does not fail appends one row, and changes nothing else.
  pub audit-eq :
      (task_id : Option String) (event_type actor_id : String) (payload : AuditPayload) (now : ℕ)
      (db db' : Db)
      → audit h task_id event_type actor_id payload now db ≡ ok db'
      → db' ≡ record db {
        audit_events =
            db.audit_events
            ++ audit_row h (last_hash db.audit_events) task_id event_type actor_id payload now ∷ [];
      }
  unfolding audit
  audit-eq task_id event_type actor_id payload now db db' e = ground arith

  module _ (round_trip : (payload : AuditPayload) → h.loads (h.dumps payload) ≡ payload) where
    -- A row that `_audit` makes is hashed as the check will hash it.
    audit_row_hashed :
        (previous task_id : Option String) (event_type actor_id : String) (payload : AuditPayload)
        (now : ℕ)
        → let row = audit_row h previous task_id event_type actor_id payload now in
          row.event_hash ≡ h.audit_hash (recorded h row)
    unfolding audit_row recorded
    audit_row_hashed previous task_id event_type actor_id payload now = rw round_trip

    pub audit-IsChained :
        (task_id : Option String) (event_type actor_id : String) (payload : AuditPayload) (now : ℕ)
        (db db' : Db)
        → audit h task_id event_type actor_id payload now db ≡ ok db'
        → IsChained none db.audit_events
        → IsChained none db'.audit_events
    audit-IsChained task_id event_type actor_id payload now db db' e c =
        let row = audit_row h (last_hash db.audit_events) task_id event_type actor_id payload now in
        rw (audit-eq task_id event_type actor_id payload now db db' e) (
          IsChained-append none db.audit_events row c (unfold audit_row in rw terminal-none)
            (audit_row_hashed (last_hash db.audit_events) task_id event_type actor_id payload now))
