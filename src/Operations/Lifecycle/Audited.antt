-- ===== src/Operations/Lifecycle/Audited.antt =====
-- The audit log of governed_operations/store.py over any sequence of calls.
use palwakf_agentic_ai_syste.Prelude.{◌≡◌, true, none, List}
use palwakf_agentic_ai_syste.Operations.Schema.{AuditPayload, Db}
use palwakf_agentic_ai_syste.Operations.Audit.{audit_integrity}
use palwakf_agentic_ai_syste.Operations.Audit.Chain.{
  IsChained, audit_integrity_iff, audit-IsChained,
}
use palwakf_agentic_ai_syste.Operations.Lifecycle.{
  Site, Call, handle_all, new_task, new_evidence, new_review, destination_of,
}
use palwakf_agentic_ai_syste.Operations.Lifecycle.Steps.{
  IsAudited, with_task, with_evidence, with_review, with_move, Step, bound, task_added,
  evidence_added, task_moved, task_reviewed, Run, done, next,
}
use palwakf_agentic_ai_syste.Operations.Lifecycle.Steps.Runs.{handle_all-Run}

module _ (site : Site)
    (round_trip : (payload : AuditPayload)
      → site.digests.loads (site.digests.dumps payload) ≡ payload) where
  abbrev IsLogged : Db → Type 0
  IsLogged db = IsChained site.digests none db.audit_events

  IsAudited-IsLogged : (db db' : Db) → IsAudited site db db' → IsLogged db → IsLogged db'
  IsAudited-IsLogged db db' (task_id, event_type, actor_id, payload, now, e) =
      audit-IsChained site.digests round_trip task_id event_type actor_id payload now db db' e

  Step-IsLogged : {db db' : Db} → Step site db db' → IsLogged db → IsLogged db'
  Step-IsLogged {db = db} {db' = db'} (bound _ _ a) c =
      IsAudited-IsLogged db db' (_, _, _, _, _, a) c
  Step-IsLogged {db = db} {db' = db'} (task_added payload key moment _ _ a) c =
      IsAudited-IsLogged (with_task db (new_task site payload key moment)) db' (_, _, _, _, _, a) c
  Step-IsLogged {db = db} {db' = db'} (evidence_added payload moment a) c =
      IsAudited-IsLogged (with_evidence db (new_evidence site payload moment)) db'
        (_, _, _, _, _, a) c
  Step-IsLogged {db = db} {db' = db'} (task_moved row destination payload moment _ _ _ _ (_, _, a))
        c =
      IsAudited-IsLogged (with_move site db row destination payload moment) db' (_, _, _, _, _, a) c
  Step-IsLogged {db = db} {db' = db'}
        (task_reviewed {mid = mid} row payload moved_at reviewed_at _ _ _ _ (_, _, a) b) c =
      let destination = destination_of payload.decision in
      IsAudited-IsLogged (with_review mid (new_review site row.task_id payload reviewed_at)) db'
        (_, _, _, _, _, b)
        (IsAudited-IsLogged (with_move site db row destination payload.transition_request moved_at)
          mid (_, _, _, _, _, a) c)

  Run-IsLogged : {db db' : Db} → Run site db db' → IsLogged db → IsLogged db'
  Run-IsLogged done c = c
  Run-IsLogged (next s r) c = Run-IsLogged r (Step-IsLogged s c)

  -- Where the integrity check of the audit log passes, it passes after any sequence of calls, whether they
  -- succeed or fail. The condition is that a payload's JSON text reads back as the payload.
  pub handle_all-audit_integrity :
      (calls : List Call) (db : Db)
      → (audit_integrity site.digests db).passed ≡ true
      → (audit_integrity site.digests (handle_all site calls db)).passed ≡ true
  handle_all-audit_integrity calls db p =
      let before = (audit_integrity_iff site.digests db).0 in
      let after = (audit_integrity_iff site.digests (handle_all site calls db)).0 in
      after.1 (Run-IsLogged (handle_all-Run site calls db) (before.0 p))
