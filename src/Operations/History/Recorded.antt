-- ===== src/Operations/History/Recorded.antt =====
-- After `_record_transition`, `task_integrity` passes for every task.
use palwakf_agentic_ai_syste.Prelude.{
  ◌<◌, String, ◌≡◌, refl, sym, ap, ◌∙◌, Bool, Option, none, some, List, [], Result, ok, arith, All,
  >>=-eq-ok,
}
use mathlib.Core.Path.{subst}
use palwakf_agentic_ai_syste.Operations.Schema.{
  TaskStatus, TransitionRequest, TaskRow, TransitionRow, Db, Digests, OpError,
}
use palwakf_agentic_ai_syste.Operations.Tasks.{latest, checked_task_id, row_task}
use palwakf_agentic_ai_syste.Operations.Lifecycle.{Moment, Site, new_event, record_transition}
use palwakf_agentic_ai_syste.Operations.Lifecycle.Steps.{IsAudited, with_move}
use palwakf_agentic_ai_syste.Operations.Lifecycle.Steps.Inversion.{record_transition-eq-ok}
use palwakf_agentic_ai_syste.Operations.Audit.Chain.{audit-eq}
use palwakf_agentic_ai_syste.Operations.History.{
  events_of, order_by, list_history, check_events, TaskIntegrity, task_integrity,
}
use palwakf_agentic_ai_syste.Operations.History.Intact.{
  AreIntact, AreIntact-append, check_events-IsLinked, order_by-IsChronological, hash_of,
}

ok_same : {A : Type 0} (x y : A) → ◌≡◌ {A = Result OpError A} (ok x) (ok y) → x ≡ y
ok_same x y e = ground (arith, e)

module _ (h : Digests) where
  list_history-eq-ok :
      (tied : Bool) (task_id : String) (db : Db) (history : List TransitionRow)
      → list_history tied task_id db ≡ ok history
      → order_by
          (λ (e : TransitionRow). e.content.occurred_at)
          tied
          (events_of task_id db.task_transition_events)
        ≡ history
  unfolding list_history
  list_history-eq-ok tied task_id db history e =
      let (checked, _, e1) = >>=-eq-ok (checked_task_id task_id) _ e in
      let (row, _, e2) = >>=-eq-ok (row_task checked db) _ e1 in ok_same _ _ e2

  -- Where the events are intact, the check passes.
  pub task_integrity-AreIntact :
      (tied : Bool) (task_id : String) (db : Db) (answer : TaskIntegrity)
      → AreIntact h db.task_transition_events
      → task_integrity h tied task_id db ≡ ok answer
      → answer.failures ≡ []
  unfolding task_integrity
  task_integrity-AreIntact tied task_id db answer intact e =
      let (history, l, e1) = >>=-eq-ok (list_history tied task_id db) _ e in
      let (c, linked) = intact task_id in
      let same : events_of task_id db.task_transition_events ≡ history =
        sym (order_by-IsChronological tied (events_of task_id db.task_transition_events) c)
        ∙ list_history-eq-ok tied task_id db history l in
      ap (λ (a : TaskIntegrity). a.failures) (sym (ok_same _ _ e1))
      ∙ subst (λ (rows : List TransitionRow). (check_events h none rows).0 ≡ []) same
          (check_events-IsLinked h none (events_of task_id db.task_transition_events) linked)

module _ (site : Site) where
  IsAudited-events :
      (db db' : Db) → IsAudited site db db' → db'.task_transition_events ≡ db.task_transition_events
  IsAudited-events db db' (task_id, event_type, actor_id, payload, now, e) =
      ap (λ (d : Db). d.task_transition_events)
        (audit-eq site.digests task_id event_type actor_id payload now db db' e)

  previous-hash_of :
      (found : Option TransitionRow)
      → (elim found as (λ x. Option String) [ none ↦ none | some prior ↦ some prior.event_hash ])
        ≡ hash_of found
  previous-hash_of none = refl
  previous-hash_of (some prior) = refl

  new_event-AreIntact :
      (row : TaskRow) (destination : TaskStatus) (payload : TransitionRequest) (moment : Moment)
      (db : Db)
      → AreIntact site.digests db.task_transition_events
      → All
          (λ (e : TransitionRow). e.content.occurred_at < moment.now)
          (events_of row.task_id db.task_transition_events)
      → AreIntact site.digests
          (with_move site db row destination payload moment).task_transition_events
  unfolding new_event
  new_event-AreIntact row destination payload moment db intact newer =
      AreIntact-append site.digests site.later db.task_transition_events
        (new_event site row destination payload moment db) intact newer
        (previous-hash_of (latest site.later row.task_id none db.task_transition_events)) refl

  -- Where the events of every task are in the order of their times and linked by their hashes, they still are after
  -- a `_record_transition` at a time later than the task's events, and `task_integrity` finds no failure in
  -- the history of any task for which it returns.
  pub record_transition-task_integrity :
      (row updated : TaskRow) (destination : TaskStatus) (payload : TransitionRequest)
      (moment : Moment) (db after : Db) (tied : Bool) (task_id : String) (answer : TaskIntegrity)
      → AreIntact site.digests db.task_transition_events
      → All
          (λ (e : TransitionRow). e.content.occurred_at < moment.now)
          (events_of row.task_id db.task_transition_events)
      → record_transition site row destination payload moment db ≡ ok (updated, after)
      → task_integrity site.digests tied task_id after ≡ ok answer
      → AreIntact site.digests after.task_transition_events × (answer.failures ≡ [])
  record_transition-task_integrity row updated destination payload moment db after tied task_id
        answer intact newer e q =
      let (_, _, (_, _, audited)) =
        record_transition-eq-ok site row updated destination payload moment db after e in
      let same =
        IsAudited-events (with_move site db row destination payload moment) after
          (_, _, _, _, _, audited) in
      let kept : AreIntact site.digests after.task_transition_events =
        rw same (new_event-AreIntact row destination payload moment db intact newer) in
      (kept, task_integrity-AreIntact site.digests tied task_id after answer kept q)
