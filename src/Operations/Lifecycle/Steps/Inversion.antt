-- ===== src/Operations/Lifecycle/Steps/Inversion.antt =====
-- What a transaction of governed_operations/store.py that commits has checked and written.
use palwakf_agentic_ai_syste.Prelude.{
  String, ◌≡◌, refl, inl, inr, true, false, not, none, some, List, [], ◌∷◌, any, ok, >>=-eq-ok,
  raise_if-eq-ok, nat_eq, arith, eq_iff, ◌==◌, Option-cases,
}
use palwakf_agentic_ai_syste.Operations.Schema.{
  TaskStatus, under_review, approve, TransitionRequest, ReviewRequest, TaskRow, Db, integrity_error,
  invalid_task_transition, task_version_conflict, review_requires_under_review,
}
use palwakf_agentic_ai_syste.Operations.Audit.{audit, refers}
use palwakf_agentic_ai_syste.Operations.Tasks.{
  allowed_transition, checked_task_id, find_task, row_task, missing_categories,
}
use palwakf_agentic_ai_syste.Operations.Lifecycle.{
  Moment, Site, new_event, record_transition, check_review, is_under_review, new_review,
  insert_review,
}
use palwakf_agentic_ai_syste.Operations.Lifecycle.Steps.{
  with_review, with_move, IsMoveAudited, IsReviewAudited,
}

find_task_id :
    (task_id : String) (rows : List TaskRow) (row : TaskRow)
    → find_task task_id rows ≡ some row
    → row.task_id ≡ task_id
unfolding find_task
find_task_id task_id [] row e = absurd (ground arith)
find_task_id task_id (first ∷ rows) row e =
    ground (arith, eq_iff first.task_id task_id, find_task_id task_id rows row)

pub find_task-none :
    (task_id : String) (rows : List TaskRow)
    → any (λ other. other.task_id == task_id) rows ≡ false
    → find_task task_id rows ≡ none
unfolding find_task
find_task-none task_id [] e = refl
find_task-none task_id (first ∷ rows) e = ground (arith, find_task-none task_id rows)

pub row_task-eq-ok :
    (task_id : String) (db : Db) (row : TaskRow)
    → row_task task_id db ≡ ok row
    → (row.task_id ≡ task_id) × (find_task row.task_id db.governed_tasks ≡ some row)
unfolding row_task
row_task-eq-ok task_id db row e = elim (Option-cases (find_task task_id db.governed_tasks)) [
  | inl h ↦ absurd (ground arith)
  | inr (found, h) ↦
      let same : found ≡ row = ground arith in
      let named = find_task_id task_id db.governed_tasks found h in (ground arith, ground arith)
]

pub checked_task_id-eq :
    (task_id checked : String) → checked_task_id task_id ≡ ok checked → checked ≡ task_id
unfolding checked_task_id
checked_task_id-eq task_id checked e = ground arith

pub check_review-eq-ok :
    (row : TaskRow) (payload : ReviewRequest) (db : Db)
    → check_review row payload db ≡ ok tt
    → (row.status ≡ under_review)
      × (payload.expected_version ≡ row.version)
      × (payload.decision ≡ approve → missing_categories row db ≡ [])
unfolding check_review
check_review-eq-ok row payload db e =
    let (under, e1) =
      raise_if-eq-ok (not (is_under_review row.status)) review_requires_under_review _ e in
    let (current, e2) =
      raise_if-eq-ok (not (nat_eq payload.expected_version row.version)) task_version_conflict _
        e1 in
    (ground arith, ground arith, λ d. ground arith)

module _ (site : Site) where
  pub record_transition-eq-ok :
      (row updated : TaskRow) (destination : TaskStatus) (payload : TransitionRequest)
      (moment : Moment) (db db' : Db)
      → record_transition site row destination payload moment db ≡ ok (updated, db')
      → (allowed_transition row.status destination ≡ true)
        × (payload.expected_version ≡ row.version)
        × IsMoveAudited site row destination payload moment db db'
  unfolding record_transition
  record_transition-eq-ok row updated destination payload moment db db' e =
      let event = new_event site row destination payload moment db in
      let (permitted, e1) =
        raise_if-eq-ok (not (allowed_transition row.status destination)) invalid_task_transition _
          e in
      let (current, e2) =
        raise_if-eq-ok (not (nat_eq payload.expected_version row.version)) task_version_conflict _
          e1 in
      let (_, e3) =
        raise_if-eq-ok
          (any (λ other. other.content.event_id == event.content.event_id)
            db.task_transition_events)
          integrity_error _ e2 in
      let (_, e4) =
        raise_if-eq-ok (not (refers (some row.task_id) db.governed_tasks)) integrity_error _ e3 in
      let (found, f, e5) =
        >>=-eq-ok (row_task row.task_id (with_move site db row destination payload moment)) _ e4 in
      let (audited, a, e6) = >>=-eq-ok (audit site.digests _ _ _ _ _ _) _ e5 in
      let same : db' ≡ audited = ground arith in (ground arith, ground arith, rw same (found, f, a))

  pub insert_review-eq-ok :
      (task_id : String) (payload : ReviewRequest) (moment : Moment) (db db' : Db)
      → insert_review site task_id payload moment db ≡ ok db'
      → IsReviewAudited site task_id payload moment
          (with_review db (new_review site task_id payload moment))
          db'
  unfolding insert_review
  insert_review-eq-ok task_id payload moment db db' e =
      let entry = new_review site task_id payload moment in
      let (_, e1) =
        raise_if-eq-ok (any (λ other. other.review_id == entry.review_id) db.human_reviews)
          integrity_error _ e in
      let (_, e2) =
        raise_if-eq-ok (not (refers (some task_id) db.governed_tasks)) integrity_error _ e1 in
      e2
