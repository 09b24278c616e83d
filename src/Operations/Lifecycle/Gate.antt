-- ===== src/Operations/Lifecycle/Gate.antt =====
-- The approval of governed_operations/store.py: a task is approved only by a review, and only with the
-- evidence that it requires.
use palwakf_agentic_ai_syste.Prelude.{
  ℕ, suc, String, ◌≡◌, refl, sym, ◌∙◌, ◌≢◌, ◌⊎◌, inl, inr, some, List, [], ◌∷◌, ap, ◌==◌,
  Bool-cases, Option-cases, arith, eq_iff, Elem,
}
use palwakf_agentic_ai_syste.Operations.Schema.{
  TaskStatus, approved, Decision, approve, reject, return, TaskRow, ReviewRow, ReviewRequest,
  TransitionRequest, EvidenceCreate, Db,
}
use palwakf_agentic_ai_syste.Operations.Tasks.{find_task, update_task, missing_categories}
use palwakf_agentic_ai_syste.Operations.Lifecycle.{
  Site, Moment, new_task, new_evidence, new_review, destination_of, Call, handle_all,
}
use palwakf_agentic_ai_syste.Operations.Lifecycle.Steps.{
  IsAudited, with_task, with_evidence, with_review, with_move, IsTask, Step, bound, task_added,
  evidence_added, task_moved, task_reviewed, Run, done, next,
}
use palwakf_agentic_ai_syste.Operations.Lifecycle.Tables.{
  audited-tables, find_task-append, find_task-append-some, moved_row, find_task-update_task,
  find_task-update_task-none, missing_categories-with_evidence, Elem-append, Elem-append-last,
}
use palwakf_agentic_ai_syste.Operations.Lifecycle.Steps.Runs.{handle_all-Run}

-- No evidence that the task requires is missing, and a review has approved it.
abbrev pub IsCleared : Db → TaskRow → Type 0
IsCleared db row =
    (missing_categories row db ≡ [])
    × (review : ReviewRow) × Elem review db.human_reviews
    × (review.task_id ≡ row.task_id)
    × (review.decision ≡ approve)

-- Every approved task is cleared.
abbrev pub IsGated : Db → Type 0
IsGated db =
    (task_id : String) (row : TaskRow)
    → find_task task_id db.governed_tasks ≡ some row
    → row.status ≡ approved
    → IsCleared db row

-- A task that the update of one row yields is that row, moved, or was there before.
found_after_update :
    (task_id other : String) (destination : TaskStatus) (revision now : ℕ) (rows : List TaskRow)
    (row last : TaskRow)
    → find_task task_id rows ≡ some row
    → find_task other (update_task task_id destination revision now rows) ≡ some last
    → ((other ≡ task_id) × (last ≡ moved_row row destination revision now))
      ⊎ (find_task other rows ≡ some last)
found_after_update task_id other destination revision now rows row last t f =
    elim (Option-cases (find_task other rows)) [
      | inl h ↦
          absurd (
            ground
              (arith, find_task-update_task-none task_id other destination revision now rows h))
      | inr (found, h) ↦
          let looked = find_task-update_task task_id other destination revision now rows found h in
          elim (Bool-cases (other == task_id)) [
            | inl same ↦ let e = eq_iff other task_id in inl (ground arith, ground arith)
            | inr different ↦ inr (ground arith)
          ]
    ]

missing_categories-same :
    (db db' : Db) (row : TaskRow)
    → db'.evidence_records ≡ db.evidence_records
    → missing_categories row db ≡ []
    → missing_categories row db' ≡ []
unfolding missing_categories
missing_categories-same db db' row e c = rw e c

-- Clearance depends on the evidence and the reviews only.
IsCleared-same :
    (db db' : Db) (row : TaskRow)
    → db'.evidence_records ≡ db.evidence_records
    → db'.human_reviews ≡ db.human_reviews
    → IsCleared db row
    → IsCleared db' row
unfolding missing_categories
IsCleared-same db db' row e r c = rw (e, r) c

added-IsGated :
    (db : Db) (added : TaskRow)
    → added.status ≢ approved
    → IsGated db
    → IsGated (with_task db added)
added-IsGated db added n g task_id row f s =
    elim (Option-cases (find_task task_id db.governed_tasks)) [
      | inr (old, h) ↦
          let kept = find_task-append-some task_id db.governed_tasks added old h in
          let same : row ≡ old = ground arith in
          IsCleared-same db (with_task db added) row refl refl (g task_id row (h ∙ rw same refl) s)
      | inl h ↦
          let looked = find_task-append task_id db.governed_tasks added h in
          let same : row ≡ added = ground arith in absurd (n (rw⁻¹ same s))
    ]

evidence-IsGated :
    (site : Site) (db : Db) (payload : EvidenceCreate) (moment : Moment)
    → IsGated db
    → IsGated (with_evidence db (new_evidence site payload moment))
evidence-IsGated site db payload moment g task_id row f s =
    let (gate, review, m, o, d) = g task_id row f s in
    (
      missing_categories-with_evidence row db (new_evidence site payload moment) gate,
      review,
      m,
      o,
      d,
    )

-- The clearance of the row that a review approves.
reviewed-IsCleared :
    (db db' : Db) (row : TaskRow) (review : ReviewRow) (revision now : ℕ)
    → db'.evidence_records ≡ db.evidence_records
    → Elem review db'.human_reviews
    → review.task_id ≡ row.task_id
    → review.decision ≡ approve
    → missing_categories row db ≡ []
    → IsCleared db' (moved_row row approved revision now)
unfolding missing_categories
reviewed-IsCleared db db' row review revision now e m o d gate = (rw e gate, review, m, o, d)

destination_of-approved :
    (decision : Decision) → destination_of decision ≡ approved → decision ≡ approve
unfolding destination_of
destination_of-approved approve e = refl
destination_of-approved reject e = absurd (ground arith)
destination_of-approved return e = absurd (ground arith)

module _ (site : Site) where
  audited-IsGated : (db db' : Db) → IsAudited site db db' → IsGated db → IsGated db'
  audited-IsGated db db' a g task_id row f s =
      let (tasks, reviews, evidence) = audited-tables site db db' a in
      IsCleared-same db db' row evidence reviews (g task_id row (rw tasks at f) s)

  moved-IsGated :
      (db : Db) (row : TaskRow) (destination : TaskStatus) (payload : TransitionRequest)
      (moment : Moment)
      → IsTask site db row
      → destination ≢ approved
      → IsGated db
      → IsGated (with_move site db row destination payload moment)
  moved-IsGated db row destination payload moment t n g task_id last f s =
      elim (found_after_update row.task_id task_id destination (suc row.version) moment.now
        db.governed_tasks row last t f) [
          | inl (_, same) ↦ absurd (n (sym (ap (λ x. x.status) same) ∙ s))
          | inr old ↦
              IsCleared-same db (with_move site db row destination payload moment) last refl refl
                (g task_id last old s)
        ]

  decided-IsGated :
      (db mid : Db) (row : TaskRow) (payload : ReviewRequest) (moved_at reviewed_at : Moment)
      → IsTask site db row
      → (payload.decision ≡ approve → missing_categories row db ≡ [])
      → IsAudited site
          (with_move site db row
            (destination_of payload.decision)
            payload.transition_request
            moved_at)
          mid
      → IsGated db
      → IsGated (with_review mid (new_review site row.task_id payload reviewed_at))
  decided-IsGated db mid row payload moved_at reviewed_at t gate a g task_id last f s =
      let destination = destination_of payload.decision in
      let entry = new_review site row.task_id payload reviewed_at in
      let (tasks, reviews, evidence) =
        audited-tables site (with_move site db row destination payload.transition_request moved_at)
          mid a in
      elim (found_after_update row.task_id task_id destination (suc row.version) moved_at.now
        db.governed_tasks row last t (rw tasks at f)) [
          | inl (_, same) ↦
              let approving : destination ≡ approved = sym (ap (λ x. x.status) same) ∙ s in
              let decided = destination_of-approved payload.decision approving in
              rw (same, approving)
                (reviewed-IsCleared db (with_review mid entry) row entry (suc row.version)
                  moved_at.now evidence (Elem-append-last entry mid.human_reviews)
                  (unfold new_review in refl) (unfold new_review in decided) (gate decided))
          | inr old ↦
              let (missing, review, m, o, d) = g task_id last old s in
              (
                missing_categories-same db (with_review mid entry) last evidence missing,
                review,
                Elem-append review mid.human_reviews (entry ∷ []) (rw reviews m),
                o,
                d,
              )
        ]

  Step-IsGated : {db db' : Db} → Step site db db' → IsGated db → IsGated db'
  Step-IsGated {db = db} {db' = db'} (bound _ _ a) g = audited-IsGated db db' (_, _, _, _, _, a) g
  Step-IsGated {db = db} {db' = db'} (task_added payload key moment _ n a) g =
      let added = new_task site payload key moment in
      audited-IsGated (with_task db added) db' (_, _, _, _, _, a)
        (added-IsGated db added (unfold new_task in ground arith) g)
  Step-IsGated {db = db} {db' = db'} (evidence_added payload moment a) g =
      audited-IsGated (with_evidence db (new_evidence site payload moment)) db' (_, _, _, _, _, a)
        (evidence-IsGated site db payload moment g)
  Step-IsGated {db = db} {db' = db'}
        (task_moved row destination payload moment t n permitted c (_, _, a)) g =
      audited-IsGated (with_move site db row destination payload moment) db' (_, _, _, _, _, a)
        (moved-IsGated db row destination payload moment t n g)
  Step-IsGated {db = db} {db' = db'}
        (task_reviewed {mid = mid} row payload moved_at reviewed_at t under c gate (_, _, a) b) g =
      audited-IsGated (with_review mid (new_review site row.task_id payload reviewed_at)) db'
        (_, _, _, _, _, b)
        (decided-IsGated db mid row payload moved_at reviewed_at t gate (_, _, _, _, _, a) g)

  Run-IsGated : {db db' : Db} → Run site db db' → IsGated db → IsGated db'
  Run-IsGated done g = g
  Run-IsGated (next s r) g = Run-IsGated r (Step-IsGated s g)

  -- Where every approved task has all the evidence that it requires and a review that approved it, this
  -- holds after any sequence of calls, whether they succeed or fail.
  pub handle_all-IsGated :
      (calls : List Call) (db : Db) → IsGated db → IsGated (handle_all site calls db)
  handle_all-IsGated calls db g = Run-IsGated (handle_all-Run site calls db) g
