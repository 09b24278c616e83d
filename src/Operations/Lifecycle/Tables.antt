-- ===== src/Operations/Lifecycle/Tables.antt =====
-- Lemmas on the tables of governed_operations/store.py: what a step leaves of the lookups by primary key.
use palwakf_agentic_ai_syste.Prelude.{
  ℕ, String, ◌≡◌, refl, inl, inr, true, none, some, List, [], ◌∷◌, ◌++◌, ◌==◌, if◌then◌else◌, arith,
  eq_iff, contains, Elem,
}
use palwakf_agentic_ai_syste.Operations.Schema.{TaskStatus, TaskRow, EvidenceRow, Db}
use palwakf_agentic_ai_syste.Operations.Audit.Chain.{audit-eq}
use palwakf_agentic_ai_syste.Operations.Tasks.{
  find_task, update_task, present_categories, missing, missing_categories,
}
use palwakf_agentic_ai_syste.Operations.Lifecycle.{Site}
use palwakf_agentic_ai_syste.Operations.Lifecycle.Steps.{IsAudited, with_evidence}

-- An audit event leaves the other tables alone.
pub audited-tables :
    (site : Site) (db db' : Db)
    → IsAudited site db db'
    → (db'.governed_tasks ≡ db.governed_tasks)
      × (db'.human_reviews ≡ db.human_reviews)
      × (db'.evidence_records ≡ db.evidence_records)
audited-tables site db db' (task_id, event_type, actor_id, payload, now, e) =
    let same = audit-eq site.digests task_id event_type actor_id payload now db db' e in
    rw same (refl, refl, refl)

pub find_task-append :
    (task_id : String) (rows : List TaskRow) (row : TaskRow)
    → find_task task_id rows ≡ none
    → find_task task_id (rows ++ row ∷ []) ≡ (if row.task_id == task_id then some row else none)
unfolding find_task
find_task-append task_id [] row e = refl
find_task-append task_id (first ∷ rows) row e = ground (arith, find_task-append task_id rows row)

pub find_task-append-some :
    (task_id : String) (rows : List TaskRow) (row found : TaskRow)
    → find_task task_id rows ≡ some found
    → find_task task_id (rows ++ row ∷ []) ≡ some found
unfolding find_task
find_task-append-some task_id [] row found e = absurd (ground arith)
find_task-append-some task_id (first ∷ rows) row found e =
    ground (arith, find_task-append-some task_id rows row found)

pub find_task-id :
    (task_id : String) (rows : List TaskRow) (row : TaskRow)
    → find_task task_id rows ≡ some row
    → row.task_id ≡ task_id
unfolding find_task
find_task-id task_id [] row e = absurd (ground arith)
find_task-id task_id (first ∷ rows) row e =
    ground (arith, eq_iff first.task_id task_id, find_task-id task_id rows row)

abbrev pub moved_row : TaskRow → TaskStatus → ℕ → ℕ → TaskRow
moved_row row destination revision now = record row {
  status = destination;
  version = revision;
  updated_at = now;
}

-- The update of one task, seen by the lookup of a task.
pub find_task-update_task :
    (task_id other : String) (destination : TaskStatus) (revision now : ℕ) (rows : List TaskRow)
    (found : TaskRow)
    → find_task other rows ≡ some found
    → find_task other (update_task task_id destination revision now rows)
      ≡ some (if other == task_id then moved_row found destination revision now else found)
unfolding find_task update_task
find_task-update_task task_id other destination revision now [] found e = absurd (ground arith)
find_task-update_task task_id other destination revision now (first ∷ rows) found e = ground (
  arith,
  eq_iff first.task_id task_id,
  eq_iff first.task_id other,
  eq_iff other task_id,
  find_task-update_task task_id other destination revision now rows found,
)

pub find_task-update_task-none :
    (task_id other : String) (destination : TaskStatus) (revision now : ℕ) (rows : List TaskRow)
    → find_task other rows ≡ none
    → find_task other (update_task task_id destination revision now rows) ≡ none
unfolding find_task update_task
find_task-update_task-none task_id other destination revision now [] e = refl
find_task-update_task-none task_id other destination revision now (first ∷ rows) e = ground (
  arith,
  eq_iff first.task_id task_id,
  eq_iff first.task_id other,
  find_task-update_task-none task_id other destination revision now rows,
)

contains-present_categories :
    (category task_id : String) (rows : List EvidenceRow) (row : EvidenceRow)
    → contains category (present_categories task_id rows) ≡ true
    → contains category (present_categories task_id (rows ++ row ∷ [])) ≡ true
unfolding present_categories contains
contains-present_categories category task_id [] row e = absurd (ground arith)
contains-present_categories category task_id (first ∷ rows) row e =
    ground (arith, contains-present_categories category task_id rows row)

missing_mono :
    (required few many : List String)
    → ((x : String) → contains x few ≡ true → contains x many ≡ true)
    → missing required few ≡ []
    → missing required many ≡ []
unfolding missing
missing_mono [] few many f e = refl
missing_mono (item ∷ required) few many f e =
    ground (arith, f item, missing_mono required few many f)

-- More evidence closes no gate.
pub missing_categories-with_evidence :
    (row : TaskRow) (db : Db) (entry : EvidenceRow)
    → missing_categories row db ≡ []
    → missing_categories row (with_evidence db entry) ≡ []
unfolding missing_categories
missing_categories-with_evidence row db entry e =
    missing_mono row.evidence_required (present_categories row.task_id db.evidence_records)
      (present_categories row.task_id (db.evidence_records ++ entry ∷ []))
      (λ x. contains-present_categories x row.task_id db.evidence_records entry) e

pub Elem-append : {A : Type 0} (x : A) (xs ys : List A) → Elem x xs → Elem x (xs ++ ys)
Elem-append x [] ys m = absurd m
Elem-append x (y ∷ rest) ys (inl e) = inl e
Elem-append x (y ∷ rest) ys (inr m) = inr (Elem-append x rest ys m)

pub Elem-append-last : {A : Type 0} (x : A) (xs : List A) → Elem x (xs ++ x ∷ [])
Elem-append-last x [] = inl refl
Elem-append-last x (y ∷ rest) = inr (Elem-append-last x rest)
