-- ===== src/ChangeControl/Reviews.antt =====
-- `_review_implementation`: an applied implementation is accepted, or rolled back from its backups.
use palwakf_agentic_ai_syste.Prelude.{
  String, false, not, none, some, List, [], ◌∷◌, ◌++◌, if◌then◌else◌, Result, ok, err, ◌>>=◌, ◌>>◌,
  raise_if, or_raise,
}
use palwakf_agentic_ai_syste.Prelude.Dict.{Dict, get, put}
use palwakf_agentic_ai_syste.Prelude.Utf8.{Bytes}
use palwakf_agentic_ai_syste.ChangeControl.Schema.{
  ChangeError, path_not_found, proposal_not_found, implementation_not_found, os_error,
  implementation_not_ready_for_review, rollback_postimage_changed, rollback_backup_missing,
  rollback_preimage_hash_mismatch, ImplementationDecision, accept_implementation, rollback,
  ImplementationStatus, rolled_back, accepted_implementation, ReviewDetails, review_of,
  implementation_decision_text, Change, Proposal, Implementation, Db, Host,
}
use palwakf_agentic_ai_syste.ChangeControl.Targets.{safe_target}
use palwakf_agentic_ai_syste.ChangeControl.Implementations.{
  differs, locate_changes, is_awaiting_review,
}

-- The second loop of a rollback; what it has written when it raises stays written.
unfoldable pub roll_back :
    Host → Dict Bytes → List Change → Dict Bytes → Result ChangeError (Unit {0}) × Dict Bytes
roll_back h backup [] files = (ok tt, files)
roll_back h backup (change ∷ changes) files = elim (safe_target h files change.path) [
  | err e ↦ (err e, files)
  | ok path ↦ elim (get change.path backup) [
    | none ↦ (err rollback_backup_missing, files)
    | some content ↦
        let restored = put path content files in
        let rest = roll_back h backup changes restored in
        if h.write_fails path
        then (err os_error, files)
        else if differs h restored path change.preimage_sha256
        then (err rollback_preimage_hash_mismatch, restored)
        else rest
  ]
]

abbrev pub with_files : Dict Bytes → Db → Db
with_files files db = record db { disk = record db.disk { files = files } }

-- The end of `_review_implementation`: the review is recorded with the new status.
unfoldable pub record_review :
    String
    → Implementation
    → ImplementationStatus
    → ImplementationDecision
    → ReviewDetails
    → Db
    → Implementation × Db
record_review implementation_id implementation status decision details db =
    let review =
      review_of details "implementations" implementation_id
        (implementation_decision_text decision) in
    let reviewed : Implementation = record implementation {
      status = status;
      review = some review;
    } in
    (
      reviewed,
      record db {
        implementations = put implementation_id reviewed db.implementations;
        reviews = db.reviews ++ review ∷ [];
      },
    )

-- The checks of a rollback that precede its writes: the proposal, and the backups.
unfoldable pub check_rollback :
    Host → Implementation → Db → Result ChangeError (Proposal × Dict Bytes)
check_rollback h implementation db = do
  proposal ← or_raise (get implementation.proposal_id db.proposals) proposal_not_found
  saved ← or_raise implementation.backup_root path_not_found
  backup ← or_raise (get saved db.disk.backups) path_not_found
  located ←
      locate_changes h (λ c. c.postimage_sha256) rollback_postimage_changed db.disk.files
        proposal.changes
  ok (proposal, backup)

-- The branch ROLLBACK of `_review_implementation`.
unfoldable pub review_rollback :
    Host → String → Implementation → ReviewDetails → Db → Result ChangeError Implementation × Db
review_rollback h implementation_id implementation details db =
    elim (check_rollback h implementation db) [
      | err e ↦ (err e, db)
      | ok (proposal, backup) ↦
          let done = roll_back h backup proposal.changes db.disk.files in
          let left = with_files done.1 db in
          elim done.0 [
            | err e ↦ (err e, left)
            | ok _ ↦
                let kept = record left {
                  proposals =
                      put implementation.proposal_id (record proposal { applied = false })
                        left.proposals;
                } in
                let reviewed =
                  record_review implementation_id implementation rolled_back rollback details
                    kept in
                (ok reviewed.0, reviewed.1)
          ]
    ]

-- The checks of `_review_implementation` that its two branches share.
unfoldable pub check_reviewable : String → Db → Result ChangeError Implementation
check_reviewable implementation_id db = do
  implementation ← or_raise (get implementation_id db.implementations) implementation_not_found
  raise_if (not (is_awaiting_review implementation.status)) implementation_not_ready_for_review
  proposal ← or_raise (get implementation.proposal_id db.proposals) proposal_not_found
  ok implementation

-- `_review_implementation`
unfoldable pub review_implementation :
    Host
    → String
    → ImplementationDecision
    → ReviewDetails
    → Db
    → Result ChangeError Implementation × Db
review_implementation h implementation_id decision details db =
    elim (check_reviewable implementation_id db) [
      | err e ↦ (err e, db)
      | ok implementation ↦ elim decision [
        | rollback ↦ review_rollback h implementation_id implementation details db
        | accept_implementation ↦
            let reviewed =
              record_review implementation_id implementation accepted_implementation
                accept_implementation details db in
            (ok reviewed.0, reviewed.1)
      ]
    ]
