-- ===== src/ChangeControl/Implementations/Reviewed.antt =====
-- What the ROLLBACK of an applied implementation returns.
use palwakf_agentic_ai_syste.Prelude.{String, ◌≡◌, refl, ap, some, List, Result, ok}
use palwakf_agentic_ai_syste.Prelude.Dict.{Dict, get}
use palwakf_agentic_ai_syste.Prelude.Utf8.{Bytes}
use palwakf_agentic_ai_syste.ChangeControl.Schema.{
  ChangeError, rollback_postimage_changed, rollback, applied_awaiting_review, rolled_back,
  ReviewDetails, Change, Proposal, Implementation, Db, Host,
}
use palwakf_agentic_ai_syste.ChangeControl.Implementations.{locate_changes}
use palwakf_agentic_ai_syste.ChangeControl.Reviews.{
  roll_back, record_review, check_rollback, review_rollback, check_reviewable,
  review_implementation,
}

module _ (h : Host) where
  -- What a rollback leaves when its checks and its loop pass.
  abbrev pub IsRolledBack : String → Dict Bytes → Result ChangeError Implementation × Db → Type 0
  IsRolledBack proposal_id files done =
      (implementation : Implementation) × (done.0 ≡ ok implementation)
      × (implementation.status ≡ rolled_back)
      × (done.1.disk.files ≡ files)

  pub review_rollback-returns :
      (implementation_id saved : String) (implementation : Implementation) (details : ReviewDetails)
      (db : Db) (proposal : Proposal) (backup files : Dict Bytes) (targets : List (String × Change))
      → get implementation.proposal_id db.proposals ≡ some proposal
      → implementation.backup_root ≡ some saved
      → get saved db.disk.backups ≡ some backup
      → locate_changes h
          (λ c. c.postimage_sha256)
          rollback_postimage_changed
          db.disk.files
          proposal.changes
        ≡ ok targets
      → roll_back h backup proposal.changes db.disk.files ≡ (ok tt, files)
      → IsRolledBack implementation.proposal_id files
          (review_rollback h implementation_id implementation details db)
  unfolding review_rollback check_rollback record_review
  review_rollback-returns implementation_id saved implementation details db proposal backup files
        targets g r b l k =
      let checked : check_rollback h implementation db ≡ ok (proposal, backup) =
        rw (g, check_rollback) (rw r (rw b (rw l refl))) in
      rw (checked, review_rollback) (rw k (_, refl, refl, ap (λ r. r.1) k))

  pub check_reviewable-eq :
      (implementation_id : String) (db : Db) (implementation : Implementation) (proposal : Proposal)
      → get implementation_id db.implementations ≡ some implementation
      → implementation.status ≡ applied_awaiting_review
      → get implementation.proposal_id db.proposals ≡ some proposal
      → check_reviewable implementation_id db ≡ ok implementation
  unfolding check_reviewable
  check_reviewable-eq implementation_id db implementation proposal f s g =
      rw (f, check_reviewable) (rw s (rw g refl))

  pub review-eq :
      (implementation_id : String) (details : ReviewDetails) (db : Db)
      (implementation : Implementation)
      → check_reviewable implementation_id db ≡ ok implementation
      → review_implementation h implementation_id rollback details db
        ≡ review_rollback h implementation_id implementation details db
  unfolding review_implementation
  review-eq implementation_id details db implementation c = rw (c, review_implementation) refl
