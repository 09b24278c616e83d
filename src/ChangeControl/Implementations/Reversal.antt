-- ===== src/ChangeControl/Implementations/Reversal.antt =====
-- `_review_implementation` with ROLLBACK after `_apply_implementation`.
use palwakf_agentic_ai_syste.Prelude.{
  String, ◌≡◌, refl, sym, ap, ◌∙◌, true, some, List, [], ok, All,
}
use mathlib.Core.Path.{subst}
use palwakf_agentic_ai_syste.Prelude.Dict.{get, Dict}
use palwakf_agentic_ai_syste.ChangeControl.Schema.{
  implementation_preimage_stale, rollback_postimage_changed, rollback, rolled_back, ReviewDetails,
  Change, Proposal, Implementation, Db, Host,
}
use palwakf_agentic_ai_syste.ChangeControl.Implementations.{
  locate_changes, apply_changes, with_work, record_applied, apply_implementation,
}
use palwakf_agentic_ai_syste.ChangeControl.Reviews.{roll_back, review_implementation}
use palwakf_agentic_ai_syste.ChangeControl.Implementations.Writes.{
  write_all, apply_changes-files, apply_changes-backup,
}
use palwakf_agentic_ai_syste.ChangeControl.Implementations.Rollback.{
  IsRestorable, get-write_all-each, locate_changes-new, roll_back-write_all,
}
use palwakf_agentic_ai_syste.ChangeControl.Implementations.Found.{
  AreProposed, AreReversible, AreTargets, located-AreTargets, targets-IsRestorable, ok_inj,
}
use palwakf_agentic_ai_syste.ChangeControl.Implementations.Transaction.{work_of}
use palwakf_agentic_ai_syste.ChangeControl.Implementations.Checked.{put-found, some_inj}
use palwakf_agentic_ai_syste.ChangeControl.Implementations.Applied.{
  applied-proposal_id, IsApplied, apply_implementation-IsApplied,
}
use palwakf_agentic_ai_syste.ChangeControl.Implementations.Reviewed.{
  IsRolledBack, review_rollback-returns, check_reviewable-eq, review-eq,
}
use palwakf_agentic_ai_syste.Prelude.Utf8.{Bytes}

module _ (h : Host) where
  -- Files with the new contents pass the checks of a rollback.
  located-new :
      (files backup : Dict Bytes) (changes : List Change) (targets : List (String × Change))
      → AreTargets h files changes targets
      → All (IsRestorable h backup files) targets
      → locate_changes h
          (λ c. c.postimage_sha256)
          rollback_postimage_changed
          (write_all targets files)
          changes
        ≡ ok targets
  located-new files backup changes targets t r =
      subst
        (λ cs.
          locate_changes h (λ c. c.postimage_sha256) rollback_postimage_changed
            (write_all targets files) cs
          ≡ ok targets)
        t.names
        (locate_changes-new h targets backup files (write_all targets files) t.digests r
          (get-write_all-each targets [] files t.unseen t.named))

  -- And its loop takes them back.
  roll_back-new :
      (files backup : Dict Bytes) (changes : List Change) (targets : List (String × Change))
      → AreTargets h files changes targets
      → All (IsRestorable h backup files) targets
      → roll_back h backup changes (write_all targets files) ≡ (ok tt, files)
  roll_back-new files backup changes targets t r =
      subst (λ cs. roll_back h backup cs (write_all targets files) ≡ (ok tt, files)) t.names
        (roll_back-write_all h targets [] backup files t.unseen t.named r)

  -- The files that the apply has written go back to what they were.
  applied-IsRolledBack :
      (implementation_id apply_token : String) (details : ReviewDetails) (db : Db)
      (before : Implementation) (proposal : Proposal) (targets : List (String × Change))
      → IsApplied h implementation_id apply_token db before proposal targets
      → AreProposed h proposal.changes
      → AreReversible h proposal.changes
      → IsRolledBack h before.proposal_id db.disk.files (
          review_implementation h implementation_id rollback details
            (record_applied implementation_id before proposal (
              with_work implementation_id
                (apply_changes h targets [] (work_of h implementation_id db)).1
                db)).1)
  unfolding record_applied
  applied-IsRolledBack implementation_id apply_token details db before proposal targets a wf
        (small, writable) =
      let work = (apply_changes h targets [] (work_of h implementation_id db)).1 in
      let after =
        record_applied implementation_id before proposal (with_work implementation_id work db) in
      let t =
        located-AreTargets h implementation_preimage_stale db.disk.files proposal.changes targets wf
          a.checked.located in
      let saved =
        apply_changes-backup h targets [] [] (work_of h implementation_id db) a.written t.unseen
          t.named in
      let restorable =
        targets-IsRestorable h db.disk.files work.backup targets t.found t.named saved
          (rw t.names (small, writable)) in
      let files : work.files ≡ write_all targets db.disk.files =
        apply_changes-files h targets [] (work_of h implementation_id db) a.written in
      let proposed =
        put-found before.proposal_id (record proposal { applied = true }) db.proposals in
      let reviewable =
        check_reviewable-eq h implementation_id after.1 after.0 (record proposal { applied = true })
          (put-found implementation_id after.0 db.implementations) refl proposed in
      let rolled =
        review_rollback-returns h implementation_id implementation_id after.0 details after.1
          (record proposal { applied = true }) work.backup db.disk.files targets proposed refl
          (put-found implementation_id work.backup db.disk.backups)
          (rw files (located-new db.disk.files work.backup proposal.changes targets t restorable))
          (rw files
            (roll_back-new db.disk.files work.backup proposal.changes targets t restorable)) in
      rw (review-eq h implementation_id details after.1 after.0 reviewable) rolled

  -- What a proposal of `_generate_proposal` has changed, if no new content is larger than `_safe_target` allows and
  -- the files can be written, a ROLLBACK changes back: every file is as it was before the apply.
  pub apply_implementation-IsRolledBack :
      (implementation_id apply_token : String) (details : ReviewDetails) (db : Db)
      (implementation : Implementation) (proposal : Proposal)
      → (apply_implementation h implementation_id apply_token db).0 ≡ ok implementation
      → get implementation.proposal_id db.proposals ≡ some proposal
      → AreProposed h proposal.changes
      → AreReversible h proposal.changes
      → (reviewed : Implementation) × ((review_implementation h implementation_id rollback details
            (apply_implementation h implementation_id apply_token db).1).0
          ≡ ok reviewed)
        × (reviewed.status ≡ rolled_back)
        × ((review_implementation h implementation_id rollback details
              (apply_implementation h implementation_id apply_token db).1).1.disk.files
            ≡ db.disk.files)
  apply_implementation-IsRolledBack implementation_id apply_token details db implementation proposal
        r g p v =
      let (before, found, targets, a) =
        apply_implementation-IsApplied h implementation_id apply_token db implementation r in
      let named : before.proposal_id ≡ implementation.proposal_id =
        applied-proposal_id _ before found _ implementation
          (ok_inj _ _ (sym (ap (λ d. d.0) a.returned) ∙ r)) in
      let same =
        some_inj found proposal (sym a.checked.proposed ∙ ap (λ k. get k db.proposals) named ∙ g) in
      rw a.returned (
        applied-IsRolledBack implementation_id apply_token details db before found targets a
          (rw same p) (rw same v))
