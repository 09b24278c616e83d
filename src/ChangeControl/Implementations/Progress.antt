-- ===== src/ChangeControl/Implementations/Progress.antt =====
-- An implementation that `_prepare_implementation` has made can be applied.
use palwakf_agentic_ai_syste.Prelude.{
  String, ◌≡◌, refl, sym, ap, ◌∙◌, not, none, some, List, [], ok, >>=-eq-ok, raise_if-eq-ok,
  or_raise, true, Result,
}
use palwakf_agentic_ai_syste.Prelude.Dict.{get, put}
use palwakf_agentic_ai_syste.ChangeControl.Schema.{
  ChangeError, proposal_not_found, accepted_proposal_required, proposal_already_applied,
  proposal_preimage_stale, implementation_preimage_stale, approved_for_apply, accepted,
  applied_awaiting_review, Change, Proposal, Implementation, Db, Host, sha256_text,
}
use palwakf_agentic_ai_syste.ChangeControl.Proposals.{is_accepted}
use palwakf_agentic_ai_syste.ChangeControl.Implementations.{
  locate_changes, prepare_implementation, record_applied, apply_implementation,
}
use palwakf_agentic_ai_syste.ChangeControl.Implementations.Found.{
  AreProposed, located-AreTargets, ok_inj,
}
use palwakf_agentic_ai_syste.ChangeControl.Implementations.Transaction.{work_of, perform-returned}
use palwakf_agentic_ai_syste.ChangeControl.Implementations.Checked.{
  IsChecked, put-found, some_inj, or_raise-eq-ok, is_accepted-eq,
}
use palwakf_agentic_ai_syste.ChangeControl.Implementations.Returns.{
  AreWritable, locate_changes-stale, check_apply-returns, apply_changes-returns, found-IsHeld,
  targets-IsWritable,
}

-- The call returns an implementation that awaits its review and has no token any more, and the state that it
-- leaves holds this implementation, and the proposal marked as applied.
abbrev pub IsRecorded : String → String → Proposal → Result ChangeError Implementation × Db → Type 0
IsRecorded implementation_id proposal_id proposal done =
    (applied : Implementation) × (done.0 ≡ ok applied)
    × (applied.status ≡ applied_awaiting_review)
    × (applied.apply_token ≡ none)
    × (get implementation_id done.1.implementations ≡ some applied)
    × (get proposal_id done.1.proposals ≡ some (record proposal { applied = true }))

module _ (h : Host) where
  checked-IsApplied :
      (implementation_id apply_token : String) (db : Db) (implementation : Implementation)
      (proposal : Proposal) (targets : List (String × Change))
      → IsChecked h implementation_id apply_token db implementation proposal targets
      → AreProposed h proposal.changes
      → AreWritable h proposal.changes
      → IsRecorded implementation_id implementation.proposal_id proposal
          (apply_implementation h implementation_id apply_token db)
  unfolding apply_implementation record_applied
  checked-IsApplied implementation_id apply_token db implementation proposal targets c wf writable =
      let t =
        located-AreTargets h implementation_preimage_stale db.disk.files proposal.changes targets wf
          c.located in
      let written =
        apply_changes-returns h targets [] (work_of h implementation_id db)
          (found-IsHeld h db.disk.files targets t.found) t.digests
          (targets-IsWritable h targets t.named (rw t.names writable)) in
      rw
        (
          check_apply-returns h implementation_id apply_token db implementation proposal targets c,
          apply_implementation,
        )
        (rw (perform-returned h implementation_id implementation proposal targets db written) (
          _,
          refl,
          refl,
          refl,
          put-found implementation_id _ db.implementations,
          put-found implementation.proposal_id _ db.proposals,
        ))

  -- What `_prepare_implementation` leaves.
  abbrev pub prepared :
      String → String → String → String → String → Proposal → Db → Implementation × Db
  prepared implementation_id apply_token proposal_id approved_by reference proposal db =
      let implementation : Implementation = record {
        proposal_id = proposal_id;
        status = approved_for_apply;
        approved_by = approved_by;
        approval_reference = reference;
        apply_token_sha256 = sha256_text h apply_token;
        apply_token = some apply_token;
        proposal_sha256 = proposal.proposal_sha256;
        backup_root = none;
        review = none;
      } in
      (
        implementation,
        record db { implementations = put implementation_id implementation db.implementations },
      )

  pub prepare_implementation-eq-ok :
      (implementation_id apply_token proposal_id approved_by reference : String) (db : Db)
      (answer : Implementation × Db)
      → prepare_implementation h implementation_id apply_token proposal_id approved_by reference db
        ≡ ok answer
      → (proposal : Proposal) × (targets : List (String × Change)) × (get proposal_id db.proposals
          ≡ some proposal)
        × (proposal.status ≡ accepted)
        × (locate_changes h
              (λ c. c.preimage_sha256)
              proposal_preimage_stale
              db.disk.files
              proposal.changes
            ≡ ok targets)
        × (prepared implementation_id apply_token proposal_id approved_by reference proposal db
            ≡ answer)
  unfolding prepare_implementation
  prepare_implementation-eq-ok implementation_id apply_token proposal_id approved_by reference db
        answer e =
      let (proposal, f, e1) =
        >>=-eq-ok (or_raise (get proposal_id db.proposals) proposal_not_found) _ e in
      let (yes_, e2) =
        raise_if-eq-ok (not (is_accepted proposal.status)) accepted_proposal_required _ e1 in
      let (fresh, e3) = raise_if-eq-ok proposal.applied proposal_already_applied _ e2 in
      let (targets, l, e4) =
        >>=-eq-ok
          (locate_changes h (λ c. c.preimage_sha256) proposal_preimage_stale db.disk.files
            proposal.changes)
          _ e3 in
      (
        proposal,
        targets,
        or_raise-eq-ok _ _ proposal f,
        is_accepted-eq proposal.status yes_,
        l,
        ok_inj _ _ e4,
      )

  prepared-IsChecked :
      (implementation_id apply_token proposal_id approved_by reference : String) (db : Db)
      (proposal : Proposal) (targets : List (String × Change))
      → get proposal_id db.proposals ≡ some proposal
      → proposal.status ≡ accepted
      → locate_changes h
          (λ c. c.preimage_sha256)
          proposal_preimage_stale
          db.disk.files
          proposal.changes
        ≡ ok targets
      → IsChecked h implementation_id apply_token
          (prepared implementation_id apply_token proposal_id approved_by reference proposal db).1
          (prepared implementation_id apply_token proposal_id approved_by reference proposal db).0
          proposal
          targets
  prepared-IsChecked implementation_id apply_token proposal_id approved_by reference db proposal
        targets f s l =
      record {
        found = put-found implementation_id _ db.implementations;
        approved = refl;
        token = refl;
        proposed = f;
        is_accepted_ = s;
        same_proposal = refl;
        located =
            locate_changes-stale h (λ c. c.preimage_sha256) proposal_preimage_stale
              implementation_preimage_stale db.disk.files proposal.changes targets l;
      }

  -- What a call of `_prepare_implementation` has returned for a proposal with well-formed changes, a call of
  -- `_apply_implementation` with its token applies, if the files can be backed up and written: it returns, and the
  -- state that it leaves holds the implementation, now awaiting its review, and the proposal, now applied.
  pub prepare_implementation-IsApplied :
      (implementation_id apply_token proposal_id approved_by reference : String) (db made : Db)
      (implementation : Implementation) (proposal : Proposal)
      → prepare_implementation h implementation_id apply_token proposal_id approved_by reference db
        ≡ ok (implementation, made)
      → get proposal_id db.proposals ≡ some proposal
      → AreProposed h proposal.changes
      → AreWritable h proposal.changes
      → IsRecorded implementation_id proposal_id proposal
          (apply_implementation h implementation_id apply_token made)
  prepare_implementation-IsApplied implementation_id apply_token proposal_id approved_by reference
        db made implementation proposal e g p w =
      let (found, targets, f, s, l, same) =
        prepare_implementation-eq-ok implementation_id apply_token proposal_id approved_by reference
          db (implementation, made) e in
      let one = some_inj found proposal (sym f ∙ g) in
      rw (sym (ap (λ a. a.1) same), sym one)
        (checked-IsApplied implementation_id apply_token _ _ found targets
          (prepared-IsChecked implementation_id apply_token proposal_id approved_by reference db
            found targets f s l)
          (rw one p) (rw one w))
