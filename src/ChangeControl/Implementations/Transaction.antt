-- ===== src/ChangeControl/Implementations/Transaction.antt =====
-- `_apply_implementation` as a transaction on the files, and its rollback.
use palwakf_agentic_ai_syste.Prelude.{
  String, ◌≡◌, refl, ap, ◌∙◌, ◌⊎◌, inl, inr, some, List, [], ◌∷◌, map, Result, ok, err, All,
  Result-cases,
}
use palwakf_agentic_ai_syste.Prelude.Dict.{Dict, get, put, AllValues, AllValues-get}
use palwakf_agentic_ai_syste.Prelude.Utf8.{Bytes, utf8}
use palwakf_agentic_ai_syste.ChangeControl.Schema.{
  ChangeError, implementation_preimage_stale, accepted, Change, Proposal, Implementation, Db, Host,
}
use palwakf_agentic_ai_syste.ChangeControl.Implementations.{
  Work, restore, apply_changes, check_apply, backup_of, with_work, record_applied, perform,
  apply_implementation,
}
use palwakf_agentic_ai_syste.ChangeControl.Implementations.Restore.{apply_changes-undo}
use palwakf_agentic_ai_syste.ChangeControl.Implementations.Writes.{
  write_all, IsNamed, apply_changes-files,
}
use palwakf_agentic_ai_syste.ChangeControl.Implementations.Found.{AreProposed, located-AreTargets}
use palwakf_agentic_ai_syste.ChangeControl.Implementations.Checked.{IsChecked, check_apply-eq-ok}

-- The files with every change of a proposal.
abbrev pub written_files : List Change → Dict Bytes → Dict Bytes
written_files [] files = files
written_files (change ∷ changes) files =
    written_files changes (put change.path (utf8 change.new_content) files)

pub write_all-eq :
    (targets : List (String × Change)) (files : Dict Bytes)
    → All IsNamed targets
    → write_all targets files ≡ written_files (map (λ t. t.1) targets) files
write_all-eq [] files n = refl
write_all-eq ((path, change) ∷ targets) files (named, n) =
    ap (λ p. write_all targets (put p (utf8 change.new_content) files)) named
    ∙ write_all-eq targets (put change.path (utf8 change.new_content) files) n

module _ (h : Host) where
  -- The disk before the writes.
  abbrev pub work_of : String → Db → Work
  work_of implementation_id db = record {
    files = db.disk.files;
    backup = backup_of implementation_id db;
  }

  -- Either the files are as before, or all of them have their new content.
  abbrev IsDone : Db → String → Proposal → Result ChangeError Implementation × Db → Type 0
  IsDone db proposal_id proposal done =
      ((e : ChangeError) × (done.0 ≡ err e) × (done.1.disk.files ≡ db.disk.files))
      ⊎ ((implementation : Implementation) × (done.0 ≡ ok implementation)
          × (implementation.proposal_id ≡ proposal_id)
          × (done.1.disk.files ≡ written_files proposal.changes db.disk.files))

  pub perform-raised :
      (implementation_id : String) (implementation : Implementation) (proposal : Proposal)
      (targets : List (String × Change)) (db : Db) (e : ChangeError)
      → (apply_changes h targets [] (work_of implementation_id db)).0 ≡ err e
      → perform h implementation_id implementation proposal targets db ≡ (
        err e,
        with_work implementation_id
            (apply_changes h targets [] (work_of implementation_id db)).1
            db,
      )
  unfolding perform
  perform-raised implementation_id implementation proposal targets db e q = rw (q, perform) refl

  pub perform-returned :
      (implementation_id : String) (implementation : Implementation) (proposal : Proposal)
      (targets : List (String × Change)) (db : Db)
      → (apply_changes h targets [] (work_of implementation_id db)).0 ≡ ok tt
      → perform h implementation_id implementation proposal targets db ≡ (
        ok
            (record_applied implementation_id implementation proposal (
              with_work implementation_id
                (apply_changes h targets [] (work_of implementation_id db)).1
                db)).0,
        (record_applied implementation_id implementation proposal (
            with_work implementation_id
              (apply_changes h targets [] (work_of implementation_id db)).1
              db)).1,
      )
  unfolding perform
  perform-returned implementation_id implementation proposal targets db q = rw (q, perform) refl

  perform-IsDone :
      (implementation_id apply_token : String) (db : Db) (implementation : Implementation)
      (proposal : Proposal) (targets : List (String × Change))
      → IsChecked h implementation_id apply_token db implementation proposal targets
      → AreProposed h proposal.changes
      → IsDone db implementation.proposal_id proposal
          (perform h implementation_id implementation proposal targets db)
  unfolding record_applied restore
  perform-IsDone implementation_id apply_token db implementation proposal targets c wf =
      let t =
        located-AreTargets h implementation_preimage_stale db.disk.files proposal.changes targets wf
          c.located in
      elim (Result-cases (apply_changes h targets [] (work_of implementation_id db)).0) [
        | inl (e, q) ↦
            rw (perform-raised implementation_id implementation proposal targets db e q) (
              inl (
                e,
                refl,
                apply_changes-undo h targets [] (work_of implementation_id db) db.disk.files e
                    t.unseen t.digests refl q,
              ))
        | inr (_, q) ↦
            rw (perform-returned implementation_id implementation proposal targets db q) (
              inr (
                _,
                refl,
                refl,
                apply_changes-files h targets [] (work_of implementation_id db) q
                    ∙ write_all-eq targets db.disk.files t.named
                    ∙ ap (λ changes. written_files changes db.disk.files) t.names,
              ))
      ]

  -- With proposals as `_generate_proposal` makes them, `_apply_implementation` either raises and leaves every file
  -- as it was, or returns and every change of an accepted proposal is written.
  pub apply_implementation-IsDone :
      (implementation_id apply_token : String) (db : Db)
      → AllValues (λ p. AreProposed h p.changes) db.proposals
      → ((e : ChangeError) × ((apply_implementation h implementation_id apply_token db).0 ≡ err e)
          × ((apply_implementation h implementation_id apply_token db).1.disk.files
              ≡ db.disk.files))
        ⊎ ((implementation : Implementation) × (proposal : Proposal) × ((apply_implementation h
                implementation_id apply_token db).0
              ≡ ok implementation)
            × (get implementation.proposal_id db.proposals ≡ some proposal)
            × (proposal.status ≡ accepted)
            × ((apply_implementation h implementation_id apply_token db).1.disk.files
                ≡ written_files proposal.changes db.disk.files))
  unfolding apply_implementation
  apply_implementation-IsDone implementation_id apply_token db a =
      elim (Result-cases (check_apply h implementation_id apply_token db)) [
        | inl (e, q) ↦ rw (q, apply_implementation) (inl (e, refl, refl))
        | inr ((implementation, proposal, targets), q) ↦
            let c =
              check_apply-eq-ok h implementation_id apply_token db implementation proposal targets
                q in
            rw (q, apply_implementation)
              (elim (perform-IsDone implementation_id apply_token db implementation proposal targets
                c
                (AllValues-get (λ (p : Proposal). AreProposed h p.changes)
                  implementation.proposal_id proposal db.proposals a c.proposed)) [
                    | inl (e, r, files) ↦ inl (e, r, files)
                    | inr (applied, r, id, files) ↦ inr (
                      applied,
                      proposal,
                      r,
                      ap (λ k. get k db.proposals) id ∙ c.proposed,
                      c.is_accepted_,
                      files,
                    )
                  ])
      ]
