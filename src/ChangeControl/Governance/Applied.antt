-- ===== src/ChangeControl/Governance/Applied.antt =====
-- `_apply_implementation` and `_review_implementation` keep the state governed.
use palwakf_agentic_ai_syste.Prelude.{
  String, ◌≡◌, refl, ap, ◌∙◌, inl, inr, true, false, not, some, List, [], ok, Result-cases,
  >>=-eq-ok, raise_if-eq-ok, or_raise,
}
use palwakf_agentic_ai_syste.Prelude.Dict.{Dict, get, put, AllValues-get}
use palwakf_agentic_ai_syste.Prelude.Utf8.{Bytes}
use palwakf_agentic_ai_syste.ChangeControl.Schema.{
  proposal_not_found, path_not_found, implementation_not_found, implementation_not_ready_for_review,
  rollback_postimage_changed, ReviewDetails, ImplementationDecision, accept_implementation,
  rollback, Proposal, Change, Implementation, Db, Host,
}
use palwakf_agentic_ai_syste.ChangeControl.Implementations.{
  locate_changes, apply_changes, check_apply, record_applied, perform, apply_implementation,
  is_awaiting_review,
}
use palwakf_agentic_ai_syste.ChangeControl.Reviews.{
  roll_back, record_review, check_rollback, review_rollback, check_reviewable,
  review_implementation,
}
use palwakf_agentic_ai_syste.ChangeControl.Implementations.Found.{ok_inj}
use palwakf_agentic_ai_syste.ChangeControl.Implementations.Transaction.{
  work_of, perform-raised, perform-returned,
}
use palwakf_agentic_ai_syste.ChangeControl.Implementations.Checked.{
  IsChecked, check_apply-eq-ok, or_raise-eq-ok,
}
use palwakf_agentic_ai_syste.ChangeControl.Governance.{
  IsSoundImplementation, IsGovernedBy, IsGoverned,
}
use palwakf_agentic_ai_syste.ChangeControl.Governance.Kept.{IsGovernedBy-implementation}
use palwakf_agentic_ai_syste.ChangeControl.Governance.Changed.{marked-IsGoverned}

module _ (h : Host) where
  perform-IsGoverned :
      (implementation_id apply_token : String) (db : Db) (implementation : Implementation)
      (proposal : Proposal) (targets : List (String × Change))
      → IsChecked h implementation_id apply_token db implementation proposal targets
      → IsGoverned h db
      → IsGoverned h (perform h implementation_id implementation proposal targets db).1
  unfolding record_applied
  perform-IsGoverned implementation_id apply_token db implementation proposal targets c g =
      elim (Result-cases (apply_changes h targets [] (work_of h implementation_id db)).0) [
        | inl (e, q) ↦
            rw (perform-raised h implementation_id implementation proposal targets db e q) g
        | inr (_, q) ↦
            rw (perform-returned h implementation_id implementation proposal targets db q) (
              marked-IsGoverned h implementation_id implementation _ true proposal db c.found
                c.proposed refl refl g)
      ]

  pub apply_implementation-IsGoverned :
      (implementation_id apply_token : String) (db : Db)
      → IsGoverned h db
      → IsGoverned h (apply_implementation h implementation_id apply_token db).1
  unfolding apply_implementation
  apply_implementation-IsGoverned implementation_id apply_token db g =
      elim (Result-cases (check_apply h implementation_id apply_token db)) [
        | inl (e, q) ↦ rw (q, apply_implementation) g
        | inr ((implementation, proposal, targets), q) ↦
            rw (q, apply_implementation)
              (perform-IsGoverned implementation_id apply_token db implementation proposal targets
                (check_apply-eq-ok h implementation_id apply_token db implementation proposal
                  targets q)
                g)
      ]

  reviewed-IsGoverned :
      (implementation_id : String) (implementation changed : Implementation) (db : Db)
      → get implementation_id db.implementations ≡ some implementation
      → changed.proposal_id ≡ implementation.proposal_id
      → changed.proposal_sha256 ≡ implementation.proposal_sha256
      → IsGoverned h db
      → IsGovernedBy h db.context_packs db.plans db.proposals
          (put implementation_id changed db.implementations)
  reviewed-IsGoverned implementation_id implementation changed db held id digest g =
      IsGovernedBy-implementation h db.context_packs db.plans db.proposals db.implementations
        implementation_id changed
        (rw id (
          rw digest (
            AllValues-get (IsSoundImplementation db.proposals) implementation_id implementation
              db.implementations g.implementations held)))
        g

  check_rollback-eq-ok :
      (implementation : Implementation) (db : Db) (proposal : Proposal) (backup : Dict Bytes)
      → check_rollback h implementation db ≡ ok (proposal, backup)
      → get implementation.proposal_id db.proposals ≡ some proposal
  unfolding check_rollback
  check_rollback-eq-ok implementation db proposal backup e =
      let (found, f, e1) =
        >>=-eq-ok (or_raise (get implementation.proposal_id db.proposals) proposal_not_found) _ e in
      let (saved, _, e2) = >>=-eq-ok (or_raise implementation.backup_root path_not_found) _ e1 in
      let (kept, _, e3) = >>=-eq-ok (or_raise (get saved db.disk.backups) path_not_found) _ e2 in
      let (located, _, e4) =
        >>=-eq-ok
          (locate_changes h (λ c. c.postimage_sha256) rollback_postimage_changed db.disk.files
            found.changes)
          _ e3 in
      or_raise-eq-ok _ _ found f
      ∙ ap (λ (x : Proposal × Dict Bytes). some x.0) (ok_inj (found, kept) (proposal, backup) e4)

  review_rollback-IsGoverned :
      (implementation_id : String) (implementation : Implementation) (details : ReviewDetails)
      (db : Db)
      → get implementation_id db.implementations ≡ some implementation
      → IsGoverned h db
      → IsGoverned h (review_rollback h implementation_id implementation details db).1
  unfolding review_rollback record_review
  review_rollback-IsGoverned implementation_id implementation details db held g =
      elim (Result-cases (check_rollback h implementation db)) [
        | inl (e, q) ↦ rw (q, review_rollback) g
        | inr ((proposal, backup), q) ↦
            rw (q, review_rollback)
              (elim (Result-cases (roll_back h backup proposal.changes db.disk.files).0) [
                | inl (e, w) ↦ rw w g
                | inr (_, w) ↦ rw w (
                    marked-IsGoverned h implementation_id implementation _ false proposal db held
                      (check_rollback-eq-ok implementation db proposal backup q) refl refl g)
              ])
      ]

  check_reviewable-eq-ok :
      (implementation_id : String) (db : Db) (implementation : Implementation)
      → check_reviewable implementation_id db ≡ ok implementation
      → get implementation_id db.implementations ≡ some implementation
  unfolding check_reviewable
  check_reviewable-eq-ok implementation_id db implementation e =
      let (found, f, e1) =
        >>=-eq-ok (or_raise (get implementation_id db.implementations) implementation_not_found) _
          e in
      let (_, e2) =
        raise_if-eq-ok (not (is_awaiting_review found.status)) implementation_not_ready_for_review _
          e1 in
      let (_, _, e3) =
        >>=-eq-ok (or_raise (get found.proposal_id db.proposals) proposal_not_found) _ e2 in
      or_raise-eq-ok _ _ found f ∙ ap (λ (x : Implementation). some x) (ok_inj _ _ e3)

  pub review_implementation-IsGoverned :
      (implementation_id : String) (decision : ImplementationDecision) (details : ReviewDetails)
      (db : Db)
      → IsGoverned h db
      → IsGoverned h (review_implementation h implementation_id decision details db).1
  unfolding review_implementation record_review
  review_implementation-IsGoverned implementation_id accept_implementation details db g =
      elim (Result-cases (check_reviewable implementation_id db)) [
        | inl (e, q) ↦ rw (q, review_implementation) g
        | inr (implementation, q) ↦
            rw (q, review_implementation)
              (reviewed-IsGoverned implementation_id implementation _ db
                (check_reviewable-eq-ok implementation_id db implementation q) refl refl g)
      ]
  review_implementation-IsGoverned implementation_id rollback details db g =
      elim (Result-cases (check_reviewable implementation_id db)) [
        | inl (e, q) ↦ rw (q, review_implementation) g
        | inr (implementation, q) ↦
            rw (q, review_implementation)
              (review_rollback-IsGoverned implementation_id implementation details db
                (check_reviewable-eq-ok implementation_id db implementation q) g)
      ]
