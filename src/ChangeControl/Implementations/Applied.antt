-- ===== src/ChangeControl/Implementations/Applied.antt =====
-- What an `_apply_implementation` that returns has done.
use palwakf_agentic_ai_syste.Prelude.{
  String, ◌≡◌, refl, ap, ◌∙◌, inl, inr, List, [], Result, ok, err, arith, Result-cases,
}
use palwakf_agentic_ai_syste.ChangeControl.Schema.{
  ChangeError, Change, Proposal, Implementation, Db, Host,
}
use palwakf_agentic_ai_syste.ChangeControl.Implementations.{
  apply_changes, check_apply, with_work, record_applied, perform, apply_implementation,
}
use palwakf_agentic_ai_syste.ChangeControl.Implementations.Transaction.{
  work_of, perform-raised, perform-returned,
}
use palwakf_agentic_ai_syste.ChangeControl.Implementations.Checked.{IsChecked, check_apply-eq-ok}

pub applied-proposal_id :
    (implementation_id : String) (before : Implementation) (proposal : Proposal) (db : Db)
    (implementation : Implementation)
    → (record_applied implementation_id before proposal db).0 ≡ implementation
    → before.proposal_id ≡ implementation.proposal_id
unfolding record_applied
applied-proposal_id implementation_id before proposal db implementation e =
    ap (λ i. i.proposal_id) e

module _ (h : Host) where
  -- What an `_apply_implementation` that returns has done.
  pub record IsApplied (implementation_id apply_token : String) (db : Db) (before : Implementation)
      (proposal : Proposal) (targets : List (String × Change)) : Type 0 where
    pub checked : IsChecked h implementation_id apply_token db before proposal targets
    pub written : (apply_changes h targets [] (work_of h implementation_id db)).0 ≡ ok tt
    pub returned : apply_implementation h implementation_id apply_token db ≡ (
      ok
          (record_applied implementation_id before proposal (
            with_work implementation_id
              (apply_changes h targets [] (work_of h implementation_id db)).1
              db)).0,
      (record_applied implementation_id before proposal (
          with_work implementation_id
            (apply_changes h targets [] (work_of h implementation_id db)).1
            db)).1,
    )

  apply_implementation-checked :
      (implementation_id apply_token : String) (db : Db) (before : Implementation)
      (proposal : Proposal) (targets : List (String × Change))
      → check_apply h implementation_id apply_token db ≡ ok (before, proposal, targets)
      → apply_implementation h implementation_id apply_token db
        ≡ perform h implementation_id before proposal targets db
  unfolding apply_implementation
  apply_implementation-checked implementation_id apply_token db before proposal targets q =
      rw (q, apply_implementation) refl

  apply_implementation-raised :
      (implementation_id apply_token : String) (db : Db) (e : ChangeError)
      → check_apply h implementation_id apply_token db ≡ err e
      → apply_implementation h implementation_id apply_token db ≡ (err e, db)
  unfolding apply_implementation
  apply_implementation-raised implementation_id apply_token db e q =
      rw (q, apply_implementation) refl

  no_answer :
      {A : Type 0} (r : Result ChangeError A × Db) (e : ChangeError) (db : Db) (a : A)
      → r ≡ (err e, db)
      → r.0 ≡ ok a
      → ⊥
  no_answer r e db a same q = ground (arith, ap (λ x. x.0) same)

  pub apply_implementation-IsApplied :
      (implementation_id apply_token : String) (db : Db) (implementation : Implementation)
      → (apply_implementation h implementation_id apply_token db).0 ≡ ok implementation
      → (before : Implementation) × (proposal : Proposal) × (targets : List (String × Change))
        × IsApplied implementation_id apply_token db before proposal targets
  apply_implementation-IsApplied implementation_id apply_token db implementation r =
      elim (Result-cases (check_apply h implementation_id apply_token db)) [
        | inl (e, q) ↦ absurd (
            no_answer _ e _ implementation
              (apply_implementation-raised implementation_id apply_token db e q) r)
        | inr ((before, proposal, targets), q) ↦
            let same =
              apply_implementation-checked implementation_id apply_token db before proposal targets
                q in
            elim (Result-cases (apply_changes h targets [] (work_of h implementation_id db)).0) [
              | inl (e, w) ↦ absurd (
                  no_answer _ e _ implementation
                    (same ∙ perform-raised h implementation_id before proposal targets db e w) r)
              | inr (_, w) ↦ (
                before,
                proposal,
                targets,
                record {
                  checked =
                      check_apply-eq-ok h implementation_id apply_token db before proposal targets
                        q;
                  written = w;
                  returned =
                      same ∙ perform-returned h implementation_id before proposal targets db w;
                },
              )
            ]
      ]
