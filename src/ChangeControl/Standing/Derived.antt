-- ===== src/ChangeControl/Standing/Derived.antt =====
-- What the project state and the readiness report say of the states that calls reach.
use palwakf_agentic_ai_syste.ChangeControl.Standing.Counted.{
  found-count_values, IsAcceptedTool, SomeIs, SomeValueIs, summary→SomeIs, SomeIs→summary,
  count_values-none, count_values-zero, count_values→SomeValueIs, SomeValueIs→count_values,
  is_planning_approved-eq, eq-is_planning_approved, is_awaiting_review-ne, ne-is_awaiting_review,
}
use palwakf_agentic_ai_syste.Prelude.{
  ℕ, ◌≤◌, String, ◌≡◌, ◌≢◌, ◌↔◌, refl, ap, Bool, true, false, ◌&&◌, some, List, if◌then◌else◌,
  arith,
}
use palwakf_agentic_ai_syste.Prelude.Dict.{get, AllValues, AllValues-get}
use palwakf_agentic_ai_syste.ChangeControl.Schema.{
  planning_approved, applied_awaiting_review, QualityTool, Model, Plan, Proposal, Implementation,
  Db, Host,
}
use palwakf_agentic_ai_syste.ChangeControl.Models.{is_planning_approved}
use palwakf_agentic_ai_syste.ChangeControl.Implementations.{is_awaiting_review}
use palwakf_agentic_ai_syste.ChangeControl.Proposals.{is_accepted}
use palwakf_agentic_ai_syste.ChangeControl.Standing.{
  controlled_operational, recompute_project_state, ready_for_controlled_local_use, hold,
  readiness_gates, run_readiness,
}
use palwakf_agentic_ai_syste.ChangeControl.Governance.{
  IsSoundProposal, IsSoundImplementation, IsGoverned,
}

module _ (h : Host) (db : Db) where
  -- Where a governed state has an implementation, the recomputed project state counts an accepted plan and an
  -- accepted proposal, is CONTROLLED_OPERATIONAL, and its progress is from 35 to 100 percent.
  pub recompute_project_state-implemented :
      (revision : ℕ) (implementation_id : String) (implementation : Implementation)
      → IsGoverned h db
      → get implementation_id db.implementations ≡ some implementation
      → (1 ≤ (recompute_project_state revision db).accepted_plans)
        × (1 ≤ (recompute_project_state revision db).accepted_proposals)
        × ((recompute_project_state revision db).status ≡ controlled_operational)
        × (35 ≤ (recompute_project_state revision db).progress_percent)
        × ((recompute_project_state revision db).progress_percent ≤ 100)
  unfolding recompute_project_state
  recompute_project_state-implemented revision implementation_id implementation g e =
      let (proposal, p, (status, _, _)) =
        AllValues-get (IsSoundImplementation db.proposals) implementation_id implementation
          db.implementations g.implementations e in
      let ((plan, q, (plan_status, _)), _, _) =
        AllValues-get (IsSoundProposal h db.plans) implementation.proposal_id proposal db.proposals
          g.proposals p in
      let plans =
        found-count_values (λ (x : Plan). is_accepted x.status) proposal.plan_id plan db.plans q
          (ap is_accepted plan_status) in
      let proposals =
        found-count_values (λ (x : Proposal). is_accepted x.status) implementation.proposal_id
          proposal db.proposals p (ap is_accepted status) in
      (plans, proposals, ground (arith, plans), omega arith, omega arith)

gates-eq :
    (a b c : Bool)
    → (if a && (b && (c && true)) then ready_for_controlled_local_use else hold)
      ≡ ready_for_controlled_local_use
    → (a ≡ true) × (b ≡ true) × (c ≡ true)
gates-eq true true true e = (refl, refl, refl)
gates-eq false b c e = absurd (ground (arith, e))
gates-eq true false c e = absurd (ground (arith, e))
gates-eq true true false e = absurd (ground (arith, e))

-- The report is READY exactly when one of the baselines has an accepted quality, with limitations or without, one
-- of the models is approved for planning, and no implementation is applied and awaits its review.
pub run_readiness_iff :
    (baselines : List QualityTool) (db : Db)
    → ((run_readiness baselines db).0 ≡ ready_for_controlled_local_use ↔ (
        SomeIs IsAcceptedTool baselines
        × SomeValueIs (λ (m : Model). m.state ≡ planning_approved) db.models
        × AllValues
            (λ (i : Implementation). i.status ≢ applied_awaiting_review)
            db.implementations))
unfolding run_readiness readiness_gates
run_readiness_iff baselines db =
    let approves = λ (m : Model). is_planning_approved m.state in
    let waits = λ (i : Implementation). is_awaiting_review i.status in
    (
      λ e.
          let (a, b, c) = gates-eq _ _ _ e in
          (
            summary→SomeIs baselines a,
            count_values→SomeValueIs approves _ db.models (λ m. is_planning_approved-eq m.state) b,
            count_values-none waits _ db.implementations (λ i. is_awaiting_review-ne i.status) c,
          ),
      λ t.
          let a = SomeIs→summary baselines t.0 in
          let b =
            SomeValueIs→count_values approves _ db.models (λ m. eq-is_planning_approved m.state)
              t.1 in
          let c =
            count_values-zero waits _ db.implementations (λ i. ne-is_awaiting_review i.status)
              t.2 in
          rw a (rw b (rw c refl)),
    )
