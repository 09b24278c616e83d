-- ===== src/ChangeControl/Governance/Changed.antt =====
-- The routes of proposals and implementations keep the state governed.
use palwakf_agentic_ai_syste.Prelude.{
  String, ◌≡◌, refl, Bool, not, none, some, List, [], Result, ok, arith, >>=-eq-ok, raise_if-eq-ok,
  or_raise,
}
use mathlib.Core.Path.{subst}
use palwakf_agentic_ai_syste.Prelude.Dict.{get, put, AllValues-get}
use palwakf_agentic_ai_syste.Prelude.Json.{Json}
use palwakf_agentic_ai_syste.Prelude.Utf8.{Bytes}
use palwakf_agentic_ai_syste.ChangeControl.Schema.{
  ChangeError, plan_not_found, accepted_plan_required, human_review, Proposal, Implementation, Db,
  Host,
}
use palwakf_agentic_ai_syste.ChangeControl.Models.{approved_model}
use palwakf_agentic_ai_syste.ChangeControl.Proposals.{
  is_accepted, collect_targets, validate_proposal, generate_proposal,
}
use palwakf_agentic_ai_syste.ChangeControl.Implementations.{prepare_implementation}
use palwakf_agentic_ai_syste.ChangeControl.Implementations.Found.{ok_inj}
use palwakf_agentic_ai_syste.ChangeControl.Implementations.Checked.{or_raise-eq-ok, is_accepted-eq}
use palwakf_agentic_ai_syste.ChangeControl.Implementations.Progress.{prepare_implementation-eq-ok}
use palwakf_agentic_ai_syste.ChangeControl.Governance.{
  IsAcceptedProposal, IsSoundPlan, IsSoundProposal, IsSoundImplementation, IsGovernedBy, IsGoverned,
}
use palwakf_agentic_ai_syste.ChangeControl.Governance.References.{RefersTo-new, RefersTo-over}
use palwakf_agentic_ai_syste.ChangeControl.Governance.Proposed.{
  IsResolving, collect_targets-AreLocated, validate_proposal-AreProposed,
}
use palwakf_agentic_ai_syste.ChangeControl.Governance.Kept.{
  IsGovernedBy-proposal, IsGovernedBy-implementation, human_review-not_accepted,
}

module _ (h : Host) where
  pub generate_proposal-IsGoverned :
      (decodes : Bytes → Bool) (proposal_id plan_id model_id : String) (target_files : List String)
      (answer : Result ChangeError Json) (db : Db) (proposal : Proposal) (after : Db)
      → IsResolving h
      → get proposal_id db.proposals ≡ none
      → IsGoverned h db
      → generate_proposal h decodes proposal_id plan_id model_id target_files answer db
        ≡ ok (proposal, after)
      → IsGoverned h after
  unfolding generate_proposal get
  generate_proposal-IsGoverned decodes proposal_id plan_id model_id target_files answer db proposal
        after s fresh g e =
      let (plan, p, e1) = >>=-eq-ok (or_raise (get plan_id db.plans) plan_not_found) _ e in
      let (yes_, e2) = raise_if-eq-ok (not (is_accepted plan.status)) accepted_plan_required _ e1 in
      let (targets, t, e3) =
        >>=-eq-ok (collect_targets h decodes db.disk.files target_files []) _ e2 in
      let (digest, _, e4) = >>=-eq-ok (approved_model model_id db) _ e3 in
      let (value, _, e5) = >>=-eq-ok answer _ e4 in
      let (changes, c, e6) = >>=-eq-ok (validate_proposal h targets value) _ e5 in
      let held = or_raise-eq-ok _ _ plan p in
      let status = is_accepted-eq plan.status yes_ in
      let (_, _, reviewed) =
        AllValues-get (IsSoundPlan h db.context_packs) plan_id plan db.plans g.plans held in
      let located =
        collect_targets-AreLocated h decodes db.disk.files target_files [] targets s
          (λ path digest found. absurd (ground (arith, found))) t in
      subst (λ (x : Proposal × Db). IsGoverned h x.1) (ok_inj _ _ e6)
        (IsGovernedBy-proposal h db.context_packs db.plans db.proposals db.implementations
          proposal_id _
          (λ digest id.
            RefersTo-new (IsAcceptedProposal digest) proposal_id id _ db.proposals fresh)
          (
            (plan, held, (status, reviewed status)),
            validate_proposal-AreProposed h targets value changes located c,
            λ q. human_review-not_accepted human_review refl q,
          )
          g)

  pub prepare_implementation-IsGoverned :
      (implementation_id apply_token proposal_id approved_by reference : String) (db : Db)
      (implementation : Implementation) (after : Db)
      → IsGoverned h db
      → prepare_implementation h implementation_id apply_token proposal_id approved_by reference db
        ≡ ok (implementation, after)
      → IsGoverned h after
  prepare_implementation-IsGoverned implementation_id apply_token proposal_id approved_by reference
        db implementation after g e =
      let (proposal, targets, held, status, _, same) =
        prepare_implementation-eq-ok h implementation_id apply_token proposal_id approved_by
          reference db (implementation, after) e in
      let (_, _, reviewed) =
        AllValues-get (IsSoundProposal h db.plans) proposal_id proposal db.proposals g.proposals
          held in
      subst (λ (x : Implementation × Db). IsGoverned h x.1) same
        (IsGovernedBy-implementation h db.context_packs db.plans db.proposals db.implementations
          implementation_id _ (proposal, held, (status, reviewed status, refl)) g)

  -- A proposal gets another `applied`, and the implementation that is found keeps its proposal and its digest.
  pub marked-IsGoverned :
      (implementation_id : String) (implementation changed : Implementation) (applied : Bool)
      (proposal : Proposal) (db : Db)
      → get implementation_id db.implementations ≡ some implementation
      → get implementation.proposal_id db.proposals ≡ some proposal
      → changed.proposal_id ≡ implementation.proposal_id
      → changed.proposal_sha256 ≡ implementation.proposal_sha256
      → IsGoverned h db
      → IsGovernedBy h db.context_packs db.plans
          (put implementation.proposal_id (record proposal { applied = applied }) db.proposals)
          (put implementation_id changed db.implementations)
  marked-IsGoverned implementation_id implementation changed applied proposal db held proposed id
        digest g =
      let next =
        put implementation.proposal_id (record proposal { applied = applied }) db.proposals in
      let refers = λ (d k : String).
        RefersTo-over (IsAcceptedProposal d) implementation.proposal_id k proposal
          (record proposal { applied = applied }) db.proposals proposed
          (λ (a : IsAcceptedProposal d proposal). a) in
      let sound =
        AllValues-get (IsSoundImplementation db.proposals) implementation_id implementation
          db.implementations g.implementations held in
      IsGovernedBy-implementation h db.context_packs db.plans next db.implementations
        implementation_id changed
        (rw id (rw digest (refers implementation.proposal_sha256 implementation.proposal_id sound)))
        (IsGovernedBy-proposal h db.context_packs db.plans db.proposals db.implementations
          implementation.proposal_id (record proposal { applied = applied }) refers
          (AllValues-get (IsSoundProposal h db.plans) implementation.proposal_id proposal
            db.proposals g.proposals proposed)
          g)
