-- ===== src/ChangeControl/Governance/Planned.antt =====
-- The routes of contexts, models and plans keep the state governed.
use palwakf_agentic_ai_syste.Prelude.{
  String, ◌≡◌, refl, false, ◌||◌, not, none, List, Result, ok, arith, >>=-eq-ok, raise_if-eq-ok,
  or_raise,
}
use mathlib.Core.Path.{subst}
use palwakf_agentic_ai_syste.Prelude.Dict.{get, AllValues-get}
use palwakf_agentic_ai_syste.Prelude.Json.{Json}
use palwakf_agentic_ai_syste.Prelude.Text.{is_falsy}
use palwakf_agentic_ai_syste.ChangeControl.Schema.{
  ChangeError, unknown_model_id, model_not_available_for_approval, context_pack_not_found,
  entity_not_found, entity_not_ready_for_review, ReviewDecision, EntityStatus, human_review,
  accepted, returned, rejected, ReviewDecision, accept, return, reject, ReviewDetails,
  decision_text, review_of, QualityTool, ContextPack, Plan, Db, Host,
}
use palwakf_agentic_ai_syste.ChangeControl.Models.{is_available, approve_model, approved_model}
use palwakf_agentic_ai_syste.ChangeControl.Contexts.{
  Reader, resolve_relative, context_files, create_context,
}
use palwakf_agentic_ai_syste.ChangeControl.Plans.{
  status_of, validate_plan, generate_plan, is_human_review, review_plan, review_proposal,
}
use palwakf_agentic_ai_syste.ChangeControl.Implementations.Found.{ok_inj}
use palwakf_agentic_ai_syste.ChangeControl.Implementations.Checked.{or_raise-eq-ok}
use palwakf_agentic_ai_syste.ChangeControl.Governance.{
  IsAcceptedPlan, IsAcceptedProposal, IsSoundPlan, IsSoundProposal, IsGoverned,
}
use palwakf_agentic_ai_syste.ChangeControl.Governance.References.{RefersTo-new, RefersTo-over}
use palwakf_agentic_ai_syste.ChangeControl.Governance.Admitted.{validate_plan-AreAllowed}
use palwakf_agentic_ai_syste.ChangeControl.Governance.Kept.{
  IsGovernedBy-pack, IsGovernedBy-plan, IsGovernedBy-proposal, human_review-not_accepted,
}

is_human_review-eq :
    (status : EntityStatus) → not (is_human_review status) ≡ false → status ≡ human_review
is_human_review-eq human_review e = refl
is_human_review-eq accepted e = absurd (ground arith)
is_human_review-eq returned e = absurd (ground arith)
is_human_review-eq rejected e = absurd (ground arith)

module _ (h : Host) where
  pub approve_model-IsGoverned :
      (model_id reference approved_by : String) (db after : Db)
      → IsGoverned h db
      → approve_model model_id reference approved_by db ≡ ok after
      → IsGoverned h after
  unfolding approve_model
  approve_model-IsGoverned model_id reference approved_by db after g e =
      let (model, _, e1) = >>=-eq-ok (or_raise (get model_id db.models) unknown_model_id) _ e in
      let (_, e2) =
        raise_if-eq-ok (not (is_available model.state) || is_falsy model.digest)
          model_not_available_for_approval _ e1 in
      subst (IsGoverned h) (ok_inj _ _ e2) g

  pub create_context-IsGoverned :
      (r : Reader) (baselines : List QualityTool) (context_id goal scope : String) (db : Db)
      (pack : ContextPack) (after : Db)
      → IsGoverned h db
      → create_context h r baselines context_id goal scope db ≡ ok (pack, after)
      → IsGoverned h after
  unfolding create_context
  create_context-IsGoverned r baselines context_id goal scope db pack after g e =
      let (path, _, e1) = >>=-eq-ok (resolve_relative h db.disk.files scope) _ e in
      let (files, _, e2) = >>=-eq-ok (context_files h r db.disk.files path) _ e1 in
      subst (λ (x : ContextPack × Db). IsGoverned h x.1) (ok_inj _ _ e2)
        (IsGovernedBy-pack h db.context_packs db.plans db.proposals db.implementations context_id _
          g)

  pub generate_plan-IsGoverned :
      (plan_id context_pack_id model_id : String) (answer : Result ChangeError Json) (db : Db)
      (plan : Plan) (after : Db)
      → get plan_id db.plans ≡ none
      → IsGoverned h db
      → generate_plan h plan_id context_pack_id model_id answer db ≡ ok (plan, after)
      → IsGoverned h after
  unfolding generate_plan
  generate_plan-IsGoverned plan_id context_pack_id model_id answer db plan after fresh g e =
      let (context, c, e1) =
        >>=-eq-ok (or_raise (get context_pack_id db.context_packs) context_pack_not_found) _ e in
      let (digest, _, e2) = >>=-eq-ok (approved_model model_id db) _ e1 in
      let (value, _, e3) = >>=-eq-ok answer _ e2 in
      let (validated, v, e4) = >>=-eq-ok (validate_plan h value) _ e3 in
      subst (λ (x : Plan × Db). IsGoverned h x.1) (ok_inj _ _ e4)
        (IsGovernedBy-plan h db.context_packs db.plans db.proposals db.implementations plan_id _
          (λ id. RefersTo-new IsAcceptedPlan plan_id id _ db.plans fresh)
          (
            (context, or_raise-eq-ok _ _ context c, tt),
            validate_plan-AreAllowed h value validated v,
            λ s. human_review-not_accepted human_review refl s,
          )
          g)

  status_of-accepted :
      (decision : ReviewDecision)
      → status_of decision ≡ accepted
      → decision_text decision ≡ "ACCEPT"
  unfolding status_of
  status_of-accepted accept s = refl
  status_of-accepted return s = absurd (ground (arith, s))
  status_of-accepted reject s = absurd (ground (arith, s))

  pub review_plan-IsGoverned :
      (plan_id : String) (decision : ReviewDecision) (details : ReviewDetails) (db after : Db)
      → IsGoverned h db
      → review_plan plan_id decision details db ≡ ok after
      → IsGoverned h after
  unfolding review_plan review_of
  review_plan-IsGoverned plan_id decision details db after g e =
      let (plan, f, e1) = >>=-eq-ok (or_raise (get plan_id db.plans) entity_not_found) _ e in
      let (ready, e2) =
        raise_if-eq-ok (not (is_human_review plan.status)) entity_not_ready_for_review _ e1 in
      let held = or_raise-eq-ok _ _ plan f in
      let waiting = is_human_review-eq plan.status ready in
      let (context, allowed, _) =
        AllValues-get (IsSoundPlan h db.context_packs) plan_id plan db.plans g.plans held in
      subst (IsGoverned h) (ok_inj _ _ e2) (
        IsGovernedBy-plan h db.context_packs db.plans db.proposals db.implementations plan_id _
          (λ id.
            RefersTo-over IsAcceptedPlan plan_id id plan _ db.plans held
              (λ (a : IsAcceptedPlan plan). human_review-not_accepted plan.status waiting a.0))
          (context, allowed, λ s. (_, refl, status_of-accepted decision s, refl)) g)

  pub review_proposal-IsGoverned :
      (proposal_id : String) (decision : ReviewDecision) (details : ReviewDetails) (db after : Db)
      → IsGoverned h db
      → review_proposal proposal_id decision details db ≡ ok after
      → IsGoverned h after
  unfolding review_proposal review_of
  review_proposal-IsGoverned proposal_id decision details db after g e =
      let (proposal, f, e1) =
        >>=-eq-ok (or_raise (get proposal_id db.proposals) entity_not_found) _ e in
      let (ready, e2) =
        raise_if-eq-ok (not (is_human_review proposal.status)) entity_not_ready_for_review _ e1 in
      let held = or_raise-eq-ok _ _ proposal f in
      let waiting = is_human_review-eq proposal.status ready in
      let (plan, changes, _) =
        AllValues-get (IsSoundProposal h db.plans) proposal_id proposal db.proposals g.proposals
          held in
      subst (IsGoverned h) (ok_inj _ _ e2) (
        IsGovernedBy-proposal h db.context_packs db.plans db.proposals db.implementations
          proposal_id _
          (λ digest id.
            RefersTo-over (IsAcceptedProposal digest) proposal_id id proposal _ db.proposals held
              (λ (a : IsAcceptedProposal digest proposal).
                human_review-not_accepted proposal.status waiting a.0))
          (plan, changes, λ s. (_, refl, status_of-accepted decision s, refl)) g)
