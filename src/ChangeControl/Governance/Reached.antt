-- ===== src/ChangeControl/Governance/Reached.antt =====
-- Every state that calls reach is governed.
use palwakf_agentic_ai_syste.Prelude.{Bool}
use palwakf_agentic_ai_syste.Prelude.Utf8.{Bytes}
use palwakf_agentic_ai_syste.ChangeControl.Schema.{Db, Host}
use palwakf_agentic_ai_syste.ChangeControl.Models.{probe_models, approve_model}
use palwakf_agentic_ai_syste.ChangeControl.Contexts.{Reader, create_context}
use palwakf_agentic_ai_syste.ChangeControl.Plans.{generate_plan, review_plan, review_proposal}
use palwakf_agentic_ai_syste.ChangeControl.Proposals.{generate_proposal}
use palwakf_agentic_ai_syste.ChangeControl.Implementations.{prepare_implementation}
use palwakf_agentic_ai_syste.ChangeControl.Governance.{
  Call, models_probe, models_approve, context_packs_create, plans_generate, plans_review,
  proposals_generate, proposals_review, implementations_prepare, implementations_apply,
  implementations_review, handle, IsFresh, ensure_state, Reaches, started, called, IsGoverned,
}
use palwakf_agentic_ai_syste.ChangeControl.Governance.Proposed.{IsResolving}
use palwakf_agentic_ai_syste.ChangeControl.Governance.Kept.{or_before-keeps, db_or_before-keeps}
use palwakf_agentic_ai_syste.ChangeControl.Governance.Planned.{
  approve_model-IsGoverned, create_context-IsGoverned, generate_plan-IsGoverned,
  review_plan-IsGoverned, review_proposal-IsGoverned,
}
use palwakf_agentic_ai_syste.ChangeControl.Governance.Changed.{
  generate_proposal-IsGoverned, prepare_implementation-IsGoverned,
}
use palwakf_agentic_ai_syste.ChangeControl.Governance.Applied.{
  apply_implementation-IsGoverned, review_implementation-IsGoverned,
}

module _ (h : Host) (r : Reader) (decodes : Bytes → Bool) (s : IsResolving h) where
  handle-IsGoverned :
      (call : Call) (db : Db)
      → IsFresh call db
      → IsGoverned h db
      → IsGoverned h (handle h r decodes call db)
  unfolding handle probe_models
  handle-IsGoverned (models_probe response) db f g = g
  handle-IsGoverned (models_approve model_id reference approved_by) db f g =
      db_or_before-keeps (IsGoverned h) (approve_model model_id reference approved_by db) db g
        (λ after e. approve_model-IsGoverned h model_id reference approved_by db after g e)
  handle-IsGoverned (context_packs_create baselines context_id goal scope) db f g =
      or_before-keeps (IsGoverned h) (create_context h r baselines context_id goal scope db) db g
        (λ pack after e.
          create_context-IsGoverned h r baselines context_id goal scope db pack after g e)
  handle-IsGoverned (plans_generate plan_id context_pack_id model_id answer) db f g =
      or_before-keeps (IsGoverned h) (generate_plan h plan_id context_pack_id model_id answer db) db
        g
        (λ plan after e.
          generate_plan-IsGoverned h plan_id context_pack_id model_id answer db plan after f g e)
  handle-IsGoverned (plans_review plan_id decision entry) db f g =
      db_or_before-keeps (IsGoverned h) (review_plan plan_id decision entry db) db g
        (λ after e. review_plan-IsGoverned h plan_id decision entry db after g e)
  handle-IsGoverned (proposals_generate proposal_id plan_id model_id target_files answer) db f g =
      or_before-keeps (IsGoverned h)
        (generate_proposal h decodes proposal_id plan_id model_id target_files answer db) db g
        (λ proposal after e.
          generate_proposal-IsGoverned h decodes proposal_id plan_id model_id target_files answer db
            proposal after s f g e)
  handle-IsGoverned (proposals_review proposal_id decision entry) db f g =
      db_or_before-keeps (IsGoverned h) (review_proposal proposal_id decision entry db) db g
        (λ after e. review_proposal-IsGoverned h proposal_id decision entry db after g e)
  handle-IsGoverned
        (implementations_prepare implementation_id apply_token proposal_id approved_by reference) db
        f g =
      or_before-keeps (IsGoverned h)
        (prepare_implementation h implementation_id apply_token proposal_id approved_by reference
          db)
        db g
        (λ implementation after e.
          prepare_implementation-IsGoverned h implementation_id apply_token proposal_id approved_by
            reference db implementation after g e)
  handle-IsGoverned (implementations_apply implementation_id apply_token) db f g =
      apply_implementation-IsGoverned h implementation_id apply_token db g
  handle-IsGoverned (implementations_review implementation_id decision entry) db f g =
      review_implementation-IsGoverned h implementation_id decision entry db g

  -- In every state that calls reach: a plan has its context pack, recommends allowed tools only and has none of the
  -- forbidden instructions in its steps; a proposal has a plan that a review has accepted; an implementation
  -- has a proposal with its digest that a review has accepted.
  pub Reaches-IsGoverned : (db : Db) → Reaches h r decodes db → IsGoverned h db
  unfolding ensure_state
  Reaches-IsGoverned _ (started files) = record { plans = tt; proposals = tt; implementations = tt }
  Reaches-IsGoverned _ (called call db reached fresh) =
      handle-IsGoverned call db fresh (Reaches-IsGoverned db reached)
