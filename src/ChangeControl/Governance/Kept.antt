-- ===== src/ChangeControl/Governance/Kept.antt =====
-- The writes of the routes keep the state governed.
use palwakf_agentic_ai_syste.Prelude.{
  String, ◌≡◌, refl, inl, inr, Result, ok, err, arith, Option-cases,
}
use palwakf_agentic_ai_syste.Prelude.Dict.{Dict, get, put, AllValues-put}
use palwakf_agentic_ai_syste.ChangeControl.Schema.{
  ChangeError, EntityStatus, human_review, accepted, ContextPack, Plan, Proposal, Implementation,
  Db, Host,
}
use palwakf_agentic_ai_syste.ChangeControl.Governance.{
  or_before, db_or_before, RefersTo, IsAcceptedPlan, IsAcceptedProposal, IsSoundPlan,
  IsSoundProposal, IsSoundImplementation, IsGovernedBy,
}
use palwakf_agentic_ai_syste.ChangeControl.Governance.References.{
  AllValues-map, RefersTo-new, RefersTo-over,
}

module _ (h : Host) (packs : Dict ContextPack) (plans : Dict Plan) (proposals : Dict Proposal)
    (implementations : Dict Implementation) where
  pub IsGovernedBy-pack :
      (k : String) (pack : ContextPack)
      → IsGovernedBy h packs plans proposals implementations
      → IsGovernedBy h (put k pack packs) plans proposals implementations
  IsGovernedBy-pack k pack g = record {
    plans =
        AllValues-map (IsSoundPlan h packs) (IsSoundPlan h (put k pack packs)) plans
          (λ p s. (refers p.context_pack_id s.0, s.1, s.2)) g.plans;
    proposals = g.proposals;
    implementations = g.implementations;
  }
    where
      refers :
          (id : String)
          → RefersTo (λ (c : ContextPack). Unit {0}) id packs
          → RefersTo (λ (c : ContextPack). Unit {0}) id (put k pack packs)
      refers id found = elim (Option-cases (get k packs)) [
        | inl fresh ↦ RefersTo-new (λ (c : ContextPack). Unit {0}) k id pack packs fresh found
        | inr (old, held) ↦
            RefersTo-over (λ (c : ContextPack). Unit {0}) k id old pack packs held (λ u. tt) found
      ]

  -- A plan is written that no accepted plan is lost by.
  pub IsGovernedBy-plan :
      (k : String) (plan : Plan)
      → ((id : String)
          → RefersTo IsAcceptedPlan id plans
          → RefersTo IsAcceptedPlan id (put k plan plans))
      → IsSoundPlan h packs plan
      → IsGovernedBy h packs plans proposals implementations
      → IsGovernedBy h packs (put k plan plans) proposals implementations
  IsGovernedBy-plan k plan refers sound g = record {
    plans = AllValues-put (IsSoundPlan h packs) k plan plans g.plans sound;
    proposals =
        AllValues-map (IsSoundProposal h plans) (IsSoundProposal h (put k plan plans)) proposals
          (λ p s. (refers p.plan_id s.0, s.1, s.2)) g.proposals;
    implementations = g.implementations;
  }

  -- A proposal is written that no accepted proposal is lost by.
  pub IsGovernedBy-proposal :
      (k : String) (proposal : Proposal)
      → ((digest id : String)
          → RefersTo (IsAcceptedProposal digest) id proposals
          → RefersTo (IsAcceptedProposal digest) id (put k proposal proposals))
      → IsSoundProposal h plans proposal
      → IsGovernedBy h packs plans proposals implementations
      → IsGovernedBy h packs plans (put k proposal proposals) implementations
  IsGovernedBy-proposal k proposal refers sound g = record {
    plans = g.plans;
    proposals = AllValues-put (IsSoundProposal h plans) k proposal proposals g.proposals sound;
    implementations =
        AllValues-map (IsSoundImplementation proposals)
          (IsSoundImplementation (put k proposal proposals)) implementations
          (λ i s. refers i.proposal_sha256 i.proposal_id s) g.implementations;
  }

  pub IsGovernedBy-implementation :
      (k : String) (implementation : Implementation)
      → IsSoundImplementation proposals implementation
      → IsGovernedBy h packs plans proposals implementations
      → IsGovernedBy h packs plans proposals (put k implementation implementations)
  IsGovernedBy-implementation k implementation sound g = record {
    plans = g.plans;
    proposals = g.proposals;
    implementations =
        AllValues-put (IsSoundImplementation proposals) k implementation implementations
          g.implementations sound;
  }

pub human_review-not_accepted :
    {A : Type 0} (status : EntityStatus) → status ≡ human_review → status ≡ accepted → A
human_review-not_accepted status e f = absurd (ground (arith, e, f))

-- What holds before a call and after each of its answers holds after it.
pub or_before-keeps :
    {A : Type 0} (P : Db → Type 0) (answer : Result ChangeError (A × Db)) (db : Db)
    → P db
    → ((a : A) (after : Db) → answer ≡ ok (a, after) → P after)
    → P (or_before answer db)
or_before-keeps P (err e) db p f = p
or_before-keeps P (ok (a, after)) db p f = f a after refl

pub db_or_before-keeps :
    (P : Db → Type 0) (answer : Result ChangeError Db) (db : Db)
    → P db
    → ((after : Db) → answer ≡ ok after → P after)
    → P (db_or_before answer db)
db_or_before-keeps P (err e) db p f = p
db_or_before-keeps P (ok after) db p f = f after refl
