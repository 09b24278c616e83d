-- ===== src/ChangeControl/Governance.antt =====
-- The calls of the routes that change the state, and what holds of each state that they reach.
pub mod References
pub mod Admitted
pub mod Proposed
pub mod Kept
pub mod Planned
pub mod Changed
pub mod Applied
pub mod Reached
use palwakf_agentic_ai_syste.Prelude.{
  ℕ, String, ◌≡◌, Bool, true, false, Option, none, some, List, [], ◌∷◌, Result, ok, err, any, All,
  contains,
}
use palwakf_agentic_ai_syste.Prelude.Dict.{Dict, get, put, AllValues}
use palwakf_agentic_ai_syste.Prelude.Json.{Json}
use palwakf_agentic_ai_syste.Prelude.Text.{lower}
use palwakf_agentic_ai_syste.Prelude.Utf8.{Bytes}
use palwakf_agentic_ai_syste.ChangeControl.Schema.{
  ChangeError, ReviewDecision, ImplementationDecision, ReviewDetails, Review, ModelState,
  registered, Model, QualityTool, ContextPack, Disk, Plan, PlanStep, Proposal, Implementation,
  EntityStatus, accepted, Db, Host,
}
use palwakf_agentic_ai_syste.ChangeControl.Models.{ListedModel, probe_models, approve_model}
use palwakf_agentic_ai_syste.ChangeControl.Contexts.{Reader, create_context}
use palwakf_agentic_ai_syste.ChangeControl.Plans.{
  allowed_tools, forbidden, generate_plan, review_plan, review_proposal,
}
use palwakf_agentic_ai_syste.ChangeControl.Proposals.{generate_proposal}
use palwakf_agentic_ai_syste.ChangeControl.Implementations.{
  prepare_implementation, apply_implementation,
}
use palwakf_agentic_ai_syste.ChangeControl.Reviews.{review_implementation}
use palwakf_agentic_ai_syste.ChangeControl.Implementations.Found.{AreProposed}
use Prim.Native.String.{◌++◌ as concat}

-- The POST routes, with the request, the ids and the token that the call draws, and what the local model answers,
-- as `model_answer` reads it.
pub data Call : Type 0 where
  models_probe : List ListedModel → Call
  models_approve : (model_id approval_reference approved_by : String) → Call
  context_packs_create :
      (baselines : List QualityTool) (context_id goal scope_relative : String) → Call
  plans_generate :
      (plan_id context_pack_id model_id : String) (answer : Result ChangeError Json) → Call
  plans_review : (plan_id : String) (decision : ReviewDecision) (details : ReviewDetails) → Call
  proposals_generate :
      (proposal_id plan_id model_id : String) (target_files : List String)
      (answer : Result ChangeError Json)
      → Call
  proposals_review :
      (proposal_id : String) (decision : ReviewDecision) (details : ReviewDetails) → Call
  implementations_prepare :
      (implementation_id apply_token proposal_id approved_by reference : String) → Call
  implementations_apply : (implementation_id apply_token : String) → Call
  implementations_review :
      (implementation_id : String) (decision : ImplementationDecision) (details : ReviewDetails)
      → Call

-- The state after a call that raises before it writes is the one before.
abbrev pub or_before : {A : Type 0} → Result ChangeError (A × Db) → Db → Db
or_before (err e) db = db
or_before (ok (answer, after)) db = after

abbrev pub db_or_before : Result ChangeError Db → Db → Db
db_or_before (err e) db = db
db_or_before (ok after) db = after

-- The state after a route's handler. `decodes` is whether a file is UTF-8.
unfoldable pub handle : Host → Reader → (Bytes → Bool) → Call → Db → Db
handle h r decodes (models_probe response) db = probe_models response db
handle h r decodes (models_approve model_id approval_reference approved_by) db =
    db_or_before (approve_model model_id approval_reference approved_by db) db
handle h r decodes (context_packs_create baselines context_id goal scope_relative) db =
    or_before (create_context h r baselines context_id goal scope_relative db) db
handle h r decodes (plans_generate plan_id context_pack_id model_id answer) db =
    or_before (generate_plan h plan_id context_pack_id model_id answer db) db
handle h r decodes (plans_review plan_id decision details) db =
    db_or_before (review_plan plan_id decision details db) db
handle h r decodes (proposals_generate proposal_id plan_id model_id target_files answer) db =
    or_before (generate_proposal h decodes proposal_id plan_id model_id target_files answer db) db
handle h r decodes (proposals_review proposal_id decision details) db =
    db_or_before (review_proposal proposal_id decision details db) db
handle h r decodes
      (implementations_prepare implementation_id apply_token proposal_id approved_by reference) db =
    or_before
      (prepare_implementation h implementation_id apply_token proposal_id approved_by reference db)
      db
handle h r decodes (implementations_apply implementation_id apply_token) db =
    (apply_implementation h implementation_id apply_token db).1
handle h r decodes (implementations_review implementation_id decision details) db =
    (review_implementation h implementation_id decision details db).1

-- An id that `uuid.uuid4()` draws is not in use.
abbrev pub IsFresh : Call → Db → Type 0
IsFresh (plans_generate plan_id context_pack_id model_id answer) db = get plan_id db.plans ≡ none
IsFresh (proposals_generate proposal_id plan_id model_id target_files answer) db =
    get proposal_id db.proposals ≡ none
IsFresh (implementations_prepare implementation_id apply_token proposal_id approved_by reference)
      db =
    get implementation_id db.implementations ≡ none
IsFresh _ db = Unit

abbrev pub registered_model : Model
registered_model = record {
  state = registered;
  digest = none;
  approved_digest = none;
  approval_reference = none;
  approved_by = none;
}

-- `_ensure_state` where no file of the state is there.
unfoldable pub ensure_state : Dict Bytes → Db
ensure_state files = record {
  models = ("qwen2.5:3b", registered_model) ∷ ("llama3.2:3b", registered_model) ∷ [];
  context_packs = [];
  plans = [];
  proposals = [];
  implementations = [];
  reviews = [];
  disk = record { files = files; backups = [] };
}

-- The states that calls reach.
pub data Reaches (h : Host) (r : Reader) (decodes : Bytes → Bool) : Db → Type 0 where
  started : (files : Dict Bytes) → Reaches h r decodes (ensure_state files)
  called :
      (call : Call) (db : Db)
      → Reaches h r decodes db
      → IsFresh call db
      → Reaches h r decodes (handle h r decodes call db)

-- What a key refers to has the property.
abbrev pub RefersTo : {V : Type 0} → (V → Type 0) → String → Dict V → Type 0
RefersTo {V} P k d = (v : V) × (get k d ≡ some v) × P v

-- A step recommends allowed tools only, and none of the forbidden instructions is in its text.
abbrev pub IsAllowedStep : Host → PlanStep → Type 0
IsAllowedStep h step =
    All (λ tool. contains tool allowed_tools ≡ true) step.recommended_tools
    × (any (λ p. h.search p (lower (concat step.title (concat " " step.description)))) forbidden
        ≡ false)

-- The review of an entity of a type, whose decision is to accept.
abbrev pub IsAcceptedReview : String → Option Review → Type 0
IsAcceptedReview entity_type review =
    (entry : Review) × (review ≡ some entry)
    × (entry.decision ≡ "ACCEPT")
    × (entry.entity_type ≡ entity_type)

abbrev pub IsAcceptedPlan : Plan → Type 0
IsAcceptedPlan plan = (plan.status ≡ accepted) × IsAcceptedReview "plans" plan.review

abbrev pub IsAcceptedProposal : String → Proposal → Type 0
IsAcceptedProposal digest proposal =
    (proposal.status ≡ accepted)
    × IsAcceptedReview "proposals" proposal.review
    × (proposal.proposal_sha256 ≡ digest)

-- A plan has its context and allowed steps, and a review that accepts it if it is accepted.
abbrev pub IsSoundPlan : Host → Dict ContextPack → Plan → Type 0
IsSoundPlan h context_packs plan =
    RefersTo (λ c. Unit {0}) plan.context_pack_id context_packs
    × All (IsAllowedStep h) plan.recommended_steps
    × (plan.status ≡ accepted → IsAcceptedReview "plans" plan.review)

-- A proposal has an accepted plan and well-formed changes, and a review that accepts it if it is accepted.
abbrev pub IsSoundProposal : Host → Dict Plan → Proposal → Type 0
IsSoundProposal h plans proposal =
    RefersTo IsAcceptedPlan proposal.plan_id plans
    × AreProposed h proposal.changes
    × (proposal.status ≡ accepted → IsAcceptedReview "proposals" proposal.review)

-- An implementation has an accepted proposal, whose digest it keeps.
abbrev pub IsSoundImplementation : Dict Proposal → Implementation → Type 0
IsSoundImplementation proposals implementation =
    RefersTo (IsAcceptedProposal implementation.proposal_sha256) implementation.proposal_id
      proposals

pub record IsGovernedBy (h : Host) (context_packs_ : Dict ContextPack) (plans_ : Dict Plan)
    (proposals_ : Dict Proposal) (implementations_ : Dict Implementation) : Type 0 where
  pub plans : AllValues (IsSoundPlan h context_packs_) plans_
  pub proposals : AllValues (IsSoundProposal h plans_) proposals_
  pub implementations : AllValues (IsSoundImplementation proposals_) implementations_

abbrev pub IsGoverned : Host → Db → Type 0
IsGoverned h db = IsGovernedBy h db.context_packs db.plans db.proposals db.implementations
