-- ===== src/Agentic/Contracts.antt =====
-- agentic_core_v1/contracts.py: the pydantic models, and the validators that run when one is built.
use palwakf_agentic_ai_syste.Prelude.{
  ℕ, ◌≤◌, String, ◌≡◌, ◌↔◌, Bool, true, false, ◌&&◌, not, Option, List, [], ◌∷◌, leb, arith,
  if◌then◌else◌, Result, ok, err, ◌>>◌, raise_if, Elem,
}
use text.Mathlib.Text.{starts_with}

pub data ProviderId : Type 0 where
  native hermes : ProviderId

abbrev pub provider_eq : ProviderId → ProviderId → Bool
provider_eq native native = true
provider_eq hermes hermes = true
provider_eq _ _ = false

-- `provider in allowed`
unfoldable pub contains_provider : ProviderId → List ProviderId → Bool
contains_provider p [] = false
contains_provider p (q ∷ qs) = elim (provider_eq p q) [
  | true ↦ true
  | false ↦ contains_provider p qs
]

pub data FilesystemMode : Type 0 where
  read_only bounded_write : FilesystemMode

pub record FilesystemPolicy : Type 0 where
  pub mode : FilesystemMode
  pub allowed_roots : List String
  pub allowed_patterns : List String

pub record NetworkPolicy : Type 0 where
  pub read : Bool
  pub write : Bool

pub record ResourceBudget : Type 0 where
  pub timeout_seconds : ℕ
  pub max_files : ℕ
  pub max_bytes : ℕ
  pub max_retries : ℕ

pub data ContractError : Type 0 where
  budget_out_of_range task_branch_required network_write_forbidden : ContractError
  authority_expansion_network_write_forbidden : ContractError

-- The `Field` bounds of `ResourceBudget`.
unfoldable pub check_budget : ResourceBudget → Result ContractError (Unit {0})
check_budget b =
    if leb 1 b.timeout_seconds
      && leb b.timeout_seconds 3600
      && leb 1 b.max_files
      && leb b.max_files 10000
      && leb 1024 b.max_bytes
      && leb b.max_bytes 100000000
      && leb b.max_retries 3
    then ok tt
    else err budget_out_of_range

pub data DbAuthority : Type 0 where
  none_authority read_only_authority : DbAuthority

pub record ExecutionEnvironment : Type 0 where
  pub project_id : String
  pub repository : String
  pub task_branch : String
  pub base_sha : String
  pub expected_head : String
  pub worktree : String
  pub filesystem_policy : FilesystemPolicy
  pub network_policy : NetworkPolicy
  pub tool_policy : List String
  pub db_authority : DbAuthority
  pub resource_budget : ResourceBudget

-- Building an `ExecutionEnvironment`: the budget's bounds, then `fail_closed`.
unfoldable pub check_environment : ExecutionEnvironment → Result ContractError ExecutionEnvironment
unfolding check_budget
check_environment env = do
  check_budget env.resource_budget
  raise_if (not (starts_with env.task_branch "task/")) task_branch_required
  raise_if env.network_policy.write network_write_forbidden
  ok env

pub data Issuer : Type 0 where
  workspace_manager human_explicit : Issuer

pub record AuthorizationEnvelope : Type 0 where
  pub authorization_id : String
  pub issuer : Issuer
  pub project_id : String
  pub task_id : String
  pub allowed_agent_ids : List String
  pub allowed_task_classes : List String
  pub allowed_provider_ids : List ProviderId
  pub allowed_model_providers : List String
  pub allowed_filesystem_roots : List String
  pub allowed_path_patterns : List String
  pub read_only : Bool
  pub allow_network_read : Bool
  pub allow_network_write : Bool

-- Building an `AuthorizationEnvelope`: `fail_closed`.
unfoldable pub check_authorization :
    AuthorizationEnvelope → Result ContractError AuthorizationEnvelope
check_authorization auth = do
  raise_if auth.allow_network_write authority_expansion_network_write_forbidden
  ok auth

pub record UnifiedAgent : Type 0 where
  pub agent_id : String
  pub role_id : String
  pub runtime_profile_id : String
  pub skill_ids : List String
  pub tool_bindings : List String
  pub model_route : List String
  pub execution_provider_policy : List ProviderId
  pub memory_scopes : List String
  pub allowed_projects : List String
  pub permission_profile : String
  pub filesystem_scope : String
  pub network_scope : String
  pub data_limit : String
  pub evidence_requirement : String
  pub maturity : String
  pub authority_status : String
  pub source_commit_sha : String
  pub allowed_task_classes : List String
  pub runnable : Bool

pub record RunRequest : Type 0 where
  pub project_id : String
  pub task_id : String
  pub state_package_id : String
  pub agent_id : String
  pub role_id : String
  pub task_class : String
  pub objective : String
  pub provider_id : ProviderId
  pub provider_mode : String
  pub model_provider : String
  pub model_id : Option String
  pub skill_ids : List String
  pub tools : List String
  pub authorization : AuthorizationEnvelope
  pub environment : ExecutionEnvironment

-- `{"path": relative, "size": size}`, an item of the manifest
pub record ManifestItem : Type 0 where
  pub path : String
  pub size : ℕ

-- `{"code": ..., "message": ...}`
pub record ErrorItem : Type 0 where
  pub code : String
  pub message : String

-- `{"type": ..., "path": ...}`
pub record EvidenceItem : Type 0 where
  pub kind : String
  pub path : List String

-- `{"type": "READ_ONLY_REPOSITORY_MANIFEST", "files": ..., "bytes": ...}`
pub record ActionItem : Type 0 where
  pub kind : String
  pub files : ℕ
  pub bytes : ℕ

pub data Observation : Type 0 where
  manifest_sample : List ManifestItem → String → Observation
  resume_from : String → Observation

pub record RunReceipt : Type 0 where
  pub run_id : String
  pub project_id : String
  pub task_id : String
  pub state_package_id : String
  pub agent_id : String
  pub role_id : String
  pub skill_ids : List String
  pub provider_id : ProviderId
  pub provider_mode : String
  pub model_provider : String
  pub model_id : Option String
  pub tools : List String
  pub environment : ExecutionEnvironment
  pub base_sha : String
  pub before_head : String
  pub authorized_scope : AuthorizationEnvelope
  pub plan : List String
  pub actions : List ActionItem
  pub observations : List Observation
  pub changed_files : List String
  pub tests : List String
  pub errors : List ErrorItem
  pub retries : ℕ
  pub evidence : List EvidenceItem
  pub final_result : String
  pub next_action : String

pub provider_eq→eq : (p q : ProviderId) → provider_eq p q ≡ true → p ≡ q
provider_eq→eq p q h = ground arith

-- What an accepted environment guarantees to the run that is bound to it.
pub record IsFailClosed (env : ExecutionEnvironment) : Type 0 where
  pub no_network_write : env.network_policy.write ≡ false
  pub task_branch : starts_with env.task_branch "task/" ≡ true
  pub time_bounded :
      (1 ≤ env.resource_budget.timeout_seconds) × (env.resource_budget.timeout_seconds ≤ 3600)
  pub files_bounded : (1 ≤ env.resource_budget.max_files) × (env.resource_budget.max_files ≤ 10000)
  pub bytes_bounded :
      (1024 ≤ env.resource_budget.max_bytes) × (env.resource_budget.max_bytes ≤ 100000000)
  pub retries_bounded : env.resource_budget.max_retries ≤ 3

pub contains_provider→Elem :
    (p : ProviderId) (ps : List ProviderId) → contains_provider p ps ≡ true → Elem p ps
unfolding contains_provider
contains_provider→Elem p [] h = cc
contains_provider→Elem p (q ∷ qs) h = ground (arith, contains_provider→Elem p qs)

pub Elem→contains_provider :
    (p : ProviderId) (ps : List ProviderId) → Elem p ps → contains_provider p ps ≡ true
unfolding contains_provider
Elem→contains_provider p [] h = absurd h
Elem→contains_provider p (q ∷ qs) h = ground (arith, Elem→contains_provider p qs)

-- An environment is accepted, and then not changed, exactly when it forbids network writes, is on a task branch,
-- and has a budget of 1 to 3600 seconds, 1 to 10,000 files, 1024 to 100,000,000 bytes and at most 3 retries.
pub check_environment_iff :
    (env accepted : ExecutionEnvironment)
    → (check_environment env ≡ ok accepted) ↔ ((accepted ≡ env) × IsFailClosed env)
unfolding check_environment check_budget
check_environment_iff env accepted = (λ e. (ground arith, ground arith), λ t. accepts t.0 t.1)
  where
    accepts : accepted ≡ env → IsFailClosed env → check_environment env ≡ ok accepted
    accepts same c =
        let (t0, t1) = c.time_bounded in
        let (f0, f1) = c.files_bounded in
        let (b0, b1) = c.bytes_bounded in
        let r = c.retries_bounded in
        let n = c.no_network_write in let t = c.task_branch in rw same (ground arith)
