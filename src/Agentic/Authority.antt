-- ===== src/Agentic/Authority.antt =====
-- agentic_core_v1/runtime.py, `AgenticRuntime._validate`: what a run request has to satisfy before
-- anything is read.
pub mod Soundness
use palwakf_agentic_ai_syste.Prelude.{
  String, ◌≡◌, Bool, true, false, ◌&&◌, ◌||◌, not, Option, none, some, List, [], ◌∷◌, find_last,
  is_empty, arith, ◌==◌, Result, ok, err, ◌>>=◌, ◌>>◌, raise_if, or_raise, contains, list_eq,
  issubset,
}
use palwakf_agentic_ai_syste.Agentic.Contracts.{
  ProviderId, FilesystemMode, read_only, bounded_write, UnifiedAgent, RunRequest, contains_provider,
}
use palwakf_agentic_ai_syste.Agentic.Projection.{Role, build_projection}
use palwakf_agentic_ai_syste.Agentic.Paths.{FilePath, PathSystem, is_within}

pub data AuthorityCode : Type 0 where
  cross_project_access_denied task_authority_mismatch agent_not_authorized : AuthorityCode
  task_class_not_authorized provider_not_authorized model_provider_not_authorized : AuthorityCode
  write_requires_separate_authority network_write_denied : AuthorityCode
  filesystem_pattern_authority_mismatch filesystem_pattern_required source_sha_mismatch :
      AuthorityCode
  agent_not_registered not_runnable_fail_closed role_agent_mismatch : AuthorityCode
  agent_task_class_not_allowed skill_scope_expansion_denied : AuthorityCode
  worktree_mismatch authorized_root_outside_project : AuthorityCode
  hermes_not_certified_for_execution : AuthorityCode
  resume_checkpoint_outside_evidence_root resume_checkpoint_unreadable : AuthorityCode
  resume_checkpoint_schema_mismatch resume_binding_mismatch : AuthorityCode
  resume_checkpoint_not_resumable resume_checkpoint_manifest_invalid : AuthorityCode
  resume_checkpoint_index_invalid resume_checkpoint_index_out_of_range : AuthorityCode

-- `AgenticRuntime.__init__`; `roles` is what the registry under `project_root` holds.
pub record Runtime : Type 0 where
  pub roles : List Role
  pub source_commit_sha : String
  pub target_project_root : FilePath
  pub target_expected_head : String
  pub evidence_root : FilePath

-- `given or fallback`, where the empty text counts as not given
abbrev pub or_else : Option String → String → String
or_else none fallback = fallback
or_else (some given) fallback = elim (given == "") [ true ↦ fallback | false ↦ given ]

abbrev pub root_or_else : Option FilePath → FilePath → FilePath
root_or_else none fallback = fallback
root_or_else (some given) fallback = given

unfoldable pub new_runtime :
    PathSystem
    → List Role
    → FilePath
    → String
    → Option FilePath
    → Option String
    → FilePath
    → Runtime
new_runtime sys roles project_root sha target_root target_head evidence_root = record {
  roles = roles;
  source_commit_sha = sha;
  target_project_root = sys.resolve (root_or_else target_root project_root);
  target_expected_head = or_else target_head sha;
  evidence_root = sys.resolve evidence_root;
}

abbrev is_read_only : FilesystemMode → Bool
is_read_only read_only = true
is_read_only bounded_write = false

-- The checks of the request against its own envelope and environment.
unfoldable pub validate_envelope : RunRequest → Result AuthorityCode (Unit {0})
validate_envelope request = do
  raise_if
      (not (request.project_id == auth.project_id) || not (request.project_id == env.project_id))
      cross_project_access_denied
  raise_if (not (request.task_id == auth.task_id)) task_authority_mismatch
  raise_if (not (contains request.agent_id auth.allowed_agent_ids)) agent_not_authorized
  raise_if (not (contains request.task_class auth.allowed_task_classes)) task_class_not_authorized
  raise_if (not (contains_provider request.provider_id auth.allowed_provider_ids))
      provider_not_authorized
  raise_if (not (contains request.model_provider auth.allowed_model_providers))
      model_provider_not_authorized
  raise_if (not auth.read_only || not (is_read_only env.filesystem_policy.mode))
      write_requires_separate_authority
  raise_if (auth.allow_network_write || env.network_policy.write) network_write_denied
  raise_if (not (list_eq env.filesystem_policy.allowed_patterns auth.allowed_path_patterns))
      filesystem_pattern_authority_mismatch
  raise_if (is_empty env.filesystem_policy.allowed_patterns) filesystem_pattern_required
  ok tt
  where
    open request use {authorization as auth, environment as env}

-- `agents.get(request.agent_id)` on the dict of the projection, where a later agent replaces an
-- earlier one of the same id
unfoldable pub find_agent : String → List UnifiedAgent → Option UnifiedAgent
find_agent agent_id = find_last (λ agent. agent.agent_id == agent_id)

-- The checks of the request against the registered agent.
unfoldable pub validate_agent : RunRequest → UnifiedAgent → Result AuthorityCode (Unit {0})
validate_agent request agent = do
  raise_if (not agent.runnable) not_runnable_fail_closed
  raise_if (not (agent.role_id == request.role_id)) role_agent_mismatch
  raise_if (not (contains request.task_class agent.allowed_task_classes))
      agent_task_class_not_allowed
  raise_if (not (issubset request.skill_ids agent.skill_ids)) skill_scope_expansion_denied
  ok tt

module _ (sys : PathSystem) (runtime : Runtime) where
  -- The loop over `auth.allowed_filesystem_roots`.
  unfoldable pub validate_roots : List String → Result AuthorityCode (Unit {0})
  validate_roots [] = ok tt
  validate_roots (root ∷ roots) =
      let resolved = sys.resolve (sys.path_of root) in
      let rest = validate_roots roots in
      elim (list_eq resolved runtime.target_project_root
        || is_within sys resolved runtime.target_project_root) [
          | true ↦ rest
          | false ↦ err authorized_root_outside_project
        ]

  unfoldable pub validate_paths : RunRequest → Result AuthorityCode (Unit {0})
  validate_paths request = do
    raise_if
        (not (
          list_eq (sys.resolve (sys.path_of request.environment.worktree))
            runtime.target_project_root))
        worktree_mismatch
    validate_roots request.authorization.allowed_filesystem_roots

  unfoldable pub validate : RunRequest → Result AuthorityCode UnifiedAgent
  validate request = do
    validate_envelope request
    raise_if (not (request.environment.expected_head == runtime.target_expected_head))
        source_sha_mismatch
    agent ←
        or_raise
          (find_agent request.agent_id (build_projection runtime.roles runtime.source_commit_sha))
          agent_not_registered
    validate_agent request agent
    validate_paths request
    ok agent
