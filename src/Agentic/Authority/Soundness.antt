-- ===== src/Agentic/Authority/Soundness.antt =====
-- What an accepted request satisfies, stated without the tests that `_validate` runs, and the proof
-- that the method accepts exactly these requests.
use palwakf_agentic_ai_syste.Prelude.{
  String, ◌≡◌, refl, ◌≢◌, ◌↔◌, ◌⊎◌, inl, inr, true, false, ◌||◌, none, some, List, [], ◌∷◌, ◌++◌,
  arith, eq_iff, ok, list_eq, Elem, All, contains→Elem, Elem→contains, list_eq→eq, list_eq_refl,
  is_empty, Bool-cases, Option-cases, issubset→Elem, Elem→issubset,
}
use mathlib.Core.Path.{subst}
use palwakf_agentic_ai_syste.Agentic.Contracts.{
  read_only, UnifiedAgent, RunRequest, contains_provider→Elem, Elem→contains_provider,
}
use palwakf_agentic_ai_syste.Agentic.Projection.{build_projection}
use palwakf_agentic_ai_syste.Agentic.Paths.{
  FilePath, PathSystem, is_within, starts_under→append, starts_under-append,
}
use palwakf_agentic_ai_syste.Agentic.Authority.{
  Runtime, validate_envelope, find_agent, validate_agent, validate_roots, validate_paths, validate,
}

-- The request stays within the envelope, and neither asks for a write.
pub record IsEnveloped (request : RunRequest) : Type 0 where
  pub auth_project : request.project_id ≡ request.authorization.project_id
  pub env_project : request.project_id ≡ request.environment.project_id
  pub task : request.task_id ≡ request.authorization.task_id
  pub agent : Elem request.agent_id request.authorization.allowed_agent_ids
  pub task_class : Elem request.task_class request.authorization.allowed_task_classes
  pub provider : Elem request.provider_id request.authorization.allowed_provider_ids
  pub model_provider : Elem request.model_provider request.authorization.allowed_model_providers
  pub auth_read_only : request.authorization.read_only ≡ true
  pub env_read_only : request.environment.filesystem_policy.mode ≡ read_only
  pub auth_network : request.authorization.allow_network_write ≡ false
  pub env_network : request.environment.network_policy.write ≡ false
  pub patterns :
      request.environment.filesystem_policy.allowed_patterns
      ≡ request.authorization.allowed_path_patterns
  pub some_pattern : is_empty request.environment.filesystem_policy.allowed_patterns ≡ false

module _ (request : RunRequest) where
  pub validate_envelope_sound : validate_envelope request ≡ ok tt → IsEnveloped request
  unfolding validate_envelope
  validate_envelope_sound h = ground (
    arith,
    eq_iff request.project_id request.authorization.project_id,
    eq_iff request.project_id request.environment.project_id,
    eq_iff request.task_id request.authorization.task_id,
    contains→Elem request.agent_id request.authorization.allowed_agent_ids,
    contains→Elem request.task_class request.authorization.allowed_task_classes,
    contains_provider→Elem request.provider_id request.authorization.allowed_provider_ids,
    contains→Elem request.model_provider request.authorization.allowed_model_providers,
    list_eq→eq request.environment.filesystem_policy.allowed_patterns
        request.authorization.allowed_path_patterns,
  )

  pub validate_envelope_complete : IsEnveloped request → validate_envelope request ≡ ok tt
  unfolding validate_envelope
  validate_envelope_complete v = ground (
    arith,
    eq_iff request.project_id request.authorization.project_id,
    eq_iff request.project_id request.environment.project_id,
    eq_iff request.task_id request.authorization.task_id,
    Elem→contains request.agent_id request.authorization.allowed_agent_ids v.agent,
    Elem→contains request.task_class request.authorization.allowed_task_classes v.task_class,
    Elem→contains_provider request.provider_id request.authorization.allowed_provider_ids
        v.provider,
    Elem→contains request.model_provider request.authorization.allowed_model_providers
        v.model_provider,
    list_eq_refl request.authorization.allowed_path_patterns,
  )

-- The registered agent plays the role that is asked for, and has every skill that is asked for.
pub record IsFit (request : RunRequest) (agent : UnifiedAgent) : Type 0 where
  pub runnable : agent.runnable ≡ true
  pub role : agent.role_id ≡ request.role_id
  pub class_allowed : Elem request.task_class agent.allowed_task_classes
  pub skills : All (λ skill. Elem skill agent.skill_ids) request.skill_ids

module _ (request : RunRequest) (agent : UnifiedAgent) where
  pub validate_agent_sound : validate_agent request agent ≡ ok tt → IsFit request agent
  unfolding validate_agent
  validate_agent_sound h = ground (
    arith,
    eq_iff agent.role_id request.role_id,
    contains→Elem request.task_class agent.allowed_task_classes,
    issubset→Elem request.skill_ids agent.skill_ids,
  )

  pub validate_agent_complete : IsFit request agent → validate_agent request agent ≡ ok tt
  unfolding validate_agent
  validate_agent_complete v = ground (
    arith,
    eq_iff agent.role_id request.role_id,
    Elem→contains request.task_class agent.allowed_task_classes v.class_allowed,
    Elem→issubset request.skill_ids agent.skill_ids v.skills,
  )

-- The last agent of the projection with the id: what a dict with repeated keys holds.
pub data IsLastWith (id : String) (agent : UnifiedAgent) : List UnifiedAgent → Type 0 where
  last :
      {later : List UnifiedAgent}
      → agent.agent_id ≡ id
      → All (λ other. other.agent_id ≢ id) later
      → IsLastWith id agent (agent ∷ later)
  skip :
      {other : UnifiedAgent} {later : List UnifiedAgent}
      → IsLastWith id agent later
      → IsLastWith id agent (other ∷ later)

module _ (id : String) where
  find_agent-none :
      (agents : List UnifiedAgent)
      → find_agent id agents ≡ none
      → All (λ other. other.agent_id ≢ id) agents
  unfolding find_agent
  find_agent-none [] h = tt
  find_agent-none (a ∷ as') h = ground (arith, eq_iff a.agent_id id, find_agent-none as')

  find_agent-of_none :
      (agents : List UnifiedAgent)
      → All (λ other. other.agent_id ≢ id) agents
      → find_agent id agents ≡ none
  unfolding find_agent
  find_agent-of_none [] h = refl
  find_agent-of_none (a ∷ as') h =
      ground (arith, eq_iff a.agent_id id, h.0, find_agent-of_none as' h.1)

  find_agent-head :
      (a : UnifiedAgent) (later : List UnifiedAgent) {agent : UnifiedAgent}
      → find_agent id later ≡ none
      → find_agent id (a ∷ later) ≡ some agent
      → (a ≡ agent) × (a.agent_id ≡ id)
  unfolding find_agent
  find_agent-head a later e h = ground (arith, eq_iff a.agent_id id)

  find_agent-tail :
      (a : UnifiedAgent) (later : List UnifiedAgent) {agent other : UnifiedAgent}
      → find_agent id later ≡ some other
      → find_agent id (a ∷ later) ≡ some agent
      → find_agent id later ≡ some agent
  unfolding find_agent
  find_agent-tail a later e h = ground arith

  pub find_agent_sound :
      (agents : List UnifiedAgent) (agent : UnifiedAgent)
      → find_agent id agents ≡ some agent
      → IsLastWith id agent agents
  find_agent_sound [] agent h = unfold find_agent in cc
  find_agent_sound (a ∷ later) agent h = elim (Option-cases (find_agent id later)) [
    | inl absent ↦
        let (same, named) = find_agent-head a later absent h in
        subst (λ x. IsLastWith id x (a ∷ later)) same (last named (find_agent-none later absent))
    | inr (other, found) ↦ skip (find_agent_sound later agent (find_agent-tail a later found h))
  ]

  pub find_agent_complete :
      (agent : UnifiedAgent) (agents : List UnifiedAgent)
      → IsLastWith id agent agents
      → find_agent id agents ≡ some agent
  unfolding find_agent
  find_agent_complete agent agents (last {later = later} e h) =
      ground (arith, eq_iff agent.agent_id id, find_agent-of_none later h)
  find_agent_complete agent agents (skip {other = other} {later = later} h) =
      ground (arith, find_agent_complete agent later h)

-- A path is the root, or lies below it once links are followed.
abbrev pub IsUnder : PathSystem → FilePath → FilePath → Type 0
IsUnder sys root path =
    (path ≡ root) ⊎ ((rest : FilePath) × (sys.resolve path ≡ sys.resolve root ++ rest))

module _ (sys : PathSystem) (runtime : Runtime) where
  abbrev resolved : String → FilePath
  resolved root = sys.resolve (sys.path_of root)

  abbrev RootIsUnder : String → Type 0
  RootIsUnder root = IsUnder sys runtime.target_project_root (resolved root)

  validate_roots_sound :
      (roots : List String) → validate_roots sys runtime roots ≡ ok tt → All RootIsUnder roots
  validate_roots_sound [] h = tt
  validate_roots_sound (root ∷ roots) h =
      elim (Bool-cases (list_eq (resolved root) runtime.target_project_root)) [
        | inl same ↦ (
          inl (list_eq→eq _ _ same),
          validate_roots_sound roots (unfold validate_roots in ground arith),
        )
        | inr differ ↦
            elim (Bool-cases (is_within sys (resolved root) runtime.target_project_root)) [
              | inl within ↦ (
                inr (starts_under→append _ _ (unfold is_within in within)),
                validate_roots_sound roots (unfold validate_roots in ground arith),
              )
              | inr outside ↦ absurd (unfold validate_roots in ground arith)
            ]
      ]

  IsUnder→test :
      (path : FilePath)
      → IsUnder sys runtime.target_project_root path
      → list_eq path runtime.target_project_root || is_within sys path runtime.target_project_root
        ≡ true
  IsUnder→test path (inl same) = rw same (rw (list_eq_refl runtime.target_project_root))
  IsUnder→test path (inr (rest, e)) =
      let below : is_within sys path runtime.target_project_root ≡ true =
        unfold is_within in
        rw e (starts_under-append (sys.resolve runtime.target_project_root) rest) in
      ground arith

  validate_roots_complete :
      (roots : List String) → All RootIsUnder roots → validate_roots sys runtime roots ≡ ok tt
  unfolding validate_roots
  validate_roots_complete [] h = refl
  validate_roots_complete (root ∷ roots) h =
      ground (arith, IsUnder→test (resolved root) h.0, validate_roots_complete roots h.1)

  -- Everything that a validated request and its agent satisfy.
  pub record IsAuthorized (request : RunRequest) (agent : UnifiedAgent) : Type 0 where
    pub enveloped : IsEnveloped request
    pub head : request.environment.expected_head ≡ runtime.target_expected_head
    pub registered :
        IsLastWith request.agent_id agent (build_projection runtime.roles runtime.source_commit_sha)
    pub fit : IsFit request agent
    pub worktree : resolved request.environment.worktree ≡ runtime.target_project_root
    pub roots : All RootIsUnder request.authorization.allowed_filesystem_roots

  abbrev projected : List UnifiedAgent
  projected = build_projection runtime.roles runtime.source_commit_sha

  -- The parts of an accepted call, each with the test that it passed.
  validate-parts :
      (request : RunRequest) (agent : UnifiedAgent)
      → validate sys runtime request ≡ ok agent
      → (validate_envelope request ≡ ok tt)
        × (request.environment.expected_head ≡ runtime.target_expected_head)
        × (find_agent request.agent_id projected ≡ some agent)
        × (validate_agent request agent ≡ ok tt)
        × (resolved request.environment.worktree ≡ runtime.target_project_root)
        × (validate_roots sys runtime request.authorization.allowed_filesystem_roots ≡ ok tt)
  unfolding validate validate_paths
  validate-parts request agent h = ground (
    arith,
    eq_iff request.environment.expected_head runtime.target_expected_head,
    list_eq→eq (resolved request.environment.worktree) runtime.target_project_root,
  )

  -- A request that `_validate` accepts is authorized, with the agent that it returns.
  pub validate_sound :
      (request : RunRequest) (agent : UnifiedAgent)
      → validate sys runtime request ≡ ok agent
      → IsAuthorized request agent
  validate_sound request agent h =
      let (enveloped, head, found, fits, worktree, roots) = validate-parts request agent h in
      record {
        enveloped = validate_envelope_sound request enveloped;
        head = head;
        registered = find_agent_sound request.agent_id projected agent found;
        fit = validate_agent_sound request agent fits;
        worktree = worktree;
        roots = validate_roots_sound request.authorization.allowed_filesystem_roots roots;
      }

  validate_complete :
      (request : RunRequest) (agent : UnifiedAgent)
      → IsAuthorized request agent
      → validate sys runtime request ≡ ok agent
  unfolding validate validate_paths
  validate_complete request agent v = ground (
    arith,
    validate_envelope_complete request v.enveloped,
    eq_iff request.environment.expected_head runtime.target_expected_head,
    find_agent_complete request.agent_id agent projected v.registered,
    validate_agent_complete request agent v.fit,
    list_eq_refl runtime.target_project_root,
    validate_roots_complete request.authorization.allowed_filesystem_roots v.roots,
  )

  -- `_validate` returns an agent exactly when the request is authorized with it.
  pub validate_iff :
      (request : RunRequest) (agent : UnifiedAgent)
      → (validate sys runtime request ≡ ok agent) ↔ IsAuthorized request agent
  validate_iff request agent = (validate_sound request agent, validate_complete request agent)
