-- ===== src/Agentic/Tests.antt =====
-- Runs of the agentic core at concrete inputs: a small repository, a request for it, and runs that pass, are
-- cancelled and resume.
use palwakf_agentic_ai_syste.Prelude.{
  list_eq, issubset, contains, ℕ, zero, suc, ◌-◌, String, ◌≡◌, refl, ◌↔◌, inl, Bool, true, false,
  ◌||◌, Option, none, some, List, [], ◌∷◌, drop, ◌==◌, nat_eq, ok, Elem, arith, pos,
}
use palwakf_agentic_ai_syste.Agentic.Contracts.{
  contains_provider, native, read_only, workspace_manager, none_authority, ResourceBudget,
  ExecutionEnvironment, AuthorizationEnvelope, RunRequest, RunReceipt, check_environment,
  IsFailClosed, check_environment_iff, UnifiedAgent,
}
use palwakf_agentic_ai_syste.Agentic.Projection.{project, build_projection}
use palwakf_agentic_ai_syste.Agentic.Paths.{FilePath, PathSystem, as_posix}
use palwakf_agentic_ai_syste.Agentic.Authority.{
  validate_roots, validate_paths, validate_envelope, validate_agent, find_agent, Runtime, validate,
}
use palwakf_agentic_ai_syste.Agentic.Authority.Soundness.{IsAuthorized, validate_iff}
use palwakf_agentic_ai_syste.Agentic.Scan.{
  visit, FileStat, World, Progress, cancelled, candidate_paths, stat_with_retry, scan,
}
use palwakf_agentic_ai_syste.Agentic.Scan.Bounds.{
  IsBounded, scan-IsBounded, Retried, stat_with_retry-Retried,
}
use palwakf_agentic_ai_syste.Agentic.Scan.Resume.{scan-resume}
use palwakf_agentic_ai_syste.Agentic.Scan.Candidates.{IsAllowed, candidate_paths_iff}
use palwakf_agentic_ai_syste.Agentic.Evidence.{
  is_resumable, persist_receipt, interrupted_receipt, base_receipt, EvidenceStore, checkpoint_path,
}
use palwakf_agentic_ai_syste.Agentic.Execute.{
  run_from, interruption, index_in_range, fresh_start, Interruption, begin, finish, execute,
}
use palwakf_agentic_ai_syste.Agentic.Execute.Rounds.{ends, execute-eq}
use palwakf_agentic_ai_syste.Agentic.Execute.Safety.{
  IsSafe, execute-IsSafe, IsFaithful, execute-IsFaithful,
}
use palwakf_agentic_ai_syste.Agentic.Execute.Resume.{begin-finish, Rejoins, execute-Rejoins}

abbrev pub paths : PathSystem
paths = record { path_of = λ text. text ∷ []; resolve = λ path. path }

abbrev pub runtime : Runtime
runtime = record {
  roles = record { role_id = "tester"; allowed_skills = "triage" ∷ [] } ∷ [];
  source_commit_sha = "abc";
  target_project_root = "repo" ∷ [];
  target_expected_head = "abc";
  evidence_root = "evidence" ∷ [];
}

abbrev pub budget : ResourceBudget
budget = record { timeout_seconds = 60; max_files = 2; max_bytes = 2048; max_retries = 1 }

abbrev pub environment : ExecutionEnvironment
environment = record {
  project_id = "p1";
  repository = "owner/repo";
  task_branch = "task/scan";
  base_sha = "abc";
  expected_head = "abc";
  worktree = "repo";
  filesystem_policy = record {
    mode = read_only;
    allowed_roots = "repo" ∷ [];
    allowed_patterns = "*" ∷ [];
  };
  network_policy = record { read = false; write = false };
  tool_policy = [];
  db_authority = none_authority;
  resource_budget = budget;
}

abbrev pub envelope : AuthorizationEnvelope
envelope = record {
  authorization_id = "auth-1";
  issuer = workspace_manager;
  project_id = "p1";
  task_id = "t1";
  allowed_agent_ids = "tester_agentic_v1" ∷ [];
  allowed_task_classes = "TEST_TRIAGE" ∷ [];
  allowed_provider_ids = native ∷ [];
  allowed_model_providers = "none" ∷ [];
  allowed_filesystem_roots = "repo" ∷ [];
  allowed_path_patterns = "*" ∷ [];
  read_only = true;
  allow_network_read = false;
  allow_network_write = false;
}

abbrev pub request : RunRequest
request = record {
  project_id = "p1";
  task_id = "t1";
  state_package_id = "s1";
  agent_id = "tester_agentic_v1";
  role_id = "tester";
  task_class = "TEST_TRIAGE";
  objective = "Look at the tests.";
  provider_id = native;
  provider_mode = "READ_ONLY_DIAGNOSTIC";
  model_provider = "none";
  model_id = none;
  skill_ids = "triage" ∷ [];
  tools = [];
  authorization = envelope;
  environment = environment;
}

abbrev agent : UnifiedAgent
agent = project "abc" (record { role_id = "tester"; allowed_skills = "triage" ∷ [] })

-- Each file's first `stat` fails; the second finds 10 bytes.
abbrev pub stat_once : ℕ → Option FileStat
stat_once zero = none
stat_once (suc _) = some (record { is_regular = true; size = 10 })

abbrev pub world : (ℕ → Bool) → World
world cancelled_at = record {
  tree =
      ("src" ∷ "b.py" ∷ [])
      ∷ ("src" ∷ "a.py" ∷ [])
      ∷ (".git" ∷ "config" ∷ [])
      ∷ ("notes.md" ∷ [])
      ∷ [];
  fnmatchcase = λ candidate pattern. pattern == "*" || candidate == pattern;
  cancelled = cancelled_at;
  reason = "stop";
  clock = λ _. 5;
  started = 5;
  ticks_per_second = 1000;
  stat_file = λ _. stat_once;
  os_error = λ path. path;
}

abbrev pub calm : World
calm = world (λ _. false)

abbrev pub stopped : World
stopped = world (λ index. nat_eq index 1)

abbrev pub store : EvidenceStore
store = record { receipts = []; checkpoint_files = λ _. none; receipt_files = λ _. none }

abbrev pub fingerprint : RunRequest → String
fingerprint r = r.task_id

validated : validate paths runtime request ≡ ok agent
unfolding validate validate_envelope contains contains_provider list_eq find_agent build_projection
    validate_agent issubset validate_paths validate_roots
validated = refl

abbrev passed : RunReceipt × EvidenceStore
passed = ends fingerprint paths runtime calm store "run-1" request fresh_start 0

abbrev pub interrupted : RunReceipt × EvidenceStore
interrupted = ends fingerprint paths runtime stopped store "run-1" request fresh_start 0

passes : execute fingerprint paths runtime calm store "run-1" request none ≡ ok passed
unfolding index_in_range candidate_paths contains
passes =
    execute-eq fingerprint paths runtime calm store "run-1" request none agent fresh_start 0
      validated refl (unfold begin in refl) refl

pub stops : execute fingerprint paths runtime stopped store "run-1" request none ≡ ok interrupted
unfolding index_in_range candidate_paths contains
stops =
    execute-eq fingerprint paths runtime stopped store "run-1" request none agent fresh_start 0
      validated refl (unfold begin in refl) refl

test_passed : passed.0.final_result ≡ "PASS"
unfolding finish interruption run_from scan candidate_paths contains visit stat_with_retry
    persist_receipt base_receipt
test_passed = refl

test_interrupted : interrupted.0.final_result ≡ "CANCELLED"
unfolding finish interruption run_from scan candidate_paths contains visit stat_with_retry
    interrupted_receipt
test_interrupted = refl

abbrev two_files : List String
two_files = "src/a.py" ∷ "src/b.py" ∷ []

-- What the stopped world leaves of the two files.
abbrev half : Progress
half = record {
  manifest = record { path = "src/a.py"; size = 10 } ∷ [];
  bytes_seen = 10;
  retries = 1;
}

test_candidates :
    candidate_paths calm ("repo" ∷ []) ("*" ∷ []) ≡ "notes.md" ∷ "src/a.py" ∷ "src/b.py" ∷ []
unfolding candidate_paths contains
test_candidates = refl

test_accepted : check_environment environment ≡ ok environment
unfolding check_environment
test_accepted = refl

halves : scan stopped budget two_files 0 fresh_start.progress ≡ (half, cancelled 1)
unfolding scan visit stat_with_retry
halves = refl

abbrev stop : Interruption
stop = record {
  final_result = "CANCELLED";
  error = record { code = "RUN_CANCELLED"; message = "stop" };
  next_index = 1;
}

resumable : is_resumable (some "CANCELLED") ≡ true
unfolding is_resumable
resumable = refl

check_environment_iff_example :
    (check_environment environment ≡ ok environment)
    ↔ ((environment ≡ environment) × IsFailClosed environment)
check_environment_iff_example = check_environment_iff environment environment

validate_iff_example :
    (validate paths runtime request ≡ ok agent) ↔ IsAuthorized paths runtime request agent
validate_iff_example = validate_iff paths runtime request agent

execute-IsSafe_example : IsSafe fingerprint paths runtime request "run-1" interrupted
execute-IsSafe_example =
    execute-IsSafe fingerprint paths runtime stopped store "run-1" request none interrupted stops

execute-IsFaithful_example : IsFaithful fingerprint paths runtime calm request passed.0
execute-IsFaithful_example =
    execute-IsFaithful fingerprint paths runtime calm store "run-1" request passed passes

execute-Rejoins_example :
    Rejoins fingerprint paths runtime calm store interrupted.1 "run-2" "run-3" request
      (checkpoint_path runtime "run-1")
execute-Rejoins_example =
    execute-Rejoins fingerprint paths runtime stopped calm store "run-1" "run-2" "run-3" request
      interrupted (record { tree = refl; fnmatchcase = refl; stat_file = refl }) (λ k. (refl, refl))
      refl refl refl stops (inl test_interrupted)

begin-finish_example :
    begin fingerprint paths runtime
      (finish fingerprint paths runtime stopped store request "run-1" none half (some stop)).1
      request
      (some (checkpoint_path runtime "run-1"))
    ≡ ok (record { progress = half; next_index = pos 1; resumed_from = some "run-1" })
begin-finish_example =
    begin-finish fingerprint paths runtime stopped store request "run-1" none half stop refl refl
      refl resumable

scan-IsBounded_example : IsBounded budget (scan calm budget two_files 0 fresh_start.progress).0
scan-IsBounded_example =
    scan-IsBounded calm budget two_files 0 fresh_start.progress
      (record { files = ground arith; bytes = ground arith; exact = refl })

stat_with_retry-Retried_example : Retried stat_once 1 (stat_with_retry stat_once 1 0)
stat_with_retry-Retried_example = stat_with_retry-Retried stat_once 1

scan-resume_example :
    scan calm budget (drop (1 - 0) two_files) 1 half
    ≡ scan calm budget two_files 0 fresh_start.progress
scan-resume_example =
    scan-resume stopped calm budget refl two_files 0 fresh_start.progress half (cancelled 1) 1
      (inl refl) (λ k low high. (refl, refl)) halves

candidate_paths_iff_example : Elem "src/a.py" (candidate_paths calm ("repo" ∷ []) ("*" ∷ [])) ↔ (
    (path : FilePath) × ("src/a.py" ≡ as_posix path) × IsAllowed calm ("repo" ∷ []) ("*" ∷ []) path)
candidate_paths_iff_example = candidate_paths_iff calm ("repo" ∷ []) ("*" ∷ []) "src/a.py"
