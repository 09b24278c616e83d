-- ===== src/Agentic/Learning/Tests.antt =====
-- A skill that is scanned, evaluated and admitted, and a delegation plan, at concrete inputs.
use palwakf_agentic_ai_syste.Prelude.Text.{
  suffix, splitlines, rstrip, lstrip, lower, is_space, cut_at,
}
use palwakf_agentic_ai_syste.Prelude.Dict.{put, get}
use palwakf_agentic_ai_syste.Agentic.Paths.{starts_under, as_posix}
use palwakf_agentic_ai_syste.Prelude.{
  list_eq, String, ◌≡◌, refl, ◌≤◌, ◌↔◌, Bool, true, false, ◌&&◌, ◌==◌, none, some, List, [], ◌∷◌,
  all, any, contains, ok, err, map,
}
use palwakf_agentic_ai_syste.Agentic.Contracts.{contains_provider, workspace_manager}
use palwakf_agentic_ai_syste.Agentic.Admission.{
  restrict_all, restrict, read_lines, read_line, matching, canonical_approved,
  ExternalSkillAdmission, SandboxEvalResult, ParsedAgentSkill, parse_agent_skill,
  static_security_scan, assert_external_skill_loadable, authority_intersection,
  authority_layer_required, sandbox_evaluate_external_skill,
}
use palwakf_agentic_ai_syste.Agentic.Admission.Loading.{
  IsLoadable, assert_external_skill_loadable_iff, authority_intersection_exact,
  sandbox_evaluate_score,
}
use palwakf_agentic_ai_syste.Agentic.Admission.Bundle.{
  text_findings, symlink_finding, sort_entries, scan_entry, scan_entries, is_instruction_bearing,
  is_executable, BundleEntry, scan_skill_bundle, blocking_findings,
}
use palwakf_agentic_ai_syste.Agentic.Admission.Bundle.Blocking.{
  threatens, scan_skill_bundle-blocking,
}
use palwakf_agentic_ai_syste.Agentic.Experience.{ExperienceStore}
use palwakf_agentic_ai_syste.Agentic.ExternalContracts.{
  WorkspaceStatePackage, bind_authority, validate_workspace_package, authorization_eq,
  validate_run_binding,
}
use palwakf_agentic_ai_syste.Agentic.Learning.{Draw, Learned, execute_and_learn}
use palwakf_agentic_ai_syste.Agentic.Orchestration.{
  DelegationNode, DelegationPlan, check_delegation, delegation_node, delegate_nodes, plan,
}
use palwakf_agentic_ai_syste.Agentic.Orchestration.Delegation.{
  IsNodeOf, AreNodesOf, plan-IsDelegable,
}
use palwakf_agentic_ai_syste.Agentic.Learning.Candidates.{IsLearned, execute_and_learn_succeeds}
use palwakf_agentic_ai_syste.Agentic.Tests.{
  paths, runtime, envelope, request, store, fingerprint, stopped, interrupted, stops,
}

-- A search that looks for one text instead of a pattern.
abbrev search : String → String → Bool
search pattern text = text == "rm -rf /"

abbrev skill_text : String
skill_text = "---\nname: tidy\ndescription: \"Tidies up.\"\n---\nSort the files."

abbrev admission : ExternalSkillAdmission
admission = record {
  skill_id = "skill-1";
  name = "tidy";
  description = "Tidies up.";
  source = record {
    repository = "owner/skills";
    commit_sha = "abc";
    path = "SKILL.md";
    content_sha256 = "ABCD";
    license = "MIT";
  };
  stage = canonical_approved;
  provenance_verified = true;
  security_findings = [];
  eval_passed = true;
  regression_passed = true;
  mind_review_ref = some "mind-1";
  workspace_decision_ref = some "ws-1";
  external_execution_authority = false;
  auto_promotion = false;
}

abbrev evaluated : SandboxEvalResult
evaluated = record {
  skill_id = "skill-1";
  parser_pass = true;
  source_hash_pass = true;
  security_pass = true;
  authority_pass = true;
  baseline_score = 1;
  skill_score = 4;
  execution_performed = false;
}

evaluates : sandbox_evaluate_external_skill search admission skill_text "abcd" ≡ ok evaluated
unfolding sandbox_evaluate_external_skill parse_agent_skill cut_at rstrip lstrip get read_lines
    splitlines read_line put is_space lower static_security_scan matching
evaluates = refl

assert_external_skill_loadable_iff_example :
    (assert_external_skill_loadable admission ≡ ok tt) ↔ IsLoadable admission
assert_external_skill_loadable_iff_example = assert_external_skill_loadable_iff admission

authority_intersection_exact_example :
    (authority_intersection ("read" ∷ "write" ∷ []) [] ≡ err authority_layer_required)
    × (granted : List String) × (authority_intersection ("read" ∷ "write" ∷ []) (("read" ∷ []) ∷ [])
        ≡ ok granted)
    × ((x : String)
        → contains x granted ≡ (
            contains x ("read" ∷ "write" ∷ [])
            && all (λ other. contains x other) (("read" ∷ []) ∷ [])))
authority_intersection_exact_example =
    authority_intersection_exact ("read" ∷ "write" ∷ []) ("read" ∷ []) []

test_intersection :
    authority_intersection ("read" ∷ "write" ∷ []) (("write" ∷ "read" ∷ []) ∷ ("read" ∷ []) ∷ [])
    ≡ ok ("read" ∷ [])
unfolding authority_intersection restrict contains restrict_all
test_intersection = refl

sandbox_evaluate_score_example :
    ((parsed : ParsedAgentSkill) × (parse_agent_skill skill_text ≡ ok parsed)
      × ((true ≡ true) ↔ (parsed.name ≡ "tidy"))
      × ((true ≡ true) ↔ (static_security_scan search parsed ≡ [])))
    × (evaluated.skill_id ≡ admission.skill_id)
    × ((true ≡ true) ↔ (lower "abcd" ≡ lower admission.source.content_sha256))
    × ((true ≡ true)
        ↔ ((admission.external_execution_authority ≡ false) × (admission.auto_promotion ≡ false)))
    × (evaluated.skill_score ≤ 4)
    × ((evaluated.skill_score ≡ 4)
        ↔ ((true ≡ true) × (true ≡ true) × (true ≡ true) × (true ≡ true)))
    × (false ≡ false)
sandbox_evaluate_score_example =
    sandbox_evaluate_score search admission skill_text "abcd" evaluated evaluates

abbrev script : BundleEntry
script = record {
  relative = "run.SH" ∷ [];
  name = "run.SH";
  is_dir = false;
  is_symlink = false;
  is_file = true;
  target = "skills" ∷ "tidy" ∷ "run.SH" ∷ [];
  size = 8;
  sha256 = "00";
  decoded = "rm -rf /";
}

-- A link out of the folder is blocked when it names a file, and passed over when it names a folder.
abbrev link : Bool → BundleEntry
link folder = record script { is_dir = folder; is_symlink = true; target = "etc" ∷ [] }

test_script :
    map
      (λ f. f.finding_id)
      (blocking_findings (scan_skill_bundle search ("skills" ∷ "tidy" ∷ []) (script ∷ [])).findings)
    ≡ "SELF_AUTHORIZATION_DIRECTIVE" ∷ "SECRET_EXFILTRATION_DIRECTIVE" ∷ "DESTRUCTIVE_COMMAND" ∷ []
unfolding blocking_findings scan_skill_bundle scan_entries sort_entries scan_entry text_findings
    is_instruction_bearing as_posix is_executable contains lower suffix
test_script = refl

test_link :
    map
      (λ f. f.finding_id)
      (blocking_findings
        (scan_skill_bundle search ("skills" ∷ "tidy" ∷ []) (link false ∷ [])).findings)
    ≡ "BUNDLE_SYMLINK_OUTSIDE_ROOT" ∷ []
unfolding blocking_findings scan_skill_bundle scan_entries sort_entries scan_entry symlink_finding
    starts_under
test_link = refl

test_folder_link :
    (scan_skill_bundle search ("skills" ∷ "tidy" ∷ []) (link true ∷ [])).findings ≡ []
unfolding scan_skill_bundle scan_entries sort_entries scan_entry
test_folder_link = refl

scan_skill_bundle-blocking_example :
    (blocking_findings
        (scan_skill_bundle search ("skills" ∷ "tidy" ∷ []) (script ∷ link true ∷ [])).findings
      ≡ [])
    ↔ (any (threatens search ("skills" ∷ "tidy" ∷ [])) (script ∷ link true ∷ []) ≡ false)
scan_skill_bundle-blocking_example =
    scan_skill_bundle-blocking search ("skills" ∷ "tidy" ∷ []) (script ∷ link true ∷ [])

abbrev state : WorkspaceStatePackage
state = record {
  state_package_id = "s1";
  project_id = "p1";
  task_id = "t1";
  repository = "owner/repo";
  task_branch = "task/scan";
  base_sha = "abc";
  expected_head = "abc";
  authorization = envelope;
  authority_source = workspace_manager;
}

abbrev draw : Draw
draw = record {
  run_id = "run-1";
  experience_id = "exp-1";
  evaluation_id = "eval-1";
  lesson_id = "learn-1";
  gate_id = "learn-2";
}

abbrev experiences : ExperienceStore
experiences = record { experiences = []; evaluations = []; candidates = []; files = [] }

bound : bind_authority state ≡ ok state
unfolding bind_authority
bound = refl

packaged : validate_workspace_package state ≡ ok tt
unfolding validate_workspace_package
packaged = refl

binds : validate_run_binding state request ≡ ok tt
unfolding validate_run_binding authorization_eq list_eq
binds = refl

execute_and_learn_succeeds_example :
    (learned : Learned) × (execute_and_learn fingerprint paths runtime stopped store experiences
        state request draw
      ≡ ok learned)
    × IsLearned fingerprint paths runtime state draw interrupted.0 learned
execute_and_learn_succeeds_example =
    execute_and_learn_succeeds fingerprint paths runtime stopped store experiences state request
      draw interrupted bound packaged binds stops

abbrev two_nodes : DelegationPlan
two_nodes = record {
  project_id = "p1";
  task_id = "t1";
  nodes =
      delegation_node "node-1" none request ∷ delegation_node "node-2" (some "node-1") request ∷ [];
}

plans : plan state ("node-1", request) (("node-2", request) ∷ []) ≡ ok two_nodes
unfolding plan check_delegation contains contains_provider delegate_nodes
plans = refl

plan-IsDelegable_example :
    (root : DelegationNode) × (children : List DelegationNode) × (two_nodes.nodes ≡ root ∷ children)
    × (two_nodes.project_id ≡ state.project_id)
    × (two_nodes.task_id ≡ state.task_id)
    × IsNodeOf state "node-1" none request root
    × AreNodesOf state "node-1" (("node-2", request) ∷ []) children
plan-IsDelegable_example =
    plan-IsDelegable state "node-1" request (("node-2", request) ∷ []) two_nodes plans
