-- ===== src/ChangeControl/Tests/Witnesses.antt =====
-- The theorems at one change of a file.
use palwakf_agentic_ai_syste.Prelude.{
  none, some, ◌==◌, if◌then◌else◌, ◌≢◌, ◌↔◌, ◌≤◌, ◌≡◌, refl, ◌⊎◌, [], ◌∷◌, length, contains, ok,
  err, arith, All, List, false,
}
use palwakf_agentic_ai_syste.Prelude.Json.{null}
use palwakf_agentic_ai_syste.Prelude.Text.{lstrip, rstrip, is_space, lower, suffix}
use palwakf_agentic_ai_syste.ChangeControl.Answers.{Parser, unfenced, extract_json}
use palwakf_agentic_ai_syste.ChangeControl.Answers.Prose.{extract_json-object}
use Prim.Native.String.{◌∷◌ as cons, ◌++◌ as concat}
use mathlib.Core.Path.{subst}
use palwakf_agentic_ai_syste.Prelude.Dict.{get, put, AllValues}
use palwakf_agentic_ai_syste.Prelude.Utf8.{utf8, utf8_char}
use palwakf_agentic_ai_syste.Agentic.Paths.{starts_under, as_posix}
use palwakf_agentic_ai_syste.ChangeControl.Schema.{
  ChangeError, accept, rollback, Model, ContextFile, planning_approved, accepted,
  applied_awaiting_review, rolled_back, Proposal, Implementation, Db, QualityTool,
}
use palwakf_agentic_ai_syste.ChangeControl.Targets.{
  below, file_name, locate, blocked_file, check_file, safe_target,
}
use palwakf_agentic_ai_syste.ChangeControl.Contexts.{
  context_files, read_files, relative_of, is_readable, redact, sub_all, replace_all,
  max_context_files, max_context_bytes, quality_baseline_summary,
}
use palwakf_agentic_ai_syste.ChangeControl.Contexts.Shown.{
  excerpt_bytes, IsShown, context_files-AreShown,
}
use palwakf_agentic_ai_syste.ChangeControl.Implementations.{
  apply_implementation, prepare_implementation, locate_changes, check_apply, accepted_proposal,
  perform, apply_changes, record_applied, restore,
}
use palwakf_agentic_ai_syste.ChangeControl.Reviews.{review_implementation}
use palwakf_agentic_ai_syste.ChangeControl.Implementations.Found.{AreProposed, AreReversible}
use palwakf_agentic_ai_syste.ChangeControl.Implementations.Transaction.{
  written_files, apply_implementation-IsDone,
}
use palwakf_agentic_ai_syste.ChangeControl.Implementations.Reversal.{
  apply_implementation-IsRolledBack,
}
use palwakf_agentic_ai_syste.ChangeControl.Implementations.Progress.{
  IsRecorded, prepare_implementation-IsApplied,
}
use palwakf_agentic_ai_syste.ChangeControl.Standing.{
  count_values, controlled_operational, recompute_project_state, ready_for_controlled_local_use,
  readiness_gates, run_readiness,
}
use palwakf_agentic_ai_syste.ChangeControl.Standing.Counted.{IsAcceptedTool, SomeIs, SomeValueIs}
use palwakf_agentic_ai_syste.ChangeControl.Standing.Derived.{
  recompute_project_state-implemented, run_readiness_iff,
}
use palwakf_agentic_ai_syste.ChangeControl.Governance.{
  Call, plans_review, proposals_review, ensure_state, IsFresh, Reaches, started, called, IsGoverned,
}
use palwakf_agentic_ai_syste.ChangeControl.Governance.Reached.{Reaches-IsGoverned}
use palwakf_agentic_ai_syste.ChangeControl.Tests.Inputs.{
  after, approve_call, approved, change, context_call, decodes, files_before, host,
  host-IsResolving, implementation, plan_accepted, plan_call, planned, prepare_call, probe_call,
  probed, proposal_accepted, proposal_call, proposal_of, proposed, reader, ready, reviewed,
  proposal_reviewed, shown,
}
use palwakf_agentic_ai_syste.ChangeControl.Tests.Runs.{
  after-probe, after-approve, after-context, after-plan, after-plan_review, after-proposal,
  after-proposal_review, after-prepare,
}

Reaches-ready : Reaches host reader decodes ready
unfolding get
Reaches-ready =
    let step : (call : Call) (db next : Db)
        → after call db ≡ next
        → IsFresh call db
        → Reaches host reader decodes db
        → Reaches host reader decodes next =
      λ call db next e f p. subst (Reaches host reader decodes) e (called call db p f) in
    step prepare_call proposal_accepted ready after-prepare refl (
      step (proposals_review "q" accept reviewed) proposed proposal_accepted after-proposal_review
        tt
        (step proposal_call plan_accepted proposed after-proposal refl (
          step (plans_review "p" accept reviewed) planned plan_accepted after-plan_review tt (
            step plan_call shown planned after-plan refl (
              step context_call approved shown after-context tt (
                step approve_call probed approved after-approve tt (
                  step probe_call (ensure_state files_before) probed after-probe tt
                    (started files_before))))))))

Reaches-IsGoverned_example : IsGoverned host ready
Reaches-IsGoverned_example =
    Reaches-IsGoverned host reader decodes host-IsResolving ready Reaches-ready

change-AreProposed : AreProposed host (change ∷ [])
unfolding contains locate starts_under below as_posix utf8 utf8_char
change-AreProposed = ((refl, tt), (refl, tt), (("a.py" ∷ [], refl, refl), tt))

apply_implementation-IsDone_example :
    ((e : ChangeError) × ((apply_implementation host "i" "APPLY-token" ready).0 ≡ err e)
      × ((apply_implementation host "i" "APPLY-token" ready).1.disk.files ≡ files_before))
    ⊎ ((applied : Implementation) × (proposal : Proposal) × ((apply_implementation host "i"
            "APPLY-token" ready).0
          ≡ ok applied)
        × (get applied.proposal_id ready.proposals ≡ some proposal)
        × (proposal.status ≡ accepted)
        × ((apply_implementation host "i" "APPLY-token" ready).1.disk.files
            ≡ written_files proposal.changes files_before))
apply_implementation-IsDone_example =
    apply_implementation-IsDone host "i" "APPLY-token" ready (change-AreProposed, tt)

abbrev applied : Implementation
applied = record implementation {
  status = applied_awaiting_review;
  backup_root = some "i";
  apply_token = none;
}

ready-applied : (apply_implementation host "i" "APPLY-token" ready).0 ≡ ok applied
unfolding apply_implementation check_apply accepted_proposal perform apply_changes record_applied
    restore get put locate_changes safe_target locate starts_under below as_posix check_file
    blocked_file contains lower file_name suffix utf8 utf8_char
ready-applied = refl

change-AreReversible : AreReversible host (change ∷ [])
unfolding utf8 utf8_char
change-AreReversible = ((omega arith, tt), (refl, tt))

apply_implementation-IsRolledBack_example :
    (reviewed_ : Implementation) × ((review_implementation host "i" rollback reviewed
        (apply_implementation host "i" "APPLY-token" ready).1).0
      ≡ ok reviewed_)
    × (reviewed_.status ≡ rolled_back)
    × ((review_implementation host "i" rollback reviewed
          (apply_implementation host "i" "APPLY-token" ready).1).1.disk.files
        ≡ files_before)
unfolding get
apply_implementation-IsRolledBack_example =
    apply_implementation-IsRolledBack host "i" "APPLY-token" reviewed ready applied
      (proposal_of accepted (some proposal_reviewed)) ready-applied refl change-AreProposed
      change-AreReversible

prepared-ready :
    prepare_implementation host "i" "APPLY-token" "q" "ab" "ref" proposal_accepted
    ≡ ok (implementation, ready)
unfolding prepare_implementation get put locate_changes safe_target locate starts_under below
    as_posix check_file blocked_file contains lower file_name suffix utf8 utf8_char
prepared-ready = refl

prepare_implementation-IsApplied_example :
    IsRecorded "i" "q"
      (proposal_of accepted (some proposal_reviewed))
      (apply_implementation host "i" "APPLY-token" ready)
unfolding get
prepare_implementation-IsApplied_example =
    prepare_implementation-IsApplied host "i" "APPLY-token" "q" "ab" "ref" proposal_accepted ready
      implementation (proposal_of accepted (some proposal_reviewed)) prepared-ready refl
      change-AreProposed ((refl, refl), tt)

abbrev a_shown : List ContextFile
a_shown =
    record {
      path = "a.py";
      sha256 = "one";
      size_bytes = 1;
      redaction_applied = false;
      excerpt = "a";
    }
    ∷ []

shows : context_files host reader files_before ("a.py" ∷ []) ≡ ok a_shown
unfolding context_files read_files relative_of get as_posix is_readable blocked_file contains lower
    file_name suffix utf8 redact sub_all replace_all starts_under below
shows = refl

context_files-AreShown_example :
    (length a_shown ≤ max_context_files)
    × (excerpt_bytes a_shown ≤ max_context_bytes)
    × All (IsShown host reader files_before) a_shown
context_files-AreShown_example =
    context_files-AreShown host reader files_before ("a.py" ∷ []) a_shown shows

recompute_project_state-implemented_example :
    (1 ≤ (recompute_project_state 3 ready).accepted_plans)
    × (1 ≤ (recompute_project_state 3 ready).accepted_proposals)
    × ((recompute_project_state 3 ready).status ≡ controlled_operational)
    × (35 ≤ (recompute_project_state 3 ready).progress_percent)
    × ((recompute_project_state 3 ready).progress_percent ≤ 100)
unfolding get
recompute_project_state-implemented_example =
    recompute_project_state-implemented host ready 3 "i" implementation
      (Reaches-IsGoverned host reader decodes host-IsResolving ready Reaches-ready) refl

abbrev baseline : QualityTool
baseline = record {
  tool_id = "semgrep";
  quality_result = some "QUALITY_ACCEPTED";
  baseline_id = some "b";
  limitations = [];
}

run_readiness_iff_example :
    (run_readiness (baseline ∷ []) ready).0 ≡ ready_for_controlled_local_use ↔ (
      SomeIs IsAcceptedTool (baseline ∷ [])
      × SomeValueIs (λ (m : Model). m.state ≡ planning_approved) ready.models
      × AllValues
          (λ (i : Implementation). i.status ≢ applied_awaiting_review)
          ready.implementations)
run_readiness_iff_example = run_readiness_iff (baseline ∷ []) ready

ready-run_readiness : (run_readiness (baseline ∷ []) ready).0 ≡ ready_for_controlled_local_use
unfolding run_readiness readiness_gates quality_baseline_summary count_values
ready-run_readiness = refl

abbrev parser : Parser
parser = record {
  loads = λ s. if s == "{1}" then some null else none;
  sub = λ pattern_ new text. text;
}

prose-unfenced :
    unfenced parser "Here: {1}." ≡ concat "Here: " (concat (cons "{" "1") (cons "}" "."))
unfolding unfenced lstrip rstrip is_space
prose-unfenced = refl

prose-loads : parser.loads (unfenced parser "Here: {1}.") ≡ none
unfolding unfenced lstrip rstrip is_space
prose-loads = refl

extract_json-object_example : extract_json parser "Here: {1}." ≡ ok null
extract_json-object_example =
    extract_json-object parser "Here: {1}." "Here: " "1" "." "{" "}" null refl refl prose-unfenced
      (refl, (refl, (refl, (refl, (refl, (refl, tt)))))) (refl, tt) prose-loads refl
