-- ===== src/ChangeControl/Tests/Runs.antt =====
-- The calls of one change of a file: planned, proposed, accepted and applied.
use palwakf_agentic_ai_syste.ChangeControl.Plans.{
  status_of, review_proposal, review_plan, generate_plan, validate_plan, check_required,
  check_lists, texts, recommended_steps_of, normalize_steps, normalize_step, tools_of,
  unknown_tools, decimal_digits,
}
use palwakf_agentic_ai_syste.Prelude.{◌≡◌, refl, [], ◌∷◌, contains}
use palwakf_agentic_ai_syste.Prelude.Dict.{get, put}
use palwakf_agentic_ai_syste.Prelude.Json.{find, is_truthy, text_or, texts_of}
use palwakf_agentic_ai_syste.Prelude.Utf8.{utf8, utf8_char}
use palwakf_agentic_ai_syste.Prelude.Text.{lower, suffix}
use palwakf_agentic_ai_syste.Agentic.Paths.{starts_under, as_posix}
use palwakf_agentic_ai_syste.ChangeControl.Schema.{accept}
use palwakf_agentic_ai_syste.ChangeControl.Targets.{
  below, file_name, locate, blocked_file, check_file, safe_target,
}
use palwakf_agentic_ai_syste.ChangeControl.Models.{
  listed_name, listed, probe_model, probe_all, probe_models, approve_model, approved_model,
}
use palwakf_agentic_ai_syste.ChangeControl.Contexts.{
  context_files, read_files, relative_of, redact, is_readable, create_context, resolve_relative,
  quality_baseline_summary, replace_all, sub_all,
}
use palwakf_agentic_ai_syste.ChangeControl.Proposals.{
  collect_targets, generate_proposal, validate_proposal, changes_of, normalize_changes, content_of,
}
use palwakf_agentic_ai_syste.ChangeControl.Implementations.{
  apply_implementation, prepare_implementation, locate_changes, check_apply, accepted_proposal,
  perform, apply_changes, record_applied, restore,
}
use palwakf_agentic_ai_syste.ChangeControl.Governance.{
  plans_review, proposals_review, implementations_apply, handle, ensure_state,
}
use palwakf_agentic_ai_syste.ChangeControl.Tests.Inputs.{
  after, approve_call, approved, context_call, files_before, plan_accepted, plan_call, planned,
  prepare_call, probe_call, probed, proposal_accepted, proposal_call, proposed, ready, reviewed,
  shown,
}

pub after-probe : after probe_call (ensure_state files_before) ≡ probed
unfolding handle probe_models probe_all ensure_state probe_model get listed listed_name put
after-probe = refl

pub after-approve : after approve_call probed ≡ approved
unfolding handle approve_model get put
after-approve = refl

pub after-context : after context_call approved ≡ shown
unfolding handle create_context resolve_relative locate starts_under get as_posix below put
    context_files quality_baseline_summary relative_of read_files is_readable blocked_file contains
    lower file_name suffix redact replace_all sub_all utf8 utf8_char
after-context = refl

pub after-plan : after plan_call shown ≡ planned
unfolding handle generate_plan get approved_model validate_plan check_required find check_lists
    texts texts_of recommended_steps_of normalize_steps normalize_step tools_of unknown_tools
    contains put is_truthy text_or lower decimal_digits
after-plan = refl

pub after-plan_review : after (plans_review "p" accept reviewed) planned ≡ plan_accepted
unfolding handle review_plan get put status_of
after-plan_review = refl

pub after-proposal : after proposal_call plan_accepted ≡ proposed
unfolding handle generate_proposal get put collect_targets safe_target locate starts_under below
    as_posix check_file blocked_file contains lower file_name suffix approved_model
    validate_proposal changes_of normalize_changes content_of find is_truthy text_or utf8 utf8_char
after-proposal = refl

pub after-proposal_review :
    after (proposals_review "q" accept reviewed) proposed ≡ proposal_accepted
unfolding handle review_proposal get put status_of
after-proposal_review = refl

pub after-prepare : after prepare_call proposal_accepted ≡ ready
unfolding handle prepare_implementation get put locate_changes safe_target locate starts_under below
    as_posix check_file blocked_file contains lower file_name suffix utf8 utf8_char
after-prepare = refl

after-apply :
    (after (implementations_apply "i" "APPLY-token") ready).disk.files ≡ ("a.py", 98 ∷ 99 ∷ []) ∷ []
unfolding handle apply_implementation check_apply accepted_proposal perform apply_changes
    record_applied restore get put locate_changes safe_target locate starts_under below as_posix
    check_file blocked_file contains lower file_name suffix utf8 utf8_char
after-apply = refl
