-- ===== src/ChangeControl/Schema.antt =====
-- The JSON files of full_stack_operational_waves_3_to_8_v1.py as records, and the `ValueError`s by their text.
-- Times, durations and the text of a diff are left out.
use palwakf_agentic_ai_syste.Prelude.{ℕ, String, Bool, Option, List}
use palwakf_agentic_ai_syste.Prelude.Dict.{Dict}
use palwakf_agentic_ai_syste.Prelude.Json.{Json}
use palwakf_agentic_ai_syste.Prelude.Utf8.{Bytes, utf8}
use palwakf_agentic_ai_syste.Agentic.Paths.{FilePath, PathSystem}

pub data ChangeError : Type 0 where
  absolute_path_blocked workspace_escape_blocked path_not_found : ChangeError
  target_not_file target_file_blocked target_extension_blocked target_file_too_large : ChangeError
  unknown_model_id model_not_available_for_approval model_not_planning_approved : ChangeError
  model_digest_revalidation_required context_pack_not_found : ChangeError
  plan_schema_missing plan_schema_invalid : String → ChangeError
  plan_not_object plan_step_not_object plan_step_tools_invalid : ChangeError
  plan_unknown_tools : List String → ChangeError
  plan_forbidden_execution_instruction : ChangeError
  entity_not_found entity_not_ready_for_review : ChangeError
  proposal_not_object proposal_changes_required proposal_change_not_object
        proposal_path_not_authorized :
      ChangeError
  proposal_duplicate_path proposal_new_content_invalid proposal_too_large : ChangeError
  plan_not_found accepted_plan_required duplicate_target_file : ChangeError
  proposal_not_found accepted_proposal_required proposal_already_applied : ChangeError
  proposal_preimage_stale implementation_not_found implementation_not_ready_for_apply : ChangeError
  apply_token_mismatch implementation_proposal_hash_mismatch : ChangeError
  implementation_preimage_stale os_error postimage_hash_mismatch : ChangeError
  implementation_not_ready_for_review rollback_postimage_changed : ChangeError
  model_output_json_not_found json_decode_error : ChangeError
  rollback_backup_missing rollback_preimage_hash_mismatch : ChangeError
  path_outside_project : ChangeError

pub data ReviewDecision : Type 0 where
  accept return reject : ReviewDecision

pub data EntityStatus : Type 0 where
  human_review accepted returned rejected : EntityStatus

pub data ImplementationDecision : Type 0 where
  accept_implementation rollback : ImplementationDecision

pub data ImplementationStatus : Type 0 where
  approved_for_apply applied_awaiting_review : ImplementationStatus
  rolled_back accepted_implementation : ImplementationStatus

-- What a review takes from its request, less the decision, and the id and the time that the call draws.
pub record ReviewDetails : Type 0 where
  pub review_id : String
  pub reviewed_by : String
  pub notes : String
  pub reviewed_at : String

pub record Review : Type 0 where
  pub review_id : String
  pub entity_id : String
  pub entity_type : String
  pub decision : String
  pub reviewed_by : String
  pub notes : String
  pub reviewed_at : String

abbrev pub decision_text : ReviewDecision → String
decision_text accept = "ACCEPT"
decision_text return = "RETURN"
decision_text reject = "REJECT"

abbrev pub implementation_decision_text : ImplementationDecision → String
implementation_decision_text accept_implementation = "ACCEPT"
implementation_decision_text rollback = "ROLLBACK"

-- `review`, of the entity of a type with an id
unfoldable pub review_of : ReviewDetails → String → String → String → Review
review_of details entity_type entity_id decision = record {
  review_id = details.review_id;
  entity_id = entity_id;
  entity_type = entity_type;
  decision = decision;
  reviewed_by = details.reviewed_by;
  notes = details.notes;
  reviewed_at = details.reviewed_at;
}

pub data ModelState : Type 0 where
  registered available planning_approved : ModelState

pub record Model : Type 0 where
  pub state : ModelState
  pub digest : Option String
  pub approved_digest : Option String
  pub approval_reference : Option String
  pub approved_by : Option String

pub record ContextFile : Type 0 where
  pub path : String
  pub sha256 : String
  pub size_bytes : ℕ
  pub redaction_applied : Bool
  pub excerpt : String

-- A baseline of the tool quality lab, with the id of its tool.
pub record QualityTool : Type 0 where
  pub tool_id : String
  pub quality_result : Option String
  pub baseline_id : Option String
  pub limitations : List String

pub record ContextPack : Type 0 where
  pub goal : String
  pub scope_relative : String
  pub files : List ContextFile
  pub quality_accepted_tools : List QualityTool

pub record PlanStep : Type 0 where
  pub step_id : String
  pub title : String
  pub description : String
  pub recommended_tools : List String
  pub requires_human_decision : Bool

pub record Plan : Type 0 where
  pub context_pack_id : String
  pub status : EntityStatus
  pub recommended_steps : List PlanStep
  pub warnings : List String
  pub model_digest : String
  pub review : Option Review

pub record Change : Type 0 where
  pub path : String
  pub preimage_sha256 : String
  pub new_content : String
  pub postimage_sha256 : String
  pub reason : String

pub record Proposal : Type 0 where
  pub plan_id : String
  pub status : EntityStatus
  pub changes : List Change
  pub model_digest : String
  pub review : Option Review
  pub applied : Bool
  pub proposal_sha256 : String

pub record Implementation : Type 0 where
  pub proposal_id : String
  pub status : ImplementationStatus
  pub approved_by : String
  pub approval_reference : String
  pub apply_token_sha256 : String
  pub apply_token : Option String
  pub proposal_sha256 : String
  pub backup_root : Option String
  pub review : Option Review

-- The files of the project by their posix path below its root, and the backups of each implementation.
pub record Disk : Type 0 where
  pub files : Dict Bytes
  pub backups : Dict (Dict Bytes)

pub record Db : Type 0 where
  pub models : Dict Model
  pub context_packs : Dict ContextPack
  pub plans : Dict Plan
  pub proposals : Dict Proposal
  pub implementations : Dict Implementation
  pub reviews : List Review
  pub disk : Disk

-- What the code is run on: `pathlib` and the file system, the digests, `str` of a JSON value and `re.search`.
-- A write of one path can fail; it then leaves the file as it is.
pub record Host : Type 0 where
  pub sys : PathSystem
  pub project_root : FilePath
  pub is_absolute : String → Bool
  pub is_directory : String → Bool
  pub write_fails : String → Bool
  pub backup_fails : String → Bool
  pub sha256 : Bytes → String
  pub proposal_sha256 : String → List Change → String → String
  pub str : Json → String
  pub search : String → String → Bool

-- `_sha256_text`
abbrev pub sha256_text : Host → String → String
sha256_text h s = h.sha256 (utf8 s)
