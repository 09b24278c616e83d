-- ===== src/Agentic/Evidence.antt =====
-- agentic_core_v1/runtime.py: the evidence that a run leaves (receipts and checkpoints) and the loading
-- of a checkpoint. The files below the evidence root are a function of their path. `fingerprint` is
-- `_binding_fingerprint`: the SHA-256 of the request's canonical JSON.
use palwakf_agentic_ai_syste.Prelude.{
  ℕ, String, Bool, false, ◌||◌, not, Option, none, some, List, [], ◌∷◌, ◌++◌, length, take, ◌==◌, ℤ,
  pos, if◌then◌else◌, Result, ok, ◌>>=◌, ◌>>◌, raise_if, or_raise, is_some, list_eq,
}
use palwakf_agentic_ai_syste.Prelude.Dict.{Dict, put}
use palwakf_agentic_ai_syste.Agentic.Contracts.{
  RunRequest, RunReceipt, ManifestItem, ErrorItem, manifest_sample, resume_from,
}
use palwakf_agentic_ai_syste.Agentic.Paths.{FilePath, PathSystem, is_within}
use palwakf_agentic_ai_syste.Agentic.Authority.{
  AuthorityCode, Runtime, resume_checkpoint_outside_evidence_root, resume_checkpoint_unreadable,
  resume_checkpoint_schema_mismatch, resume_binding_mismatch, resume_checkpoint_not_resumable,
  resume_checkpoint_manifest_invalid, resume_checkpoint_index_invalid,
}
use palwakf_agentic_ai_syste.Agentic.Scan.{Progress}
use Prim.Native.String.{◌++◌ as concat}

abbrev pub checkpoint_schema : String
checkpoint_schema = "palwakf.agentic.runtime.checkpoint.v1"

-- A checkpoint file as JSON holds it: a key that is missing, or whose value has another type than the
-- field's, is `none`. The counts are those that `_write_checkpoint` writes: of a file that was changed by
-- hand, where a count is negative or no number, `int()` would keep the sign or raise, which is not modelled.
pub record CheckpointPayload : Type 0 where
  pub schema : Option String
  pub run_id : Option String
  pub status : Option String
  pub binding_fingerprint : Option String
  pub next_index : Option ℤ
  pub manifest : Option (List ManifestItem)
  pub bytes_seen : Option ℕ
  pub retries : Option ℕ
  pub error : Option ErrorItem
  pub resumed_from_run_id : Option String

-- `self.receipts`, and the files below `evidence_root`: `none` is a file that is missing, or that is
-- no JSON.
pub record EvidenceStore : Type 0 where
  pub receipts : Dict RunReceipt
  pub checkpoint_files : FilePath → Option CheckpointPayload
  pub receipt_files : FilePath → Option RunReceipt

-- A write of one file.
abbrev pub write_file : {A : Type 0} → (FilePath → Option A) → FilePath → A → FilePath → Option A
write_file files path content other = if list_eq path other then some content else files other

unfoldable pub checkpoint_path : Runtime → String → FilePath
checkpoint_path runtime run_id = runtime.evidence_root ++ concat run_id ".checkpoint.json" ∷ []

unfoldable pub receipt_path : Runtime → String → FilePath
receipt_path runtime run_id = runtime.evidence_root ++ concat run_id ".json" ∷ []

-- `_base_receipt`
unfoldable pub base_receipt :
    RunRequest → String → Progress → String → String → List ErrorItem → Option String → RunReceipt
base_receipt request run_id p final_result next_action errors resumed_from = record {
  run_id = run_id;
  project_id = request.project_id;
  task_id = request.task_id;
  state_package_id = request.state_package_id;
  agent_id = request.agent_id;
  role_id = request.role_id;
  skill_ids = request.skill_ids;
  provider_id = request.provider_id;
  provider_mode = request.provider_mode;
  model_provider = request.model_provider;
  model_id = request.model_id;
  tools = request.tools;
  environment = request.environment;
  base_sha = request.environment.base_sha;
  before_head = request.environment.expected_head;
  authorized_scope = request.authorization;
  plan =
      "validate_external_authority" ∷ "resolve_agent" ∷ "resolve_provider"
      ∷ "run_bounded_read_only_diagnostic" ∷ "emit_receipt" ∷ [];
  actions =
      record {
        kind = "READ_ONLY_REPOSITORY_MANIFEST";
        files = length p.manifest;
        bytes = p.bytes_seen;
      }
      ∷ [];
  observations =
      manifest_sample (take 50 p.manifest) request.objective
      ∷ elim resumed_from [ none ↦ [] | some origin ↦ resume_from origin ∷ [] ];
  changed_files = [];
  tests = [];
  errors = errors;
  retries = p.retries;
  evidence = [];
  final_result = final_result;
  next_action = next_action;
}

-- `_persist_receipt`, whose write of the file is taken to succeed: the receipt in `self.receipts` is the object that gets the evidence item.
unfoldable pub persist_receipt : Runtime → EvidenceStore → RunReceipt → RunReceipt × EvidenceStore
unfolding receipt_path
persist_receipt runtime store receipt =
    let path = receipt_path runtime receipt.run_id in
    let final = record receipt {
      evidence = receipt.evidence ++ record { kind = "RUN_RECEIPT_JSON"; path = path } ∷ [];
    } in
    (
      final,
      record store {
        receipts = put receipt.run_id final store.receipts;
        receipt_files = write_file store.receipt_files path final;
      },
    )

abbrev is_status : String → Option String → Bool
is_status name none = false
is_status name (some given) = given == name

unfoldable pub is_resumable : Option String → Bool
is_resumable status =
    is_status "CANCELLED" status
    || is_status "TIMED_OUT" status
    || is_status "FAILED_RETRYABLE" status

module _ (fingerprint : RunRequest → String) where
  -- The payload that `_write_checkpoint` writes.
  unfoldable pub checkpoint_payload :
      String
      → RunRequest
      → String
      → ℕ
      → Progress
      → Option ErrorItem
      → Option String
      → CheckpointPayload
  checkpoint_payload run_id request status next_index p error resumed_from = record {
    schema = some checkpoint_schema;
    run_id = some run_id;
    status = some status;
    binding_fingerprint = some (fingerprint request);
    next_index = some (pos next_index);
    manifest = some p.manifest;
    bytes_seen = some p.bytes_seen;
    retries = some p.retries;
    error = error;
    resumed_from_run_id = resumed_from;
  }

  -- `_interrupted_receipt`
  unfoldable pub interrupted_receipt :
      Runtime
      → EvidenceStore
      → RunRequest
      → String
      → String
      → ErrorItem
      → Progress
      → ℕ
      → Option String
      → RunReceipt × EvidenceStore
  unfolding checkpoint_payload base_receipt persist_receipt checkpoint_path
  interrupted_receipt runtime store request run_id final_result error p next_index resumed_from =
      let path = checkpoint_path runtime run_id in
      let written = record store {
        checkpoint_files =
            write_file store.checkpoint_files path (
              checkpoint_payload run_id request final_result next_index p (some error)
                resumed_from);
      } in
      let receipt =
        base_receipt request run_id p final_result "RESUME_REQUIRES_SAME_AUTHORITY_AND_BINDING"
          (error ∷ []) resumed_from in
      persist_receipt runtime written
        (record receipt { evidence = record { kind = "RUN_CHECKPOINT_JSON"; path = path } ∷ [] })

  -- `_load_checkpoint`
  unfoldable pub load_checkpoint :
      PathSystem
      → Runtime
      → EvidenceStore
      → RunRequest
      → FilePath
      → Result AuthorityCode CheckpointPayload
  unfolding is_resumable
  load_checkpoint sys runtime store request checkpoint = do
    let path = sys.resolve checkpoint
    raise_if (not (is_within sys path runtime.evidence_root))
        resume_checkpoint_outside_evidence_root
    payload ← or_raise (store.checkpoint_files path) resume_checkpoint_unreadable
    raise_if (not (is_status checkpoint_schema payload.schema)) resume_checkpoint_schema_mismatch
    raise_if (not (is_status (fingerprint request) payload.binding_fingerprint))
        resume_binding_mismatch
    raise_if (not (is_resumable payload.status)) resume_checkpoint_not_resumable
    raise_if (not (is_some payload.manifest)) resume_checkpoint_manifest_invalid
    raise_if (not (is_some payload.next_index)) resume_checkpoint_index_invalid
    ok payload
