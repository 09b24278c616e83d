-- ===== src/Agentic/Execute.antt =====
-- agentic_core_v1/runtime.py, `AgenticRuntime.execute`.
pub mod Rounds
pub mod Safety
pub mod Resume
use palwakf_agentic_ai_syste.Prelude.{
  ℕ, String, ◌≡◌, Bool, true, false, not, Option, none, some, List, [], ◌∷◌, length, drop, ◌==◌, ℤ,
  pos, negsuc, leb, if◌then◌else◌, Result, ok, err, ◌>>=◌, ◌>>◌, raise_if, or_raise,
}
use palwakf_agentic_ai_syste.Agentic.Contracts.{
  native, provider_eq, RunRequest, RunReceipt, ErrorItem,
}
use palwakf_agentic_ai_syste.Agentic.Paths.{FilePath, PathSystem}
use palwakf_agentic_ai_syste.Agentic.Authority.{
  AuthorityCode, Runtime, validate, hermes_not_certified_for_execution,
  resume_checkpoint_index_out_of_range,
}
use palwakf_agentic_ai_syste.Agentic.Scan.{
  World, Progress, Stop, completed, cancelled, timed_out, files_full, bytes_full, stat_failed,
  candidate_paths, scan,
}
use palwakf_agentic_ai_syste.Agentic.Evidence.{
  CheckpointPayload, EvidenceStore, base_receipt, persist_receipt, interrupted_receipt,
  load_checkpoint,
}
use mathlib.Core.Option.{get_or}

-- The variables of `execute` before its loop.
pub record Start : Type 0 where
  pub progress : Progress
  pub next_index : ℤ
  pub resumed_from : Option String

abbrev pub fresh_start : Start
fresh_start = record {
  progress = record { manifest = []; bytes_seen = 0; retries = 0 };
  next_index = pos 0;
  resumed_from = none;
}

-- `str(checkpoint.get("run_id") or "") or None`
abbrev pub non_empty : Option String → Option String
non_empty none = none
non_empty (some text) = if text == "" then none else some text

unfoldable pub start_from : CheckpointPayload → Start
start_from checkpoint = record {
  progress = record {
    manifest = get_or checkpoint.manifest [];
    bytes_seen = get_or checkpoint.bytes_seen 0;
    retries = get_or checkpoint.retries 0;
  };
  next_index = get_or checkpoint.next_index (pos 0);
  resumed_from = non_empty checkpoint.run_id;
}

-- `next_index < 0 or next_index > len(candidates)`
unfoldable pub index_in_range : ℤ → ℕ → Option ℕ
index_in_range (pos i) n = if leb i n then some i else none
index_in_range (negsuc _) n = none

-- What an interruption writes: the result, the error, and the index to resume from.
pub record Interruption : Type 0 where
  pub final_result : String
  pub error : ErrorItem
  pub next_index : ℕ

unfoldable pub interruption : World → Stop → Option Interruption
interruption w completed = none
interruption w (files_full index) = none
interruption w (bytes_full index) = none
interruption w (cancelled index) = some (record {
  final_result = "CANCELLED";
  error = record { code = "RUN_CANCELLED"; message = w.reason };
  next_index = index;
})
interruption w (timed_out index) = some (record {
  final_result = "TIMED_OUT";
  error = record { code = "RUN_TIMEOUT"; message = "RESOURCE_BUDGET_TIMEOUT_SECONDS_EXCEEDED" };
  next_index = index;
})
interruption w (stat_failed index message) = some (record {
  final_result = "FAILED_RETRYABLE";
  error = record { code = "FILE_STAT_RETRY_EXHAUSTED"; message = message };
  next_index = index;
})

module _ (fingerprint : RunRequest → String) (sys : PathSystem) (runtime : Runtime) where
  -- The start of a run: fresh, or from the checkpoint that is named.
  unfoldable pub begin : EvidenceStore → RunRequest → Option FilePath → Result AuthorityCode Start
  begin store request none = ok fresh_start
  begin store request (some path) = do
    checkpoint ← load_checkpoint fingerprint sys runtime store request path
    ok (start_from checkpoint)

  unfoldable pub finish :
      World
      → EvidenceStore
      → RunRequest
      → String
      → Option String
      → Progress
      → Option Interruption
      → RunReceipt × EvidenceStore
  finish w store request run_id resumed_from p none =
      persist_receipt runtime store
        (base_receipt request run_id p "PASS" "EXTERNAL_REVIEW_REQUIRED" [] resumed_from)
  finish w store request run_id resumed_from p (some stop) =
      interrupted_receipt fingerprint runtime store request run_id stop.final_result stop.error p
        stop.next_index resumed_from

  -- The candidates and the loop, from a start that is in range.
  unfoldable pub run_from : World → RunRequest → List String → ℕ → Progress → Progress × Stop
  run_from w request candidates index p =
      scan w request.environment.resource_budget (drop index candidates) index p

  unfoldable pub execute :
      World
      → EvidenceStore
      → String
      → RunRequest
      → Option FilePath
      → Result AuthorityCode (RunReceipt × EvidenceStore)
  execute w store run_id request resume_checkpoint = do
    agent ← validate sys runtime request
    raise_if (not (provider_eq request.provider_id native)) hermes_not_certified_for_execution
    start ← begin store request resume_checkpoint
    let candidates =
        candidate_paths w runtime.target_project_root
          request.environment.filesystem_policy.allowed_patterns
    index ←
        or_raise (index_in_range start.next_index (length candidates))
          resume_checkpoint_index_out_of_range
    let outcome = run_from w request candidates index start.progress
    ok (finish w store request run_id start.resumed_from outcome.0 (interruption w outcome.1))
