-- ===== src/Agentic/Execute/Resume.antt =====
-- A cancelled or timed out run leaves a checkpoint from which another run, with the same request, ends
-- as a run that was never interrupted.
use palwakf_agentic_ai_syste.Prelude.{
  ℕ, ◌-◌, ◌≤◌, String, ◌≡◌, refl, ap, ◌∙◌, ◌⊎◌, inl, inr, true, false, Option, none, some, List,
  length, drop, ◌==◌, eq_iff, eq_refl, ok, arith, list_eq_refl, pos,
}
use mathlib.Core.Path.{subst, ap₂}
use palwakf_agentic_ai_syste.Agentic.Contracts.{RunRequest, RunReceipt}
use palwakf_agentic_ai_syste.Agentic.Paths.{FilePath, PathSystem, is_within, starts_under-append}
use palwakf_agentic_ai_syste.Agentic.Authority.{Runtime}
use palwakf_agentic_ai_syste.Agentic.Scan.{
  World, Progress, Stop, completed, cancelled, timed_out, files_full, bytes_full, stat_failed,
  candidate_paths, scan,
}
use palwakf_agentic_ai_syste.Agentic.Scan.Resume.{IsInterrupted, IsCalm, scan-resume, scan-index-lt}
use palwakf_agentic_ai_syste.Agentic.Evidence.{
  EvidenceStore, checkpoint_path, base_receipt, persist_receipt, checkpoint_payload,
  interrupted_receipt, is_resumable, load_checkpoint,
}
use palwakf_agentic_ai_syste.Agentic.Execute.{
  Start, fresh_start, start_from, index_in_range, Interruption, interruption, begin, finish,
  run_from, execute,
}
use palwakf_agentic_ai_syste.Agentic.Execute.Rounds.{
  candidates, ends, execute-eq, execute-Parts, start-fresh, index-fresh, index_in_range-of_le,
}

-- The world `v` has the files of `w`; its cancellations and its clock may differ.
pub record SameFiles (w v : World) : Type 0 where
  pub tree : w.tree ≡ v.tree
  pub fnmatchcase : w.fnmatchcase ≡ v.fnmatchcase
  pub stat_file : w.stat_file ≡ v.stat_file

-- Two receipts report the same work and the same end.
pub record SameOutcome (a b : RunReceipt) : Type 0 where
  pub final_result : a.final_result ≡ b.final_result
  pub next_action : a.next_action ≡ b.next_action
  pub actions : a.actions ≡ b.actions
  pub errors : a.errors ≡ b.errors
  pub retries : a.retries ≡ b.retries

module _ (fingerprint : RunRequest → String) (sys : PathSystem) (runtime : Runtime) where
  module _ (w : World) (store : EvidenceStore) (request : RunRequest) (run_id : String)
      (resumed_from : Option String) (p : Progress) (stop : Interruption) where
    abbrev after : EvidenceStore
    after = (finish fingerprint sys runtime w store request run_id resumed_from p (some stop)).1

    checkpoint-finish :
        after.checkpoint_files (checkpoint_path runtime run_id)
        ≡ some (
            checkpoint_payload fingerprint run_id request stop.final_result stop.next_index p
              (some stop.error)
              resumed_from)
    unfolding finish interrupted_receipt
    checkpoint-finish = rw list_eq_refl

    within-root :
        sys.resolve runtime.evidence_root ≡ runtime.evidence_root
        → sys.resolve (checkpoint_path runtime run_id) ≡ checkpoint_path runtime run_id
        → is_within sys (checkpoint_path runtime run_id) runtime.evidence_root ≡ true
    within-root root fixed =
        unfold is_within in
        rw (fixed, root) (unfold checkpoint_path in starts_under-append runtime.evidence_root _)

    -- A checkpoint that an interrupted run has written is accepted for the same request, and gives
    -- back the variables of the loop.
    pub begin-finish :
        sys.resolve runtime.evidence_root ≡ runtime.evidence_root
        → sys.resolve (checkpoint_path runtime run_id) ≡ checkpoint_path runtime run_id
        → (run_id == "") ≡ false
        → is_resumable (some stop.final_result) ≡ true
        → begin fingerprint sys runtime after request (some (checkpoint_path runtime run_id))
          ≡ ok (record {
            progress = p;
            next_index = pos stop.next_index;
            resumed_from = some run_id;
          })
    begin-finish root fixed named resumable =
        let within = within-root root fixed in
        unfold begin load_checkpoint start_from in
        rw (fixed, within, checkpoint-finish)
          (unfold checkpoint_payload in rw eq_refl (rw resumable (rw named)))

  -- A loop that was cancelled or timed out, and what its interruption writes.
  record Stopped (w : World) (stop : Stop) : Type 0 where
    index : ℕ
    interrupted : IsInterrupted stop index
    written : Interruption
    found : interruption w stop ≡ some written
    at_index : written.next_index ≡ index
    resumable : is_resumable (some written.final_result) ≡ true

  abbrev Unfinished : RunReceipt → Type 0
  Unfinished receipt = (receipt.final_result ≡ "CANCELLED") ⊎ (receipt.final_result ≡ "TIMED_OUT")

  module _ (w : World) (store : EvidenceStore) (request : RunRequest) (run_id : String)
      (resumed_from : Option String) (p : Progress) where
    abbrev ended_with : Stop → RunReceipt
    ended_with stop =
        (finish fingerprint sys runtime w store request run_id resumed_from p
          (interruption w stop)).0

    not_pass : (stop : Stop) → interruption w stop ≡ none → ¬ Unfinished (ended_with stop)
    unfolding finish base_receipt persist_receipt
    not_pass stop e h = ground (arith, eq_iff "PASS" "CANCELLED", eq_iff "PASS" "TIMED_OUT")

    stopped : (stop : Stop) → Unfinished (ended_with stop) → Stopped w stop
    unfolding interruption is_resumable
    stopped completed h = absurd (not_pass completed refl h)
    stopped (files_full i) h = absurd (not_pass (files_full i) refl h)
    stopped (bytes_full i) h = absurd (not_pass (bytes_full i) refl h)
    stopped (cancelled i) h = record {
      index = i;
      interrupted = inl refl;
      written = _;
      found = refl;
      at_index = refl;
      resumable = refl;
    }
    stopped (timed_out i) h = record {
      index = i;
      interrupted = inr refl;
      written = _;
      found = refl;
      at_index = refl;
      resumable = refl;
    }
    stopped (stat_failed i message) h = absurd (
        unfold finish base_receipt persist_receipt interrupted_receipt in
        ground
          (arith, eq_iff "FAILED_RETRYABLE" "CANCELLED", eq_iff "FAILED_RETRYABLE" "TIMED_OUT"))

  finish-SameOutcome :
      (v : World) (s t : EvidenceStore) (request : RunRequest) (id_s id_t : String)
      (from to : Option String) (p : Progress) (stop : Option Interruption)
      → SameOutcome
          (finish fingerprint sys runtime v s request id_s from p stop).0
          (finish fingerprint sys runtime v t request id_t to p stop).0
  unfolding finish base_receipt persist_receipt interrupted_receipt
  finish-SameOutcome v s t request id_s id_t from to p none = ground arith
  finish-SameOutcome v s t request id_s id_t from to p (some stop) = ground arith

  -- Two runs whose loops end alike have the same outcome.
  ends-SameOutcome :
      (v : World) (s t : EvidenceStore) (request : RunRequest) (id_s id_t : String)
      (from to : Start) (i j : ℕ)
      → run_from fingerprint sys runtime v request
          (candidates fingerprint sys runtime v request)
          i
          from.progress
        ≡ run_from fingerprint sys runtime v request
            (candidates fingerprint sys runtime v request)
            j
            to.progress
      → SameOutcome
          (ends fingerprint sys runtime v s id_s request from i).0
          (ends fingerprint sys runtime v t id_t request to j).0
  ends-SameOutcome v s t request id_s id_t from to i j e = rw e (
      let outcome =
        run_from fingerprint sys runtime v request (candidates fingerprint sys runtime v request) j
          to.progress in
      finish-SameOutcome v s t request id_s id_t from.resumed_from to.resumed_from outcome.0
        (interruption v outcome.1))

  candidates-same :
      (w v : World) (request : RunRequest)
      → SameFiles w v
      → candidates fingerprint sys runtime w request ≡ candidates fingerprint sys runtime v request
  unfolding candidate_paths
  candidates-same w v request same = rw (same.tree, same.fnmatchcase)

  -- The resumed run and the whole run, and that they end alike.
  pub record Rejoins (v : World) (before after : EvidenceStore) (id_resumed id_whole : String)
      (request : RunRequest) (checkpoint : FilePath) : Type 0 where
    pub resumed : RunReceipt × EvidenceStore
    pub whole : RunReceipt × EvidenceStore
    pub resumed_runs :
        execute fingerprint sys runtime v after id_resumed request (some checkpoint) ≡ ok resumed
    pub whole_runs : execute fingerprint sys runtime v before id_whole request none ≡ ok whole
    pub same : SameOutcome resumed.0 whole.0

  module _ (w v : World) (files : SameFiles w v) (store : EvidenceStore) (run_id : String)
      (request : RunRequest) where
    abbrev cands : List String
    cands = candidates fingerprint sys runtime w request

    abbrev loop : World → List String → ℕ → Progress → Progress × Stop
    loop u c = run_from fingerprint sys runtime u request c

    abbrev first : Progress × Stop
    first = loop w cands 0 fresh_start.progress

    loop-resume :
        (j : ℕ)
        → IsInterrupted first.1 j
        → ((k : ℕ) → IsCalm v request.environment.resource_budget k)
        → loop v cands j first.0 ≡ loop v cands 0 fresh_start.progress
    unfolding run_from
    loop-resume j s calm =
        subst
          (λ d.
            scan v request.environment.resource_budget (drop d cands) j first.0
            ≡ scan v request.environment.resource_budget cands 0 fresh_start.progress)
          (let e : j - 0 ≡ j = omega arith in e)
          (scan-resume w v request.environment.resource_budget files.stat_file cands 0
            fresh_start.progress first.0 first.1 j s (λ k low high. calm k) refl)

    loop-in_range : (j : ℕ) → IsInterrupted first.1 j → j ≤ length cands
    unfolding run_from
    loop-in_range j s = omega (
      arith,
      scan-index-lt w request.environment.resource_budget cands 0 fresh_start.progress first.0
          first.1 j s refl,
    )

    first-ended :
        (result : RunReceipt × EvidenceStore)
        → execute fingerprint sys runtime w store run_id request none ≡ ok result
        → result
          ≡ finish fingerprint sys runtime w store request run_id none first.0
              (interruption w first.1)
    first-ended result h =
        let parts = execute-Parts fingerprint sys runtime w store run_id request none result h in
        let started = start-fresh fingerprint sys runtime request store parts.start parts.begun in
        let zeroth = index-fresh (length cands) parts.index (
          subst (λ (s : Start). index_in_range s.next_index (length cands) ≡ some parts.index)
            started parts.in_range) in
        parts.ended ∙ ap₂ (ends fingerprint sys runtime w store run_id request) started zeroth

  -- If a fresh run, one that does not resume, with a run id that is not empty is cancelled or timed out, and the
  -- evidence root and the path of its checkpoint resolve to themselves, then a run that resumes from its
  -- checkpoint, and a run from the start, both in a world with the same files and no further cancellation or
  -- timeout, are accepted and end alike: the same result, error list, counts of files and bytes, and retries.
  pub execute-Rejoins :
      (w v : World) (store : EvidenceStore) (run_id id_resumed id_whole : String)
      (request : RunRequest) (result : RunReceipt × EvidenceStore)
      → SameFiles w v
      → ((k : ℕ) → IsCalm v request.environment.resource_budget k)
      → sys.resolve runtime.evidence_root ≡ runtime.evidence_root
      → sys.resolve (checkpoint_path runtime run_id) ≡ checkpoint_path runtime run_id
      → (run_id == "") ≡ false
      → execute fingerprint sys runtime w store run_id request none ≡ ok result
      → (result.0.final_result ≡ "CANCELLED") ⊎ (result.0.final_result ≡ "TIMED_OUT")
      → Rejoins v store result.1 id_resumed id_whole request (checkpoint_path runtime run_id)
  execute-Rejoins w v store run_id id_resumed id_whole request result files calm root fixed named h
        unfinished =
      let parts = execute-Parts fingerprint sys runtime w store run_id request none result h in
      let ended = first-ended w v files store run_id request result h in
      let run = first w v files store run_id request in
      let stop =
        stopped w store request run_id none run.0 run.1
          (subst (λ (r : RunReceipt × EvidenceStore). Unfinished r.0) ended unfinished) in
      let written : result
          ≡ finish fingerprint sys runtime w store request run_id none run.0 (some stop.written) =
        ended ∙ ap (finish fingerprint sys runtime w store request run_id none run.0) stop.found in
      let same = candidates-same w v request files in
      let resume : Start = record {
        progress = run.0;
        next_index = pos stop.index;
        resumed_from = some run_id;
      } in
      let begun : begin fingerprint sys runtime result.1 request
            (some (checkpoint_path runtime run_id))
          ≡ ok resume =
        rw written (
          begin-finish w store request run_id none run.0 stop.written root fixed named
            stop.resumable
          ∙ ap
              (λ (n : ℕ).
                ok (record { progress = run.0; next_index = pos n; resumed_from = some run_id }))
              stop.at_index) in
      let here : stop.index ≤ length (candidates fingerprint sys runtime v request) =
        rw (← same) (loop-in_range w v files store run_id request stop.index stop.interrupted) in
      record {
        resumed = ends fingerprint sys runtime v result.1 id_resumed request resume stop.index;
        whole = ends fingerprint sys runtime v store id_whole request fresh_start 0;
        resumed_runs =
            execute-eq fingerprint sys runtime v result.1 id_resumed request
              (some (checkpoint_path runtime run_id)) parts.agent resume stop.index parts.validated
              parts.provider begun (index_in_range-of_le _ stop.index here);
        whole_runs =
            execute-eq fingerprint sys runtime v store id_whole request none parts.agent fresh_start
              0 parts.validated parts.provider (unfold begin in refl)
              (index_in_range-of_le _ 0 (omega arith));
        same =
            ends-SameOutcome v result.1 store request id_resumed id_whole resume fresh_start
              stop.index 0
              (rw (← same)
                (loop-resume w v files store run_id request stop.index stop.interrupted calm));
      }
