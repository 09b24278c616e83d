-- ===== src/Agentic/Execute/Safety.antt =====
-- What an accepted run satisfied and what its receipt may say.
use palwakf_agentic_ai_syste.Prelude.{
  ℕ, ◌≤◌, String, ◌≡◌, refl, ◌∙◌, Option, none, some, [], ◌∷◌, ◌++◌, length, take, Elem, All,
  All-append, All-take, All-of_Elem, eq_refl, ok, arith,
}
use palwakf_agentic_ai_syste.Prelude.Dict.{get, get-put}
use mathlib.Core.Path.{subst, ap₂}
use palwakf_agentic_ai_syste.Agentic.Contracts.{
  native, provider_eq→eq, UnifiedAgent, RunRequest, RunReceipt, ManifestItem, Observation,
  manifest_sample, resume_from, ResourceBudget,
}
use palwakf_agentic_ai_syste.Agentic.Paths.{FilePath, PathSystem, as_posix}
use palwakf_agentic_ai_syste.Agentic.Authority.{Runtime}
use palwakf_agentic_ai_syste.Agentic.Authority.Soundness.{IsAuthorized, validate_sound}
use palwakf_agentic_ai_syste.Agentic.Scan.{
  FileStat, World, Progress, Stop, Visited, stat_with_retry, take_file, visit, scan_inv_on,
}
use palwakf_agentic_ai_syste.Agentic.Scan.Bounds.{IsBounded, scan-IsBounded}
use palwakf_agentic_ai_syste.Agentic.Scan.Candidates.{IsAllowed, candidate_paths_iff}
use palwakf_agentic_ai_syste.Agentic.Evidence.{
  EvidenceStore, base_receipt, persist_receipt, interrupted_receipt,
}
use palwakf_agentic_ai_syste.Agentic.Execute.{
  Start, fresh_start, index_in_range, Interruption, interruption, finish, run_from, execute,
}
use palwakf_agentic_ai_syste.Agentic.Execute.Rounds.{
  candidates, ends, execute-Parts, start-fresh, index-fresh,
}

module _ (fingerprint : RunRequest → String) (sys : PathSystem) (runtime : Runtime) where
  module _ (w : World) (store : EvidenceStore) (request : RunRequest) (run_id : String)
      (resumed_from : Option String) (p : Progress) where
    abbrev finished : Option Interruption → RunReceipt × EvidenceStore
    finished = finish fingerprint sys runtime w store request run_id resumed_from p

    actions-finish :
        (stop : Option Interruption)
        → (finished stop).0.actions
          ≡ record {
            kind = "READ_ONLY_REPOSITORY_MANIFEST";
            files = length p.manifest;
            bytes = p.bytes_seen;
          }
            ∷ []
    unfolding finish base_receipt persist_receipt interrupted_receipt
    actions-finish none = refl
    actions-finish (some stop) = refl

    changed_files-finish : (stop : Option Interruption) → (finished stop).0.changed_files ≡ []
    unfolding finish base_receipt persist_receipt interrupted_receipt
    changed_files-finish none = refl
    changed_files-finish (some stop) = refl

    -- The receipt is the one that the runtime keeps under the run's id.
    kept-finish :
        (stop : Option Interruption)
        → get run_id (finished stop).1.receipts ≡ some (finished stop).0
    unfolding finish base_receipt persist_receipt interrupted_receipt
    kept-finish none = rw get-put (rw (eq_refl run_id))
    kept-finish (some stop) = rw get-put (rw (eq_refl run_id))

    sample-finish :
        (stop : Option Interruption)
        → (finished stop).0.observations
          ≡ manifest_sample (take 50 p.manifest) request.objective
            ∷ elim resumed_from [ none ↦ [] | some origin ↦ resume_from origin ∷ [] ]
    unfolding finish base_receipt persist_receipt interrupted_receipt
    sample-finish none = refl
    sample-finish (some stop) = refl

  -- A run that is accepted was authorized and native, changed no file, and is on record.
  pub record IsSafe (request : RunRequest) (run_id : String) (result : RunReceipt × EvidenceStore)
      : Type 0 where
    pub agent : UnifiedAgent
    pub authorized : IsAuthorized sys runtime request agent
    pub provider : request.provider_id ≡ native
    pub no_change : result.0.changed_files ≡ []
    pub on_record : get run_id result.1.receipts ≡ some result.0

  -- Whatever the world answers and whether or not the run is resumed, an accepted `execute` is safe.
  pub execute-IsSafe :
      (w : World) (store : EvidenceStore) (run_id : String) (request : RunRequest)
      (checkpoint : Option FilePath) (result : RunReceipt × EvidenceStore)
      → execute fingerprint sys runtime w store run_id request checkpoint ≡ ok result
      → IsSafe request run_id result
  execute-IsSafe w store run_id request checkpoint result h =
      let parts =
        execute-Parts fingerprint sys runtime w store run_id request checkpoint result h in
      let outcome =
        run_from fingerprint sys runtime w request (candidates fingerprint sys runtime w request)
          parts.index parts.start.progress in
      record {
        agent = parts.agent;
        authorized = validate_sound sys runtime request parts.agent parts.validated;
        provider = provider_eq→eq request.provider_id native parts.provider;
        no_change = rw (parts.ended) (
            changed_files-finish w store request run_id parts.start.resumed_from outcome.0
              (interruption w outcome.1));
        on_record = rw (parts.ended) (
            kept-finish w store request run_id parts.start.resumed_from outcome.0
              (interruption w outcome.1));
      }

  -- An item of the manifest is the text of a path that the run may look at.
  abbrev pub ItemIsAllowed : World → RunRequest → ManifestItem → Type 0
  ItemIsAllowed w request item =
      (path : FilePath) × (item.path ≡ as_posix path)
      × IsAllowed w runtime.target_project_root
          request.environment.filesystem_policy.allowed_patterns path

  abbrev pub Shows : World → RunRequest → Observation → Type 0
  Shows w request (manifest_sample items objective) = All (ItemIsAllowed w request) items
  Shows w request (resume_from origin) = Unit

  -- What a receipt of a fresh run counts and shows.
  pub record IsFaithful (w : World) (request : RunRequest) (receipt : RunReceipt) : Type 0 where
    pub counts :
        All
          (λ action.
            (action.files ≤ request.environment.resource_budget.max_files)
            × (action.bytes ≤ request.environment.resource_budget.max_bytes))
          receipt.actions
    pub shown : All (Shows w request) receipt.observations

  module _ (w : World) (request : RunRequest) where
    abbrev budget : ResourceBudget
    budget = request.environment.resource_budget

    abbrev AllAllowed : Progress → Type 0
    AllAllowed p = All (ItemIsAllowed w request) p.manifest

    abbrev IsCandidate : String → Type 0
    IsCandidate relative = Elem relative (candidates fingerprint sys runtime w request)

    take_file-AllAllowed :
        (index : ℕ) (relative : String) (p : Progress) (found : Option (FileStat × ℕ))
        → IsCandidate relative
        → AllAllowed p
        → Visited AllAllowed (take_file budget index relative p found w.os_error)
    unfolding take_file
    take_file-AllAllowed index relative p none c h = h
    take_file-AllAllowed index relative p (some (s, n)) c h =
        let item : ManifestItem = record { path = relative; size = s.size } in
        let grown : All (ItemIsAllowed w request) (p.manifest ++ item ∷ []) =
          All-append (ItemIsAllowed w request) p.manifest (item ∷ []) h (
            (candidate_paths_iff w runtime.target_project_root
                  request.environment.filesystem_policy.allowed_patterns relative).0
                c,
            tt,
          ) in
        ground arith

    visit-AllAllowed :
        (index : ℕ) (relative : String) (p : Progress)
        → IsCandidate relative
        → AllAllowed p
        → Visited AllAllowed (visit w budget index relative p)
    unfolding visit
    visit-AllAllowed index relative p c h =
        let found = stat_with_retry (w.stat_file relative) budget.max_retries 0 in
        ground (arith, take_file-AllAllowed index relative p found c h)

    fresh : Progress × Stop
    fresh =
        run_from fingerprint sys runtime w request (candidates fingerprint sys runtime w request) 0
          fresh_start.progress

    fresh-AllAllowed : AllAllowed fresh.0
    unfolding fresh run_from
    fresh-AllAllowed =
        scan_inv_on w budget AllAllowed IsCandidate visit-AllAllowed
          (candidates fingerprint sys runtime w request) 0 fresh_start.progress
          (All-of_Elem IsCandidate (candidates fingerprint sys runtime w request) (λ x e. e)) tt

    fresh-IsBounded : IsBounded budget fresh.0
    unfolding fresh run_from
    fresh-IsBounded =
        scan-IsBounded w budget (candidates fingerprint sys runtime w request) 0
          fresh_start.progress
          (record { files = omega arith; bytes = omega arith; exact = omega arith })

    finish-IsFaithful :
        (store : EvidenceStore) (run_id : String) (stop : Option Interruption)
        → IsFaithful w request
            (finish fingerprint sys runtime w store request run_id none fresh.0 stop).0
    finish-IsFaithful store run_id stop = record {
      counts =
          rw (actions-finish w store request run_id none fresh.0 stop)
            ((fresh-IsBounded.files, fresh-IsBounded.bytes), tt);
      shown =
          rw (sample-finish w store request run_id none fresh.0 stop)
            (All-take (ItemIsAllowed w request) 50 fresh.0.manifest fresh-AllAllowed, tt);
    }

  -- A fresh run, whether it passes or is interrupted, counts no more files and bytes than its budget
  -- allows, and its sample shows only paths of the tree that match an allowed pattern and lie outside
  -- repository and backup folders.
  pub execute-IsFaithful :
      (w : World) (store : EvidenceStore) (run_id : String) (request : RunRequest)
      (result : RunReceipt × EvidenceStore)
      → execute fingerprint sys runtime w store run_id request none ≡ ok result
      → IsFaithful w request result.0
  execute-IsFaithful w store run_id request result h =
      let parts = execute-Parts fingerprint sys runtime w store run_id request none result h in
      let started = start-fresh fingerprint sys runtime request store parts.start parts.begun in
      let zeroth = index-fresh (length (candidates fingerprint sys runtime w request)) parts.index (
        subst
          (λ (s : Start).
            index_in_range s.next_index (length (candidates fingerprint sys runtime w request))
            ≡ some parts.index)
          started parts.in_range) in
      let same : ends fingerprint sys runtime w store run_id request parts.start parts.index
          ≡ ends fingerprint sys runtime w store run_id request fresh_start 0 =
        ap₂ (ends fingerprint sys runtime w store run_id request) started zeroth in
      rw (parts.ended ∙ same) (
        unfold fresh in
        finish-IsFaithful w request store run_id (interruption w (fresh w request).1))
