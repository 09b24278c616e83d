-- ===== src/Agentic/Execute/Rounds.antt =====
-- Runs of `execute`: what an accepted run satisfied, and that a run resumed from the checkpoint of an
-- interrupted one ends as an uninterrupted run does.
use palwakf_agentic_ai_syste.Prelude.{
  ℕ, ◌≤◌, String, ◌≡◌, true, Option, none, some, List, length, pos, ok, >>=-eq-ok, raise_if,
  or_raise, not, arith,
}
use palwakf_agentic_ai_syste.Agentic.Contracts.{
  native, provider_eq, UnifiedAgent, RunRequest, RunReceipt,
}
use palwakf_agentic_ai_syste.Agentic.Paths.{FilePath, PathSystem}
use palwakf_agentic_ai_syste.Agentic.Authority.{
  Runtime, validate, hermes_not_certified_for_execution, resume_checkpoint_index_out_of_range,
}
use palwakf_agentic_ai_syste.Agentic.Scan.{World, candidate_paths}
use palwakf_agentic_ai_syste.Agentic.Evidence.{EvidenceStore}
use palwakf_agentic_ai_syste.Agentic.Execute.{
  Start, fresh_start, index_in_range, interruption, begin, finish, run_from, execute,
}

module _ (fingerprint : RunRequest → String) (sys : PathSystem) (runtime : Runtime) where
  abbrev pub candidates : World → RunRequest → List String
  candidates w request =
      candidate_paths w runtime.target_project_root
        request.environment.filesystem_policy.allowed_patterns

  abbrev pub ends :
      World → EvidenceStore → String → RunRequest → Start → ℕ → RunReceipt × EvidenceStore
  ends w store run_id request start index =
      let outcome =
        run_from fingerprint sys runtime w request (candidates w request) index start.progress in
      finish fingerprint sys runtime w store request run_id start.resumed_from outcome.0
        (interruption w outcome.1)

  pub execute-eq :
      (w : World) (store : EvidenceStore) (run_id : String) (request : RunRequest)
      (checkpoint : Option FilePath) (agent : UnifiedAgent) (start : Start) (index : ℕ)
      → validate sys runtime request ≡ ok agent
      → provider_eq request.provider_id native ≡ true
      → begin fingerprint sys runtime store request checkpoint ≡ ok start
      → index_in_range start.next_index (length (candidates w request)) ≡ some index
      → execute fingerprint sys runtime w store run_id request checkpoint
        ≡ ok (ends w store run_id request start index)
  execute-eq w store run_id request checkpoint agent start index v n b i =
      unfold execute in rw (v, n, b, i)

  -- An accepted call, taken apart.
  pub record Parts (w : World) (store : EvidenceStore) (run_id : String) (request : RunRequest)
      (checkpoint : Option FilePath) (result : RunReceipt × EvidenceStore) : Type 0 where
    pub agent : UnifiedAgent
    pub start : Start
    pub index : ℕ
    pub validated : validate sys runtime request ≡ ok agent
    pub provider : provider_eq request.provider_id native ≡ true
    pub begun : begin fingerprint sys runtime store request checkpoint ≡ ok start
    pub in_range : index_in_range start.next_index (length (candidates w request)) ≡ some index
    pub ended : result ≡ ends w store run_id request start index

  pub execute-Parts :
      (w : World) (store : EvidenceStore) (run_id : String) (request : RunRequest)
      (checkpoint : Option FilePath) (result : RunReceipt × EvidenceStore)
      → execute fingerprint sys runtime w store run_id request checkpoint ≡ ok result
      → Parts w store run_id request checkpoint result
  unfolding execute
  execute-Parts w store run_id request checkpoint result h =
      let (agent, validated, h₁) = >>=-eq-ok (validate sys runtime request) _ h in
      let (_, provider, h₂) =
        >>=-eq-ok
          (raise_if (not (provider_eq request.provider_id native))
            hermes_not_certified_for_execution)
          _ h₁ in
      let (start, begun, h₃) =
        >>=-eq-ok (begin fingerprint sys runtime store request checkpoint) _ h₂ in
      let (index, in_range, h₄) =
        >>=-eq-ok
          (or_raise (index_in_range start.next_index (length (candidates w request)))
            resume_checkpoint_index_out_of_range)
          _ h₃ in
      record {
        agent = agent;
        start = start;
        index = index;
        validated = validated;
        provider = ground arith;
        begun = begun;
        in_range = ground arith;
        ended = ground arith;
      }

  pub start-fresh :
      (request : RunRequest) (store : EvidenceStore) (start : Start)
      → begin fingerprint sys runtime store request none ≡ ok start
      → start ≡ fresh_start
  unfolding begin
  start-fresh request store start b = ground arith

pub index-fresh : (n index : ℕ) → index_in_range (pos 0) n ≡ some index → index ≡ 0
unfolding index_in_range
index-fresh n index i = ground arith

pub index_in_range-of_le : (n index : ℕ) → index ≤ n → index_in_range (pos index) n ≡ some index
unfolding index_in_range
index_in_range-of_le n index h = ground arith
