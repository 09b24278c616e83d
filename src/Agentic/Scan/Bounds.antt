-- ===== src/Agentic/Scan/Bounds.antt =====
-- The budget of a run holds whatever the world answers, and `stat` is retried as often as allowed.
use palwakf_agentic_ai_syste.Prelude.{
  ℕ, zero, suc, ◌+◌, ◌≤◌, ◌<◌, String, ◌≡◌, refl, Option, none, some, List, [], ◌∷◌, ◌++◌, length,
  length-append, arith, inl, inr, Option-cases,
}
use native.Mathlib.Decide.{ℕ_discrete}
use palwakf_agentic_ai_syste.Agentic.Contracts.{ResourceBudget, ManifestItem}
use palwakf_agentic_ai_syste.Agentic.Scan.{
  FileStat, World, Progress, stat_with_retry, take_file, visit, scan, Visited, scan_inv,
}

abbrev pub total_size : List ManifestItem → ℕ
total_size [] = 0
total_size (item ∷ items) = item.size + total_size items

total_size-append :
    (xs ys : List ManifestItem) → total_size (xs ++ ys) ≡ total_size xs + total_size ys
total_size-append [] ys = omega arith
total_size-append (x ∷ xs) ys = omega (arith, total_size-append xs ys)

-- The manifest is within both budgets, and its bytes are counted exactly.
pub record IsBounded (budget : ResourceBudget) (p : Progress) : Type 0 where
  pub files : length p.manifest ≤ budget.max_files
  pub bytes : p.bytes_seen ≤ budget.max_bytes
  pub exact : p.bytes_seen ≡ total_size p.manifest

module _ (w : World) (budget : ResourceBudget) where
  take_file-IsBounded :
      (index : ℕ) (relative : String) (p : Progress) (found : Option (FileStat × ℕ))
      → IsBounded budget p
      → length p.manifest < budget.max_files
      → Visited (IsBounded budget) (take_file budget index relative p found w.os_error)
  unfolding take_file
  take_file-IsBounded index relative p none h room = ground arith
  take_file-IsBounded index relative p (some (s, n)) h room = ground (
    arith,
    length-append p.manifest (record { path = relative; size = s.size } ∷ []),
    total_size-append p.manifest (record { path = relative; size = s.size } ∷ []),
  )

  visit-IsBounded :
      (index : ℕ) (relative : String) (p : Progress)
      → IsBounded budget p
      → Visited (IsBounded budget) (visit w budget index relative p)
  unfolding visit
  visit-IsBounded index relative p h =
      let found = stat_with_retry (w.stat_file relative) budget.max_retries 0 in
      ground (arith, take_file-IsBounded index relative p found h)

  -- However the loop ends, what it collected is within the budget, and `bytes_seen` is its size.
  pub scan-IsBounded :
      (rest : List String) (index : ℕ) (p : Progress)
      → IsBounded budget p
      → IsBounded budget (scan w budget rest index p).0
  scan-IsBounded = scan_inv w budget (IsBounded budget) visit-IsBounded

-- The answer of a `stat` within the retries that are left: the first attempt that succeeds.
pub record IsFirstSuccess (stat : ℕ → Option FileStat) (from left : ℕ) (found : FileStat × ℕ)
    : Type 0 where
  pub not_before : from ≤ found.1
  pub within : found.1 ≤ from + left
  pub success : stat found.1 ≡ some found.0
  pub earlier_failed : (k : ℕ) → from ≤ k → k < found.1 → stat k ≡ none

module _ (stat : ℕ → Option FileStat) where
  pub stat_with_retry_sound :
      (left from : ℕ) (found : FileStat × ℕ)
      → stat_with_retry stat left from ≡ some found
      → IsFirstSuccess stat from left found
  unfolding stat_with_retry
  stat_with_retry_sound zero from found h = record {
    not_before = ground arith;
    within = ground arith;
    success = ground arith;
    earlier_failed = λ k low high. absurd (ground arith);
  }
  stat_with_retry_sound (suc left) from found h = elim (Option-cases (stat from)) [
    | inl failed ↦
        let ih = stat_with_retry_sound left (suc from) found (ground arith) in
        record {
          not_before = omega (arith, ih.not_before);
          within = omega (arith, ih.within);
          success = ih.success;
          earlier_failed = λ k low high. elim (ℕ_discrete k from) [
            | yes same ↦ rw same failed
            | no apart ↦ ih.earlier_failed k (omega arith) high
          ];
        }
    | inr (s, e) ↦ record {
      not_before = ground arith;
      within = ground arith;
      success = ground arith;
      earlier_failed = λ k low high. absurd (ground arith);
    }
  ]

  stat_with_retry-none :
      (left from : ℕ)
      → stat_with_retry stat left from ≡ none
      → (k : ℕ) → from ≤ k
      → k ≤ from + left
      → stat k ≡ none
  unfolding stat_with_retry
  stat_with_retry-none zero from h k low high =
      let same : k ≡ from = omega arith in rw same (ground arith)
  stat_with_retry-none (suc left) from h k low high = elim (ℕ_discrete k from) [
    | yes same ↦ rw same (ground arith)
    | no apart ↦ stat_with_retry-none left (suc from) (ground arith) k (omega arith) (omega arith)
  ]

  -- What the answer of a `stat` with `left` retries tells of the attempts that were made.
  abbrev pub Retried : ℕ → Option (FileStat × ℕ) → Type 0
  Retried left none = (k : ℕ) → k ≤ left → stat k ≡ none
  Retried left (some found) = IsFirstSuccess stat 0 left found

  retried :
      (left : ℕ) (answer : Option (FileStat × ℕ))
      → stat_with_retry stat left 0 ≡ answer
      → Retried left answer
  retried left none h = λ k low. stat_with_retry-none left 0 h k (omega arith) (omega arith)
  retried left (some found) h = stat_with_retry_sound left 0 found h

  -- A `stat` with retries answers with the first attempt that succeeds, and with how many failed
  -- before it; it raises exactly when all of the 1 + `left` allowed attempts fail.
  pub stat_with_retry-Retried : (left : ℕ) → Retried left (stat_with_retry stat left 0)
  stat_with_retry-Retried left = retried left (stat_with_retry stat left 0) refl
