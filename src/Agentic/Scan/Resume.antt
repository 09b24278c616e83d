-- ===== src/Agentic/Scan/Resume.antt =====
-- A run that is cancelled or timed out leaves a state from which the loop goes on as if it had never
-- stopped.
use palwakf_agentic_ai_syste.Prelude.{
  ℕ, suc, ◌+◌, ◌-◌, ◌*◌, ◌≤◌, ◌<◌, String, ◌≡◌, refl, sym, ◌∙◌, false, List, [], ◌∷◌, drop, length,
  leb, arith, inl, inr, ◌⊎◌,
}
use palwakf_agentic_ai_syste.Agentic.Contracts.{ResourceBudget}
use palwakf_agentic_ai_syste.Agentic.Scan.{
  World, Progress, Stop, cancelled, timed_out, Visit, halt, go_on, take_file, visit, follow, scan,
}

-- The loop was cancelled or timed out. A failed `stat`, after which a run can be resumed too, is not meant here:
-- its retries are counted again when the candidate is visited again.
abbrev pub IsInterrupted : Stop → ℕ → Type 0
IsInterrupted stop j = (stop ≡ cancelled j) ⊎ (stop ≡ timed_out j)

-- No cancellation and no timeout is seen before the candidate of an index.
abbrev pub IsCalm : World → ResourceBudget → ℕ → Type 0
IsCalm v budget index =
    (v.cancelled index ≡ false)
    × (leb (v.started + budget.timeout_seconds * v.ticks_per_second) (v.clock index) ≡ false)

abbrev pub IsCalmBetween : World → ResourceBudget → ℕ → ℕ → Type 0
IsCalmBetween v budget i j = (k : ℕ) → i ≤ k → k < j → IsCalm v budget k

visit-index :
    (w : World) (budget : ResourceBudget) (index : ℕ) (relative : String) (p q : Progress)
    (stop : Stop) (j : ℕ)
    → IsInterrupted stop j
    → visit w budget index relative p ≡ halt q stop
    → (q ≡ p) × (j ≡ index)
unfolding visit take_file
visit-index w budget index relative p q stop j s h = ground arith

visit-calm :
    (w v : World) (budget : ResourceBudget) (index : ℕ) (relative : String) (p q : Progress)
    → w.stat_file ≡ v.stat_file
    → IsCalm v budget index
    → visit w budget index relative p ≡ go_on q
    → visit v budget index relative p ≡ go_on q
unfolding visit take_file
visit-calm w v budget index relative p q same calm h = ground arith

Visit-cases :
    (v : Visit)
    → ((q : Progress) × (stop : Stop) × (v ≡ halt q stop)) ⊎ ((q : Progress) × (v ≡ go_on q))
Visit-cases (halt q stop) = inl (q, stop, refl)
Visit-cases (go_on q) = inr (q, refl)

-- The index of an interruption is not before the index that the loop starts from.
pub scan-index :
    (w : World) (budget : ResourceBudget) (rest : List String) (index : ℕ) (p q : Progress)
    (stop : Stop) (j : ℕ)
    → IsInterrupted stop j
    → scan w budget rest index p ≡ (q, stop)
    → index ≤ j
unfolding scan
scan-index w budget [] index p q stop j s h = ground arith
scan-index w budget (relative ∷ rest) index p q stop j s h =
    elim (Visit-cases (visit w budget index relative p)) [
      | inl (p', stop', e) ↦
          let same : stop' ≡ stop = ground arith in
          omega (arith, (visit-index w budget index relative p p' stop' j (rw same s) e).1)
      | inr (p', e) ↦ omega (arith, scan-index w budget rest (suc index) p' q stop j s (rw e at h))
    ]

drop-step :
    (relative : String) (rest : List String) (index j : ℕ)
    → suc index ≤ j
    → drop (j - index) (relative ∷ rest) ≡ drop (j - suc index) rest
drop-step relative rest index j h = let e : j - index ≡ suc (j - suc index) = omega arith in rw e

scan-go_on :
    (w : World) (budget : ResourceBudget) (relative : String) (rest : List String) (index : ℕ)
    (p q : Progress)
    → visit w budget index relative p ≡ go_on q
    → scan w budget (relative ∷ rest) index p ≡ scan w budget rest (suc index) q
unfolding scan
scan-go_on w budget relative rest index p q e = rw e

module _ (w v : World) (budget : ResourceBudget) (same : w.stat_file ≡ v.stat_file) where
  -- If `w` cancels the loop or times it out at the index j, and `v`, with the same files, does neither before j, then
  -- the loop of `v` from the start and its loop from what `w` left at j end alike. A failed `stat` is not covered.
  pub scan-resume :
      (rest : List String) (index : ℕ) (p q : Progress) (stop : Stop) (j : ℕ)
      → IsInterrupted stop j
      → IsCalmBetween v budget index j
      → scan w budget rest index p ≡ (q, stop)
      → scan v budget (drop (j - index) rest) j q ≡ scan v budget rest index p
  scan-resume [] index p q stop j s calm h = absurd (unfold scan in ground arith)
  scan-resume (relative ∷ rest) index p q stop j s calm h =
      elim (Visit-cases (visit w budget index relative p)) [
        | inl (p', stop', e) ↦
            let h' : follow (visit w budget index relative p) (scan w budget rest (suc index))
                ≡ (q, stop) =
              unfold scan in h in
            let halted : (p' ≡ q) × (stop' ≡ stop) = ground arith in
            let (kept, here) =
              visit-index w budget index relative p p' stop' j (rw (halted.1) s) e in
            let nothing : index - index ≡ 0 = omega arith in rw (here, sym halted.0 ∙ kept, nothing)
        | inr (p', e) ↦
            let h' : scan w budget rest (suc index) p' ≡ (q, stop) =
              sym (scan-go_on w budget relative rest index p p' e) ∙ h in
            let later : suc index ≤ j = scan-index w budget rest (suc index) p' q stop j s h' in
            let e' : visit v budget index relative p ≡ go_on p' =
              visit-calm w v budget index relative p p' same (calm index (omega arith) later) e in
            rw
              (
                drop-step relative rest index j later,
                scan-go_on v budget relative rest index p p' e',
              )
              (scan-resume rest (suc index) p' q stop j s (λ k low high. calm k (omega arith) high)
                h')
      ]

-- The index of an interruption is that of a candidate.
pub scan-index-lt :
    (w : World) (budget : ResourceBudget) (rest : List String) (index : ℕ) (p q : Progress)
    (stop : Stop) (j : ℕ)
    → IsInterrupted stop j
    → scan w budget rest index p ≡ (q, stop)
    → j < index + length rest
scan-index-lt w budget [] index p q stop j s h = absurd (unfold scan in ground arith)
scan-index-lt w budget (relative ∷ rest) index p q stop j s h =
    elim (Visit-cases (visit w budget index relative p)) [
      | inl (p', stop', e) ↦
          let same : stop' ≡ stop = unfold scan in ground arith in
          omega (arith, (visit-index w budget index relative p p' stop' j (rw same s) e).1)
      | inr (p', e) ↦ omega (
        arith,
        scan-index-lt w budget rest (suc index) p' q stop j s
            (sym (scan-go_on w budget relative rest index p p' e) ∙ h),
      )
    ]
