-- ===== src/Agentic/Scan.antt =====
-- agentic_core_v1/runtime.py: the candidate paths of a run, a file's `stat` with retries, and the loop
-- of `execute` over the candidates. What the file system, the clock and the caller's cancellation
-- answer during one run is a `World`.
pub mod Bounds
pub mod Resume
pub mod Candidates
use palwakf_agentic_ai_syste.Prelude.{
  ℕ, zero, suc, ◌+◌, ◌*◌, ◌≤◌, String, ◌≡◌, refl, Bool, true, false, ◌&&◌, ◌||◌, not, Option, none,
  some, List, [], ◌∷◌, ◌++◌, length, any, leb, ltb, if◌then◌else◌, contains, All,
}
use Prim.Native.String.{compare}
use text.Mathlib.Text.{is_le}
use palwakf_agentic_ai_syste.Agentic.Contracts.{ResourceBudget, ManifestItem}
use palwakf_agentic_ai_syste.Agentic.Paths.{FilePath, as_posix}

-- The two fields of `os.stat_result` that the loop reads.
pub record FileStat : Type 0 where
  pub is_regular : Bool
  pub size : ℕ

pub record World : Type 0 where
  -- the paths below the target root, relative to it, in the order of `rglob("*")`
  pub tree : List FilePath
  pub fnmatchcase : String → String → Bool
  -- `control.cancelled` and the clock, as read before the candidate of an index
  pub cancelled : ℕ → Bool
  pub reason : String
  pub clock : ℕ → ℕ
  pub started : ℕ
  pub ticks_per_second : ℕ
  -- the answer of the k-th `stat` of a candidate; `none` is an `OSError`
  pub stat_file : String → ℕ → Option FileStat
  pub os_error : String → String

-- `_candidate_paths`, before it sorts: `root_parts` are the parts of the target root, which
-- `path.parts` holds too.
unfoldable pub is_excluded : FilePath → FilePath → Bool
is_excluded root_parts relative =
    contains ".git" (root_parts ++ relative)
    || contains ".palwakf_apply_backup" (root_parts ++ relative)

unfoldable pub select :
    (String → String → Bool) → FilePath → List String → List FilePath → List String
unfolding is_excluded as_posix
select fnmatchcase root_parts patterns [] = []
select fnmatchcase root_parts patterns (path ∷ paths) =
    let rest = select fnmatchcase root_parts patterns paths in
    if is_excluded root_parts path
    then rest
    else if any (λ pattern. fnmatchcase (as_posix path) pattern) patterns
    then as_posix path ∷ rest
    else rest

-- `sorted(candidates, key=...)`: stable, by the code points of the text
unfoldable pub insert_sorted : String → List String → List String
insert_sorted x [] = x ∷ []
insert_sorted x (y ∷ ys) = if is_le (compare x y) then x ∷ y ∷ ys else y ∷ insert_sorted x ys

unfoldable pub sorted : List String → List String
unfolding insert_sorted
sorted [] = []
sorted (x ∷ xs) = insert_sorted x (sorted xs)

unfoldable pub candidate_paths : World → FilePath → List String → List String
unfolding select sorted
candidate_paths w root_parts patterns = sorted (select w.fnmatchcase root_parts patterns w.tree)

-- `_stat_with_retry`: `left` is `max_retries - retries`, so `zero` is the test `retries >= max_retries`.
unfoldable pub stat_with_retry : (ℕ → Option FileStat) → ℕ → ℕ → Option (FileStat × ℕ)
stat_with_retry stat zero retries = elim (stat retries) [ some s ↦ some (s, retries) | none ↦ none ]
stat_with_retry stat (suc left) retries =
    let rest = stat_with_retry stat left (suc retries) in
    elim (stat retries) [ some s ↦ some (s, retries) | none ↦ rest ]

-- The variables of the loop.
pub record Progress : Type 0 where
  pub manifest : List ManifestItem
  pub bytes_seen : ℕ
  pub retries : ℕ

-- How the loop ends: by a cancellation, a timeout or a failed `stat`, at the index of the candidate, by a `break`,
-- or after the last candidate.
pub data Stop : Type 0 where
  completed : Stop
  cancelled timed_out files_full bytes_full : ℕ → Stop
  stat_failed : ℕ → String → Stop

pub data Visit : Type 0 where
  halt : Progress → Stop → Visit
  go_on : Progress → Visit

-- The body of the loop after a successful `stat`.
unfoldable pub take_file :
    ResourceBudget → ℕ → String → Progress → Option (FileStat × ℕ) → (String → String) → Visit
take_file budget index relative p none os_error =
    halt (record p { retries = p.retries + budget.max_retries })
      (stat_failed index (os_error relative))
take_file budget index relative p (some (file_stat, file_retries)) os_error =
    let q = record p { retries = p.retries + file_retries } in
    if not file_stat.is_regular
    then go_on q
    else if ltb budget.max_bytes (p.bytes_seen + file_stat.size)
    then halt q (bytes_full index)
    else go_on (record q {
      bytes_seen = p.bytes_seen + file_stat.size;
      manifest = p.manifest ++ record { path = relative; size = file_stat.size } ∷ [];
    })

-- One round of the loop.
unfoldable pub visit : World → ResourceBudget → ℕ → String → Progress → Visit
unfolding take_file
visit w budget index relative p =
    if w.cancelled index
    then halt p (cancelled index)
    else if leb (w.started + budget.timeout_seconds * w.ticks_per_second) (w.clock index)
    then halt p (timed_out index)
    else if leb budget.max_files (length p.manifest)
    then halt p (files_full index)
    else take_file budget index relative p
        (stat_with_retry (w.stat_file relative) budget.max_retries 0) w.os_error

abbrev pub follow : Visit → (Progress → Progress × Stop) → Progress × Stop
follow (halt q stop) loop = (q, stop)
follow (go_on q) loop = loop q

-- `for index in range(next_index, len(candidates))`, over the candidates from the index on.
unfoldable pub scan : World → ResourceBudget → List String → ℕ → Progress → Progress × Stop
scan w budget [] index p = (p, completed)
scan w budget (relative ∷ rest) index p =
    follow (visit w budget index relative p) (scan w budget rest (suc index))

-- An invariant of every visit holds of what the loop returns.
abbrev pub Visited : (Progress → Type 0) → Visit → Type 0
Visited P (halt q stop) = P q
Visited P (go_on q) = P q

follow_inv :
    (P : Progress → Type 0) (v : Visit) (loop : Progress → Progress × Stop)
    → Visited P v
    → ((q : Progress) → P q → P (loop q).0)
    → P (follow v loop).0
follow_inv P (halt q stop) loop h keep = h
follow_inv P (go_on q) loop h keep = keep q h

module _ (w : World) (budget : ResourceBudget) (P : Progress → Type 0) where
  pub scan_inv :
      ((index : ℕ) (relative : String) (p : Progress)
        → P p
        → Visited P (visit w budget index relative p))
      → (rest : List String) (index : ℕ) (p : Progress) → P p
      → P (scan w budget rest index p).0
  unfolding scan
  scan_inv keep [] index p h = h
  scan_inv keep (relative ∷ rest) index p h =
      follow_inv P (visit w budget index relative p) (scan w budget rest (suc index))
        (keep index relative p h) (λ q hq. scan_inv keep rest (suc index) q hq)

-- The same, where the invariant may use a fact about every candidate.
module _ (w : World) (budget : ResourceBudget) (P : Progress → Type 0) (Q : String → Type 0) where
  pub scan_inv_on :
      ((index : ℕ) (relative : String) (p : Progress)
        → Q relative
        → P p
        → Visited P (visit w budget index relative p))
      → (rest : List String) (index : ℕ) (p : Progress) → All Q rest
      → P p
      → P (scan w budget rest index p).0
  unfolding scan
  scan_inv_on keep [] index p qs h = h
  scan_inv_on keep (relative ∷ rest) index p qs h =
      follow_inv P (visit w budget index relative p) (scan w budget rest (suc index))
        (keep index relative p qs.0 h) (λ q hq. scan_inv_on keep rest (suc index) q qs.1 hq)
