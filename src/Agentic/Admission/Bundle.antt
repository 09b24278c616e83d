-- ===== src/Agentic/Admission/Bundle.antt =====
-- agentic_core_v1/external_skill_admission.py: `scan_skill_bundle`, the static scan of every file below a
-- skill's folder, and what it reports as blocking.
pub mod Blocking
use palwakf_agentic_ai_syste.Prelude.{
  ℕ, suc, ◌+◌, String, ◌≡◌, refl, ◌⊎◌, inl, inr, Bool, true, false, ◌&&◌, ◌||◌, not, List, [], ◌∷◌,
  ◌++◌, any, map, ◌==◌, if◌then◌else◌, ltb, contains, Bool-cases, arith,
}
use palwakf_agentic_ai_syste.Prelude.Text.{lower, suffix, sorted_set}
use palwakf_agentic_ai_syste.Agentic.Paths.{FilePath, starts_under, as_posix}
use Prim.Native.String.{◌++◌ as concat, compare}
use Prim.Native.Nat.{Ordering}

-- What the file system answers for one path that `rglob` finds. `is_dir` and `is_file` follow a link.
pub record BundleEntry : Type 0 where
  pub relative : FilePath
  pub name : String
  pub is_dir : Bool
  pub is_symlink : Bool
  pub is_file : Bool
  pub target : FilePath
  pub size : ℕ
  pub sha256 : String
  pub decoded : String

pub data Severity : Type 0 where
  medium high critical : Severity

pub record BundleFinding : Type 0 where
  pub finding_id : String
  pub severity : Severity
  pub path : String
  pub detail : String

pub record BundlePattern : Type 0 where
  pub finding_id : String
  pub severity : Severity
  pub pattern : String

-- `_BUNDLE_BLOCKING_PATTERNS`
abbrev pub bundle_blocking_patterns : List BundlePattern
bundle_blocking_patterns =
    (record {
      finding_id = "SELF_AUTHORIZATION_DIRECTIVE";
      severity = critical;
      pattern = "(?i)self[-_ ]?authoriz|ignore .*authority|bypass .*approval";
    })
    ∷ (record {
      finding_id = "SECRET_EXFILTRATION_DIRECTIVE";
      severity = critical;
      pattern = "(?i)(exfiltrat|upload|send).{0,50}(secret|token|credential|\\.env)";
    })
    ∷ (record {
      finding_id = "DESTRUCTIVE_COMMAND";
      severity = high;
      pattern = "(?i)(rm\\s+-rf\\s+/|git\\s+push\\s+--force|drop\\s+database|format\\s+[a-z]:)";
    })
    ∷ []

-- `_BUNDLE_CAPABILITY_PATTERNS`
abbrev pub bundle_capability_patterns : List (String × String)
bundle_capability_patterns =
    ("NETWORK_ACCESS", "(?i)\\b(curl|wget|invoke-webrequest|requests\\.|httpx\\.|fetch\\s*\\()")
    ∷ (
      "PROCESS_EXECUTION",
      "(?i)\\b(subprocess\\.|os\\.system|child_process|powershell|bash\\s+-c|cmd\\.exe)",
    )
    ∷ (
      "GIT_MUTATION",
      "(?i)\\bgit\\s+(push|commit|checkout|switch|merge|rebase|reset)\\b|\\bgh\\s+(pr|repo|issue)\\b",
    )
    ∷ (
      "DATABASE_MUTATION",
      "(?i)\\b(insert|update|delete|alter|create|drop)\\s+(table|schema|database|policy|function)\\b",
    )
    ∷ ("SECRET_ACCESS", "(?i)(\\.env|api[_ -]?key|access[_ -]?token|secret|credential)")
    ∷ ("PRODUCTION_DEPLOYMENT", "(?i)\\b(deploy|production|release|publish)\\b")
    ∷ []

-- `candidate.suffix.lower() in _EXECUTABLE_SUFFIXES`
unfoldable pub is_executable : String → Bool
is_executable name = contains (lower (suffix name)) (
    ".py" ∷ ".sh" ∷ ".ps1" ∷ ".bat" ∷ ".cmd" ∷ ".js" ∷ ".ts" ∷ ".mjs" ∷ ".cjs" ∷ ".rb" ∷ ".pl" ∷ [])

unfoldable pub is_instruction_bearing : BundleEntry → Bool
is_instruction_bearing entry = as_posix entry.relative == "SKILL.md" || is_executable entry.name

-- The report without the sums: what each entry adds to it.
pub record SkillBundleReport : Type 0 where
  pub file_count : ℕ
  pub total_bytes : ℕ
  pub executable_file_count : ℕ
  pub manifest : List (String × String × ℕ)
  pub capability_flags : List String
  pub findings : List BundleFinding

abbrev pub empty_report : SkillBundleReport
empty_report = record {
  file_count = 0;
  total_bytes = 0;
  executable_file_count = 0;
  manifest = [];
  capability_flags = [];
  findings = [];
}

unfoldable pub symlink_finding : FilePath → BundleEntry → BundleFinding
symlink_finding root entry =
    let outside = not (starts_under root entry.target) in
    record {
      finding_id = if outside then "BUNDLE_SYMLINK_OUTSIDE_ROOT" else "BUNDLE_SYMLINK_PRESENT";
      severity = if outside then critical else medium;
      path = as_posix entry.relative;
      detail = concat "/" (as_posix entry.target);
    }

-- The entries by `as_posix`.
abbrev pub insert_entry : BundleEntry → List BundleEntry → List BundleEntry
insert_entry x [] = x ∷ []
insert_entry x (y ∷ ys) = elim (compare (as_posix x.relative) (as_posix y.relative)) [
  | Ordering.gt ↦ y ∷ insert_entry x ys
  | _ ↦ x ∷ y ∷ ys
]

unfoldable pub sort_entries : List BundleEntry → List BundleEntry
sort_entries [] = []
sort_entries (x ∷ xs) = insert_entry x (sort_entries xs)

module _ (search : String → String → Bool) where
  -- The findings of one file's text.
  unfoldable pub text_findings : BundleEntry → List BundlePattern → List BundleFinding
  text_findings entry [] = []
  text_findings entry (p ∷ patterns) =
      let rest = text_findings entry patterns in
      let bearing = is_instruction_bearing entry in
      if search p.pattern entry.decoded
      then record {
        finding_id = p.finding_id;
        severity = if bearing then p.severity else medium;
        path = as_posix entry.relative;
        detail =
            if bearing
            then "Instruction-bearing static security pattern matched."
            else "Reference text mentions a sensitive operation; adaptation review required.";
      }
        ∷ rest
      else rest

  unfoldable pub capabilities : String → List (String × String) → List String
  capabilities text [] = []
  capabilities text ((capability, pattern) ∷ patterns) =
      let rest = capabilities text patterns in
      if search pattern text then capability ∷ rest else rest

  -- One turn of the loop, which adds to the report.
  unfoldable pub scan_entry : FilePath → BundleEntry → SkillBundleReport → SkillBundleReport
  scan_entry root entry report =
      if entry.is_dir
      then report
      else if entry.is_symlink
      then record report { findings = report.findings ++ symlink_finding root entry ∷ [] }
      else if not entry.is_file
      then report
      else (let counted : SkillBundleReport = record report {
        file_count = suc report.file_count;
        total_bytes = report.total_bytes + entry.size;
        executable_file_count =
            if is_executable entry.name
            then suc report.executable_file_count
            else report.executable_file_count;
        manifest = report.manifest ++ (as_posix entry.relative, entry.sha256, entry.size) ∷ [];
      } in
          if ltb 1000000 entry.size then counted else record counted {
            findings = report.findings ++ text_findings entry bundle_blocking_patterns;
            capability_flags =
                report.capability_flags ++ capabilities entry.decoded bundle_capability_patterns;
          })

  unfoldable pub scan_entries : FilePath → List BundleEntry → SkillBundleReport → SkillBundleReport
  scan_entries root [] report = report
  scan_entries root (entry ∷ entries) report =
      scan_entries root entries (scan_entry root entry report)

  -- `scan_skill_bundle`, of the resolved folder and what `rglob` finds in it; `manifest` is the text that
  -- `manifest_sha256` digests, by its lines.
  unfoldable pub scan_skill_bundle : FilePath → List BundleEntry → SkillBundleReport
  scan_skill_bundle root found =
      let report = scan_entries root (sort_entries found) empty_report in
      record report { capability_flags = sorted_set report.capability_flags }

abbrev pub blocks : Severity → Bool
blocks medium = false
blocks high = true
blocks critical = true

abbrev pub is_blocking : BundleFinding → Bool
is_blocking finding = blocks finding.severity

-- `blocking_findings`
unfoldable pub blocking_findings : List BundleFinding → List BundleFinding
blocking_findings [] = []
blocking_findings (finding ∷ findings) =
    if is_blocking finding then finding ∷ blocking_findings findings else blocking_findings findings
