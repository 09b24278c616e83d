-- ===== src/Agentic/Admission/Bundle/Blocking.antt =====
-- What the scan of a skill's folder blocks, stated by its entries alone.
use palwakf_agentic_ai_syste.Prelude.{
  String, ◌≡◌, refl, ◌↔◌, Bool, false, ◌&&◌, ◌||◌, not, List, [], ◌∷◌, ◌++◌, any, if◌then◌else◌,
  ltb, arith,
}
use palwakf_agentic_ai_syste.Agentic.Paths.{FilePath, starts_under}
use palwakf_agentic_ai_syste.Agentic.Admission.Bundle.{
  BundleEntry, BundleFinding, BundlePattern, bundle_blocking_patterns, is_instruction_bearing,
  SkillBundleReport, empty_report, symlink_finding, text_findings, scan_entry, scan_entries,
  insert_entry, sort_entries, scan_skill_bundle, blocks, is_blocking, blocking_findings,
}

any-append_list :
    {A : Type 0} (p : A → Bool) (xs ys : List A) → any p (xs ++ ys) ≡ (any p xs || any p ys)
any-append_list p [] ys = refl
any-append_list p (x ∷ xs) ys = ground (arith, any-append_list p xs ys)

blocking_findings-nil :
    (findings : List BundleFinding)
    → (blocking_findings findings ≡ []) ↔ (any is_blocking findings ≡ false)
unfolding blocking_findings
blocking_findings-nil [] = (λ _. refl, λ _. refl)
blocking_findings-nil (finding ∷ findings) = ground (arith, blocking_findings-nil findings)

any-insert_entry :
    (p : BundleEntry → Bool) (x : BundleEntry) (xs : List BundleEntry)
    → any p (insert_entry x xs) ≡ (p x || any p xs)
any-insert_entry p x [] = refl
any-insert_entry p x (y ∷ ys) = ground (arith, any-insert_entry p x ys)

any-sort_entries :
    (p : BundleEntry → Bool) (xs : List BundleEntry) → any p (sort_entries xs) ≡ any p xs
unfolding sort_entries
any-sort_entries p [] = refl
any-sort_entries p (x ∷ xs) =
    ground (arith, any-insert_entry p x (sort_entries xs), any-sort_entries p xs)

module _ (search : String → String → Bool) where
  -- A link out of the folder, or a small enough file of instructions that a blocking pattern matches. What
  -- is a folder, or links to one, is passed over.
  abbrev pub threatens : FilePath → BundleEntry → Bool
  threatens root entry =
      not entry.is_dir
      && (if entry.is_symlink
          then not (starts_under root entry.target)
          else entry.is_file
            && not (ltb 1000000 entry.size)
            && is_instruction_bearing entry
            && any (λ p. search p.pattern entry.decoded) bundle_blocking_patterns)

  text_findings-blocking :
      (entry : BundleEntry) (patterns : List BundlePattern)
      → any is_blocking (text_findings search entry patterns) ≡ (
          is_instruction_bearing entry
          && any (λ p. search p.pattern entry.decoded && blocks p.severity) patterns)
  unfolding text_findings
  text_findings-blocking entry [] = ground arith
  text_findings-blocking entry (p ∷ patterns) =
      ground (arith, text_findings-blocking entry patterns)

  scan_entry-blocking :
      (root : FilePath) (entry : BundleEntry) (report : SkillBundleReport)
      → any is_blocking (scan_entry search root entry report).findings
        ≡ (any is_blocking report.findings || threatens root entry)
  unfolding scan_entry symlink_finding
  scan_entry-blocking root entry report = ground (
    arith,
    any-append_list is_blocking report.findings (symlink_finding root entry ∷ []),
    any-append_list is_blocking report.findings
        (text_findings search entry bundle_blocking_patterns),
    text_findings-blocking entry bundle_blocking_patterns,
  )

  scan_entries-blocking :
      (root : FilePath) (entries : List BundleEntry) (report : SkillBundleReport)
      → any is_blocking (scan_entries search root entries report).findings
        ≡ (any is_blocking report.findings || any (threatens root) entries)
  unfolding scan_entries
  scan_entries-blocking root [] report = ground arith
  scan_entries-blocking root (entry ∷ entries) report = ground (
    arith,
    scan_entries-blocking root entries (scan_entry search root entry report),
    scan_entry-blocking root entry report,
  )

  -- A bundle has no blocking finding exactly when none of its entries is a link out of its folder or a file
  -- of instructions, of at most 1,000,000 bytes, that matches a blocking pattern; the order of the entries
  -- does not matter. Nothing that is or links to a folder counts.
  pub scan_skill_bundle-blocking :
      (root : FilePath) (found : List BundleEntry)
      → (blocking_findings (scan_skill_bundle search root found).findings ≡ [])
        ↔ (any (threatens root) found ≡ false)
  unfolding scan_skill_bundle
  scan_skill_bundle-blocking root found = ground (
    arith,
    blocking_findings-nil (scan_entries search root (sort_entries found) empty_report).findings,
    scan_entries-blocking root (sort_entries found) empty_report,
    any-sort_entries (threatens root) found,
  )
