-- ===== src/ChangeControl/Contexts.antt =====
-- `_create_context`: the files of a scope that a local model is shown, with `_redact` and
-- `_quality_baseline_summary`.
pub mod Shown
use palwakf_agentic_ai_syste.Prelude.{
  ℕ, zero, suc, ◌+◌, ◌++◌, String, Bool, true, false, ◌&&◌, ◌||◌, not, Option, none, some, List, [],
  ◌∷◌, ◌==◌, length, leb, ltb, if◌then◌else◌, contains, Result, ok, err, ◌>>=◌, ◌>>◌, raise_if,
}
use palwakf_agentic_ai_syste.Prelude.Dict.{Dict, get, put}
use palwakf_agentic_ai_syste.Prelude.Text.{lower, suffix, take_text}
use palwakf_agentic_ai_syste.Prelude.Utf8.{Bytes, utf8}
use palwakf_agentic_ai_syste.Agentic.Paths.{FilePath, as_posix, starts_under}
use palwakf_agentic_ai_syste.ChangeControl.Schema.{
  ChangeError, path_not_found, path_outside_project, ContextFile, QualityTool, ContextPack, Db,
  Host,
}
use palwakf_agentic_ai_syste.ChangeControl.Targets.{
  text_extensions, file_name, below, locate, blocked_file,
}

abbrev pub max_context_files : ℕ
max_context_files = 120

abbrev pub max_context_bytes : ℕ
max_context_bytes = 180000

-- What reading a context is run on: `path.rglob("*")` sorted, `bytes.decode` with `errors="replace"`,
-- `str.replace`, `re.sub` with `re.DOTALL`, and the texts of the set in `_redact` in the order of its loop.
pub record Reader : Type 0 where
  pub tree : FilePath → List FilePath
  pub decode : Bytes → String
  pub replace : String → String → String → String
  pub sub : String → String → String → String
  pub roots : List String

-- `patterns`
abbrev pub redactions : List (String × String)
redactions =
    (
      "-----BEGIN [A-Z ]*PRIVATE KEY-----.*?-----END [A-Z ]*PRIVATE KEY-----",
      "<REDACTED_PRIVATE_KEY>",
    )
    ∷ (
      "(?i)(api[_-]?key|secret|token|password|passwd|authorization)\\s*[:=]\\s*['\"]?[^'\"\\s,;]+",
      "\\1=<REDACTED>",
    )
    ∷ ("\\b(?:ghp|github_pat|sk|xox[baprs])_[A-Za-z0-9_-]{8,}\\b", "<REDACTED_TOKEN>")
    ∷ (
      "(?i)(postgres(?:ql)?|mysql|mongodb(?:\\+srv)?|redis)://[^\\s\"']+",
      "<REDACTED_CONNECTION_STRING>",
    )
    ∷ []

unfoldable pub replace_all : Reader → List String → String → String
replace_all r [] text = text
replace_all r (value ∷ values) text = replace_all r values (r.replace value "<WORKSPACE>" text)

unfoldable pub sub_all : Reader → List (String × String) → String → String
sub_all r [] text = text
sub_all r ((pattern_, replacement) ∷ rest) text = sub_all r rest (r.sub pattern_ replacement text)

-- `_redact`
unfoldable pub redact : Reader → String → String × Bool
redact r text =
    let redacted = sub_all r redactions (replace_all r r.roots text) in
    (redacted, not (redacted == text))

-- The tests of the loop of `_context_files` on one file.
unfoldable pub is_readable : FilePath → Bytes → Bool
is_readable path content =
    not (blocked_file path)
    && contains (lower (suffix (file_name path))) text_extensions
    && not (ltb 80000 (length content))

-- `_relative`, of a path below the root: links are resolved, and a path that then lies outside of the root
-- makes `relative_to` raise a ValueError.
unfoldable pub relative_of : Host → FilePath → Result ChangeError String
relative_of h path =
    let root = h.sys.resolve h.project_root in
    let resolved = h.sys.resolve (h.project_root ++ path) in
    if starts_under root resolved
    then ok (as_posix (below root resolved))
    else err path_outside_project

-- The loop of `_context_files`, with the number of files so far and of the bytes of their excerpts. A path is tested
-- and read as it stands, and listed as `_relative` of it.
unfoldable pub read_files :
    Host → Reader → Dict Bytes → List FilePath → ℕ → ℕ → Result ChangeError (List ContextFile)
read_files h r files [] count total = ok []
read_files h r files (path ∷ paths) count total =
    let skipped = read_files h r files paths count total in
    elim (leb max_context_files count || leb max_context_bytes total) [
      | true ↦ ok []
      | false ↦ elim (get (as_posix path) files) [
        | none ↦ skipped
        | some content ↦
            let redacted = redact r (take_text 12000 (r.decode content)) in
            let sum = total + length (utf8 redacted.0) in
            let rest = read_files h r files paths (suc count) sum in
            if not (is_readable path content)
            then skipped
            else if ltb max_context_bytes sum
            then ok []
            else (do
              shown ← relative_of h path
              entries ← rest
              let entry : ContextFile = record {
                path = shown;
                sha256 = h.sha256 content;
                size_bytes = length content;
                redaction_applied = redacted.1;
                excerpt = redacted.0;
              }
              ok (entry ∷ entries))
      ]
    ]

-- `candidates`
abbrev pub candidates : Reader → Dict Bytes → FilePath → List FilePath
candidates r files scope = elim (get (as_posix scope) files) [
  | none ↦ r.tree scope
  | some _ ↦ scope ∷ []
]

-- `_context_files`
unfoldable pub context_files :
    Host → Reader → Dict Bytes → FilePath → Result ChangeError (List ContextFile)
context_files h r files scope = read_files h r files (candidates r files scope) 0 0

abbrev pub is_quality_accepted : Option String → Bool
is_quality_accepted none = false
is_quality_accepted (some result) =
    result == "QUALITY_ACCEPTED" || result == "PASS_WITH_LIMITATIONS"

-- `_quality_baseline_summary`
unfoldable pub quality_baseline_summary : List QualityTool → List QualityTool
quality_baseline_summary [] = []
quality_baseline_summary (baseline ∷ baselines) =
    let rest = quality_baseline_summary baselines in
    if is_quality_accepted baseline.quality_result then baseline ∷ rest else rest

-- `_resolve_relative`
unfoldable pub resolve_relative : Host → Dict Bytes → String → Result ChangeError FilePath
resolve_relative h files relative = do
  path ← locate h relative
  raise_if
      (elim (get (as_posix path) files) [
        | none ↦ not (h.is_directory (as_posix path))
        | some _ ↦ false
      ])
      path_not_found
  ok path

-- `_create_context`
unfoldable pub create_context :
    Host
    → Reader
    → List QualityTool
    → String
    → String
    → String
    → Db
    → Result ChangeError (ContextPack × Db)
create_context h r baselines context_id goal scope_relative db = do
  scope ← resolve_relative h db.disk.files scope_relative
  files ← context_files h r db.disk.files scope
  let payload : ContextPack = record {
    goal = goal;
    scope_relative = as_posix scope;
    files = files;
    quality_accepted_tools = quality_baseline_summary baselines;
  }
  ok (payload, record db { context_packs = put context_id payload db.context_packs })
