-- ===== src/ChangeControl/Targets.antt =====
-- `_resolve_relative`, `_blocked_file` and `_safe_target`: which files a proposal may change.
use palwakf_agentic_ai_syste.Prelude.{
  ℕ, String, Bool, ◌||◌, not, Option, none, some, List, [], ◌∷◌, ◌++◌, any, length, ltb,
  if◌then◌else◌, contains, Result, ok, err, ◌>>=◌, ◌>>◌, raise_if,
}
use palwakf_agentic_ai_syste.Prelude.Dict.{Dict, get}
use palwakf_agentic_ai_syste.Prelude.Text.{lower, suffix}
use palwakf_agentic_ai_syste.Prelude.Utf8.{Bytes}
use palwakf_agentic_ai_syste.Agentic.Paths.{FilePath, starts_under, as_posix}
use palwakf_agentic_ai_syste.ChangeControl.Schema.{
  ChangeError, absolute_path_blocked, workspace_escape_blocked, path_not_found, target_not_file,
  target_file_blocked, target_extension_blocked, target_file_too_large, Host,
}
use text.Mathlib.Text.{starts_with}

abbrev pub max_target_file_bytes : ℕ
max_target_file_bytes = 220000

-- `TEXT_EXTENSIONS`
abbrev pub text_extensions : List String
text_extensions =
    ".py" ∷ ".ts" ∷ ".tsx" ∷ ".js" ∷ ".jsx" ∷ ".dart" ∷ ".md" ∷ ".txt" ∷ ".json" ∷ ".yaml" ∷ ".yml"
    ∷ ".toml" ∷ ".html" ∷ ".css" ∷ ".scss" ∷ ".sql" ∷ []

-- `EXCLUDED_PARTS`
abbrev pub excluded_parts : List String
excluded_parts =
    ".git" ∷ ".svn" ∷ ".hg" ∷ "node_modules" ∷ ".venv" ∷ "venv" ∷ "__pycache__" ∷ "dist" ∷ "build"
    ∷ ".dart_tool" ∷ "runtime_state" ∷ []

-- `BLOCKED_FILENAMES`
abbrev pub blocked_filenames : List String
blocked_filenames = ".env" ∷ ".env.local" ∷ ".env.production" ∷ "id_rsa" ∷ "id_ed25519" ∷ []

-- `BLOCKED_SUFFIXES`
abbrev pub blocked_suffixes : List String
blocked_suffixes = ".pem" ∷ ".key" ∷ ".p12" ∷ ".pfx" ∷ ".crt" ∷ ".cer" ∷ []

-- The parts of a path that follow those of the root.
unfoldable pub below : FilePath → FilePath → FilePath
below [] path = path
below (r ∷ root) [] = []
below (r ∷ root) (p ∷ path) = below root path

-- `path.name`
unfoldable pub file_name : FilePath → String
file_name [] = ""
file_name (p ∷ []) = p
file_name (p ∷ q ∷ rest) = file_name (q ∷ rest)

-- `_resolve_relative` up to its test that the path exists: the path below the root.
unfoldable pub locate : Host → String → Result ChangeError FilePath
locate h relative = do
  raise_if (h.is_absolute relative) absolute_path_blocked
  let root = h.sys.resolve h.project_root
  let resolved = h.sys.resolve (h.project_root ++ h.sys.path_of relative)
  raise_if (not (starts_under root resolved)) workspace_escape_blocked
  ok (below root resolved)

-- `_blocked_file`, of a path below the root
unfoldable pub blocked_file : FilePath → Bool
blocked_file path =
    contains (lower (file_name path)) blocked_filenames
    || contains (lower (suffix (file_name path))) blocked_suffixes
    || any (λ part. starts_with part "." || contains part excluded_parts) path

-- The tests of `_safe_target` on a located path, with what the file holds, if it is one.
unfoldable pub check_file : Host → FilePath → Option Bytes → Result ChangeError (Unit {0})
check_file h path none =
    err (if h.is_directory (as_posix path) then target_not_file else path_not_found)
check_file h path (some content) = do
  raise_if (blocked_file path) target_file_blocked
  raise_if (not (contains (lower (suffix (file_name path))) text_extensions))
      target_extension_blocked
  raise_if (ltb max_target_file_bytes (length content)) target_file_too_large
  ok tt

-- `_safe_target`, and `_relative` of its result
unfoldable pub safe_target : Host → Dict Bytes → String → Result ChangeError String
safe_target h files relative = do
  path ← locate h relative
  check_file h path (get (as_posix path) files)
  ok (as_posix path)
