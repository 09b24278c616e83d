-- ===== src/ChangeControl/Contexts/Shown.antt =====
-- What `_context_files` shows of a scope, and how much.
use mathlib.Core.Path.{subst}
use palwakf_agentic_ai_syste.Prelude.{
  ◌>>=◌, >>=-eq-ok, Result, ok, sym, ◌++◌, ℕ, suc, ◌+◌, ◌≤◌, String, ◌≡◌, refl, inl, inr, true,
  false, ◌||◌, some, List, [], ◌∷◌, length, leb, ltb, contains, arith, All, Bool-cases,
  Option-cases,
}
use palwakf_agentic_ai_syste.Prelude.Dict.{Dict, get}
use palwakf_agentic_ai_syste.Prelude.Text.{lower, suffix, take_text}
use palwakf_agentic_ai_syste.Prelude.Utf8.{Bytes, utf8}
use palwakf_agentic_ai_syste.Agentic.Paths.{FilePath, as_posix, starts_under}
use palwakf_agentic_ai_syste.ChangeControl.Schema.{ChangeError, ContextFile, Host}
use palwakf_agentic_ai_syste.ChangeControl.Targets.{text_extensions, file_name, below, blocked_file}
use palwakf_agentic_ai_syste.ChangeControl.Implementations.Found.{ok_inj}
use palwakf_agentic_ai_syste.ChangeControl.Contexts.{
  max_context_files, max_context_bytes, Reader, redact, is_readable, read_files, candidates,
  context_files, relative_of,
}

-- The bytes of all excerpts.
abbrev pub excerpt_bytes : List ContextFile → ℕ
excerpt_bytes [] = 0
excerpt_bytes (entry ∷ entries) = length (utf8 entry.excerpt) + excerpt_bytes entries

-- An entry is of a path that, as it stands, is not blocked and has the suffix of a text, and of a file of at most
-- 80,000 bytes. It has the digest and the size of the file, what `_redact` leaves of its first 12,000
-- characters, and, below the root, the path that the path resolves to.
abbrev pub IsShown : Host → Reader → Dict Bytes → ContextFile → Type 0
IsShown h r files entry =
    (path : FilePath) × (content : Bytes) × (get (as_posix path) files ≡ some content)
    × (blocked_file path ≡ false)
    × (contains (lower (suffix (file_name path))) text_extensions ≡ true)
    × (length content ≤ 80000)
    × (starts_under (h.sys.resolve h.project_root) (h.sys.resolve (h.project_root ++ path)) ≡ true)
    × (entry.path
        ≡ as_posix (below (h.sys.resolve h.project_root) (h.sys.resolve (h.project_root ++ path))))
    × (entry.sha256 ≡ h.sha256 content)
    × (entry.size_bytes ≡ length content)
    × (entry.excerpt ≡ (redact r (take_text 12000 (r.decode content))).0)

-- What holds of the entries after `count` files and `total` bytes.
abbrev AreShown : Host → Reader → Dict Bytes → ℕ → ℕ → List ContextFile → Type 0
AreShown h r files count total entries =
    (count + length entries ≤ max_context_files)
    × (total + excerpt_bytes entries ≤ max_context_bytes)
    × All (IsShown h r files) entries

is_readable-eq :
    (path : FilePath) (content : Bytes)
    → is_readable path content ≡ true
    → (blocked_file path ≡ false)
      × (contains (lower (suffix (file_name path))) text_extensions ≡ true)
      × (length content ≤ 80000)
unfolding is_readable
is_readable-eq path content e = (ground (arith, e), ground (arith, e), ground (arith, e))

module _ (h : Host) (r : Reader) (files : Dict Bytes) where
  AreShown-nil :
      (count total : ℕ)
      → count ≤ max_context_files
      → total ≤ max_context_bytes
      → AreShown h r files count total []
  AreShown-nil count total c t = (omega arith, omega arith, tt)

  abbrev excerpt_of : Bytes → String
  excerpt_of content = (redact r (take_text 12000 (r.decode content))).0

  abbrev bytes_with : Bytes → ℕ → ℕ
  bytes_with content total = total + length (utf8 (excerpt_of content))

  abbrev entry_of : FilePath → Bytes → String → ContextFile
  entry_of path content shown = record {
    path = shown;
    sha256 = h.sha256 content;
    size_bytes = length content;
    redaction_applied = (redact r (take_text 12000 (r.decode content))).1;
    excerpt = excerpt_of content;
  }

  relative_of-eq-ok :
      (path : FilePath) (shown : String)
      → relative_of h path ≡ ok shown
      → (starts_under (h.sys.resolve h.project_root) (h.sys.resolve (h.project_root ++ path))
          ≡ true)
        × (shown
            ≡ as_posix
                (below (h.sys.resolve h.project_root) (h.sys.resolve (h.project_root ++ path))))
  unfolding relative_of
  relative_of-eq-ok path shown e =
      elim (Bool-cases
        (starts_under (h.sys.resolve h.project_root) (h.sys.resolve (h.project_root ++ path)))) [
          | inl inside ↦ (inside, sym (ok_inj _ _ (rw (relative_of, inside) at e)))
          | inr outside ↦ absurd (ground (arith, e, outside))
        ]

  IsShown-entry :
      (path : FilePath) (content : Bytes) (shown : String)
      → get (as_posix path) files ≡ some content
      → is_readable path content ≡ true
      → relative_of h path ≡ ok shown
      → IsShown h r files (entry_of path content shown)
  IsShown-entry path content shown held readable e =
      let (allowed, text, small) = is_readable-eq path content readable in
      let (inside, named) = relative_of-eq-ok path shown e in
      (path, content, held, allowed, text, small, inside, named, refl, refl, refl)

  AreShown-cons :
      (count total : ℕ) (entry : ContextFile) (rest : List ContextFile)
      → IsShown h r files entry
      → AreShown h r files (suc count) (total + length (utf8 entry.excerpt)) rest
      → AreShown h r files count total (entry ∷ rest)
  AreShown-cons count total entry rest s (c, t, a) = (omega arith, omega arith, (s, a))

  next_count :
      (count total : ℕ)
      → (leb max_context_files count || leb max_context_bytes total) ≡ false
      → suc count ≤ max_context_files
  next_count count total room = ground (arith, room)

  next_bytes : (sum : ℕ) → ltb max_context_bytes sum ≡ false → sum ≤ max_context_bytes
  next_bytes sum within = ground (arith, within)

  -- The entries of the end of a list.
  abbrev tail_of : FilePath → Bytes → List FilePath → ℕ → ℕ → Result ChangeError (List ContextFile)
  tail_of path content paths count total = do
    shown ← relative_of h path
    entries ← read_files h r files paths (suc count) (bytes_with content total)
    ok (entry_of path content shown ∷ entries)

  shown_tail :
      (path : FilePath) (content : Bytes) (paths : List FilePath) (count total : ℕ)
      (entries : List ContextFile)
      → get (as_posix path) files ≡ some content
      → is_readable path content ≡ true
      → ((rest : List ContextFile)
          → read_files h r files paths (suc count) (bytes_with content total) ≡ ok rest
          → AreShown h r files (suc count) (bytes_with content total) rest)
      → tail_of path content paths count total ≡ ok entries
      → AreShown h r files count total entries
  shown_tail path content paths count total entries held readable f e =
      let (shown, s, e1) = >>=-eq-ok (relative_of h path) _ e in
      let (rest, q, e2) =
        >>=-eq-ok (read_files h r files paths (suc count) (bytes_with content total)) _ e1 in
      subst (AreShown h r files count total) (ok_inj _ _ e2) (
        AreShown-cons count total (entry_of path content shown) rest
          (IsShown-entry path content shown held readable s) (f rest q))

  nil_shown :
      (count total : ℕ) (entries : List ContextFile)
      → count ≤ max_context_files
      → total ≤ max_context_bytes
      → ◌≡◌ {A = Result ChangeError (List ContextFile)} (ok []) (ok entries)
      → AreShown h r files count total entries
  nil_shown count total entries c t e =
      subst (AreShown h r files count total) (ok_inj _ _ e) (AreShown-nil count total c t)

  read_files-AreShown :
      (paths : List FilePath) (count total : ℕ) (entries : List ContextFile)
      → count ≤ max_context_files
      → total ≤ max_context_bytes
      → read_files h r files paths count total ≡ ok entries
      → AreShown h r files count total entries
  unfolding read_files
  read_files-AreShown [] count total entries c t e = nil_shown count total entries c t e
  read_files-AreShown (path ∷ paths) count total entries c t e =
      elim (Bool-cases (leb max_context_files count || leb max_context_bytes total)) [
        | inl full ↦ nil_shown count total entries c t (rw (read_files, full) at e)
        | inr room ↦ elim (Option-cases (get (as_posix path) files)) [
          | inl absent ↦
              read_files-AreShown paths count total entries c t (rw (read_files, room, absent) at e)
          | inr (content, held) ↦ elim (Bool-cases (is_readable path content)) [
            | inr blocked ↦
                read_files-AreShown paths count total entries c t
                  (rw (read_files, room, held, blocked) at e)
            | inl readable ↦ elim (Bool-cases (ltb max_context_bytes (bytes_with content total))) [
              | inl over ↦
                  nil_shown count total entries c t
                    (rw (read_files, room, held, readable, over) at e)
              | inr within ↦
                  shown_tail path content paths count total entries held readable
                    (λ rest.
                      read_files-AreShown paths (suc count) (bytes_with content total) rest
                        (next_count count total room)
                        (next_bytes (bytes_with content total) within))
                    (rw (read_files, room, held, readable, within) at e)
            ]
          ]
        ]
      ]

  -- A call of `_context_files` that returns shows at most 120 files and at most 180,000 bytes of excerpts. Each entry
  -- is of a path that is not blocked, as it stands before links are resolved, and of a text of at most 80,000
  -- bytes, of which it has the digest and the redaction of the first 12,000 characters; its own path is the one that
  -- this path resolves to, which lies in the project.
  pub context_files-AreShown :
      (scope : FilePath) (entries : List ContextFile)
      → context_files h r files scope ≡ ok entries
      → (length entries ≤ max_context_files)
        × (excerpt_bytes entries ≤ max_context_bytes)
        × All (IsShown h r files) entries
  unfolding context_files
  context_files-AreShown scope entries e =
      let (c, t, a) =
        read_files-AreShown (candidates r files scope) 0 0 entries (omega arith) (omega arith) e in
      (omega arith, omega arith, a)
