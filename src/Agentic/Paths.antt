-- ===== src/Agentic/Paths.antt =====
-- Paths of `pathlib`: a path is the list of its parts. What the operating system answers for one
-- (`Path(text)`, `resolve`) is supplied by the caller.
use palwakf_agentic_ai_syste.Prelude.{
  String, ◌≡◌, refl, Bool, true, false, ◌&&◌, List, [], ◌∷◌, ◌++◌, ◌==◌, eq_iff, arith,
}
use Prim.Native.String.{◌++◌ as concat}

abbrev pub FilePath : Type 0
FilePath = List String

-- `Path(text)` and `path.resolve()`, which follows links and removes `.` and `..`.
pub record PathSystem : Type 0 where
  pub path_of : String → FilePath
  pub resolve : FilePath → FilePath

-- `path.relative_to(root)` succeeds: the parts of `root` are the first parts of `path`.
unfoldable pub starts_under : FilePath → FilePath → Bool
starts_under [] path = true
starts_under (r ∷ root) [] = false
starts_under (r ∷ root) (p ∷ path) = r == p && starts_under root path

-- `_is_within(path, root)`
unfoldable pub is_within : PathSystem → FilePath → FilePath → Bool
unfolding starts_under
is_within sys path root = starts_under (sys.resolve root) (sys.resolve path)

-- `path.as_posix()` of a relative path
unfoldable pub as_posix : FilePath → String
as_posix [] = "."
as_posix (p ∷ []) = p
as_posix (p ∷ q ∷ rest) = concat p (concat "/" (as_posix (q ∷ rest)))

-- A path within a root is the root followed by the rest of its parts.
pub starts_under→append :
    (root path : FilePath)
    → starts_under root path ≡ true
    → (rest : FilePath) × (path ≡ root ++ rest)
unfolding starts_under
starts_under→append [] path h = (path, refl)
starts_under→append (r ∷ root) [] h = cc
starts_under→append (r ∷ root) (p ∷ path) h =
    let (rest, e) = starts_under→append root path (ground arith) in
    (rest, ground (arith, eq_iff r p))

pub starts_under-append : (root rest : FilePath) → starts_under root (root ++ rest) ≡ true
unfolding starts_under
starts_under-append [] rest = refl
starts_under-append (r ∷ root) rest = ground (arith, eq_iff r r, starts_under-append root rest)
