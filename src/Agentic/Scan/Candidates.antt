-- ===== src/Agentic/Scan/Candidates.antt =====
-- Which paths are candidates of a run: those below the target root that match an allowed pattern and
-- have no part of a repository's or a backup's own files.
use palwakf_agentic_ai_syste.Prelude.{
  String, ◌≡◌, refl, ◌⊎◌, inl, inr, ◌↔◌, Bool, true, false, List, [], ◌∷◌, ◌++◌, any, arith,
  contains→Elem, Elem→contains, Elem, Bool-cases,
}
use palwakf_agentic_ai_syste.Agentic.Paths.{FilePath, as_posix}
use palwakf_agentic_ai_syste.Agentic.Scan.{
  World, is_excluded, select, insert_sorted, sorted, candidate_paths,
}

Elem→insert_sorted :
    (a x : String) (ys : List String) → Elem a (x ∷ ys) → Elem a (insert_sorted x ys)
unfolding insert_sorted
Elem→insert_sorted a x [] e = e
Elem→insert_sorted a x (y ∷ ys) e = ground (arith, Elem→insert_sorted a x ys)

insert_sorted→Elem :
    (a x : String) (ys : List String) → Elem a (insert_sorted x ys) → Elem a (x ∷ ys)
unfolding insert_sorted
insert_sorted→Elem a x [] e = e
insert_sorted→Elem a x (y ∷ ys) e = ground (arith, insert_sorted→Elem a x ys)

Elem→sorted : (a : String) (xs : List String) → Elem a xs → Elem a (sorted xs)
unfolding sorted
Elem→sorted a [] e = e
Elem→sorted a (x ∷ xs) (inl e) = Elem→insert_sorted a x (sorted xs) (inl e)
Elem→sorted a (x ∷ xs) (inr e) = Elem→insert_sorted a x (sorted xs) (inr (Elem→sorted a xs e))

sorted→Elem : (a : String) (xs : List String) → Elem a (sorted xs) → Elem a xs
unfolding sorted
sorted→Elem a [] e = e
sorted→Elem a (x ∷ xs) e = elim (insert_sorted→Elem a x (sorted xs) e) [
  | inl here ↦ inl here
  | inr there ↦ inr (sorted→Elem a xs there)
]

module _ {A : Type 0} (p : A → Bool) where
  any→Elem : (xs : List A) → any p xs ≡ true → (x : A) × Elem x xs × (p x ≡ true)
  any→Elem [] h = absurd (ground arith)
  any→Elem (x ∷ xs) h = elim (Bool-cases (p x)) [
    | inl here ↦ (x, inl refl, here)
    | inr there ↦ let (y, e, q) = any→Elem xs (ground arith) in (y, inr e, q)
  ]

  Elem→any : (x : A) (xs : List A) → Elem x xs → p x ≡ true → any p xs ≡ true
  Elem→any x [] e h = absurd e
  Elem→any x (y ∷ ys) e h = ground (arith, Elem→any x ys)

module _ (w : World) (root : FilePath) (patterns : List String) where
  -- A path of the tree that a run may look at.
  pub record IsAllowed (path : FilePath) : Type 0 where
    pub in_tree : Elem path w.tree
    pub not_git : ¬ Elem ".git" (root ++ path)
    pub not_backup : ¬ Elem ".palwakf_apply_backup" (root ++ path)
    pub pattern : String
    pub allowed : Elem pattern patterns
    pub matched : w.fnmatchcase (as_posix path) pattern ≡ true

  is_excluded-false :
      (path : FilePath)
      → is_excluded root path ≡ false
      → (¬ Elem ".git" (root ++ path)) × (¬ Elem ".palwakf_apply_backup" (root ++ path))
  unfolding is_excluded
  is_excluded-false path h = (
    λ e. ground (arith, Elem→contains ".git" (root ++ path) e),
    λ e. ground (arith, Elem→contains ".palwakf_apply_backup" (root ++ path) e),
  )

  is_excluded-of_not :
      (path : FilePath)
      → ¬ Elem ".git" (root ++ path)
      → ¬ Elem ".palwakf_apply_backup" (root ++ path)
      → is_excluded root path ≡ false
  unfolding is_excluded
  is_excluded-of_not path g b = ground (
    arith,
    contains→Elem ".git" (root ++ path),
    contains→Elem ".palwakf_apply_backup" (root ++ path),
    g,
    b,
  )

  abbrev matches : FilePath → Bool
  matches path = any (λ pattern. w.fnmatchcase (as_posix path) pattern) patterns

  abbrev Source : String → List FilePath → Type 0
  Source candidate paths =
      (path : FilePath) × Elem path paths
      × (candidate ≡ as_posix path)
      × (is_excluded root path ≡ false)
      × (matches path ≡ true)

  Source-cons :
      (candidate : String) (path : FilePath) (paths : List FilePath)
      → Source candidate paths
      → Source candidate (path ∷ paths)
  Source-cons candidate path paths (found, e, same, inside, match) =
      (found, inr e, same, inside, match)

  select-skip :
      (path : FilePath) (paths : List FilePath)
      → (is_excluded root path ≡ true) ⊎ (matches path ≡ false)
      → select w.fnmatchcase root patterns (path ∷ paths) ≡ select w.fnmatchcase root patterns paths
  unfolding select
  select-skip path paths (inl out) = rw out
  select-skip path paths (inr other) = ground arith

  select-take :
      (path : FilePath) (paths : List FilePath)
      → is_excluded root path ≡ false
      → matches path ≡ true
      → select w.fnmatchcase root patterns (path ∷ paths)
        ≡ as_posix path ∷ select w.fnmatchcase root patterns paths
  unfolding select
  select-take path paths inside match = rw (inside, match)

  select→path :
      (candidate : String) (paths : List FilePath)
      → Elem candidate (select w.fnmatchcase root patterns paths)
      → Source candidate paths
  select→path candidate [] e = absurd (unfold select in e)
  select→path candidate (path ∷ paths) e = elim (Bool-cases (is_excluded root path)) [
    | inl out ↦
        Source-cons candidate path paths
          (select→path candidate paths (rw (select-skip path paths (inl out)) at e))
    | inr inside ↦ elim (Bool-cases (matches path)) [
      | inl match ↦
          let found : Elem candidate (as_posix path ∷ select w.fnmatchcase root patterns paths) =
            rw (select-take path paths inside match) at e in
          elim found [
            | inl here ↦ (path, inl refl, here, inside, match)
            | inr there ↦ Source-cons candidate path paths (select→path candidate paths there)
          ]
      | inr other ↦
          Source-cons candidate path paths
            (select→path candidate paths (rw (select-skip path paths (inr other)) at e))
    ]
  ]

  path→select :
      (path : FilePath) (paths : List FilePath)
      → Elem path paths
      → is_excluded root path ≡ false
      → matches path ≡ true
      → Elem (as_posix path) (select w.fnmatchcase root patterns paths)
  unfolding select
  path→select path [] e h m = absurd e
  path→select path (other ∷ paths) e h m = ground (arith, path→select path paths)

  -- The candidates of a run are exactly the texts of the allowed paths of the tree.
  pub candidate_paths_iff :
      (candidate : String)
      → Elem candidate (candidate_paths w root patterns)
        ↔ ((path : FilePath) × (candidate ≡ as_posix path) × IsAllowed path)
  candidate_paths_iff candidate = (
    λ e.
        let (path, found, same, inside, match) = select→path candidate w.tree (
          sorted→Elem candidate (select w.fnmatchcase root patterns w.tree)
            (unfold candidate_paths in e)) in
        let (pattern, allowed, matched) =
          any→Elem (λ pattern. w.fnmatchcase (as_posix path) pattern) patterns match in
        let (g, b) = is_excluded-false path inside in
        (
          path,
          same,
          record {
            in_tree = found;
            not_git = g;
            not_backup = b;
            pattern = pattern;
            allowed = allowed;
            matched = matched;
          },
        ),
    λ (path, same, h).
        unfold candidate_paths in
        Elem→sorted candidate (select w.fnmatchcase root patterns w.tree) (
          rw same (
            path→select path w.tree h.in_tree (is_excluded-of_not path h.not_git h.not_backup) (
              Elem→any (λ pattern. w.fnmatchcase (as_posix path) pattern) h.pattern patterns
                h.allowed h.matched))),
  )
