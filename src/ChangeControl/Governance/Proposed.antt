-- ===== src/ChangeControl/Governance/Proposed.antt =====
-- What the targets of a proposal and `_validate_proposal` establish of its changes.
use palwakf_agentic_ai_syste.Prelude.{
  ℕ, ◌+◌, String, ◌≡◌, refl, sym, ◌∙◌, inl, inr, Bool, true, false, not, some, List, [], ◌∷◌, ◌++◌,
  ◌==◌, length, ltb, contains, ok, arith, eq_iff, All, Bool-cases, >>=-eq-ok, raise_if-eq-ok,
  or_raise,
}
use mathlib.Core.Path.{subst}
use palwakf_agentic_ai_syste.Prelude.Dict.{Dict, get, put, get-put}
use palwakf_agentic_ai_syste.Prelude.Json.{
  Json, null, boolean, number, string, array, object, Items, no_items, item, find, text_or,
}
use palwakf_agentic_ai_syste.Prelude.Utf8.{Bytes, utf8}
use palwakf_agentic_ai_syste.Agentic.Paths.{FilePath, starts_under, as_posix}
use palwakf_agentic_ai_syste.ChangeControl.Schema.{
  proposal_path_not_authorized, proposal_duplicate_path, proposal_too_large, duplicate_target_file,
  os_error, absolute_path_blocked, workspace_escape_blocked, Change, Host, sha256_text,
}
use palwakf_agentic_ai_syste.ChangeControl.Targets.{below, locate, check_file, safe_target}
use palwakf_agentic_ai_syste.ChangeControl.Proposals.{
  max_proposal_bytes, content_of, normalize_changes, changes_of, validate_proposal, collect_targets,
}
use palwakf_agentic_ai_syste.ChangeControl.Implementations.Found.{
  AreDistinct, IsCanonical, AreProposed, ok_inj,
}
use palwakf_agentic_ai_syste.ChangeControl.Implementations.Checked.{or_raise-eq-ok}

-- `resolve` goes through links to a path that it leaves as it is, and what follows the root in such a path is
-- relative.
pub record IsResolving (h : Host) : Type 0 where
  pub relative :
      (path : FilePath)
      → starts_under (h.sys.resolve h.project_root) (h.sys.resolve path) ≡ true
      → h.is_absolute (as_posix (below (h.sys.resolve h.project_root) (h.sys.resolve path))) ≡ false
  pub resolved :
      (path : FilePath)
      → starts_under (h.sys.resolve h.project_root) (h.sys.resolve path) ≡ true
      → h.sys.resolve (
          h.project_root
          ++ h.sys.path_of (as_posix (below (h.sys.resolve h.project_root) (h.sys.resolve path))))
        ≡ h.sys.resolve path

module _ (h : Host) where
  -- Each target is under the path that it resolves to.
  abbrev pub AreLocated : Dict String → Type 0
  AreLocated targets =
      (path digest : String)
      → get path targets ≡ some digest
      → (part : FilePath) × (locate h path ≡ ok part) × (as_posix part ≡ path)

  -- `AreProposed` of the changes after those of the paths `seen`.
  abbrev AreProposedAfter : List String → List Change → Type 0
  AreProposedAfter seen changes =
      AreDistinct changes seen
      × All (λ c. c.postimage_sha256 ≡ sha256_text h c.new_content) changes
      × All (IsCanonical h) changes

  normalize_changes-AreProposed :
      (targets : Dict String) (seen : List String) (total : ℕ) (items : Items)
      (changes : List Change)
      → AreLocated targets
      → normalize_changes h targets seen total items ≡ ok changes
      → AreProposedAfter seen changes
  unfolding normalize_changes
  normalize_changes-AreProposed targets seen total no_items changes l e =
      subst (AreProposedAfter seen) (ok_inj [] changes e) (tt, tt, tt)
  normalize_changes-AreProposed targets seen total (item (object entry) items) changes l e =
      let path = text_or h.str "" (find "path" entry) in
      let (preimage, p, e1) =
        >>=-eq-ok (or_raise (get path targets) proposal_path_not_authorized) _ e in
      let (fresh, e2) = raise_if-eq-ok (contains path seen) proposal_duplicate_path _ e1 in
      let (new_content, c, e3) = >>=-eq-ok (content_of (find "new_content" entry)) _ e2 in
      let sum = total + length (utf8 new_content) in
      let (fits, e4) = raise_if-eq-ok (ltb max_proposal_bytes sum) proposal_too_large _ e3 in
      let (rest, r, e5) = >>=-eq-ok (normalize_changes h targets (path ∷ seen) sum items) _ e4 in
      let (distinct, digests, canonical) =
        normalize_changes-AreProposed targets (path ∷ seen) sum items rest l r in
      subst (AreProposedAfter seen) (ok_inj _ _ e5) (
        (fresh, distinct),
        (refl, digests),
        (l path preimage (or_raise-eq-ok _ _ preimage p), canonical),
      )
  normalize_changes-AreProposed targets seen total (item null items) changes l e =
      absurd (ground arith)
  normalize_changes-AreProposed targets seen total (item (boolean b) items) changes l e =
      absurd (ground arith)
  normalize_changes-AreProposed targets seen total (item (number z n) items) changes l e =
      absurd (ground arith)
  normalize_changes-AreProposed targets seen total (item (string s) items) changes l e =
      absurd (ground arith)
  normalize_changes-AreProposed targets seen total (item (array xs) items) changes l e =
      absurd (ground arith)

  pub validate_proposal-AreProposed :
      (targets : Dict String) (value : Json) (changes : List Change)
      → AreLocated targets
      → validate_proposal h targets value ≡ ok changes
      → AreProposed h changes
  unfolding validate_proposal
  validate_proposal-AreProposed targets (object entries) changes l e =
      let (items, _, e1) = >>=-eq-ok (changes_of (find "changes" entries)) _ e in
      normalize_changes-AreProposed targets [] 0 items changes l e1
  validate_proposal-AreProposed targets null changes l e = absurd (ground arith)
  validate_proposal-AreProposed targets (boolean b) changes l e = absurd (ground arith)
  validate_proposal-AreProposed targets (number z n) changes l e = absurd (ground arith)
  validate_proposal-AreProposed targets (string s) changes l e = absurd (ground arith)
  validate_proposal-AreProposed targets (array items) changes l e = absurd (ground arith)

  -- A located path is found again under its text.
  locate-again :
      (text : String) (part : FilePath)
      → IsResolving h
      → locate h text ≡ ok part
      → locate h (as_posix part) ≡ ok part
  unfolding locate
  locate-again text part s e =
      let (_, e1) = raise_if-eq-ok (h.is_absolute text) absolute_path_blocked _ e in
      let root = h.sys.resolve h.project_root in
      let path = h.project_root ++ h.sys.path_of text in
      let (escapes, e2) =
        raise_if-eq-ok (not (starts_under root (h.sys.resolve path))) workspace_escape_blocked _
          e1 in
      let under : starts_under root (h.sys.resolve path) ≡ true = ground (arith, escapes) in
      let same = ok_inj _ _ e2 in
      subst (λ p. locate h (as_posix p) ≡ ok p) same
        (rw (s.relative path under, locate) (rw (s.resolved path under) (rw under refl)))

  AreLocated-put :
      (targets : Dict String) (path digest : String) (part : FilePath)
      → locate h path ≡ ok part
      → as_posix part ≡ path
      → AreLocated targets
      → AreLocated (put path digest targets)
  AreLocated-put targets path digest part l p a other found e = elim (Bool-cases (path == other)) [
    | inl same ↦ let q : path ≡ other = ground (arith, eq_iff path other) in rw (sym q) (part, l, p)
    | inr apart ↦ a other found (sym (get-put path other digest targets ∙ rw apart refl) ∙ e)
  ]

  pub collect_targets-AreLocated :
      (decodes : Bytes → Bool) (files : Dict Bytes) (relatives : List String)
      (targets answer : Dict String)
      → IsResolving h
      → AreLocated targets
      → collect_targets h decodes files relatives targets ≡ ok answer
      → AreLocated answer
  unfolding collect_targets safe_target
  collect_targets-AreLocated decodes files [] targets answer s a e =
      subst AreLocated (ok_inj _ _ e) a
  collect_targets-AreLocated decodes files (relative ∷ relatives) targets answer s a e =
      let (path, t, e1) = >>=-eq-ok (safe_target h files relative) _ e in
      let (part, l, t1) = >>=-eq-ok (locate h relative) _ t in
      let (_, c, t2) = >>=-eq-ok (check_file h part (get (as_posix part) files)) _ t1 in
      let (_, e2) = raise_if-eq-ok _ duplicate_target_file _ e1 in
      let (content, g, e3) = >>=-eq-ok (or_raise (get path files) os_error) _ e2 in
      let (_, e4) = raise_if-eq-ok (not (decodes content)) os_error _ e3 in
      let named : as_posix part ≡ path = ok_inj _ _ t2 in
      collect_targets-AreLocated decodes files relatives (put path (h.sha256 content) targets)
        answer s
        (AreLocated-put targets path (h.sha256 content) part
          (subst (λ p. locate h p ≡ ok part) named (locate-again relative part s l)) named a)
        e4
