-- ===== src/ChangeControl/Implementations/Found.antt =====
-- The targets that `_apply_implementation` has found, and what a well-formed proposal says of them.
use palwakf_agentic_ai_syste.Prelude.{
  String, ◌≡◌, refl, sym, ap, ◌∙◌, false, Option, none, some, List, [], ◌∷◌, map, Result, ok, arith,
  eq_iff, All, contains, >>=-eq-ok, raise_if-eq-ok,
}
use palwakf_agentic_ai_syste.Prelude.Dict.{Dict, get}
use palwakf_agentic_ai_syste.Prelude.Utf8.{Bytes}
use palwakf_agentic_ai_syste.Agentic.Paths.{FilePath, as_posix}
use palwakf_agentic_ai_syste.ChangeControl.Schema.{ChangeError, Change, Host, sha256_text}
use palwakf_agentic_ai_syste.ChangeControl.Targets.{locate, check_file, safe_target}
use palwakf_agentic_ai_syste.ChangeControl.Implementations.{differs, locate_changes}
use palwakf_agentic_ai_syste.ChangeControl.Implementations.Restore.{AreUnseen, IsDigested}
use palwakf_agentic_ai_syste.ChangeControl.Implementations.Writes.{IsNamed}
use palwakf_agentic_ai_syste.ChangeControl.Implementations.Rollback.{IsSmall, IsRestorable}

abbrev pub AreDistinct : List Change → List String → Type 0
AreDistinct [] seen = Unit
AreDistinct (change ∷ changes) seen =
    (contains change.path seen ≡ false) × AreDistinct changes (change.path ∷ seen)

-- The path is the one below the root that it resolves to.
abbrev pub IsCanonical : Host → Change → Type 0
IsCanonical h change =
    (part : FilePath) × (locate h change.path ≡ ok part) × (as_posix part ≡ change.path)

-- What a proposal of `_generate_proposal` is.
abbrev pub AreProposed : Host → List Change → Type 0
AreProposed h changes =
    AreDistinct changes []
    × All (λ c. c.postimage_sha256 ≡ sha256_text h c.new_content) changes
    × All (IsCanonical h) changes

pub record IsFound (h : Host) (files : Dict Bytes) (target : String × Change) : Type 0 where
  pub part : FilePath
  pub old : Bytes
  pub located : locate h target.1.path ≡ ok part
  pub posix : as_posix part ≡ target.0
  pub held : get target.0 files ≡ some old
  pub preimage : target.1.preimage_sha256 ≡ h.sha256 old
  pub checked : check_file h part (some old) ≡ ok tt

pub ok_inj : {A : Type 0} (x y : A) → ◌≡◌ {A = Result ChangeError A} (ok x) (ok y) → x ≡ y
ok_inj x y e = ground arith

module _ (h : Host) where
  check_file-held :
      (part : FilePath) (found : Option Bytes)
      → check_file h part found ≡ ok tt
      → (old : Bytes) × (found ≡ some old)
  unfolding check_file
  check_file-held part none e = absurd (ground arith)
  check_file-held part (some old) e = (old, refl)

  differs-same :
      (files : Dict Bytes) (path digest : String) (old : Bytes)
      → get path files ≡ some old
      → differs h files path digest ≡ false
      → digest ≡ h.sha256 old
  differs-same files path digest old g e =
      ground (arith, eq_iff (h.sha256 old) digest, rw (differs, g) at e)

  IsFound-at :
      (files : Dict Bytes) (path : String) (change : Change) (part : FilePath)
      → locate h change.path ≡ ok part
      → check_file h part (get (as_posix part) files) ≡ ok tt
      → as_posix part ≡ path
      → differs h files path change.preimage_sha256 ≡ false
      → IsFound h files (path, change)
  IsFound-at files path change part l c p d =
      let (old, g) = check_file-held part (get (as_posix part) files) c in
      let held = ap (λ k. get k files) (sym p) ∙ g in
      record {
        part = part;
        old = old;
        located = l;
        posix = p;
        held = held;
        preimage = differs-same files path change.preimage_sha256 old held d;
        checked = ap (check_file h part) (sym g) ∙ c;
      }

  target-IsFound :
      (files : Dict Bytes) (path : String) (change : Change)
      → safe_target h files change.path ≡ ok path
      → differs h files path change.preimage_sha256 ≡ false
      → IsFound h files (path, change)
  unfolding safe_target
  target-IsFound files path change e d =
      let (part, l, e1) = >>=-eq-ok (locate h change.path) _ e in
      let (_, c, e2) = >>=-eq-ok (check_file h part (get (as_posix part) files)) _ e1 in
      IsFound-at files path change part l c (ok_inj _ _ e2) d

  abbrev AreFound : Dict Bytes → List Change → List (String × Change) → Type 0
  AreFound files changes targets =
      (map (λ t. t.1) targets ≡ changes) × All (IsFound h files) targets

  AreFound-eq :
      (files : Dict Bytes) (changes : List Change) (made targets : List (String × Change))
      → made ≡ targets
      → AreFound files changes made
      → AreFound files changes targets
  AreFound-eq files changes made targets e f = rw (sym e) f

  -- The targets of a proposal whose files are as they were.
  pub locate_changes-eq-ok :
      (stale : ChangeError) (files : Dict Bytes) (changes : List Change)
      (targets : List (String × Change))
      → locate_changes h (λ c. c.preimage_sha256) stale files changes ≡ ok targets
      → (map (λ t. t.1) targets ≡ changes) × All (IsFound h files) targets
  unfolding locate_changes
  locate_changes-eq-ok stale files [] targets e =
      AreFound-eq files [] [] targets (ok_inj _ _ e) (refl, tt)
  locate_changes-eq-ok stale files (change ∷ changes) targets e =
      let (path, s, e1) = >>=-eq-ok (safe_target h files change.path) _ e in
      let (same, e2) = raise_if-eq-ok (differs h files path change.preimage_sha256) stale _ e1 in
      let (rest, r, e3) =
        >>=-eq-ok (locate_changes h (λ c. c.preimage_sha256) stale files changes) _ e2 in
      let (names, found) = locate_changes-eq-ok stale files changes rest r in
      AreFound-eq files (change ∷ changes) ((path, change) ∷ rest) targets (ok_inj _ _ e3)
        (ap (λ cs. change ∷ cs) names, (target-IsFound files path change s same, found))

  -- What a well-formed proposal says of its targets.
  pub targets-AreUnseen :
      (targets : List (String × Change)) (seen : List String)
      → AreDistinct (map (λ t. t.1) targets) seen
      → AreUnseen targets seen
  targets-AreUnseen [] seen d = tt
  targets-AreUnseen ((path, change) ∷ targets) seen (fresh, d) =
      (fresh, targets-AreUnseen targets (change.path ∷ seen) d)

  pub targets-All :
      (P : Change → Type 0) (targets : List (String × Change))
      → All P (map (λ t. t.1) targets)
      → All (λ t. P t.1) targets
  targets-All P [] a = tt
  targets-All P (t ∷ targets) (p, a) = (p, targets-All P targets a)

  IsNamed-of_IsFound :
      (files : Dict Bytes) (target : String × Change)
      → IsFound h files target
      → IsCanonical h target.1
      → IsNamed target
  IsNamed-of_IsFound files target f (part, l, p) =
      let same : f.part ≡ part = ok_inj _ _ (sym f.located ∙ l) in
      sym f.posix ∙ ap as_posix same ∙ p

  pub targets-IsNamed :
      (files : Dict Bytes) (targets : List (String × Change))
      → All (IsFound h files) targets
      → All (IsCanonical h) (map (λ t. t.1) targets)
      → All IsNamed targets
  targets-IsNamed files [] f c = tt
  targets-IsNamed files (t ∷ targets) (f, fs) (c, cs) =
      (IsNamed-of_IsFound files t f c, targets-IsNamed files targets fs cs)

  -- The targets of a well-formed proposal whose files are as they were.
  pub record AreTargets (files : Dict Bytes) (changes : List Change)
      (targets : List (String × Change)) : Type 0 where
    pub names : map (λ t. t.1) targets ≡ changes
    pub found : All (IsFound h files) targets
    pub named : All IsNamed targets
    pub unseen : AreUnseen targets []
    pub digests : All (IsDigested h) targets

  pub located-AreTargets :
      (stale : ChangeError) (files : Dict Bytes) (changes : List Change)
      (targets : List (String × Change))
      → AreProposed h changes
      → locate_changes h (λ c. c.preimage_sha256) stale files changes ≡ ok targets
      → AreTargets files changes targets
  located-AreTargets stale files changes targets (distinct, digested, canonical) e =
      let (names, found) = locate_changes-eq-ok stale files changes targets e in
      record {
        names = names;
        found = found;
        named = targets-IsNamed files targets found (rw names canonical);
        unseen = targets-AreUnseen targets [] (rw names distinct);
        digests =
            targets-All (λ c. c.postimage_sha256 ≡ sha256_text h c.new_content) targets
              (rw names digested);
      }

  -- What a rollback needs of the proposal, besides what the apply checked.
  abbrev pub AreReversible : List Change → Type 0
  AreReversible changes = All IsSmall changes × All (λ c. h.write_fails c.path ≡ false) changes

  pub targets-IsRestorable :
      (files backup : Dict Bytes) (targets : List (String × Change))
      → All (IsFound h files) targets
      → All IsNamed targets
      → All (λ t. get t.1.path backup ≡ get t.0 files) targets
      → AreReversible (map (λ t. t.1) targets)
      → All (IsRestorable h backup files) targets
  targets-IsRestorable files backup [] f n b r = tt
  targets-IsRestorable files backup ((path, change) ∷ targets) (f, fs) (n, ns) (b, bs)
        ((small, smalls), (writes, all_write)) =
      (
        record {
          part = f.part;
          old = f.old;
          located = f.located;
          posix = f.posix;
          held = f.held;
          saved = b ∙ f.held;
          preimage = f.preimage;
          checked = f.checked;
          small = small;
          writable = rw n writes;
        },
        targets-IsRestorable files backup targets fs ns bs (smalls, all_write),
      )
