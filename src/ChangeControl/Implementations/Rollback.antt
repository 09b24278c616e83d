-- ===== src/ChangeControl/Implementations/Rollback.antt =====
-- The loop of a rollback after an apply: every file gets the content that it had.
use palwakf_agentic_ai_syste.Prelude.{
  ◌≤◌, String, ◌≡◌, refl, ap, ◌∙◌, false, some, List, [], ◌∷◌, map, ok, arith, eq_refl, All, length,
}
use palwakf_agentic_ai_syste.Prelude.Dict.{Dict, get, put, get-put, put-same, put-put}
use palwakf_agentic_ai_syste.Prelude.Utf8.{Bytes, utf8}
use palwakf_agentic_ai_syste.Agentic.Paths.{FilePath, as_posix}
use palwakf_agentic_ai_syste.ChangeControl.Schema.{rollback_postimage_changed, Change, Host}
use palwakf_agentic_ai_syste.ChangeControl.Targets.{
  max_target_file_bytes, locate, check_file, safe_target,
}
use palwakf_agentic_ai_syste.ChangeControl.Implementations.{differs, locate_changes}
use palwakf_agentic_ai_syste.ChangeControl.Reviews.{roll_back}
use palwakf_agentic_ai_syste.ChangeControl.Implementations.Restore.{
  AreUnseen, IsDigested, differs-put,
}
use palwakf_agentic_ai_syste.ChangeControl.Implementations.Writes.{
  write_all, IsApart, IsNamed, IsApart-of_AreUnseen, get-write_all, put-write_all, contains-head,
}

-- A target whose old content is saved and whose new one can be rolled back: it is within the size that
-- `_safe_target` allows, and writing the file does not fail.
abbrev pub IsSmall : Change → Type 0
IsSmall change = length (utf8 change.new_content) ≤ max_target_file_bytes

pub record IsRestorable (h : Host) (backup files : Dict Bytes) (target : String × Change)
    : Type 0 where
  pub part : FilePath
  pub old : Bytes
  pub located : locate h target.1.path ≡ ok part
  pub posix : as_posix part ≡ target.0
  pub held : get target.0 files ≡ some old
  pub saved : get target.1.path backup ≡ some old
  pub preimage : target.1.preimage_sha256 ≡ h.sha256 old
  pub checked : check_file h part (some old) ≡ ok tt
  pub small : IsSmall target.1
  pub writable : h.write_fails target.0 ≡ false

-- Every target holds its new content.
pub get-write_all-each :
    (targets : List (String × Change)) (seen : List String) (files : Dict Bytes)
    → AreUnseen targets seen
    → All IsNamed targets
    → All (λ t. get t.0 (write_all targets files) ≡ some (utf8 t.1.new_content)) targets
get-write_all-each [] seen files u n = tt
get-write_all-each ((path, change) ∷ targets) seen files (fresh, u) (named, n) =
    let new = utf8 change.new_content in
    let away : IsApart path targets = rw named (
      IsApart-of_AreUnseen change.path targets (change.path ∷ seen) (contains-head change.path seen)
        u n) in
    (
      get-write_all path targets (put path new files) away
          ∙ get-put path path new files
          ∙ rw (eq_refl path) refl,
      get-write_all-each targets (change.path ∷ seen) (put path new files) u n,
    )

module _ (h : Host) where
  -- What `_safe_target` says of a file depends on its size only, of all its content.
  check_file-small :
      (part : FilePath) (old new : Bytes)
      → check_file h part (some old) ≡ ok tt
      → length new ≤ max_target_file_bytes
      → check_file h part (some new) ≡ ok tt
  unfolding check_file
  check_file-small part old new e n = ground arith

  safe_target-eq :
      (files : Dict Bytes) (relative path : String) (part : FilePath) (content : Bytes)
      → locate h relative ≡ ok part
      → as_posix part ≡ path
      → get path files ≡ some content
      → check_file h part (some content) ≡ ok tt
      → safe_target h files relative ≡ ok path
  unfolding safe_target
  safe_target-eq files relative path part content l p g c =
      rw (safe_target, l) (rw p (rw g (rw c refl)))

  -- Files that hold the new contents pass the checks that precede the loop.
  pub locate_changes-new :
      (targets : List (String × Change)) (backup files now_files : Dict Bytes)
      → All (IsDigested h) targets
      → All (IsRestorable h backup files) targets
      → All (λ t. get t.0 now_files ≡ some (utf8 t.1.new_content)) targets
      → locate_changes h
          (λ c. c.postimage_sha256)
          rollback_postimage_changed
          now_files
          (map (λ t. t.1) targets)
        ≡ ok targets
  unfolding locate_changes
  locate_changes-new [] backup files now_files d r g = refl
  locate_changes-new ((path, change) ∷ targets) backup files now_files (digest, d) (now, r)
        (found, g) =
      let new = utf8 change.new_content in
      let target =
        safe_target-eq now_files change.path path now.part new now.located now.posix found
          (check_file-small now.part now.old new now.checked now.small) in
      let matches : differs h now_files path change.postimage_sha256 ≡ false =
        rw (differs, found) (rw (digest, eq_refl (h.sha256 new)) refl) in
      rw (locate_changes, target)
        (rw matches (rw (locate_changes-new targets backup files now_files d r g) refl))

  pub roll_back-write_all :
      (targets : List (String × Change)) (seen : List String) (backup files : Dict Bytes)
      → AreUnseen targets seen
      → All IsNamed targets
      → All (IsRestorable h backup files) targets
      → roll_back h backup (map (λ t. t.1) targets) (write_all targets files) ≡ (ok tt, files)
  unfolding roll_back
  roll_back-write_all [] seen backup files u n r = refl
  roll_back-write_all ((path, change) ∷ targets) seen backup files (fresh, u) (named, n) (now, r) =
      let new = utf8 change.new_content in
      let apart =
        IsApart-of_AreUnseen change.path targets (change.path ∷ seen)
          (contains-head change.path seen) u n in
      let away : IsApart path targets = rw named apart in
      let written : get path (write_all targets (put path new files)) ≡ some new =
        get-write_all path targets (put path new files) away
        ∙ get-put path path new files
        ∙ rw (eq_refl path) refl in
      let target =
        safe_target-eq (write_all targets (put path new files)) change.path path now.part new
          now.located now.posix written
          (check_file-small now.part now.old new now.checked now.small) in
      let restored : put path now.old (write_all targets (put path new files))
          ≡ write_all targets files =
        put-write_all path now.old new targets (put path new files) away
          (get-put path path new files ∙ rw (eq_refl path) refl)
        ∙ ap (write_all targets)
            (put-put path now.old new files ∙ put-same path now.old files now.held) in
      let matches : differs h (put path now.old (write_all targets (put path new files))) path
            change.preimage_sha256
          ≡ false =
        differs-put h path change.preimage_sha256 now.old _ now.preimage in
      let onward = roll_back-write_all targets (change.path ∷ seen) backup files u n r in
      rw (roll_back, target) (rw now.saved (rw now.writable (rw matches (rw restored onward))))
