-- ===== src/ChangeControl/Implementations/Restore.antt =====
-- What the `except` block of `_apply_implementation` leaves of the files.
use palwakf_agentic_ai_syste.Prelude.{
  String, ◌≡◌, refl, ◌∙◌, false, some, List, [], ◌∷◌, map, ◌==◌, inl, inr, err, arith, eq_refl, All,
  contains, Option-cases,
}
use palwakf_agentic_ai_syste.Prelude.Dict.{Dict, get, put, get-put, put-same, put-put}
use palwakf_agentic_ai_syste.Prelude.Utf8.{Bytes, utf8}
use palwakf_agentic_ai_syste.ChangeControl.Schema.{ChangeError, Change, Host, sha256_text}
use palwakf_agentic_ai_syste.ChangeControl.Implementations.{differs, Work, restore, apply_changes}

abbrev saved_of : List (String × String) → List String
saved_of applied = map (λ a. a.1) applied

-- The targets have different paths, none of them among `seen`.
abbrev pub AreUnseen : List (String × Change) → List String → Type 0
AreUnseen [] seen = Unit
AreUnseen ((path, change) ∷ targets) seen =
    (contains change.path seen ≡ false) × AreUnseen targets (change.path ∷ seen)

-- The digest after the change is that of the new content.
abbrev pub IsDigested : Host → String × Change → Type 0
IsDigested h target = target.1.postimage_sha256 ≡ sha256_text h target.1.new_content

restore-put :
    (applied : List (String × String)) (saved : String) (content : Bytes)
    (backup files : Dict Bytes)
    → contains saved (saved_of applied) ≡ false
    → restore applied (put saved content backup) files ≡ restore applied backup files
unfolding restore contains
restore-put [] saved content backup files h = refl
restore-put ((path, other) ∷ applied) saved content backup files h =
    let apart : (saved == other) ≡ false = ground arith in
    rw (get-put saved other content backup, apart)
      (restore-put applied saved content backup _ (ground arith))

-- Undoing one more write.
restore-written :
    (applied : List (String × String)) (path saved : String) (content new : Bytes)
    (backup files : Dict Bytes)
    → contains saved (saved_of applied) ≡ false
    → get path files ≡ some content
    → restore ((path, saved) ∷ applied) (put saved content backup) (put path new files)
      ≡ restore applied backup files
unfolding restore
restore-written applied path saved content new backup files fresh held =
    let found : get saved (put saved content backup) ≡ some content =
      get-put saved saved content backup ∙ rw (eq_refl saved) refl in
    rw (restore, found)
      (rw (put-put path content new files, put-same path content files held)
        (restore-put applied saved content backup files fresh))

pub differs-put :
    (h : Host) (path digest : String) (content : Bytes) (files : Dict Bytes)
    → digest ≡ h.sha256 content
    → differs h (put path content files) path digest ≡ false
differs-put h path digest content files e =
    let found : get path (put path content files) ≡ some content =
      get-put path path content files ∙ rw (eq_refl path) refl in
    rw (differs, found) (rw (e, eq_refl (h.sha256 content)) refl)

module _ (h : Host) where
  -- Whichever write fails, the files are as they were before the first one.
  pub apply_changes-undo :
      (targets : List (String × Change)) (applied : List (String × String)) (work : Work)
      (original : Dict Bytes) (e : ChangeError)
      → AreUnseen targets (saved_of applied)
      → All (IsDigested h) targets
      → restore applied work.backup work.files ≡ original
      → (apply_changes h targets applied work).0 ≡ err e
      → (apply_changes h targets applied work).1.files ≡ original
  unfolding apply_changes
  apply_changes-undo [] applied work original e u d r q = absurd (ground arith)
  apply_changes-undo ((path, change) ∷ targets) applied work original e (fresh, u) (digest, d) r q =
      elim (Option-cases (get path work.files)) [
        | inl absent ↦ ground (arith, restore-put applied change.path [] work.backup work.files)
        | inr (content, held) ↦
            let saved = record work { backup = put change.path content work.backup } in
            let written = record saved { files = put path (utf8 change.new_content) work.files } in
            let back = restore-put applied change.path content work.backup work.files fresh ∙ r in
            let matches =
              differs-put h path change.postimage_sha256 (utf8 change.new_content) work.files
                digest in
            let again : restore ((path, change.path) ∷ applied) written.backup written.files
                ≡ original =
              restore-written applied path change.path content (utf8 change.new_content) work.backup
                work.files fresh held
              ∙ r in
            let rest =
              apply_changes-undo targets ((path, change.path) ∷ applied) written original e u d
                again in
            ground (arith, back, matches, rest)
      ]
