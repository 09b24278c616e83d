-- ===== src/ChangeControl/Implementations/Returns.antt =====
-- When the checks and the writes of `_apply_implementation` succeed.
use palwakf_agentic_ai_syste.Prelude.{
  String, ◌≡◌, refl, ap, ◌∙◌, Bool, true, false, some, List, [], ◌∷◌, map, ◌==◌, if◌then◌else◌, ok,
  arith, eq_refl, All, >>=-eq-ok, raise_if-eq-ok,
}
use palwakf_agentic_ai_syste.Prelude.Dict.{Dict, get, put, get-put}
use palwakf_agentic_ai_syste.Prelude.Utf8.{Bytes, utf8}
use palwakf_agentic_ai_syste.ChangeControl.Schema.{
  ChangeError, Change, Proposal, Implementation, Db, Host,
}
use palwakf_agentic_ai_syste.ChangeControl.Targets.{safe_target}
use palwakf_agentic_ai_syste.ChangeControl.Implementations.{
  differs, locate_changes, Work, apply_changes, accepted_proposal, check_apply,
}
use palwakf_agentic_ai_syste.ChangeControl.Implementations.Restore.{IsDigested, differs-put}
use palwakf_agentic_ai_syste.ChangeControl.Implementations.Writes.{IsNamed}
use palwakf_agentic_ai_syste.ChangeControl.Implementations.Found.{IsFound, ok_inj}
use palwakf_agentic_ai_syste.ChangeControl.Implementations.Checked.{IsChecked}

-- A file is there.
abbrev pub IsHeld : Dict Bytes → String → Type 0
IsHeld files path = (content : Bytes) × (get path files ≡ some content)

IsHeld-put :
    (files : Dict Bytes) (path other : String) (content : Bytes)
    → IsHeld files path
    → IsHeld (put other content files) path
IsHeld-put files path other content (old, g) =
    held (other == path) (get-put other path content files)
  where
    held :
        (b : Bool)
        → get path (put other content files) ≡ (if b then some content else get path files)
        → IsHeld (put other content files) path
    held true e = (content, e)
    held false e = (old, e ∙ g)

all-IsHeld-put :
    (files : Dict Bytes) (targets : List (String × Change)) (other : String) (content : Bytes)
    → All (λ t. IsHeld files t.0) targets
    → All (λ t. IsHeld (put other content files) t.0) targets
all-IsHeld-put files [] other content a = tt
all-IsHeld-put files (t ∷ targets) other content (p, a) =
    (IsHeld-put files t.0 other content p, all-IsHeld-put files targets other content a)

module _ (h : Host) where
  -- The disk takes the backups and the writes of these targets.
  abbrev pub IsWritable : String × Change → Type 0
  IsWritable target = (h.backup_fails target.1.path ≡ false) × (h.write_fails target.0 ≡ false)

  pub apply_changes-returns :
      (targets : List (String × Change)) (applied : List (String × String)) (work : Work)
      → All (λ t. IsHeld work.files t.0) targets
      → All (IsDigested h) targets
      → All IsWritable targets
      → (apply_changes h targets applied work).0 ≡ ok tt
  unfolding apply_changes
  apply_changes-returns [] applied work p d w = refl
  apply_changes-returns ((path, change) ∷ targets) applied work ((content, held), p) (digest, d)
        ((backs, writes), w) =
      let files = put path (utf8 change.new_content) work.files in
      let backup = put change.path content work.backup in
      let matches =
        differs-put h path change.postimage_sha256 (utf8 change.new_content) work.files digest in
      let rest =
        apply_changes-returns targets ((path, change.path) ∷ applied)
          (record { files = files; backup = backup })
          (all-IsHeld-put work.files targets path (utf8 change.new_content) p) d w in
      rw (held, apply_changes) (rw backs (rw writes (rw matches rest)))

  pub found-IsHeld :
      (files : Dict Bytes) (targets : List (String × Change))
      → All (IsFound h files) targets
      → All (λ t. IsHeld files t.0) targets
  found-IsHeld files [] f = tt
  found-IsHeld files (t ∷ targets) (f, fs) = ((f.old, f.held), found-IsHeld files targets fs)

  pub locate_changes-stale :
      (expected : Change → String) (stale other : ChangeError) (files : Dict Bytes)
      (changes : List Change) (targets : List (String × Change))
      → locate_changes h expected stale files changes ≡ ok targets
      → locate_changes h expected other files changes ≡ ok targets
  unfolding locate_changes
  locate_changes-stale expected stale other files [] targets e = ground (arith, e)
  locate_changes-stale expected stale other files (change ∷ changes) targets e =
      let (path, s, e1) = >>=-eq-ok (safe_target h files change.path) _ e in
      let (same, e2) = raise_if-eq-ok (differs h files path (expected change)) stale _ e1 in
      let (rest, r, e3) = >>=-eq-ok (locate_changes h expected stale files changes) _ e2 in
      let again = locate_changes-stale expected stale other files changes rest r in
      rw (s, locate_changes) (rw same (rw again (ground (arith, ok_inj _ _ e3))))

  pub check_apply-returns :
      (implementation_id apply_token : String) (db : Db) (implementation : Implementation)
      (proposal : Proposal) (targets : List (String × Change))
      → IsChecked h implementation_id apply_token db implementation proposal targets
      → check_apply h implementation_id apply_token db ≡ ok (implementation, proposal, targets)
  unfolding check_apply accepted_proposal
  check_apply-returns implementation_id apply_token db implementation proposal targets c =
      rw (c.found, check_apply)
        (rw c.approved (
          rw (c.token, eq_refl implementation.apply_token_sha256)
            (rw (c.proposed, accepted_proposal)
              (rw c.is_accepted_ (
                rw (c.same_proposal, eq_refl implementation.proposal_sha256)
                  (rw c.located refl))))))

  -- The disk takes the backups and the writes of these changes.
  abbrev pub AreWritable : List Change → Type 0
  AreWritable changes =
      All (λ c. (h.backup_fails c.path ≡ false) × (h.write_fails c.path ≡ false)) changes

  pub targets-IsWritable :
      (targets : List (String × Change))
      → All IsNamed targets
      → AreWritable (map (λ t. t.1) targets)
      → All IsWritable targets
  targets-IsWritable [] n w = tt
  targets-IsWritable ((path, change) ∷ targets) (n, ns) ((backs, writes), w) =
      ((backs, ap h.write_fails n ∙ writes), targets-IsWritable targets ns w)
