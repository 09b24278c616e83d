-- ===== src/ChangeControl/Implementations.antt =====
-- `_prepare_implementation`, `_apply_implementation` and `_review_implementation`: an accepted proposal is
-- applied to the files, each kept in a backup, and accepted or rolled back. The ids and the token that a call
-- draws are arguments; writing the JSON files does not fail.
pub mod Restore
pub mod Writes
pub mod Rollback
pub mod Found
pub mod Checked
pub mod Transaction
pub mod Applied
pub mod Reviewed
pub mod Reversal
pub mod Returns
pub mod Progress
use palwakf_agentic_ai_syste.Prelude.{
  ℕ, String, Bool, true, false, not, Option, none, some, List, [], ◌∷◌, ◌++◌, ◌==◌, if◌then◌else◌,
  Result, ok, err, ◌>>=◌, ◌>>◌, raise_if, or_raise,
}
use palwakf_agentic_ai_syste.Prelude.Dict.{Dict, get, put}
use palwakf_agentic_ai_syste.Prelude.Utf8.{Bytes, utf8}
use palwakf_agentic_ai_syste.ChangeControl.Schema.{
  ChangeError, path_not_found, accepted_proposal_required, proposal_not_found,
  proposal_already_applied, proposal_preimage_stale, implementation_not_found,
  implementation_not_ready_for_apply, apply_token_mismatch, implementation_proposal_hash_mismatch,
  implementation_preimage_stale, os_error, postimage_hash_mismatch,
  implementation_not_ready_for_review, rollback_postimage_changed, rollback_backup_missing,
  rollback_preimage_hash_mismatch, ImplementationDecision, accept_implementation, rollback,
  ImplementationStatus, approved_for_apply, applied_awaiting_review, rolled_back,
  accepted_implementation, Review, Change, Proposal, Implementation, Disk, Db, Host, sha256_text,
}
use palwakf_agentic_ai_syste.ChangeControl.Targets.{safe_target}
use palwakf_agentic_ai_syste.ChangeControl.Proposals.{is_accepted}

-- `_sha256_file(path) != digest`
abbrev pub differs : Host → Dict Bytes → String → String → Bool
differs h files path digest = elim (get path files) [
  | none ↦ true
  | some content ↦ not (h.sha256 content == digest)
]

-- The loops that locate the files of a proposal and compare their digests with `expected`.
unfoldable pub locate_changes :
    Host
    → (Change → String)
    → ChangeError
    → Dict Bytes
    → List Change
    → Result ChangeError (List (String × Change))
locate_changes h expected stale files [] = ok []
locate_changes h expected stale files (change ∷ changes) = do
  path ← safe_target h files change.path
  raise_if (differs h files path (expected change)) stale
  rest ← locate_changes h expected stale files changes
  ok ((path, change) ∷ rest)

-- `_prepare_implementation`
unfoldable pub prepare_implementation :
    Host
    → String
    → String
    → String
    → String
    → String
    → Db
    → Result ChangeError (Implementation × Db)
prepare_implementation h implementation_id apply_token proposal_id approved_by reference db = do
  proposal ← or_raise (get proposal_id db.proposals) proposal_not_found
  raise_if (not (is_accepted proposal.status)) accepted_proposal_required
  raise_if proposal.applied proposal_already_applied
  targets ←
      locate_changes h (λ c. c.preimage_sha256) proposal_preimage_stale db.disk.files
        proposal.changes
  let implementation : Implementation = record {
    proposal_id = proposal_id;
    status = approved_for_apply;
    approved_by = approved_by;
    approval_reference = reference;
    apply_token_sha256 = sha256_text h apply_token;
    apply_token = some apply_token;
    proposal_sha256 = proposal.proposal_sha256;
    backup_root = none;
    review = none;
  }
  ok (
    implementation,
    record db { implementations = put implementation_id implementation db.implementations },
  )

-- The files and the backups of one implementation.
pub record Work : Type 0 where
  pub files : Dict Bytes
  pub backup : Dict Bytes

-- The `except` block: the files applied so far, the last one first, get their backups back. These paths were
-- written before, and a path that can be written once is taken to be writable again.
unfoldable pub restore : List (String × String) → Dict Bytes → Dict Bytes → Dict Bytes
restore [] backup files = files
restore ((path, saved) ∷ applied) backup files =
    restore applied backup
      (elim (get saved backup) [ none ↦ files | some content ↦ put path content files ])

-- The `except` block, and the `raise` at its end.
abbrev pub undo : ChangeError → List (String × String) → Work → Result ChangeError (Unit {0}) × Work
undo e applied work = (err e, record work { files = restore applied work.backup work.files })

-- The `try` block of `_apply_implementation`.
unfoldable pub apply_changes :
    Host
    → List (String × Change)
    → List (String × String)
    → Work
    → Result ChangeError (Unit {0}) × Work
apply_changes h [] applied work = (ok tt, work)
apply_changes h ((path, change) ∷ targets) applied work = elim (get path work.files) [
  | none ↦ undo os_error applied work
  | some content ↦
      let saved = record work { backup = put change.path content work.backup } in
      let written = record saved { files = put path (utf8 change.new_content) work.files } in
      let rest = apply_changes h targets ((path, change.path) ∷ applied) written in
      if h.backup_fails change.path
      then undo os_error applied work
      else if h.write_fails path
      then undo os_error applied saved
      else if differs h written.files path change.postimage_sha256
      then undo postimage_hash_mismatch applied written
      else rest
]

abbrev pub is_approved_for_apply : ImplementationStatus → Bool
is_approved_for_apply approved_for_apply = true
is_approved_for_apply _ = false

abbrev pub is_awaiting_review : ImplementationStatus → Bool
is_awaiting_review applied_awaiting_review = true
is_awaiting_review _ = false

-- An accepted proposal: `not proposal or proposal.get("status") != "ACCEPTED"` raises.
unfoldable pub accepted_proposal : String → Db → Result ChangeError Proposal
accepted_proposal proposal_id db = do
  proposal ← or_raise (get proposal_id db.proposals) accepted_proposal_required
  raise_if (not (is_accepted proposal.status)) accepted_proposal_required
  ok proposal

-- The checks of `_apply_implementation` that precede its writes.
unfoldable pub check_apply :
    Host
    → String
    → String
    → Db
    → Result ChangeError (Implementation × Proposal × List (String × Change))
check_apply h implementation_id apply_token db = do
  implementation ← or_raise (get implementation_id db.implementations) implementation_not_found
  raise_if (not (is_approved_for_apply implementation.status)) implementation_not_ready_for_apply
  raise_if (not (sha256_text h apply_token == implementation.apply_token_sha256))
      apply_token_mismatch
  proposal ← accepted_proposal implementation.proposal_id db
  raise_if (not (proposal.proposal_sha256 == implementation.proposal_sha256))
      implementation_proposal_hash_mismatch
  targets ←
      locate_changes h (λ c. c.preimage_sha256) implementation_preimage_stale db.disk.files
        proposal.changes
  ok (implementation, proposal, targets)

abbrev pub backup_of : String → Db → Dict Bytes
backup_of implementation_id db = elim (get implementation_id db.disk.backups) [
  | none ↦ []
  | some backup ↦ backup
]

-- The disk after the `try` block, raised or not.
abbrev pub with_work : String → Work → Db → Db
with_work implementation_id work db = record db {
  disk = record { files = work.files; backups = put implementation_id work.backup db.disk.backups };
}

-- What follows the `try` block of `_apply_implementation`, where the writes of the JSON state, and `_relative` of
-- the backup folder, are taken to succeed.
unfoldable pub record_applied : String → Implementation → Proposal → Db → Implementation × Db
record_applied implementation_id implementation proposal db =
    let applied : Implementation = record implementation {
      status = applied_awaiting_review;
      backup_root = some implementation_id;
      apply_token = none;
    } in
    (
      applied,
      record db {
        implementations = put implementation_id applied db.implementations;
        proposals =
            put implementation.proposal_id (record proposal { applied = true }) db.proposals;
      },
    )

-- The `try` block and what follows it.
unfoldable pub perform :
    Host
    → String
    → Implementation
    → Proposal
    → List (String × Change)
    → Db
    → Result ChangeError Implementation × Db
perform h implementation_id implementation proposal targets db =
    let done =
      apply_changes h targets []
        (record { files = db.disk.files; backup = backup_of implementation_id db }) in
    let left = with_work implementation_id done.1 db in
    elim done.0 [
      | err e ↦ (err e, left)
      | ok _ ↦
          let recorded = record_applied implementation_id implementation proposal left in
          (ok recorded.0, recorded.1)
    ]

-- `_apply_implementation`
unfoldable pub apply_implementation :
    Host → String → String → Db → Result ChangeError Implementation × Db
apply_implementation h implementation_id apply_token db =
    elim (check_apply h implementation_id apply_token db) [
      | err e ↦ (err e, db)
      | ok (implementation, proposal, targets) ↦
          perform h implementation_id implementation proposal targets db
    ]
