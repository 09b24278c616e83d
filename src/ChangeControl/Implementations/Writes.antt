-- ===== src/ChangeControl/Implementations/Writes.antt =====
-- What the `try` block of `_apply_implementation` leaves when it ends: every file with its new content, and the
-- old contents in the backup.
use palwakf_agentic_ai_syste.Prelude.{
  String, ◌≡◌, refl, sym, ap, ◌∙◌, true, false, Option, some, List, [], ◌∷◌, ◌==◌, inl, inr,
  if◌then◌else◌, ok, arith, eq_iff, eq_refl, All, contains, Option-cases,
}
use palwakf_agentic_ai_syste.Prelude.Dict.{Dict, get, put, get-put, put_comm}
use palwakf_agentic_ai_syste.Prelude.Utf8.{Bytes, utf8}
use palwakf_agentic_ai_syste.ChangeControl.Schema.{Change, Host}
use palwakf_agentic_ai_syste.ChangeControl.Implementations.{Work, apply_changes}
use palwakf_agentic_ai_syste.ChangeControl.Implementations.Restore.{AreUnseen}

-- The files with every target's new content.
abbrev pub write_all : List (String × Change) → Dict Bytes → Dict Bytes
write_all [] files = files
write_all ((path, change) ∷ targets) files =
    write_all targets (put path (utf8 change.new_content) files)

get-put-other :
    (j k : String) (content : Bytes) (d : Dict Bytes)
    → (k == j) ≡ false
    → get k (put j content d) ≡ get k d
get-put-other j k content d a = get-put j k content d ∙ passed j k content (get k d) a
  where
    passed :
        (i l : String) (c : Bytes) (found : Option Bytes)
        → (l == i) ≡ false
        → (if i == l then some c else found) ≡ found
    passed i l c found b = ground (arith, eq_iff l i, eq_iff i l)

-- A path that is not among the targets' paths.
abbrev pub IsApart : String → List (String × Change) → Type 0
IsApart path targets = All (λ t. (path == t.0) ≡ false) targets

-- A target is found under the path that its change names.
abbrev pub IsNamed : String × Change → Type 0
IsNamed target = target.0 ≡ target.1.path

pub IsApart-of_AreUnseen :
    (path : String) (targets : List (String × Change)) (seen : List String)
    → contains path seen ≡ true
    → AreUnseen targets seen
    → All IsNamed targets
    → IsApart path targets
unfolding contains
IsApart-of_AreUnseen path [] seen h u n = tt
IsApart-of_AreUnseen path ((p, change) ∷ targets) seen h (fresh, u) (named, n) =
    let apart : (path == p) ≡ false = rw named (apart_of path change.path seen h fresh) in
    let rest = IsApart-of_AreUnseen path targets (change.path ∷ seen) (ground (arith, h)) u n in
    (apart, rest)
  where
    apart_of :
        (k j : String) (xs : List String)
        → contains k xs ≡ true
        → contains j xs ≡ false
        → (k == j) ≡ false
    apart_of k j xs e f = ground (arith, eq_iff k j)

pub get-write_all :
    (path : String) (targets : List (String × Change)) (files : Dict Bytes)
    → IsApart path targets
    → get path (write_all targets files) ≡ get path files
get-write_all path [] files a = refl
get-write_all path ((p, change) ∷ targets) files (a, rest) =
    get-write_all path targets (put p (utf8 change.new_content) files) rest
    ∙ get-put-other p path (utf8 change.new_content) files a

pub put-write_all :
    (path : String) (content old : Bytes) (targets : List (String × Change)) (files : Dict Bytes)
    → IsApart path targets
    → get path files ≡ some old
    → put path content (write_all targets files) ≡ write_all targets (put path content files)
put-write_all path content old [] files a h = refl
put-write_all path content old ((p, change) ∷ targets) files (a, rest) h =
    let new = utf8 change.new_content in
    let still : get path (put p new files) ≡ some old = get-put-other p path new files a ∙ h in
    put-write_all path content old targets (put p new files) rest still
    ∙ rw (put_comm path p content new old files a h) refl

unnamed :
    (path : String) (targets : List (String × Change))
    → IsApart path targets
    → All IsNamed targets
    → All (λ t. (path == t.1.path) ≡ false) targets
unnamed path [] a n = tt
unnamed path (t ∷ targets) (a, rest) (named, n) =
    ((ap (λ p. path == p) (sym named)) ∙ a, unnamed path targets rest n)

pub contains-head : (x : String) (xs : List String) → contains x (x ∷ xs) ≡ true
unfolding contains
contains-head x xs = rw (eq_refl x) refl

apart_sym : (k j : String) → (k == j) ≡ false → (j == k) ≡ false
apart_sym k j a = ground (arith, eq_iff k j, eq_iff j k)

-- The backup of the other targets, seen from before a write.
carried :
    (targets : List (String × Change)) (path : String) (content : Bytes)
    (files backup other : Dict Bytes)
    → backup ≡ other
    → IsApart path targets
    → All (λ t. get t.1.path backup ≡ get t.0 (put path content files)) targets
    → All (λ t. get t.1.path other ≡ get t.0 files) targets
carried [] path content files backup other same a g = tt
carried ((p, change) ∷ targets) path content files backup other same (a, rest) (e, g) = (
  ap (get change.path) (sym same) ∙ e ∙ get-put-other path p content files (apart_sym path p a),
  carried targets path content files backup other same rest g,
)

-- One round that does not raise.
abbrev written : Work → String → Change → Bytes → Work
written work path change content = record {
  files = put path (utf8 change.new_content) work.files;
  backup = put change.path content work.backup;
}

module _ (h : Host) where
  apply_changes-nil :
      (applied : List (String × String)) (work : Work)
      → apply_changes h [] applied work ≡ (ok tt, work)
  unfolding apply_changes
  apply_changes-nil applied work = refl

  apply_changes-step :
      (path : String) (change : Change) (targets : List (String × Change))
      (applied : List (String × String)) (work : Work)
      → (apply_changes h ((path, change) ∷ targets) applied work).0 ≡ ok tt
      → (content : Bytes) × (get path work.files ≡ some content)
        × (apply_changes h ((path, change) ∷ targets) applied work
            ≡ apply_changes h targets
                ((path, change.path) ∷ applied)
                (written work path change content))
  unfolding apply_changes
  apply_changes-step path change targets applied work q =
      elim (Option-cases (get path work.files)) [
        | inl absent ↦ absurd (ground arith)
        | inr (content, held) ↦ (content, held, ground arith)
      ]

  pub apply_changes-files :
      (targets : List (String × Change)) (applied : List (String × String)) (work : Work)
      → (apply_changes h targets applied work).0 ≡ ok tt
      → (apply_changes h targets applied work).1.files ≡ write_all targets work.files
  apply_changes-files [] applied work q = rw apply_changes-nil refl
  apply_changes-files ((path, change) ∷ targets) applied work q =
      let (content, held, same) = apply_changes-step path change targets applied work q in
      let onward = sym (ap (λ r. r.0) same) ∙ q in
      ap (λ r. r.1.files) same
      ∙ apply_changes-files targets ((path, change.path) ∷ applied)
          (written work path change content) onward

  -- The backup of a path that no target names is as before.
  apply_changes-other :
      (key : String) (targets : List (String × Change)) (applied : List (String × String))
      (work : Work)
      → (apply_changes h targets applied work).0 ≡ ok tt
      → All (λ t. (key == t.1.path) ≡ false) targets
      → get key (apply_changes h targets applied work).1.backup ≡ get key work.backup
  apply_changes-other key [] applied work q a = rw apply_changes-nil refl
  apply_changes-other key ((path, change) ∷ targets) applied work q (a, rest) =
      let (content, held, same) = apply_changes-step path change targets applied work q in
      let onward = sym (ap (λ r. r.0) same) ∙ q in
      ap (λ r. get key r.1.backup) same
      ∙ apply_changes-other key targets ((path, change.path) ∷ applied)
          (written work path change content) onward rest
      ∙ get-put-other change.path key content work.backup a

  -- Each target's old content is in the backup under the path of its change.
  pub apply_changes-backup :
      (targets : List (String × Change)) (seen : List String) (applied : List (String × String))
      (work : Work)
      → (apply_changes h targets applied work).0 ≡ ok tt
      → AreUnseen targets seen
      → All IsNamed targets
      → All
          (λ t. get t.1.path (apply_changes h targets applied work).1.backup ≡ get t.0 work.files)
          targets
  apply_changes-backup [] seen applied work q u n = tt
  apply_changes-backup ((path, change) ∷ targets) seen applied work q (fresh, u) (named, n) =
      let (content, held, same) = apply_changes-step path change targets applied work q in
      let onward = sym (ap (λ r. r.0) same) ∙ q in
      let next = written work path change content in
      let apart =
        IsApart-of_AreUnseen change.path targets (change.path ∷ seen)
          (contains-head change.path seen) u n in
      let kept =
        apply_changes-other change.path targets ((path, change.path) ∷ applied) next onward
          (unnamed change.path targets apart n) in
      let found : get change.path next.backup ≡ some content =
        get-put change.path change.path content work.backup ∙ rw (eq_refl change.path) refl in
      (
        ap (λ r. get change.path r.1.backup) same ∙ kept ∙ found ∙ sym held,
        carried targets path (utf8 change.new_content) work.files
            (apply_changes h targets ((path, change.path) ∷ applied) next).1.backup
            (apply_changes h ((path, change) ∷ targets) applied work).1.backup
            (sym (ap (λ r. r.1.backup) same)) (rw named apart)
            (apply_changes-backup targets (change.path ∷ seen) ((path, change.path) ∷ applied) next
              onward u n),
      )
