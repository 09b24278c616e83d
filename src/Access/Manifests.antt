-- ===== src/Access/Manifests.antt =====
-- legacy_write_authorization.py: the classification that the manifest of a workspace gives.
use palwakf_agentic_ai_syste.Prelude.{
  String, ◌≡◌, true, not, Option, none, some, List, [], ◌∷◌, eq_iff, contains, contains→Elem, Elem,
  ok, >>=-eq-ok, raise_if-eq-ok, arith,
}
use palwakf_agentic_ai_syste.Prelude.Text.{strip, lower}
use palwakf_agentic_ai_syste.Access.{
  WorkspaceManifest, JsonFile, missing, malformed, holds, opt_is, workspace_classification,
  read_json, workspace_manifest_not_configured, workspace_manifest_invalid,
  workspace_manifest_id_mismatch, workspace_classification_invalid,
}

pub opt_is→eq : (o : Option String) (s : String) → opt_is o s ≡ true → o ≡ some s
opt_is→eq none s h = absurd (ground arith)
opt_is→eq (some t) s h = ground (arith, eq_iff t s)

-- The manifest of a workspace names the workspace, and has the classification, one of the four.
abbrev pub IsClassified : JsonFile WorkspaceManifest → String → String → Type 0
IsClassified file workspace classification =
    (document : WorkspaceManifest) × (file ≡ holds document)
    × (document.workspace_id ≡ some workspace)
    × (classification ≡ lower (strip document.classification))
    × Elem classification ("government" ∷ "personal" ∷ "research" ∷ "commercial" ∷ [])

pub workspace_classification-eq-ok :
    (manifests : String → JsonFile WorkspaceManifest) (workspace classification : String)
    → workspace_classification manifests workspace ≡ ok classification
    → IsClassified (manifests workspace) workspace classification
unfolding workspace_classification
workspace_classification-eq-ok manifests workspace classification e =
    let (document, r, e1) =
      >>=-eq-ok
        (read_json (manifests workspace) workspace_manifest_not_configured
          workspace_manifest_invalid)
        _ e in
    let (named, e2) =
      raise_if-eq-ok (not (opt_is document.workspace_id workspace)) workspace_manifest_id_mismatch _
        e1 in
    let kind = lower (strip document.classification) in
    let kinds : List String = "government" ∷ "personal" ∷ "research" ∷ "commercial" ∷ [] in
    let (known, e3) =
      raise_if-eq-ok (not (contains kind kinds)) workspace_classification_invalid _ e2 in
    let same : classification ≡ kind = ground arith in
    (
      document,
      read (manifests workspace) document r,
      opt_is→eq document.workspace_id workspace (ground arith),
      same,
      rw same (contains→Elem kind kinds (ground arith)),
    )
  where
    read :
        (file : JsonFile WorkspaceManifest) (document : WorkspaceManifest)
        → read_json file workspace_manifest_not_configured workspace_manifest_invalid ≡ ok document
        → file ≡ holds document
    read missing document h = absurd (ground arith)
    read malformed document h = absurd (ground arith)
    read (holds found) document h = ground arith
