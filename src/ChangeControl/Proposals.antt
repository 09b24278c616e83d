-- ===== src/ChangeControl/Proposals.antt =====
-- `_validate_proposal` and `_generate_proposal`: the changes that a model proposes to the targets.
use palwakf_agentic_ai_syste.Prelude.{
  ℕ, ◌+◌, String, Bool, true, false, not, Option, none, some, List, [], ◌∷◌, ltb, length, contains,
  Result, ok, err, ◌>>=◌, ◌>>◌, raise_if, or_raise,
}
use palwakf_agentic_ai_syste.Prelude.Dict.{Dict, get, put}
use palwakf_agentic_ai_syste.Prelude.Json.{
  Json, string, array, object, Items, no_items, item, find, text_or,
}
use palwakf_agentic_ai_syste.Prelude.Utf8.{Bytes, utf8}
use palwakf_agentic_ai_syste.ChangeControl.Schema.{
  ChangeError, proposal_not_object, proposal_changes_required, proposal_change_not_object,
  proposal_path_not_authorized, proposal_duplicate_path, proposal_new_content_invalid,
  proposal_too_large, plan_not_found, accepted_plan_required, duplicate_target_file, os_error,
  EntityStatus, human_review, accepted, returned, rejected, Change, Proposal, Db, Host, sha256_text,
}
use palwakf_agentic_ai_syste.ChangeControl.Targets.{safe_target}
use palwakf_agentic_ai_syste.ChangeControl.Models.{approved_model}

abbrev pub max_proposal_bytes : ℕ
max_proposal_bytes = 700000

-- The new content of one change, if it is a text.
unfoldable pub content_of : Option Json → Result ChangeError String
content_of (some (string s)) = ok s
content_of _ = err proposal_new_content_invalid

-- The loop of `_validate_proposal`: `targets` has the digest of each target, `seen` the paths so far.
unfoldable pub normalize_changes :
    Host → Dict String → List String → ℕ → Items → Result ChangeError (List Change)
normalize_changes h targets seen total no_items = ok []
normalize_changes h targets seen total (item (object entry) items) = do
  let path = text_or h.str "" (find "path" entry)
  preimage ← or_raise (get path targets) proposal_path_not_authorized
  raise_if (contains path seen) proposal_duplicate_path
  new_content ← content_of (find "new_content" entry)
  let sum = total + length (utf8 new_content)
  raise_if (ltb max_proposal_bytes sum) proposal_too_large
  let change : Change = record {
    path = path;
    preimage_sha256 = preimage;
    new_content = new_content;
    postimage_sha256 = sha256_text h new_content;
    reason = text_or h.str "" (find "reason" entry);
  }
  rest ← normalize_changes h targets (path ∷ seen) sum items
  ok (change ∷ rest)
normalize_changes h targets seen total (item _ items) = err proposal_change_not_object

-- A list of changes that is not empty.
unfoldable pub changes_of : Option Json → Result ChangeError Items
changes_of (some (array (item value items))) = ok (item value items)
changes_of _ = err proposal_changes_required

-- `_validate_proposal`
unfoldable pub validate_proposal : Host → Dict String → Json → Result ChangeError (List Change)
validate_proposal h targets (object value) = do
  items ← changes_of (find "changes" value)
  normalize_changes h targets [] 0 items
validate_proposal h targets _ = err proposal_not_object

-- The loop over `request.target_files`: the digests of the targets. `decodes` is whether a file is UTF-8.
unfoldable pub collect_targets :
    Host
    → (Bytes → Bool)
    → Dict Bytes
    → List String
    → Dict String
    → Result ChangeError (Dict String)
collect_targets h decodes files [] targets = ok targets
collect_targets h decodes files (relative ∷ relatives) targets = do
  path ← safe_target h files relative
  raise_if (elim (get path targets) [ none ↦ false | some _ ↦ true ]) duplicate_target_file
  content ← or_raise (get path files) os_error
  raise_if (not (decodes content)) os_error
  collect_targets h decodes files relatives (put path (h.sha256 content) targets)

abbrev pub is_accepted : EntityStatus → Bool
is_accepted human_review = false
is_accepted accepted = true
is_accepted returned = false
is_accepted rejected = false

-- `_generate_proposal`
unfoldable pub generate_proposal :
    Host
    → (Bytes → Bool)
    → String
    → String
    → String
    → List String
    → Result ChangeError Json
    → Db
    → Result ChangeError (Proposal × Db)
generate_proposal h decodes proposal_id plan_id model_id target_files answer db = do
  plan ← or_raise (get plan_id db.plans) plan_not_found
  raise_if (not (is_accepted plan.status)) accepted_plan_required
  targets ← collect_targets h decodes db.disk.files target_files []
  model_digest ← approved_model model_id db
  model_value ← answer
  changes ← validate_proposal h targets model_value
  let proposal : Proposal = record {
    plan_id = plan_id;
    status = human_review;
    changes = changes;
    model_digest = model_digest;
    review = none;
    applied = false;
    proposal_sha256 = h.proposal_sha256 plan_id changes model_digest;
  }
  ok (proposal, record db { proposals = put proposal_id proposal db.proposals })
