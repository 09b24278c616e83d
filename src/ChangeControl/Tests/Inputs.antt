-- ===== src/ChangeControl/Tests/Inputs.antt =====
-- A host, the requests, and the states of one change of a file.
use palwakf_agentic_ai_syste.Prelude.{
  String, ◌≡◌, refl, ap, Bool, true, false, Option, none, some, List, [], ◌∷◌, ◌==◌, if◌then◌else◌,
  ok, arith, eq_iff,
}
use palwakf_agentic_ai_syste.Prelude.Dict.{Dict}
use palwakf_agentic_ai_syste.Prelude.Json.{
  Json, string, array, object, no_items, item, no_members, member,
}
use palwakf_agentic_ai_syste.Prelude.Utf8.{Bytes}
use palwakf_agentic_ai_syste.Agentic.Paths.{FilePath, starts_under, as_posix}
use palwakf_agentic_ai_syste.ChangeControl.Schema.{
  ModelState, registered, available, planning_approved, Model, EntityStatus, human_review, accepted,
  approved_for_apply, ReviewDetails, Review, review_of, Plan, Change, Proposal, Implementation, Db,
  Host,
}
use palwakf_agentic_ai_syste.ChangeControl.Targets.{below}
use palwakf_agentic_ai_syste.ChangeControl.Models.{ListedModel}
use palwakf_agentic_ai_syste.ChangeControl.Contexts.{Reader}
use palwakf_agentic_ai_syste.ChangeControl.Governance.{
  Call, models_probe, models_approve, context_packs_create, plans_generate, proposals_generate,
  implementations_prepare, handle,
}
use palwakf_agentic_ai_syste.ChangeControl.Governance.Proposed.{IsResolving}
use Prim.Native.String.{◌++◌ as concat}

-- Two files, below the root "w".
abbrev pub file_of : String → String
file_of name = if name == "a.py" then "a.py" else "b.py"

abbrev pub resolve : FilePath → FilePath
resolve [] = []
resolve (x ∷ []) = x ∷ []
resolve (x ∷ y ∷ rest) = x ∷ file_of y ∷ []

abbrev pub path_of : String → FilePath
path_of text = if text == "." then [] else text ∷ []

abbrev pub first_byte : Bytes → String
first_byte [] = "-"
first_byte (b ∷ bytes) = elim bytes [ [] ↦ "one" | c ∷ more ↦ "more" ]

abbrev pub host : Host
host = record {
  sys = record { path_of = path_of; resolve = resolve };
  project_root = "w" ∷ [];
  is_absolute = λ s. s == "/";
  is_directory = λ s. s == ".";
  write_fails = λ s. false;
  backup_fails = λ s. false;
  sha256 = first_byte;
  proposal_sha256 = λ plan changes digest. concat plan digest;
  str = λ value. "";
  search = λ pattern_ text. false;
}

abbrev pub reader : Reader
reader = record {
  tree = λ scope. ("a.py" ∷ []) ∷ [];
  decode = λ content. "a";
  replace = λ value new text. text;
  sub = λ pattern_ new text. text;
  roots = [];
}

abbrev pub decodes : Bytes → Bool
decodes content = true

pub host-IsResolving : IsResolving host
unfolding starts_under below as_posix
host-IsResolving = record { relative = relative_of; resolved = resolved_of }
  where
    relative_of :
        (path : FilePath)
        → starts_under ("w" ∷ []) (resolve path) ≡ true
        → (as_posix (below ("w" ∷ []) (resolve path)) == "/") ≡ false
    relative_of [] e = absurd (ground (arith, e))
    relative_of (x ∷ []) e = refl
    relative_of (x ∷ y ∷ rest) e =
        elim (y == "a.py") as (λ b. ((if b then "a.py" else "b.py") == "/") ≡ false) [
          | true ↦ refl
          | false ↦ refl
        ]

    resolved_of :
        (path : FilePath)
        → starts_under ("w" ∷ []) (resolve path) ≡ true
        → resolve ("w" ∷ path_of (as_posix (below ("w" ∷ []) (resolve path)))) ≡ resolve path
    resolved_of [] e = absurd (ground (arith, e))
    resolved_of (x ∷ []) e = let s : "w" ≡ x = ground (arith, e, eq_iff "w" x) in rw s refl
    resolved_of (x ∷ y ∷ rest) e =
        let s : "w" ≡ x = ground (arith, e, eq_iff "w" x) in
        elim (y == "a.py")
          as (λ b.
            resolve ("w" ∷ path_of (if b then "a.py" else "b.py"))
            ≡ x ∷ (if b then "a.py" else "b.py") ∷ []) [
              | true ↦ ap (λ z. z ∷ "a.py" ∷ []) s
              | false ↦ ap (λ z. z ∷ "b.py" ∷ []) s
            ]

-- The requests, and what the local model answers.
abbrev pub step_json : Json
step_json = object (
    member "title" (string "Rename")
      (member "recommended_tools" (array (item (string "semgrep") no_items)) no_members))

abbrev pub plan_json : Json
plan_json = object (
    member "goal_summary" (string "g") (
      member "assumptions" (array no_items) (
        member "constraints" (array no_items) (
          member "recommended_steps" (array (item step_json no_items)) (
            member "risks" (array no_items) (
              member "validation_plan" (array no_items)
                (member "human_decisions_required" (array no_items) no_members)))))))

abbrev pub proposal_json : Json
proposal_json = object (
    member "changes"
      (array (
        item
          (object (member "path" (string "a.py") (member "new_content" (string "bc") no_members)))
          no_items))
      no_members)

abbrev pub reviewed : ReviewDetails
reviewed = record { review_id = "r"; reviewed_by = "ab"; notes = ""; reviewed_at = "t" }

abbrev pub plan_reviewed : Review
plan_reviewed = review_of reviewed "plans" "p" "ACCEPT"

abbrev pub proposal_reviewed : Review
proposal_reviewed = review_of reviewed "proposals" "q" "ACCEPT"

abbrev pub tags : List ListedModel
tags = record { name = some "qwen2.5:3b"; model = none; digest = some "d" } ∷ []

abbrev pub after : Call → Db → Db
after call db = handle host reader decodes call db

abbrev pub models_with : ModelState → Option String → Option String → Option String → Dict Model
models_with state digest reference approved_by =
    (
      "qwen2.5:3b",
      record {
        state = state;
        digest = some "d";
        approved_digest = digest;
        approval_reference = reference;
        approved_by = approved_by;
      },
    )
    ∷ (
      "llama3.2:3b",
      record {
        state = registered;
        digest = none;
        approved_digest = none;
        approval_reference = none;
        approved_by = none;
      },
    )
    ∷ []

abbrev pub files_before : Dict Bytes
files_before = ("a.py", 97 ∷ []) ∷ []

abbrev pub probed : Db
probed = record {
  models = models_with available none none none;
  context_packs = [];
  plans = [];
  proposals = [];
  implementations = [];
  reviews = [];
  disk = record { files = files_before; backups = [] };
}

abbrev pub approved : Db
approved = record probed {
  models = models_with planning_approved (some "d") (some "ref") (some "ab");
}

abbrev pub shown : Db
shown = record approved {
  context_packs =
      (
        "c",
        record {
          goal = "goal";
          scope_relative = "a.py";
          files =
              record {
                path = "a.py";
                sha256 = "one";
                size_bytes = 1;
                redaction_applied = false;
                excerpt = "a";
              }
              ∷ [];
          quality_accepted_tools = [];
        },
      )
      ∷ [];
}

abbrev pub plan_of : EntityStatus → Option Review → Plan
plan_of status review = record {
  context_pack_id = "c";
  status = status;
  recommended_steps =
      record {
        step_id = "S1";
        title = "Rename";
        description = "";
        recommended_tools = "semgrep" ∷ [];
        requires_human_decision = true;
      }
      ∷ [];
  warnings = [];
  model_digest = "d";
  review = review;
}

abbrev pub planned : Db
planned = record shown { plans = ("p", plan_of human_review none) ∷ [] }

abbrev pub plan_accepted : Db
plan_accepted = record planned {
  plans = ("p", plan_of accepted (some plan_reviewed)) ∷ [];
  reviews = plan_reviewed ∷ [];
}

abbrev pub change : Change
change = record {
  path = "a.py";
  preimage_sha256 = "one";
  new_content = "bc";
  postimage_sha256 = "more";
  reason = "";
}

abbrev pub proposal_of : EntityStatus → Option Review → Proposal
proposal_of status review = record {
  plan_id = "p";
  status = status;
  changes = change ∷ [];
  model_digest = "d";
  review = review;
  applied = false;
  proposal_sha256 = "pd";
}

abbrev pub proposed : Db
proposed = record plan_accepted { proposals = ("q", proposal_of human_review none) ∷ [] }

abbrev pub proposal_accepted : Db
proposal_accepted = record proposed {
  proposals = ("q", proposal_of accepted (some proposal_reviewed)) ∷ [];
  reviews = plan_reviewed ∷ proposal_reviewed ∷ [];
}

abbrev pub implementation : Implementation
implementation = record {
  proposal_id = "q";
  status = approved_for_apply;
  approved_by = "ab";
  approval_reference = "ref";
  apply_token_sha256 = "more";
  apply_token = some "APPLY-token";
  proposal_sha256 = "pd";
  backup_root = none;
  review = none;
}

abbrev pub ready : Db
ready = record proposal_accepted { implementations = ("i", implementation) ∷ [] }

abbrev pub probe_call : Call
probe_call = models_probe tags

abbrev pub approve_call : Call
approve_call = models_approve "qwen2.5:3b" "ref" "ab"

abbrev pub context_call : Call
context_call = context_packs_create [] "c" "goal" "a.py"

abbrev pub plan_call : Call
plan_call = plans_generate "p" "c" "qwen2.5:3b" (ok plan_json)

abbrev pub proposal_call : Call
proposal_call = proposals_generate "q" "p" "qwen2.5:3b" ("a.py" ∷ []) (ok proposal_json)

abbrev pub prepare_call : Call
prepare_call = implementations_prepare "i" "APPLY-token" "q" "ab" "ref"
