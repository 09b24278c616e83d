-- ===== src/ChangeControl/Plans.antt =====
-- `_validate_plan`, `_generate_plan` and `_review_entity`. What the local model answers, read as JSON, is an
-- argument; so are the ids that a call draws.
use palwakf_agentic_ai_syste.Prelude.{
  ℕ, zero, suc, ◌/◌, ◌%◌, String, Bool, true, false, not, Option, none, some, List, [], ◌∷◌, ◌++◌,
  any, if◌then◌else◌, ltb, contains, is_empty, Result, ok, err, ◌>>=◌, ◌>>◌, raise_if, or_raise,
}
use palwakf_agentic_ai_syste.Prelude.Dict.{get, put}
use palwakf_agentic_ai_syste.Prelude.Text.{lower, sorted_set}
use palwakf_agentic_ai_syste.Prelude.Json.{
  Json, string, array, object, Items, no_items, item, Members, find, is_truthy, text_or, texts_of,
}
use palwakf_agentic_ai_syste.ChangeControl.Schema.{
  ChangeError, context_pack_not_found, plan_schema_missing, plan_schema_invalid, plan_not_object,
  plan_step_not_object, plan_step_tools_invalid, plan_unknown_tools,
  plan_forbidden_execution_instruction, entity_not_found, entity_not_ready_for_review,
  ReviewDecision, accept, return, reject, EntityStatus, human_review, accepted, returned, rejected,
  ReviewDetails, review_of, decision_text, PlanStep, Plan, Db, Host,
}
use palwakf_agentic_ai_syste.ChangeControl.Models.{approved_model}
use Prim.Native.String.{◌++◌ as concat}

-- `ALLOWED_TOOLS`
abbrev pub allowed_tools : List String
allowed_tools =
    "project_summary" ∷ "route_index" ∷ "component_index" ∷ "symbol_index" ∷ "docs_index"
    ∷ "file_metadata" ∷ "project_reader" ∷ "route_reader" ∷ "semgrep" ∷ "gitleaks" ∷ []

-- `forbidden`
abbrev pub forbidden : List String
forbidden =
    "\\bpowershell\\b" ∷ "\\bcmd\\.exe\\b" ∷ "\\bbash\\b" ∷ "\\bshell\\b"
    ∷ "\\bgit\\s+(commit|push|checkout|reset|merge)\\b" ∷ "\\bcurl\\b" ∷ "\\bwget\\b"
    ∷ "\\bself[- ]?apply\\b" ∷ "\\bdelete\\s+(file|directory|source)\\b" ∷ []

-- `str(n)` of a number
unfoldable pub decimal_digits : ℕ → ℕ → String
decimal_digits zero n = ""
decimal_digits (suc fuel) n =
    let rest = decimal_digits fuel (n / 10) in
    let digit = n % 10 in
    concat (if ltb n 10 then "" else rest) (
      if ltb digit 5
      then (if ltb digit 1
          then "0"
          else if ltb digit 2
          then "1"
          else if ltb digit 3
          then "2"
          else if ltb digit 4
          then "3"
          else "4")
      else if ltb digit 6
      then "5"
      else if ltb digit 7
      then "6"
      else if ltb digit 8
      then "7"
      else if ltb digit 9
      then "8"
      else "9")

abbrev pub decimal : ℕ → String
decimal n = decimal_digits (suc n) n

-- `isinstance(value, list) and all(isinstance(item, str) for item in value)`
unfoldable pub texts : Option Json → Option (List String)
texts none = none
texts (some (array items)) = texts_of items
texts (some _) = none

-- The first loop of `_validate_plan`
unfoldable pub check_required : List String → Members → Result ChangeError (Unit {0})
check_required [] value = ok tt
check_required (key ∷ keys) value = elim (find key value) [
  | none ↦ err (plan_schema_missing key)
  | some _ ↦ check_required keys value
]

-- The second
unfoldable pub check_lists : List String → Members → Result ChangeError (Unit {0})
check_lists [] value = ok tt
check_lists (key ∷ keys) value = elim (texts (find key value)) [
  | none ↦ err (plan_schema_invalid key)
  | some _ ↦ check_lists keys value
]

abbrev is_string : Option Json → Bool
is_string (some (string s)) = true
is_string _ = false

-- `set(xs) - ALLOWED_TOOLS`
unfoldable pub unknown_tools : List String → List String
unknown_tools [] = []
unknown_tools (x ∷ xs) =
    let rest = unknown_tools xs in if contains x allowed_tools then rest else x ∷ rest

-- `step.get("recommended_tools", [])`, if it is a list of texts
unfoldable pub tools_of : Members → Option (List String)
tools_of step = elim (find "recommended_tools" step) [ none ↦ some [] | some v ↦ texts (some v) ]

-- The body of the loop over `recommended_steps`
unfoldable pub normalize_step : Host → ℕ → Json → Result ChangeError PlanStep
normalize_step h index (object step) = do
  tools ← or_raise (tools_of step) plan_step_tools_invalid
  raise_if (not (is_empty (unknown_tools tools)))
      (plan_unknown_tools (sorted_set (unknown_tools tools)))
  let title = text_or h.str (concat "Step " (decimal index)) (find "title" step)
  let description = text_or h.str "" (find "description" step)
  raise_if
      (any (λ pattern. h.search pattern (lower (concat title (concat " " description)))) forbidden)
      plan_forbidden_execution_instruction
  ok (record {
    step_id = text_or h.str (concat "S" (decimal index)) (find "step_id" step);
    title = title;
    description = description;
    recommended_tools = tools;
    requires_human_decision = elim (find "requires_human_decision" step) [
      | none ↦ true
      | some v ↦ is_truthy v
    ];
  })
normalize_step h index _ = err plan_step_not_object

unfoldable pub normalize_steps : Host → ℕ → Items → Result ChangeError (List PlanStep)
normalize_steps h index no_items = ok []
normalize_steps h index (item value items) = do
  step ← normalize_step h index value
  rest ← normalize_steps h (suc index) items
  ok (step ∷ rest)

unfoldable pub recommended_steps_of : Host → Option Json → Result ChangeError (List PlanStep)
recommended_steps_of h (some (array items)) = normalize_steps h 1 items
recommended_steps_of h _ = err (plan_schema_invalid "recommended_steps")

-- `_validate_plan`: the steps, and the warnings. The other keys are kept as they are.
unfoldable pub validate_plan : Host → Json → Result ChangeError (List PlanStep × List String)
validate_plan h (object value) = do
  check_required
      ("goal_summary" ∷ "assumptions" ∷ "constraints" ∷ "recommended_steps" ∷ "risks"
        ∷ "validation_plan" ∷ "human_decisions_required" ∷ [])
      value
  raise_if (not (is_string (find "goal_summary" value))) (plan_schema_invalid "goal_summary")
  check_lists
      ("assumptions" ∷ "constraints" ∷ "risks" ∷ "validation_plan" ∷ "human_decisions_required"
        ∷ [])
      value
  steps ← recommended_steps_of h (find "recommended_steps" value)
  ok (steps, if is_empty steps then "Plan contains no recommended steps." ∷ [] else [])
validate_plan h _ = err plan_not_object

-- `_generate_plan`
unfoldable pub generate_plan :
    Host → String → String → String → Result ChangeError Json → Db → Result ChangeError (Plan × Db)
generate_plan h plan_id context_pack_id model_id answer db = do
  context ← or_raise (get context_pack_id db.context_packs) context_pack_not_found
  model_digest ← approved_model model_id db
  model_value ← answer
  validated ← validate_plan h model_value
  let plan : Plan = record {
    context_pack_id = context_pack_id;
    status = human_review;
    recommended_steps = validated.0;
    warnings = validated.1;
    model_digest = model_digest;
    review = none;
  }
  ok (plan, record db { plans = put plan_id plan db.plans })

-- `status_map`
unfoldable pub status_of : ReviewDecision → EntityStatus
status_of accept = accepted
status_of return = returned
status_of reject = rejected

abbrev pub is_human_review : EntityStatus → Bool
is_human_review human_review = true
is_human_review accepted = false
is_human_review returned = false
is_human_review rejected = false

-- `_review_entity` of a plan
unfoldable pub review_plan : String → ReviewDecision → ReviewDetails → Db → Result ChangeError Db
review_plan plan_id decision details db = do
  plan ← or_raise (get plan_id db.plans) entity_not_found
  raise_if (not (is_human_review plan.status)) entity_not_ready_for_review
  let review = review_of details "plans" plan_id (decision_text decision)
  let reviewed = record plan { status = status_of decision; review = some review }
  ok (record db { plans = put plan_id reviewed db.plans; reviews = db.reviews ++ review ∷ [] })

-- `_review_entity` of a proposal
unfoldable pub review_proposal :
    String → ReviewDecision → ReviewDetails → Db → Result ChangeError Db
review_proposal proposal_id decision details db = do
  proposal ← or_raise (get proposal_id db.proposals) entity_not_found
  raise_if (not (is_human_review proposal.status)) entity_not_ready_for_review
  let review = review_of details "proposals" proposal_id (decision_text decision)
  let reviewed = record proposal { status = status_of decision; review = some review }
  ok (record db {
    proposals = put proposal_id reviewed db.proposals;
    reviews = db.reviews ++ review ∷ [];
  })
