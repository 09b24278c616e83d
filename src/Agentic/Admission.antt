-- ===== src/Agentic/Admission.antt =====
-- agentic_core_v1/external_skill_admission.py: how a skill from outside is parsed, scanned and admitted.
-- `search` is `re.search`: it takes the pattern's text and the text to search, and answers whether it
-- matches. `sha256` is the hexadecimal SHA-256 of a file's bytes, and `decoded` their UTF-8 text.
pub mod Bundle
pub mod Loading
use palwakf_agentic_ai_syste.Prelude.{
  ℕ, suc, ◌+◌, String, ◌≡◌, Bool, true, false, ◌&&◌, ◌||◌, not, Option, none, some, List, [], ◌∷◌,
  map, ◌==◌, if◌then◌else◌, contains, is_empty, Result, ok, err, ◌>>=◌, ◌>>◌, raise_if, or_raise,
}
use palwakf_agentic_ai_syste.Prelude.Text.{
  is_falsy, strip, is_blank, lower, drop_text, cut_at, splitlines, strip_char,
}
use palwakf_agentic_ai_syste.Prelude.Dict.{Dict, get, put}
use text.Mathlib.Text.{starts_with}

pub data ExternalSkillStage : Type 0 where
  quarantined discovered source_verified license_verified security_reviewed : ExternalSkillStage
  sandbox_only project_proven cross_project_candidate canonical_approved : ExternalSkillStage
  hold rejected revoked : ExternalSkillStage

pub record ExternalSkillSource : Type 0 where
  pub repository : String
  pub commit_sha : String
  pub path : String
  pub content_sha256 : String
  pub license : String

pub record ExternalSkillAdmission : Type 0 where
  pub skill_id : String
  pub name : String
  pub description : String
  pub source : ExternalSkillSource
  pub stage : ExternalSkillStage
  pub provenance_verified : Bool
  pub security_findings : List String
  pub eval_passed : Bool
  pub regression_passed : Bool
  pub mind_review_ref : Option String
  pub workspace_decision_ref : Option String
  pub external_execution_authority : Bool
  pub auto_promotion : Bool

pub record SandboxEvalResult : Type 0 where
  pub skill_id : String
  pub parser_pass : Bool
  pub source_hash_pass : Bool
  pub security_pass : Bool
  pub authority_pass : Bool
  pub baseline_score : ℕ
  pub skill_score : ℕ
  pub execution_performed : Bool

pub record ParsedAgentSkill : Type 0 where
  pub name : String
  pub description : String
  pub body : String

pub data AdmissionError : Type 0 where
  external_skill_not_admitted external_skill_provenance_not_verified : AdmissionError
  external_skill_security_findings_open external_skill_eval_regression_required : AdmissionError
  external_skill_review_decision_required external_skill_may_not_self_authorize : AdmissionError
  external_skill_auto_promotion_forbidden authority_layer_required : AdmissionError
  agent_skill_frontmatter_required agent_skill_frontmatter_invalid : AdmissionError
  agent_skill_name_description_required : AdmissionError

-- One line of the front matter.
unfoldable pub read_line : String → Dict String → Dict String
read_line raw values = elim (cut_at ":" raw) [
  | none ↦ values
  | some (key, value) ↦ put (strip key) (strip_char 39 (strip_char 34 (strip value))) values
]

unfoldable pub read_lines : List String → Dict String → Dict String
read_lines [] values = values
read_lines (raw ∷ lines) values = read_lines lines (read_line raw values)

abbrev pub get_or : String → String → Dict String → String
get_or key fallback values = elim (get key values) [ none ↦ fallback | some value ↦ value ]

-- `parse_agent_skill`, of the file's text
unfoldable pub parse_agent_skill : String → Result AdmissionError ParsedAgentSkill
parse_agent_skill text = do
  raise_if (not (starts_with text "---\n")) agent_skill_frontmatter_required
  (frontmatter, body) ←
      or_raise (cut_at "\n---\n" (drop_text 4 text)) agent_skill_frontmatter_invalid
  let values = read_lines (splitlines frontmatter) []
  let name = strip (get_or "name" "" values)
  let description = strip (get_or "description" "" values)
  raise_if (is_blank name || is_blank description) agent_skill_name_description_required
  ok (record { name = name; description = description; body = body })

-- `_SECURITY_PATTERNS`
abbrev pub security_patterns : List (String × String)
security_patterns =
    ("SELF_AUTHORIZATION_DIRECTIVE", "(?i)self[-_ ]?authoriz|ignore .*authority|bypass .*approval")
    ∷ (
      "SECRET_EXFILTRATION_DIRECTIVE",
      "(?i)(exfiltrat|upload|send).{0,40}(secret|token|credential|\\.env)",
    )
    ∷ (
      "DESTRUCTIVE_COMMAND",
      "(?i)(rm\\s+-rf|git\\s+push\\s+--force|drop\\s+database|format\\s+[a-z]:)",
    )
    ∷ []

unfoldable pub matching : (String → String → Bool) → List (String × String) → String → List String
matching search [] text = []
matching search ((finding_id, pattern) ∷ patterns) text =
    if search pattern text
    then finding_id ∷ matching search patterns text
    else matching search patterns text

unfoldable pub static_security_scan : (String → String → Bool) → ParsedAgentSkill → List String
static_security_scan search parsed = matching search security_patterns parsed.body

unfoldable pub is_loadable_stage : ExternalSkillStage → Bool
is_loadable_stage project_proven = true
is_loadable_stage cross_project_candidate = true
is_loadable_stage canonical_approved = true
is_loadable_stage _ = false

unfoldable pub assert_external_skill_loadable :
    ExternalSkillAdmission → Result AdmissionError (Unit {0})
assert_external_skill_loadable a = do
  raise_if (not (is_loadable_stage a.stage)) external_skill_not_admitted
  raise_if (not a.provenance_verified) external_skill_provenance_not_verified
  raise_if (not (is_empty a.security_findings)) external_skill_security_findings_open
  raise_if (not a.eval_passed || not a.regression_passed) external_skill_eval_regression_required
  raise_if (is_falsy a.mind_review_ref || is_falsy a.workspace_decision_ref)
      external_skill_review_decision_required
  raise_if a.external_execution_authority external_skill_may_not_self_authorize
  raise_if a.auto_promotion external_skill_auto_promotion_forbidden
  ok tt

-- `allowed &= set(layer)`: the items of `allowed` that the layer has
unfoldable pub restrict : List String → List String → List String
restrict [] layer = []
restrict (x ∷ allowed) layer =
    if contains x layer then x ∷ restrict allowed layer else restrict allowed layer

unfoldable pub restrict_all : List String → List (List String) → List String
restrict_all allowed [] = allowed
restrict_all allowed (layer ∷ layers) = restrict_all (restrict allowed layer) layers

unfoldable pub authority_intersection :
    List String → List (List String) → Result AdmissionError (List String)
authority_intersection requested layers = do
  raise_if (is_empty layers) authority_layer_required
  ok (restrict requested (restrict_all requested layers))

abbrev pub as_number : Bool → ℕ
as_number true = 1
as_number false = 0

-- `sandbox_evaluate_external_skill`, of the file's text and its digest
unfoldable pub sandbox_evaluate_external_skill :
    (String → String → Bool)
    → ExternalSkillAdmission
    → String
    → String
    → Result AdmissionError SandboxEvalResult
sandbox_evaluate_external_skill search admission text sha256 = do
  parsed ← parse_agent_skill text
  let source_hash_pass = lower sha256 == lower admission.source.content_sha256
  let authority_pass = not admission.external_execution_authority && not admission.auto_promotion
  let parser_pass = parsed.name == admission.name
  let security_pass = is_empty (static_security_scan search parsed)
  ok (record {
    skill_id = admission.skill_id;
    parser_pass = parser_pass;
    source_hash_pass = source_hash_pass;
    security_pass = security_pass;
    authority_pass = authority_pass;
    baseline_score = 1;
    skill_score =
        as_number parser_pass
        + as_number source_hash_pass
        + as_number security_pass
        + as_number authority_pass;
    execution_performed = false;
  })
