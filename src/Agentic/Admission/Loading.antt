-- ===== src/Agentic/Admission/Loading.antt =====
-- When an external skill may be loaded, and what is left of the authority that it requests.
use palwakf_agentic_ai_syste.Prelude.{
  ◌+◌, ◌≤◌, String, ◌≡◌, ◌==◌, eq_iff, all, ◌&&◌, refl, ◌↔◌, ◌⊎◌, inl, inr, ◌≢◌, Bool, true, false,
  Option, none, some, List, [], ◌∷◌, is_empty, not, ap, ok, err, >>=-eq-ok, contains, arith,
}
use palwakf_agentic_ai_syste.Prelude.Text.{is_falsy, is_blank-ne, ne-is_blank, lower}
use palwakf_agentic_ai_syste.Agentic.Admission.{
  ExternalSkillStage, project_proven, cross_project_candidate, canonical_approved,
  ExternalSkillAdmission, authority_layer_required, as_number, parse_agent_skill,
  static_security_scan, is_loadable_stage, assert_external_skill_loadable, restrict, restrict_all,
  authority_intersection, sandbox_evaluate_external_skill, SandboxEvalResult, ParsedAgentSkill,
}

-- A reference that is there and not empty.
abbrev pub IsGiven : Option String → Type 0
IsGiven none = ⊥
IsGiven (some s) = s ≢ ""

-- What admits a skill: a proven stage, a verified source, no open finding, passed evaluations, both
-- references, and no authority of its own.
pub record IsLoadable (a : ExternalSkillAdmission) : Type 0 where
  pub proven :
      (a.stage ≡ project_proven)
      ⊎ (a.stage ≡ cross_project_candidate)
      ⊎ (a.stage ≡ canonical_approved)
  pub verified : a.provenance_verified ≡ true
  pub clean : a.security_findings ≡ []
  pub evaluated : (a.eval_passed ≡ true) × (a.regression_passed ≡ true)
  pub reviewed : IsGiven a.mind_review_ref × IsGiven a.workspace_decision_ref
  pub unarmed : (a.external_execution_authority ≡ false) × (a.auto_promotion ≡ false)

stage-proven :
    (stage : ExternalSkillStage)
    → is_loadable_stage stage ≡ true
    → (stage ≡ project_proven) ⊎ (stage ≡ cross_project_candidate) ⊎ (stage ≡ canonical_approved)
unfolding is_loadable_stage
stage-proven project_proven h = inl refl
stage-proven cross_project_candidate h = inr (inl refl)
stage-proven canonical_approved h = inr (inr refl)
stage-proven _ h = absurd (ground arith)

proven-stage :
    (stage : ExternalSkillStage)
    → (stage ≡ project_proven) ⊎ (stage ≡ cross_project_candidate) ⊎ (stage ≡ canonical_approved)
    → is_loadable_stage stage ≡ true
unfolding is_loadable_stage
proven-stage stage (inl e) = rw e refl
proven-stage stage (inr (inl e)) = rw e refl
proven-stage stage (inr (inr e)) = rw e refl

falsy-IsGiven : (o : Option String) → is_falsy o ≡ false → IsGiven o
falsy-IsGiven none h = absurd (ground arith)
falsy-IsGiven (some s) h = is_blank-ne s h

IsGiven-falsy : (o : Option String) → IsGiven o → is_falsy o ≡ false
IsGiven-falsy none h = absurd h
IsGiven-falsy (some s) h = ne-is_blank s h

-- The gate passes exactly the admissions that meet every condition.
pub assert_external_skill_loadable_iff :
    (a : ExternalSkillAdmission) → (assert_external_skill_loadable a ≡ ok tt) ↔ IsLoadable a
unfolding assert_external_skill_loadable is_loadable_stage
assert_external_skill_loadable_iff a = (
  λ e. record {
    proven = stage-proven a.stage (ground arith);
    verified = ground arith;
    clean = ground arith;
    evaluated = (ground arith, ground arith);
    reviewed = (
      falsy-IsGiven a.mind_review_ref (ground arith),
      falsy-IsGiven a.workspace_decision_ref (ground arith),
    );
    unarmed = (ground arith, ground arith);
  },
  λ l. ground (
    arith,
    proven-stage a.stage l.proven,
    IsGiven-falsy a.mind_review_ref l.reviewed.0,
    IsGiven-falsy a.workspace_decision_ref l.reviewed.1,
  ),
)

contains-restrict :
    (x : String) (allowed layer : List String)
    → contains x (restrict allowed layer) ≡ (contains x allowed && contains x layer)
unfolding contains restrict
contains-restrict x [] layer = refl
contains-restrict x (y ∷ allowed) layer =
    ground (arith, eq_iff x y, contains-restrict x allowed layer)

contains-restrict_all :
    (x : String) (allowed : List String) (layers : List (List String))
    → contains x (restrict_all allowed layers)
      ≡ (contains x allowed && all (λ layer. contains x layer) layers)
unfolding restrict_all
contains-restrict_all x allowed [] = ground arith
contains-restrict_all x allowed (layer ∷ layers) = ground (
  arith,
  contains-restrict_all x (restrict allowed layer) layers,
  contains-restrict x allowed layer,
)

-- With no layer the intersection raises; with one or more it returns, and has an item exactly when the item
-- is requested and every layer has it.
pub authority_intersection_exact :
    (requested layer : List String) (layers : List (List String))
    → (authority_intersection requested [] ≡ err authority_layer_required)
      × (granted : List String) × (authority_intersection requested (layer ∷ layers) ≡ ok granted)
      × ((x : String)
          → contains x granted
            ≡ (contains x requested && all (λ other. contains x other) (layer ∷ layers)))
unfolding authority_intersection
authority_intersection_exact requested layer layers = (
  refl,
  restrict requested (restrict_all requested (layer ∷ layers)),
  refl,
  λ x. ground (
    arith,
    contains-restrict x requested (restrict_all requested (layer ∷ layers)),
    contains-restrict_all x requested (layer ∷ layers),
  ),
)

score_bounds :
    (a b c d : Bool)
    → (as_number a + as_number b + as_number c + as_number d ≤ 4)
      × ((as_number a + as_number b + as_number c + as_number d ≡ 4)
          ↔ ((a ≡ true) × (b ≡ true) × (c ≡ true) × (d ≡ true)))
score_bounds a b c d = ground arith

is_empty_iff : {A : Type 0} → (xs : List A) → (is_empty xs ≡ true) ↔ (xs ≡ [])
is_empty_iff [] = (λ _. refl, λ _. refl)
is_empty_iff (x ∷ xs) = (λ h. absurd (ground arith), λ h. ap is_empty h)

unarmed_iff : (a b : Bool) → ((not a && not b) ≡ true) ↔ ((a ≡ false) × (b ≡ false))
unarmed_iff a b = ground arith

-- A sandbox evaluation that returns is of the admitted skill and has parsed its text. The name, the digest, the
-- scan and the authority pass exactly when the parsed name is the admitted one, the digests agree, letter case
-- aside, the scan finds nothing, and the admission has no authority of its own. The score is at most 4, and is 4
-- exactly when all four pass. Nothing is executed.
pub sandbox_evaluate_score :
    (search : String → String → Bool) (admission : ExternalSkillAdmission) (text sha256 : String)
    (r : SandboxEvalResult)
    → sandbox_evaluate_external_skill search admission text sha256 ≡ ok r
    → ((parsed : ParsedAgentSkill) × (parse_agent_skill text ≡ ok parsed)
        × ((r.parser_pass ≡ true) ↔ (parsed.name ≡ admission.name))
        × ((r.security_pass ≡ true) ↔ (static_security_scan search parsed ≡ [])))
      × (r.skill_id ≡ admission.skill_id)
      × ((r.source_hash_pass ≡ true) ↔ (lower sha256 ≡ lower admission.source.content_sha256))
      × ((r.authority_pass ≡ true)
          ↔ ((admission.external_execution_authority ≡ false) × (admission.auto_promotion ≡ false)))
      × (r.skill_score ≤ 4)
      × ((r.skill_score ≡ 4) ↔ (
          (r.parser_pass ≡ true)
          × (r.source_hash_pass ≡ true)
          × (r.security_pass ≡ true)
          × (r.authority_pass ≡ true)))
      × (r.execution_performed ≡ false)
unfolding sandbox_evaluate_external_skill
sandbox_evaluate_score search admission text sha256 r e =
    let (parsed, p, e1) = >>=-eq-ok (parse_agent_skill text) _ e in
    let named : r.parser_pass ≡ (parsed.name == admission.name) = ground arith in
    let scanned : r.security_pass ≡ is_empty (static_security_scan search parsed) = ground arith in
    let hashed : r.source_hash_pass ≡ (lower sha256 == lower admission.source.content_sha256) =
      ground arith in
    let armed : r.authority_pass
        ≡ (not admission.external_execution_authority && not admission.auto_promotion) =
      ground arith in
    let sum : r.skill_score
        ≡ as_number r.parser_pass
          + as_number r.source_hash_pass
          + as_number r.security_pass
          + as_number r.authority_pass =
      ground arith in
    let (bound, full) =
      score_bounds r.parser_pass r.source_hash_pass r.security_pass r.authority_pass in
    (
      (
        parsed,
        p,
        rw named (eq_iff parsed.name admission.name),
        rw scanned (is_empty_iff (static_security_scan search parsed)),
      ),
      ground arith,
      rw hashed (eq_iff (lower sha256) (lower admission.source.content_sha256)),
      rw armed (unarmed_iff admission.external_execution_authority admission.auto_promotion),
      rw sum bound,
      rw sum full,
      ground arith,
    )
