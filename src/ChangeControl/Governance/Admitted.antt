-- ===== src/ChangeControl/Governance/Admitted.antt =====
-- What `_validate_plan`, `_validate_proposal` and the targets of a proposal establish of what they return.
use palwakf_agentic_ai_syste.Prelude.{
  ℕ, suc, String, ◌≡◌, inl, inr, true, false, not, Option, none, some, List, [], ◌∷◌, is_empty,
  contains, ok, arith, All, Bool-cases, >>=-eq-ok, raise_if-eq-ok, or_raise,
}
use mathlib.Core.Path.{subst}
use palwakf_agentic_ai_syste.Prelude.Json.{
  Json, null, boolean, number, string, array, object, Items, no_items, item, find,
}
use palwakf_agentic_ai_syste.Prelude.Text.{sorted_set}
use palwakf_agentic_ai_syste.ChangeControl.Schema.{
  plan_schema_invalid, plan_step_tools_invalid, plan_unknown_tools,
  plan_forbidden_execution_instruction, PlanStep, Host,
}
use palwakf_agentic_ai_syste.ChangeControl.Plans.{
  allowed_tools, unknown_tools, tools_of, check_required, check_lists, normalize_step,
  normalize_steps, recommended_steps_of, validate_plan,
}
use palwakf_agentic_ai_syste.ChangeControl.Implementations.Found.{ok_inj}
use palwakf_agentic_ai_syste.ChangeControl.Governance.{IsAllowedStep}

allowed-of_unknown :
    (tools : List String)
    → not (is_empty (unknown_tools tools)) ≡ false
    → All (λ tool. contains tool allowed_tools ≡ true) tools
unfolding unknown_tools
allowed-of_unknown [] e = tt
allowed-of_unknown (tool ∷ tools) e = elim (Bool-cases (contains tool allowed_tools)) [
  | inl yes_ ↦ (yes_, allowed-of_unknown tools (ground (arith, e, yes_)))
  | inr not_ ↦ absurd (ground (arith, e, not_))
]

module _ (h : Host) where
  normalize_step-IsAllowed :
      (index : ℕ) (value : Json) (step : PlanStep)
      → normalize_step h index value ≡ ok step
      → IsAllowedStep h step
  unfolding normalize_step
  normalize_step-IsAllowed index (object entries) step e =
      let (tools, t, e1) = >>=-eq-ok (or_raise (tools_of entries) plan_step_tools_invalid) _ e in
      let (known, e2) =
        raise_if-eq-ok (not (is_empty (unknown_tools tools)))
          (plan_unknown_tools (sorted_set (unknown_tools tools))) _ e1 in
      let (clean, e3) = raise_if-eq-ok _ plan_forbidden_execution_instruction _ e2 in
      subst (IsAllowedStep h) (ok_inj _ _ e3) (allowed-of_unknown tools known, clean)
  normalize_step-IsAllowed index null step e = absurd (ground arith)
  normalize_step-IsAllowed index (boolean b) step e = absurd (ground arith)
  normalize_step-IsAllowed index (number z n) step e = absurd (ground arith)
  normalize_step-IsAllowed index (string s) step e = absurd (ground arith)
  normalize_step-IsAllowed index (array items) step e = absurd (ground arith)

  normalize_steps-AreAllowed :
      (index : ℕ) (items : Items) (steps : List PlanStep)
      → normalize_steps h index items ≡ ok steps
      → All (IsAllowedStep h) steps
  unfolding normalize_steps
  normalize_steps-AreAllowed index no_items steps e =
      subst (All (IsAllowedStep h)) (ok_inj [] steps e) tt
  normalize_steps-AreAllowed index (item value items) steps e =
      let (step, s, e1) = >>=-eq-ok (normalize_step h index value) _ e in
      let (rest, r, e2) = >>=-eq-ok (normalize_steps h (suc index) items) _ e1 in
      subst (All (IsAllowedStep h)) (ok_inj _ _ e2) (
        normalize_step-IsAllowed index value step s,
        normalize_steps-AreAllowed (suc index) items rest r,
      )

  recommended_steps_of-AreAllowed :
      (value : Option Json) (steps : List PlanStep)
      → recommended_steps_of h value ≡ ok steps
      → All (IsAllowedStep h) steps
  unfolding recommended_steps_of
  recommended_steps_of-AreAllowed none steps e = absurd (ground arith)
  recommended_steps_of-AreAllowed (some (array items)) steps e =
      normalize_steps-AreAllowed 1 items steps e
  recommended_steps_of-AreAllowed (some null) steps e = absurd (ground arith)
  recommended_steps_of-AreAllowed (some (boolean b)) steps e = absurd (ground arith)
  recommended_steps_of-AreAllowed (some (number z n)) steps e = absurd (ground arith)
  recommended_steps_of-AreAllowed (some (string s)) steps e = absurd (ground arith)
  recommended_steps_of-AreAllowed (some (object entries)) steps e = absurd (ground arith)

  pub validate_plan-AreAllowed :
      (value : Json) (answer : List PlanStep × List String)
      → validate_plan h value ≡ ok answer
      → All (IsAllowedStep h) answer.0
  unfolding validate_plan
  validate_plan-AreAllowed (object entries) answer e =
      let (_, _, e1) = >>=-eq-ok (check_required _ entries) _ e in
      let (_, e2) = raise_if-eq-ok _ (plan_schema_invalid "goal_summary") _ e1 in
      let (_, _, e3) = >>=-eq-ok (check_lists _ entries) _ e2 in
      let (steps, r, e4) =
        >>=-eq-ok (recommended_steps_of h (find "recommended_steps" entries)) _ e3 in
      subst (λ (a : List PlanStep × List String). All (IsAllowedStep h) a.0) (ok_inj _ _ e4)
        (recommended_steps_of-AreAllowed _ steps r)
  validate_plan-AreAllowed null answer e = absurd (ground arith)
  validate_plan-AreAllowed (boolean b) answer e = absurd (ground arith)
  validate_plan-AreAllowed (number z n) answer e = absurd (ground arith)
  validate_plan-AreAllowed (string s) answer e = absurd (ground arith)
  validate_plan-AreAllowed (array items) answer e = absurd (ground arith)
