-- ===== src/ChangeControl/Standing/Counted.antt =====
-- What the counts and the lists that `_recompute_project_state` and `_run_readiness` test say of their values.
use mathlib.Core.Path.{subst}
use palwakf_agentic_ai_syste.Prelude.{
  ◌≤◌, String, ◌≡◌, ◌≢◌, ◌⊎◌, refl, ap, ◌∙◌, inl, inr, eq_iff, Elem, none, Option, Bool, true,
  false, not, some, List, [], ◌∷◌, ◌==◌, is_empty, arith, nat_eq, Bool-cases,
}
use palwakf_agentic_ai_syste.Prelude.Dict.{Dict, get, AllValues}
use palwakf_agentic_ai_syste.ChangeControl.Schema.{
  ModelState, planning_approved, ImplementationStatus, approved_for_apply, applied_awaiting_review,
  rolled_back, accepted_implementation, QualityTool,
}
use palwakf_agentic_ai_syste.ChangeControl.Models.{is_planning_approved}
use palwakf_agentic_ai_syste.ChangeControl.Contexts.{is_quality_accepted, quality_baseline_summary}
use palwakf_agentic_ai_syste.ChangeControl.Implementations.{is_awaiting_review}
use palwakf_agentic_ai_syste.ChangeControl.Standing.{count_values}

-- What is found is counted.
pub found-count_values :
    {V : Type 0} (test : V → Bool) (k : String) (v : V) (d : Dict V)
    → get k d ≡ some v
    → test v ≡ true
    → 1 ≤ count_values test d
unfolding get count_values
found-count_values test k v [] e t = absurd (ground (arith, e))
found-count_values test k v ((i, w) ∷ d) e t = elim (Bool-cases (i == k)) [
  | inl same ↦
      let s : w ≡ v = ground (arith, e, same) in
      let u : test w ≡ true = ap test s ∙ t in ground (arith, u)
  | inr other ↦
      let rest = found-count_values test k v d (ground (arith, e, other)) t in ground (arith, rest)
]

-- A tool whose quality was accepted, with limitations or without.
abbrev pub IsAcceptedTool : QualityTool → Type 0
IsAcceptedTool tool =
    (tool.quality_result ≡ some "QUALITY_ACCEPTED")
    ⊎ (tool.quality_result ≡ some "PASS_WITH_LIMITATIONS")

-- Some entry of a list, or of the values of a dictionary, has the property.
abbrev pub SomeIs : {A : Type 0} → (A → Type 0) → List A → Type 0
SomeIs {A} P xs = (x : A) × Elem x xs × P x

abbrev pub SomeValueIs : {V : Type 0} → (V → Type 0) → Dict V → Type 0
SomeValueIs P d = SomeIs (λ entry. P entry.1) d

is_quality_accepted→Or :
    (result : Option String)
    → is_quality_accepted result ≡ true
    → (result ≡ some "QUALITY_ACCEPTED") ⊎ (result ≡ some "PASS_WITH_LIMITATIONS")
is_quality_accepted→Or none e = absurd (ground arith)
is_quality_accepted→Or (some result) e =
    ground (arith, eq_iff result "QUALITY_ACCEPTED", eq_iff result "PASS_WITH_LIMITATIONS")

Or→is_quality_accepted :
    (result : Option String)
    → (result ≡ some "QUALITY_ACCEPTED") ⊎ (result ≡ some "PASS_WITH_LIMITATIONS")
    → is_quality_accepted result ≡ true
Or→is_quality_accepted result (inl e) = rw e refl
Or→is_quality_accepted result (inr e) = rw e refl

pub summary→SomeIs :
    (baselines : List QualityTool)
    → not (is_empty (quality_baseline_summary baselines)) ≡ true
    → SomeIs IsAcceptedTool baselines
unfolding quality_baseline_summary
summary→SomeIs [] e = absurd (ground arith)
summary→SomeIs (tool ∷ baselines) e = elim (Bool-cases (is_quality_accepted tool.quality_result)) [
  | inl yes_ ↦ (tool, inl refl, is_quality_accepted→Or tool.quality_result yes_)
  | inr no_ ↦
      let (found, m, p) = summary→SomeIs baselines (rw (quality_baseline_summary, no_) at e) in
      (found, inr m, p)
]

pub SomeIs→summary :
    (baselines : List QualityTool)
    → SomeIs IsAcceptedTool baselines
    → not (is_empty (quality_baseline_summary baselines)) ≡ true
unfolding quality_baseline_summary
SomeIs→summary [] (found, m, p) = absurd m
SomeIs→summary (tool ∷ baselines) (found, inl m, p) =
    rw
      (
        quality_baseline_summary,
        Or→is_quality_accepted tool.quality_result
            (subst (λ (t : QualityTool). IsAcceptedTool t) m p),
      )
      refl
SomeIs→summary (tool ∷ baselines) (found, inr m, p) =
    let rest = SomeIs→summary baselines (found, m, p) in
    elim (Bool-cases (is_quality_accepted tool.quality_result)) [
      | inl yes_ ↦ rw (quality_baseline_summary, yes_) refl
      | inr no_ ↦ rw (quality_baseline_summary, no_) rest
    ]

-- The count of the values that pass a test is zero exactly when none has the property that it decides.
pub count_values-none :
    {V : Type 0} (test : V → Bool) (P : V → Type 0) (d : Dict V)
    → ((v : V) → test v ≡ false → P v)
    → nat_eq (count_values test d) 0 ≡ true
    → AllValues P d
unfolding count_values
count_values-none test P [] f e = tt
count_values-none test P ((k, v) ∷ d) f e = elim (Bool-cases (test v)) [
  | inl yes_ ↦ absurd (ground (arith, e, yes_))
  | inr no_ ↦ (f v no_, count_values-none test P d f (ground (arith, e, no_)))
]

pub count_values-zero :
    {V : Type 0} (test : V → Bool) (P : V → Type 0) (d : Dict V)
    → ((v : V) → P v → test v ≡ false)
    → AllValues P d
    → nat_eq (count_values test d) 0 ≡ true
unfolding count_values
count_values-zero test P [] f n = refl
count_values-zero test P ((k, v) ∷ d) f (p, n) =
    let rest = count_values-zero test P d f n in
    let no_ : test v ≡ false = f v p in ground (arith, no_)

pub count_values→SomeValueIs :
    {V : Type 0} (test : V → Bool) (P : V → Type 0) (d : Dict V)
    → ((v : V) → test v ≡ true → P v)
    → not (nat_eq (count_values test d) 0) ≡ true
    → SomeValueIs P d
unfolding count_values
count_values→SomeValueIs test P [] f e = absurd (ground arith)
count_values→SomeValueIs test P ((k, v) ∷ d) f e = elim (Bool-cases (test v)) [
  | inl yes_ ↦ ((k, v), inl refl, f v yes_)
  | inr no_ ↦
      let (found, m, p) = count_values→SomeValueIs test P d f (ground (arith, e, no_)) in
      (found, inr m, p)
]

pub SomeValueIs→count_values :
    {V : Type 0} (test : V → Bool) (P : V → Type 0) (d : Dict V)
    → ((v : V) → P v → test v ≡ true)
    → SomeValueIs P d
    → not (nat_eq (count_values test d) 0) ≡ true
unfolding count_values
SomeValueIs→count_values test P [] f (found, m, p) = absurd m
SomeValueIs→count_values {V} test P ((k, v) ∷ d) f (found, inl m, p) =
    let yes_ : test v ≡ true = f v (subst (λ (x : String × V). P x.1) m p) in ground (arith, yes_)
SomeValueIs→count_values test P ((k, v) ∷ d) f (found, inr m, p) =
    let rest = SomeValueIs→count_values test P d f (found, m, p) in ground (arith, rest)

pub is_planning_approved-eq :
    (state : ModelState) → is_planning_approved state ≡ true → state ≡ planning_approved
is_planning_approved-eq state e = ground arith

pub eq-is_planning_approved :
    (state : ModelState) → state ≡ planning_approved → is_planning_approved state ≡ true
eq-is_planning_approved state e = rw e refl

pub is_awaiting_review-ne :
    (status : ImplementationStatus)
    → is_awaiting_review status ≡ false
    → status ≢ applied_awaiting_review
is_awaiting_review-ne status e =
    λ q. let yes_ : is_awaiting_review status ≡ true = rw q refl in absurd (ground arith)

pub ne-is_awaiting_review :
    (status : ImplementationStatus)
    → status ≢ applied_awaiting_review
    → is_awaiting_review status ≡ false
ne-is_awaiting_review approved_for_apply n = refl
ne-is_awaiting_review applied_awaiting_review n = absurd (n refl)
ne-is_awaiting_review rolled_back n = refl
ne-is_awaiting_review accepted_implementation n = refl
