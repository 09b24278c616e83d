-- ===== src/ChangeControl/Governance/References.antt =====
-- A reference from one of the state's dictionaries to another stays good when the other changes.
use palwakf_agentic_ai_syste.Prelude.{
  String, ◌≡◌, refl, sym, ◌∙◌, inl, inr, true, false, Option, none, some, [], ◌∷◌, ◌==◌, arith,
  eq_iff, Bool-cases,
}
use mathlib.Core.Path.{subst}
use palwakf_agentic_ai_syste.Prelude.Dict.{Dict, get, put, get-put, AllValues}
use palwakf_agentic_ai_syste.ChangeControl.Governance.{RefersTo}

module _ {V : Type 0} where
  pub AllValues-map :
      (P Q : V → Type 0) (d : Dict V) → ((v : V) → P v → Q v) → AllValues P d → AllValues Q d
  AllValues-map P Q [] f a = tt
  AllValues-map P Q ((k, v) ∷ d) f (p, a) = (f v p, AllValues-map P Q d f a)

  put-apart : (j k : String) (w : V) (d : Dict V) → (j == k) ≡ false → get k (put j w d) ≡ get k d
  put-apart j k w d e = get-put j k w d ∙ rw e refl

  put-same_key : (j k : String) (w : V) (d : Dict V) → (j == k) ≡ true → get k (put j w d) ≡ some w
  put-same_key j k w d e = get-put j k w d ∙ rw e refl

  same_key : (j k : String) (d : Dict V) → (j == k) ≡ true → get k d ≡ get j d
  same_key j k d e = let s : j ≡ k = ground (arith, eq_iff j k) in rw s refl

  none_some : {A : Type 0} (v : V) (d : Option V) → d ≡ none → d ≡ some v → A
  none_some v d e f = absurd (ground (arith, e, f))

  -- A new key
  pub RefersTo-new :
      (P : V → Type 0) (j k : String) (w : V) (d : Dict V)
      → get j d ≡ none
      → RefersTo P k d
      → RefersTo P k (put j w d)
  RefersTo-new P j k w d fresh (v, found, p) = elim (Bool-cases (j == k)) [
    | inl same ↦ none_some v (get k d) (same_key j k d same ∙ fresh) found
    | inr other ↦ (v, put-apart j k w d other ∙ found, p)
  ]

  -- A value that is replaced by one with the property, if it had it.
  pub RefersTo-over :
      (P : V → Type 0) (j k : String) (old w : V) (d : Dict V)
      → get j d ≡ some old
      → (P old → P w)
      → RefersTo P k d
      → RefersTo P k (put j w d)
  RefersTo-over P j k old w d held f (v, found, p) = elim (Bool-cases (j == k)) [
    | inl same ↦
        let e : old ≡ v = inj old v (sym held ∙ sym (same_key j k d same) ∙ found) in
        (w, put-same_key j k w d same, f (subst P (sym e) p))
    | inr other ↦ (v, put-apart j k w d other ∙ found, p)
  ]
    where
      inj : (a b : V) → ◌≡◌ {A = Option V} (some a) (some b) → a ≡ b
      inj a b q = ground (arith, q)

  pub RefersTo-found :
      (P : V → Type 0) (k : String) (v : V) (d : Dict V) → get k d ≡ some v → P v → RefersTo P k d
  RefersTo-found P k v d e p = (v, e, p)
