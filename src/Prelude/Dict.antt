-- ===== src/Prelude/Dict.antt =====
-- Python's `dict` with text keys, in insertion order: `d[k] = v` keeps the place of a known key.
use palwakf_agentic_ai_syste.Prelude.Tests.{if◌then◌else◌, Bool-cases}
use palwakf_agentic_ai_syste.Prelude.Forall.{All}
use Prim.Native.String.{String}
use mathlib.Core.Path.{◌≡◌, refl, sym}
use mathlib.Core.Logic.{inl, inr}
use mathlib.Core.Bool.{false}
use mathlib.Core.Option.{Option, none, some}
use mathlib.Core.List.{List, [], ◌∷◌}
use native.Mathlib.Omega.{arith}
use text.Mathlib.Text.{◌==◌}
use text.Mathlib.TextEquality.{eq_iff}

abbrev pub Dict : Type 0 → Type 0
Dict V = List (String × V)

module _ {V : Type 0} where
  -- `d.get(k)`
  unfoldable pub get : String → Dict V → Option V
  get k [] = none
  get k ((j, v) ∷ d) = if j == k then some v else get k d

  -- `d[k] = v`
  unfoldable pub put : String → V → Dict V → Dict V
  put k v [] = (k, v) ∷ []
  put k v ((j, w) ∷ d) = if j == k then (k, v) ∷ d else (j, w) ∷ put k v d

  pub get-put :
      (k j : String) (v : V) (d : Dict V) → get j (put k v d) ≡ (if k == j then some v else get j d)
  unfolding get put
  get-put k j v [] = refl
  get-put k j v ((i, w) ∷ d) = ground (arith, eq_iff k j, eq_iff i k, eq_iff i j, get-put k j v d)

  pub put-same : (k : String) (v : V) (d : Dict V) → get k d ≡ some v → put k v d ≡ d
  unfolding get put
  put-same k v [] h = absurd (ground arith)
  put-same k v ((i, w) ∷ d) h = ground (arith, eq_iff i k, put-same k v d)

  pub put-put : (k : String) (v w : V) (d : Dict V) → put k v (put k w d) ≡ put k v d
  unfolding put
  put-put k v w [] = ground (arith, eq_iff k k)
  put-put k v w ((i, u) ∷ d) = ground (arith, eq_iff i k, eq_iff k k, put-put k v w d)

  -- Two keys of which one is there already are written in either order.
  pub put_comm :
      (k j : String) (v w u : V) (d : Dict V)
      → (k == j) ≡ false
      → get k d ≡ some u
      → put k v (put j w d) ≡ put j w (put k v d)
  unfolding get put
  put_comm k j v w u [] n h = absurd (ground arith)
  put_comm k j v w u ((i, x) ∷ d) n h =
      ground (arith, eq_iff k j, eq_iff j k, eq_iff i k, eq_iff i j, put_comm k j v w u d)

  -- A predicate of all values.
  abbrev pub AllValues : (V → Type 0) → Dict V → Type 0
  AllValues P d = All (λ e. P e.1) d

  pub AllValues-get :
      (P : V → Type 0) (k : String) (v : V) (d : Dict V) → AllValues P d → get k d ≡ some v → P v
  unfolding get
  AllValues-get P k v [] a h = absurd (ground arith)
  AllValues-get P k v ((i, w) ∷ d) (p, a) h = elim (Bool-cases (i == k)) [
    | inl same ↦ let e : w ≡ v = ground arith in rw (sym e) p
    | inr other ↦ AllValues-get P k v d a (ground arith)
  ]

  pub AllValues-put :
      (P : V → Type 0) (k : String) (v : V) (d : Dict V)
      → AllValues P d
      → P v
      → AllValues P (put k v d)
  unfolding put
  AllValues-put P k v [] a p = (p, tt)
  AllValues-put P k v ((i, w) ∷ d) (q, a) p = elim (Bool-cases (i == k)) [
    | inl same ↦ rw (put, same) (p, a)
    | inr other ↦ rw (put, other) (q, AllValues-put P k v d a p)
  ]
