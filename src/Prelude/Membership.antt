-- ===== src/Prelude/Membership.antt =====
-- Membership of texts: the test `x in xs`, equality of two lists of texts, and what they decide.
use palwakf_agentic_ai_syste.Prelude.Forall.{All}
use Prim.Native.String.{String}
use mathlib.Core.Path.{◌≡◌, refl}
use mathlib.Core.Logic.{◌⊎◌, inl, inr}
use mathlib.Core.Bool.{Bool, true, false, ◌&&◌, ◌||◌}
use mathlib.Core.List.{List, [], ◌∷◌}
use native.Mathlib.Omega.{arith}
use text.Mathlib.Text.{◌==◌}
use text.Mathlib.TextEquality.{eq_iff}

abbrev pub Elem : {A : Type 0} → A → List A → Type 0
Elem x [] = ⊥
Elem x (y ∷ ys) = (x ≡ y) ⊎ Elem x ys

-- `x in xs`
unfoldable pub contains : String → List String → Bool
contains x [] = false
contains x (y ∷ ys) = x == y || contains x ys

pub contains→Elem : (x : String) (xs : List String) → contains x xs ≡ true → Elem x xs
unfolding contains
contains→Elem x [] h = cc
contains→Elem x (y ∷ ys) h = ground (arith, eq_iff x y, contains→Elem x ys)

pub Elem→contains : (x : String) (xs : List String) → Elem x xs → contains x xs ≡ true
unfolding contains
Elem→contains x [] h = absurd h
Elem→contains x (y ∷ ys) h = ground (arith, eq_iff x y, Elem→contains x ys)

-- `xs == ys` of two lists of texts
unfoldable pub list_eq : List String → List String → Bool
list_eq [] [] = true
list_eq [] (y ∷ ys) = false
list_eq (x ∷ xs) [] = false
list_eq (x ∷ xs) (y ∷ ys) = x == y && list_eq xs ys

pub list_eq→eq : (xs ys : List String) → list_eq xs ys ≡ true → xs ≡ ys
unfolding list_eq
list_eq→eq [] [] h = refl
list_eq→eq [] (y ∷ ys) h = cc
list_eq→eq (x ∷ xs) [] h = cc
list_eq→eq (x ∷ xs) (y ∷ ys) h = ground (arith, eq_iff x y, list_eq→eq xs ys)

pub list_eq_refl : (xs : List String) → list_eq xs xs ≡ true
unfolding list_eq
list_eq_refl [] = refl
list_eq_refl (x ∷ xs) = ground (arith, eq_iff x x, list_eq_refl xs)

-- `set(xs).issubset(set(ys))`
unfoldable pub issubset : List String → List String → Bool
issubset [] ys = true
issubset (x ∷ xs) ys = contains x ys && issubset xs ys

pub issubset→Elem : (xs ys : List String) → issubset xs ys ≡ true → All (λ x. Elem x ys) xs
unfolding issubset
issubset→Elem [] ys h = tt
issubset→Elem (z ∷ zs) ys h = ground (arith, contains→Elem z ys, issubset→Elem zs ys)

pub Elem→issubset : (xs ys : List String) → All (λ x. Elem x ys) xs → issubset xs ys ≡ true
unfolding issubset
Elem→issubset [] ys h = refl
Elem→issubset (z ∷ zs) ys h = ground (arith, Elem→contains z ys h.0, Elem→issubset zs ys h.1)

module _ {A : Type 0} (P : A → Type 0) where
  pub All-of_Elem : (xs : List A) → ((x : A) → Elem x xs → P x) → All P xs
  All-of_Elem [] h = tt
  All-of_Elem (x ∷ xs) h = (h x (inl refl), All-of_Elem xs (λ y e. h y (inr e)))
