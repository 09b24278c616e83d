-- ===== src/Prelude/Results.antt =====
-- A call that may raise: the error is a value, and a `do` block stops at the first one.
use mathlib.Core.Path.{◌≡◌, refl}
use native.Mathlib.Omega.{arith}
use mathlib.Core.Bool.{Bool, true, false}
use mathlib.Core.Option.{Option, none, some}
use mathlib.Core.Logic.{◌⊎◌, inl, inr}

pub data Result (E A : Type 0) : Type 0 where
  err : E → Result E A
  ok : A → Result E A

module _ {E : Type 0} where
  infixl 5 ◌>>◌ ◌>>=◌
  -- What `if b: raise e` and a missing value do.
  abbrev pub raise_if : Bool → E → Result E (Unit {0})
  raise_if false failure = ok tt
  raise_if true failure = err failure

  abbrev pub or_raise : {A : Type 0} → Option A → E → Result E A
  or_raise (some found) failure = ok found
  or_raise none failure = err failure

  abbrev pub ◌>>=◌ : {A B : Type 0} (call : Result E A) → (rest : A → Result E B) → Result E B
  call >>= rest = elim call [ err failure ↦ err failure | ok answer ↦ rest answer ]

  abbrev pub ◌>>◌ : {B : Type 0} (call : Result E (Unit {0})) → (rest : Result E B) → Result E B
  call >> rest = elim call [ err failure ↦ err failure | ok _ ↦ rest ]

  -- A chain that returns has returned at each step.
  pub >>=-eq-ok :
      {A B : Type 0} (call : Result E A) (rest : A → Result E B) {answer : B}
      → (call >>= rest) ≡ ok answer
      → (found : A) × (call ≡ ok found) × (rest found ≡ ok answer)
  >>=-eq-ok (err failure) rest h = absurd (ground arith)
  >>=-eq-ok (ok found) rest h = (found, refl, h)

  -- A guard in front of a chain that returns did not raise.
  pub raise_if-eq-ok :
      {A : Type 0} (b : Bool) (e : E) (k : Result E A) {a : A}
      → (raise_if b e >> k) ≡ ok a
      → (b ≡ false) × (k ≡ ok a)
  raise_if-eq-ok true e k h = absurd (ground arith)
  raise_if-eq-ok false e k h = (refl, h)

  pub Result-cases :
      {A : Type 0} (r : Result E A) → ((e : E) × (r ≡ err e)) ⊎ ((a : A) × (r ≡ ok a))
  Result-cases (err e) = inl (e, refl)
  Result-cases (ok a) = inr (a, refl)
