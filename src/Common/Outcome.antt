-- ===== src/Common/Outcome.antt =====
-- A Go call that returns a value or an error.
use mathlib.Core.Path.{◌≡◌, refl}
use mathlib.Core.Logic.{◌⊎◌, inl, inr}

pub data Result (E A : Type 0) : Type 0 where
  ok : A → Result E A
  err : E → Result E A

-- To split on a computed result and keep the equation.
pub Result-cases :
    {E A : Type 0} (r : Result E A) → ((a : A) × (r ≡ ok a)) ⊎ ((e : E) × (r ≡ err e))
Result-cases (ok a) = inl (a, refl)
Result-cases (err e) = inr (e, refl)

infixl 5 ◌>>=◌
abbrev pub ◌>>=◌ : {E A B : Type 0} → Result E A → (A → Result E B) → Result E B
ok a >>= f = f a
err e >>= f = err e

-- `fmt.Errorf("...: %w", err)`: the error of `r` inside another.
abbrev pub wrap : {E F A : Type 0} → (E → F) → Result E A → Result F A
wrap f (ok a) = ok a
wrap f (err e) = err (f e)
