-- ===== src/Common/Outcome.antt =====
-- The outcome of a C++ function: a value, an exception, or undefined behaviour.

pub data Outcome {ℓ} (E : Type 0) (A : Type ℓ) : Type ℓ where
  returns : A → Outcome E A
  throws : E → Outcome E A
  undefined : Outcome E A

infixl 5 ◌>>=◌
abbrev pub ◌>>=◌ {ℓ κ} :
    {E : Type 0} {A : Type ℓ} {B : Type κ} → Outcome E A → (A → Outcome E B) → Outcome E B
returns a >>= f = f a
throws e >>= f = throws e
undefined >>= f = undefined
