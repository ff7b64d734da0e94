-- ===== src/Prelude/Outcomes.antt =====
-- How a C function ends: it returns, it divides by zero, it follows a NULL pointer, or the
-- fuel given to a loop is spent.

pub data Outcome {ℓ} (A : Type ℓ) : Type ℓ where
  returns : A → Outcome A
  div_fault : Outcome A
  null_fault : Outcome A
  out_of_fuel : Outcome A

infixl 5 ◌>>=◌
abbrev pub ◌>>=◌ {ℓ κ} : {A : Type ℓ} {B : Type κ} → Outcome A → (A → Outcome B) → Outcome B
returns a >>= f = f a
div_fault >>= f = div_fault
null_fault >>= f = null_fault
out_of_fuel >>= f = out_of_fuel
