-- ===== src/Prelude/Outcomes.antt =====
-- What a call does: it returns, a failed `ASSERT` or a `PANIC` stops the kernel in `abort`, or the
-- fuel of a loop that may not end has run out.
use mathlib.Core.Bool.{Bool, true, false}

pub data Outcome {ℓ} (A : Type ℓ) : Type ℓ where
  ok : A → Outcome A
  abort : Outcome A
  out_of_fuel : Outcome A

infixl 5 ◌>>=◌ ◌>>◌
abbrev pub ◌>>=◌ {ℓ κ} : {A : Type ℓ} {B : Type κ} → Outcome A → (A → Outcome B) → Outcome B
ok a >>= f = f a
abort >>= f = abort
out_of_fuel >>= f = out_of_fuel

abbrev pub ◌>>◌ {κ} : {B : Type κ} → Outcome (Unit {0}) → Outcome B → Outcome B
m >> k = m >>= λ _. k

-- `ASSERT(x)` of kernel.h.
abbrev pub assert : Bool → Outcome (Unit {0})
assert true = ok tt
assert false = abort
