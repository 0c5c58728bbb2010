-- ===== src/Base/Result.antt =====
-- What a call of kernel code comes to: it returns, or an ASSERT or PANIC stops the machine
-- (`panic` and `panic_assert` never return), or a loop of the model runs out of rounds.
use mathlib.Core.Bool.{Bool, true, false}

pub data Outcome {ℓ} (A : Type ℓ) : Type ℓ where
  ok : A → Outcome A
  panic out_of_fuel : Outcome A

infixl 5 ◌>>=◌ ◌>>◌
abbrev pub ◌>>=◌ {ℓ κ} : {A : Type ℓ} {B : Type κ} → Outcome A → (A → Outcome B) → Outcome B
ok a >>= f = f a
panic >>= f = panic
out_of_fuel >>= f = out_of_fuel

abbrev pub ◌>>◌ {ℓ} : {B : Type ℓ} → Outcome (Unit {0}) → Outcome B → Outcome B
m >> k = m >>= λ _. k

-- The macro ASSERT of utils/panic.h.
abbrev pub assert : Bool → Outcome (Unit {0})
assert true = ok tt
assert false = panic
