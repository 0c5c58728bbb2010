-- ===== src/Strings/Holds.antt =====
-- The string that stands at an address.
use panda_os.Base.{ℕ, ◌+◌, ◌≤◌, ◌<◌, ◌≡◌, ◌⊎◌, List, [], ◌∷◌, length, ◌∙◌, arith}
use panda_os.Base.Memory.{Memory, load8, store8, load8-store8-Apart}

-- The bytes of the string, none of them 0, and then a 0.
abbrev pub Holds : (p : ℕ) → List ℕ → Memory → Type 0
Holds p [] m = load8 p m ≡ 0
Holds p (c ∷ cs) m = (load8 p m ≡ c) × (0 < c) × Holds (p + 1) cs m

-- A string is the same in a memory that agrees on its bytes.
pub Holds-same :
    (p : ℕ) (cs : List ℕ) (m m' : Memory)
    → ((a : ℕ) → p ≤ a → a ≤ p + length cs → load8 a m' ≡ load8 a m)
    → Holds p cs m
    → Holds p cs m'
Holds-same p [] m m' same h = same p (omega arith) (omega arith) ∙ h
Holds-same p (c ∷ cs) m m' same h = (
  same p (omega arith) (omega arith) ∙ h.0,
  h.1,
  Holds-same (p + 1) cs m m' (λ a ge le. same a (omega arith) (omega arith)) h.2,
)

-- A byte written outside a string leaves it alone.
pub Holds-store8 :
    (p q v : ℕ) (cs : List ℕ) (m : Memory)
    → (q < p) ⊎ (p + length cs < q)
    → Holds p cs m
    → Holds p cs (store8 q v m)
Holds-store8 p q v cs m out h =
    Holds-same p cs m (store8 q v m) (λ a ge le. load8-store8-Apart q a v m (omega arith)) h
