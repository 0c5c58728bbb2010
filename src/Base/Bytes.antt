-- ===== src/Base/Bytes.antt =====
-- Runs of bytes in memory.
use Prim.Native.Nat.{ℕ, zero, suc, ◌+◌, ◌%◌, ◌^◌, ◌<◌}
use mathlib.Core.Path.{◌≡◌, refl, ap, ◌∙◌, subst}
use mathlib.Core.List.{List, [], ◌∷◌, ◌++◌}
use native.Mathlib.Omega.{arith}
use panda_os.Base.Lists.{length}
use panda_os.Base.Memory.{Memory, load8, load32}

-- The n bytes from an address on.
abbrev pub bytes_at : (n a : ℕ) → Memory → List ℕ
bytes_at zero a m = []
bytes_at (suc n) a m = load8 a m ∷ bytes_at n (a + 1) m

-- The values of a list stand at an address, each cut to a byte.
abbrev pub At : ℕ → List ℕ → Memory → Type 0
At a [] m = Unit {0}
At a (x ∷ xs) m = (load8 a m ≡ x % 2 ^ 8) × At (a + 1) xs m

pub length-bytes_at : (n a : ℕ) (m : Memory) → length (bytes_at n a m) ≡ n
length-bytes_at zero a m = refl
length-bytes_at (suc n) a m = ap suc (length-bytes_at n (a + 1) m)

pub At-append :
    (a : ℕ) (xs ys : List ℕ) (m : Memory) → At a (xs ++ ys) m → At a xs m × At (a + length xs) ys m
At-append a [] ys m h = let here : a ≡ a + 0 = omega arith in (tt, subst (λ b. At b ys m) here h)
At-append a (x ∷ xs) ys m h =
    let (front, back) = At-append (a + 1) xs ys m h.1 in
    let there : a + 1 + length xs ≡ a + suc (length xs) = omega arith in
    ((h.0, front), subst (λ b. At b ys m) there back)

-- A copy of memory has its bytes.
pub At-bytes_at :
    (n a b k : ℕ) (m m' : Memory)
    → At a (bytes_at n b m') m
    → k < n
    → load8 (a + k) m ≡ load8 (b + k) m'
At-bytes_at zero a b k m m' h lt = absurd (omega arith)
At-bytes_at (suc n) a b zero m m' h lt =
    let here : a + 0 ≡ a = omega arith in
    let there : b ≡ b + 0 = omega arith in
    ap (λ q. load8 q m) here ∙ h.0 ∙ whole ∙ ap (λ q. load8 q m') there
  where
    whole : load8 b m' % 2 ^ 8 ≡ load8 b m'
    whole = unfold load8 in omega arith
At-bytes_at (suc n) a b (suc k) m m' h lt =
    let here : a + suc k ≡ a + 1 + k = omega arith in
    let there : b + 1 + k ≡ b + suc k = omega arith in
    ap (λ q. load8 q m) here
    ∙ At-bytes_at n (a + 1) (b + 1) k m m' h.1 (omega arith)
    ∙ ap (λ q. load8 q m') there

-- The same bytes elsewhere.
pub At-moved :
    (a b : ℕ) (xs : List ℕ) (m m' : Memory)
    → At a xs m
    → ((k : ℕ) → k < length xs → load8 (b + k) m' ≡ load8 (a + k) m)
    → At b xs m'
At-moved a b [] m m' h same = tt
At-moved a b (x ∷ xs) m m' h same =
    let here : b ≡ b + 0 = omega arith in
    let there : a + 0 ≡ a = omega arith in
    (
      ap (λ q. load8 q m') here ∙ same 0 (omega arith) ∙ ap (λ q. load8 q m) there ∙ h.0,
      At-moved (a + 1) (b + 1) xs m m' h.1 (λ k lt.
          let p : b + 1 + k ≡ b + suc k = omega arith in
          let q : a + suc k ≡ a + 1 + k = omega arith in
          ap (λ r. load8 r m') p ∙ same (suc k) (omega arith) ∙ ap (λ r. load8 r m) q),
    )

-- A word with the same bytes elsewhere.
pub load32_moved :
    (p q : ℕ) (m m' : Memory)
    → ((k : ℕ) → k < 4 → load8 (p + k) m ≡ load8 (q + k) m')
    → load32 p m ≡ load32 q m'
unfolding load32
load32_moved p q m m' h =
    let p' : p + 0 ≡ p = omega arith in
    let q' : q + 0 ≡ q = omega arith in
    omega (
      arith,
      h 0 (omega arith),
      h 1 (omega arith),
      h 2 (omega arith),
      h 3 (omega arith),
      ap (λ t. load8 t m) p',
      ap (λ t. load8 t m') q',
    )
