-- ===== src/Base/Memory.antt =====
-- The address space: a byte at each address, and 32-bit little-endian words at any address, as an
-- i386 reads them. Addresses are plain numbers; pointer arithmetic is taken not to wrap.
use Prim.Native.Nat.{ℕ, ◌+◌, ◌*◌, ◌/◌, ◌%◌, ◌^◌, ◌≤◌, ◌<◌}
use mathlib.Core.Path.{◌≡◌, ap}
use mathlib.Core.Logic.{◌≢◌, ◌⊎◌}
use native.Mathlib.Omega.{arith}
use panda_os.Base.Tests.{◌==◌, if◌then◌else◌}

abbrev pub Memory : Type 0
Memory = ℕ → ℕ

-- `*p = v` for a `uint8 *p`; a wider value is cut to its low byte.
unfoldable pub store8 : ℕ → ℕ → Memory → Memory
store8 p v m a = if a == p then v % 2 ^ 8 else m a

unfoldable pub load8 : ℕ → Memory → ℕ
load8 p m = m p % 2 ^ 8

-- `*p` and `*p = v` for a `size_t *p`.
unfoldable pub load32 : ℕ → Memory → ℕ
load32 p m =
    load8 p m + 2 ^ 8 * load8 (p + 1) m + 2 ^ 16 * load8 (p + 2) m + 2 ^ 24 * load8 (p + 3) m

unfoldable pub store32 : ℕ → ℕ → Memory → Memory
store32 p v m =
    store8 (p + 3) (v / 2 ^ 24)
      (store8 (p + 2) (v / 2 ^ 16) (store8 (p + 1) (v / 2 ^ 8) (store8 p v m)))

pub load8-store8_self : (p v : ℕ) (m : Memory) → load8 p (store8 p v m) ≡ v % 2 ^ 8
unfolding load8 store8
load8-store8_self p v m = ground arith

pub load8-store8_ne : (p q v : ℕ) (m : Memory) → q ≢ p → load8 q (store8 p v m) ≡ load8 q m
unfolding load8 store8
load8-store8_ne p q v m h = ground arith

pub load8-lt : (p : ℕ) (m : Memory) → load8 p m < 2 ^ 8
unfolding load8
load8-lt p m = omega arith

pub load32-lt : (p : ℕ) (m : Memory) → load32 p m < 2 ^ 32
unfolding load32
load32-lt p m = omega (arith, load8-lt)

-- Two words, or a word and a byte, that share no address.
abbrev pub Apart : (p n q k : ℕ) → Type 0
Apart p n q k = (p + n ≤ q) ⊎ (q + k ≤ p)

pub load8-store32-Apart :
    (p q v : ℕ) (m : Memory) → Apart p 4 q 1 → load8 q (store32 p v m) ≡ load8 q m
unfolding store32 store8 load8
load8-store32-Apart p q v m h = ground arith

pub load32-store32_self : (p v : ℕ) (m : Memory) → v < 2 ^ 32 → load32 p (store32 p v m) ≡ v
unfolding store32 load32 store8 load8
load32-store32_self p v m h = ground arith

pub load32-store32-Apart :
    (p q v : ℕ) (m : Memory) → Apart p 4 q 4 → load32 q (store32 p v m) ≡ load32 q m
unfolding load32
load32-store32-Apart p q v m h = omega (
  arith,
  load8-store32-Apart p q v m (omega arith),
  load8-store32-Apart p (q + 1) v m (omega arith),
  load8-store32-Apart p (q + 2) v m (omega arith),
  load8-store32-Apart p (q + 3) v m (omega arith),
)

pub load32-store8-Apart :
    (p q v : ℕ) (m : Memory) → Apart p 1 q 4 → load32 q (store8 p v m) ≡ load32 q m
unfolding load32 load8 store8
load32-store8-Apart p q v m h = ground arith

pub load8-store8-Apart :
    (p q v : ℕ) (m : Memory) → Apart p 1 q 1 → load8 q (store8 p v m) ≡ load8 q m
load8-store8-Apart p q v m h = load8-store8_ne p q v m (omega arith)

-- A word is the same in two memories that agree on its four bytes.
pub load32_same :
    (q : ℕ) (m m' : Memory)
    → ((i : ℕ) → i < 4 → load8 (q + i) m ≡ load8 (q + i) m')
    → load32 q m ≡ load32 q m'
unfolding load32
load32_same q m m' h = omega (
  arith,
  h 0 (omega arith),
  h 1 (omega arith),
  h 2 (omega arith),
  h 3 (omega arith),
  ap (λ t. load8 t m) (q_zero q),
  ap (λ t. load8 t m') (q_zero q),
)
  where
    q_zero : (a : ℕ) → a + 0 ≡ a
    q_zero a = omega arith

pub load8-store32_above : (p q v : ℕ) (m : Memory) → p + 4 ≤ q → load8 q (store32 p v m) ≡ load8 q m
load8-store32_above p q v m h = load8-store32-Apart p q v m (omega arith)
