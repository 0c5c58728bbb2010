-- ===== src/Mem/Compare.antt =====
-- `memcmp` of utils/mem.c and the first bytes that differ.
use panda_os.Base.{ℕ, zero, suc, ◌+◌, ◌≤◌, ◌<◌, ◌≡◌, ◌≢◌, refl, arith}
use panda_os.Base.Int.{pos, sub_ℕ}
use panda_os.Base.Memory.{Memory, load8}
use panda_os.Mem.{memcmp, compare_loop}

abbrev pub SameBytes : (dest src len : ℕ) → Memory → Type 0
SameBytes dest src len m = (i : ℕ) → i < len → load8 (dest + i) m ≡ load8 (src + i) m

shift :
    (dest src len : ℕ) (m : Memory)
    → SameBytes dest src (suc len) m
    → SameBytes (dest + 1) (src + 1) len m
shift dest src len m same i lt = ground (arith, same (i + 1))

compare_loop-first :
    (dest src len k : ℕ) (m : Memory)
    → k ≤ len
    → SameBytes dest src k m
    → load8 (dest + k) m ≢ load8 (src + k) m
    → compare_loop dest src len m ≡ sub_ℕ (load8 (dest + k) m) (load8 (src + k) m)
unfolding compare_loop
compare_loop-first dest src zero zero m h same ne = ground arith
compare_loop-first dest src zero (suc k) m h same ne = absurd (omega arith)
compare_loop-first dest src (suc len) zero m h same ne = ground arith
compare_loop-first dest src (suc len) (suc k) m h same ne = ground (
  arith,
  same 0,
  compare_loop-first (dest + 1) (src + 1) len k m (omega arith) (shift dest src k m same),
)

compare_loop-same :
    (dest src len : ℕ) (m : Memory)
    → SameBytes dest src (suc len) m
    → compare_loop dest src len m ≡ pos 0
unfolding compare_loop
compare_loop-same dest src zero m same = ground (arith, same 0)
compare_loop-same dest src (suc len) m same =
    ground (
      arith,
      same 0,
      compare_loop-same (dest + 1) (src + 1) len m (shift dest src (suc len) m same),
    )

-- If the first k bytes agree and byte k, within `len`, differs, `memcmp` returns the difference of
-- the two bytes k.
pub memcmp-first :
    (dest src len k : ℕ) (m : Memory)
    → k < len
    → SameBytes dest src k m
    → load8 (dest + k) m ≢ load8 (src + k) m
    → memcmp dest src len m ≡ sub_ℕ (load8 (dest + k) m) (load8 (src + k) m)
unfolding memcmp
memcmp-first dest src zero k m h same ne = absurd (omega arith)
memcmp-first dest src (suc len) k m h same ne =
    compare_loop-first dest src len k m (omega arith) same ne

-- On areas that hold the same bytes `memcmp` returns 0, whatever the length.
pub memcmp-same :
    (dest src len : ℕ) (m : Memory) → SameBytes dest src len m → memcmp dest src len m ≡ pos 0
unfolding memcmp
memcmp-same dest src zero m same = refl
memcmp-same dest src (suc len) m same = compare_loop-same dest src len m same
