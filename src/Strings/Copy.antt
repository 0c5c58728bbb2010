-- ===== src/Strings/Copy.antt =====
-- `strcpy` of utils/string.c.
use panda_os.Base.{
  ℕ, zero, suc, ◌+◌, ◌<◌, ◌≡◌, ◌⊎◌, List, [], ◌∷◌, length, false, true, ◌==◌, ok, arith,
}
use panda_os.Base.Memory.{Memory, load8, store8}
use panda_os.Mem.{memcpy}
use panda_os.Strings.{strcpy}
use panda_os.Strings.Holds.{Holds, Holds-store8}

-- `strcpy` of a string that is not empty copies its bytes as `memcpy` does, without the final 0: the
-- copy ends where the memory behind it happens to hold a 0. The destination lies outside the string.
pub strcpy-memcpy :
    (fuel dest src c : ℕ) (cs : List ℕ) (m : Memory)
    → Holds src (c ∷ cs) m
    → length cs < fuel
    → (dest + length cs < src) ⊎ (src + length cs + 1 < dest)
    → strcpy fuel dest src m ≡ ok (memcpy dest src (length (c ∷ cs)) m)
unfolding strcpy memcpy
strcpy-memcpy zero dest src c cs m h lt apart = absurd (omega arith)
strcpy-memcpy (suc fuel) dest src c [] m h lt apart =
    let m' = store8 dest (load8 src m) m in
    let next = Holds-store8 (src + 1) dest (load8 src m) [] m (omega arith) h.2 in
    let end : (load8 (src + 1) m' == 0) ≡ true = ground arith in rw end
strcpy-memcpy (suc fuel) dest src c (d ∷ cs) m h lt apart =
    let m' = store8 dest (load8 src m) m in
    let next = Holds-store8 (src + 1) dest (load8 src m) (d ∷ cs) m (omega arith) h.2 in
    let on : (load8 (src + 1) m' == 0) ≡ false = ground arith in
    rw on (strcpy-memcpy fuel (dest + 1) (src + 1) d cs m' next (omega arith) (omega arith))
