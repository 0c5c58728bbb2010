-- ===== src/Strings/Length.antt =====
-- `strlen` of utils/string.c.
use panda_os.Base.{
  ℕ, zero, suc, ◌+◌, ◌<◌, ◌≡◌, ◌∙◌, ap, List, [], ◌∷◌, length, false, true, ◌==◌, ok, arith,
}
use panda_os.Base.Memory.{Memory, load8}
use panda_os.Strings.{length_loop, strlen}
use panda_os.Strings.Holds.{Holds}

length_loop-length :
    (fuel src i : ℕ) (cs : List ℕ) (m : Memory)
    → Holds src cs m
    → length cs < fuel
    → length_loop fuel src i m ≡ ok (i + length cs)
unfolding length_loop
length_loop-length zero src i cs m h lt = absurd (omega arith)
length_loop-length (suc fuel) src i [] m h lt =
    let end : (load8 src m == 0) ≡ true = ground arith in rw end (ap ok (omega arith))
length_loop-length (suc fuel) src i (c ∷ cs) m h lt =
    let on : (load8 src m == 0) ≡ false = ground arith in
    rw on (length_loop-length fuel (src + 1) (i + 1) cs m h.2 (omega arith) ∙ ap ok (omega arith))

-- `strlen` ends at the 0 of the string, and returns the number of bytes in front of it.
pub strlen-length :
    (fuel src : ℕ) (cs : List ℕ) (m : Memory)
    → Holds src cs m
    → length cs < fuel
    → strlen fuel src m ≡ ok (length cs)
unfolding strlen
strlen-length fuel src cs m h lt = length_loop-length fuel src 0 cs m h lt ∙ ap ok (omega arith)
