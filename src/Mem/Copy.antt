-- ===== src/Mem/Copy.antt =====
-- What memcpy, memmove and memset leave at each address.
use panda_os.Base.{
  ℕ, zero, suc, ◌+◌, ◌-◌, ◌≤◌, ◌%◌, ◌^◌, ◌≡◌, sym, ◌∙◌, ◌⊎◌, ◌&&◌, leb, ltb, arith, if◌then◌else◌,
}
use panda_os.Base.Memory.{Memory, load8, store8, load8-store8_self, load8-store8_ne, load8-lt}
use panda_os.Mem.{memcpy, memset, memmove, move_up, move_down}

-- The byte at `a` once `len` bytes from `src` have been copied to `dest`, all read beforehand.
abbrev pub copied : (dest src len : ℕ) → Memory → ℕ → ℕ
copied dest src len m a =
    if leb dest a && ltb a (dest + len) then load8 (src + (a - dest)) m else load8 a m

pub memcpy_up :
    (dest src len : ℕ) (m : Memory) (a : ℕ)
    → (dest ≤ src) ⊎ (src + len ≤ dest)
    → load8 a (memcpy dest src len m) ≡ copied dest src len m a
unfolding memcpy
memcpy_up dest src zero m a h = ground arith
memcpy_up dest src (suc len) m a h =
    let m' = store8 dest (load8 src m) m in
    ground (
      arith,
      memcpy_up (dest + 1) (src + 1) len m' a,
      load8-store8_self dest (load8 src m) m,
      load8-lt src m,
      load8-store8_ne dest a (load8 src m) m,
      load8-store8_ne dest (src + (a - dest)) (load8 src m) m,
    )

move_up-copied :
    (dest src len : ℕ) (m : Memory) (a : ℕ)
    → (dest ≤ src) ⊎ (src + len ≤ dest)
    → load8 a (move_up dest src len m) ≡ copied dest src len m a
unfolding move_up
move_up-copied dest src zero m a h = ground arith
move_up-copied dest src (suc len) m a h =
    let m' = store8 dest (load8 src m) m in
    ground (
      arith,
      move_up-copied (dest + 1) (src + 1) len m' a,
      load8-store8_self dest (load8 src m) m,
      load8-lt src m,
      load8-store8_ne dest a (load8 src m) m,
      load8-store8_ne dest (src + (a - dest)) (load8 src m) m,
    )

-- The pointers stand at the last byte that is left, `len - 1` above the ends.
move_down-copied :
    (dest src len p q : ℕ) (m : Memory) (a : ℕ)
    → src ≤ dest
    → p + 1 ≡ dest + len
    → q + 1 ≡ src + len
    → load8 a (move_down p q len m) ≡ copied dest src len m a
unfolding move_down
move_down-copied dest src zero p q m a h ep eq = ground arith
move_down-copied dest src (suc zero) p q m a h ep eq =
    ground
      (arith, load8-store8_self p (load8 q m) m, load8-lt q m, load8-store8_ne p a (load8 q m) m)
move_down-copied dest src (suc (suc len)) p q m a h ep eq =
    let m' = store8 p (load8 q m) m in
    ground (
      arith,
      move_down-copied dest src (suc len) (p - 1) (q - 1) m' a,
      load8-store8_self p (load8 q m) m,
      load8-lt q m,
      load8-store8_ne p a (load8 q m) m,
      load8-store8_ne p (src + (a - dest)) (load8 q m) m,
    )

-- `memmove` copies correctly however the two areas overlap: each of the `len` bytes from `dest` on
-- becomes the byte that stood at the same offset from `src` before the call, and every other byte
-- of memory is unchanged.
pub memmove-copied :
    (dest src len : ℕ) (m : Memory) (a : ℕ)
    → load8 a (memmove dest src len m) ≡ copied dest src len m a
unfolding memmove
memmove-copied dest src zero m a = ground (
  arith,
  move_up-copied dest src 0 m a,
  move_down-copied dest src 0 (dest + 0 - 1) (src + 0 - 1) m a,
)
memmove-copied dest src (suc len) m a = ground (
  arith,
  move_up-copied dest src (suc len) m a,
  move_down-copied dest src (suc len) (dest + suc len - 1) (src + suc len - 1) m a,
)

-- Where the destination does not begin inside the source area, `memcpy` and `memmove` leave the same
-- memory.
pub memcpy-memmove :
    (dest src len : ℕ) (m : Memory) (a : ℕ)
    → (dest ≤ src) ⊎ (src + len ≤ dest)
    → load8 a (memcpy dest src len m) ≡ load8 a (memmove dest src len m)
memcpy-memmove dest src len m a h =
    memcpy_up dest src len m a h ∙ sym (memmove-copied dest src len m a)

-- `memset` writes the low byte of `val` to each of the `len` bytes from `dest` on, and nothing else.
pub memset_lem :
    (dest val len : ℕ) (m : Memory) (a : ℕ)
    → load8 a (memset dest val len m)
      ≡ (if leb dest a && ltb a (dest + len) then val % 2 ^ 8 else load8 a m)
unfolding memset
memset_lem dest val zero m a = ground arith
memset_lem dest val (suc len) m a = ground (
  arith,
  memset_lem (dest + 1) val len (store8 dest val m) a,
  load8-store8_self dest val m,
  load8-store8_ne dest a val m,
)
