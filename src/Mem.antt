-- ===== src/Mem.antt =====
-- utils/mem.c: the byte loops over the address space. Each loop recurs on `len`, which it counts
-- down; the pointers move as in the source.
pub mod Copy
pub mod Compare
mod Tests
use panda_os.Base.{ℕ, zero, suc, ◌+◌, ◌-◌, ◌||◌, leb, ◌==◌, if◌then◌else◌}
use panda_os.Base.Int.{ℤ, pos, sub_ℕ}
use panda_os.Base.Memory.{Memory, load8, store8}

unfoldable pub memcpy : (dest src len : ℕ) → Memory → Memory
memcpy dest src zero m = m
memcpy dest src (suc len) m = memcpy (dest + 1) (src + 1) len (store8 dest (load8 src m) m)

unfoldable pub memset : (dest val len : ℕ) → Memory → Memory
memset dest val zero m = m
memset dest val (suc len) m = memset (dest + 1) val len (store8 dest val m)

-- The first loop of `memmove`.
move_up : (dest src len : ℕ) → Memory → Memory
move_up dest src zero m = m
move_up dest src (suc len) m = move_up (dest + 1) (src + 1) len (store8 dest (load8 src m) m)

-- The second loop, from the last byte down. The pointers after the last round are not used.
move_down : (dest src len : ℕ) → Memory → Memory
move_down dest src zero m = m
move_down dest src (suc len) m = move_down (dest - 1) (src - 1) len (store8 dest (load8 src m) m)

unfoldable pub memmove : (dest src len : ℕ) → Memory → Memory
unfolding move_up move_down
memmove dest src len m =
    if leb dest src || leb (src + len) dest
    then move_up dest src len m
    else move_down (dest + len - 1) (src + len - 1) len m

difference : (dest src : ℕ) → Memory → ℤ
difference dest src m = sub_ℕ (load8 dest m) (load8 src m)

-- `while (--len && *dest == *src)`, with `len` as it is after the decrement.
compare_loop : (dest src len : ℕ) → Memory → ℤ
unfolding difference
compare_loop dest src zero m = difference dest src m
compare_loop dest src (suc len) m =
    let rest = compare_loop (dest + 1) (src + 1) len m in
    if load8 dest m == load8 src m then rest else difference dest src m

unfoldable pub memcmp : (dest src len : ℕ) → Memory → ℤ
unfolding compare_loop
memcmp dest src zero m = pos 0
memcmp dest src (suc len) m = compare_loop dest src len m
