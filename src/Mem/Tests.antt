-- ===== src/Mem/Tests.antt =====
-- The memory routines at a short text.
use panda_os.Base.{◌≡◌, refl}
use panda_os.Base.Memory.{Memory, load8, store8}
use panda_os.Mem.{memcpy, memmove}
use panda_os.Mem.Copy.{memmove-copied}

-- Byte a of the text is a.
abbrev counting : Memory
counting a = a

-- Up by one: every byte moves, although the areas overlap.
memmove-copied_example : load8 14 (memmove 11 10 8 counting) ≡ 13
unfolding load8
memmove-copied_example = memmove-copied 11 10 8 counting 14

-- In the other direction `memcpy` repeats the first byte.
memcpy_smears : load8 14 (memcpy 11 10 8 counting) ≡ 10
unfolding memcpy load8 store8
memcpy_smears = refl
