-- ===== src/Initrd.antt =====
-- filesystem/initrd.c: reading a file of the initial ram disk. `file_headers` is the address of the
-- file headers, each of 76 bytes: magic, name (64 bytes), offset and length at a multiple of 4.
pub mod Read
pub mod Directory
pub mod Start
mod Tests
use panda_os.Base.{ℕ, ◌+◌, ◌*◌, ltb, if◌then◌else◌, add32, sub32}
use panda_os.Base.Memory.{Memory, load32}
use panda_os.Mem.{memcpy}

-- The fields of the header of file `inode`.
abbrev pub file_offset : (file_headers inode : ℕ) → Memory → ℕ
file_offset file_headers inode m = load32 (file_headers + 76 * inode + 68) m

abbrev pub file_length : (file_headers inode : ℕ) → Memory → ℕ
file_length file_headers inode m = load32 (file_headers + 76 * inode + 72) m

-- The number of bytes read, and the memory after.
unfoldable pub initrd_read : (file_headers inode offset size buffer : ℕ) → Memory → ℕ × Memory
initrd_read file_headers inode offset size buffer m =
    let length = file_length file_headers inode m in
    let size' = if ltb length (add32 offset size) then sub32 length offset else size in
    if ltb length offset
    then (0, m)
    else (size', memcpy buffer (add32 (file_offset file_headers inode m) offset) size' m)
