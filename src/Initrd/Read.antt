-- ===== src/Initrd/Read.antt =====
-- What `initrd_read` returns and what it leaves in the buffer.
use panda_os.Base.{
  ℕ, ◌+◌, ◌-◌, ◌%◌, ◌^◌, ◌≤◌, ◌<◌, ◌≡◌, ◌⊎◌, refl, Bool-cases, inl, inr, ltb, false, if◌then◌else◌,
  arith,
}
use panda_os.Base.Memory.{Memory, load8}
use panda_os.Mem.Copy.{copied, memcpy_up}
use panda_os.Initrd.{file_offset, file_length, initrd_read}

-- The bytes of the file from `offset` on, as many as are asked for and there are.
abbrev pub available : (length offset size : ℕ) → ℕ
available length offset size = if ltb length (offset + size) then length - offset else size

-- A read from within the file returns as many bytes as are asked for or are left, puts exactly those
-- bytes of the file into the buffer and changes nothing else; from behind the end it returns 0 and
-- changes nothing. Neither offset and size nor the start of the file and the offset may have a sum of 2 ^ 32
-- or more, and the buffer may not begin inside the file behind the place where the read begins.
pub initrd_read-copied :
    (file_headers inode offset size buffer a : ℕ) (m : Memory)
    → let length = file_length file_headers inode m in
      let start = file_offset file_headers inode m in
      length < 2 ^ 32
      → offset + size < 2 ^ 32
      → start + offset < 2 ^ 32
      → (buffer ≤ start + offset) ⊎ (start + length ≤ buffer)
      → let (n, m') = initrd_read file_headers inode offset size buffer m in
        (n ≡ (if ltb length offset then 0 else available length offset size))
        × (load8 a m' ≡ (
            if ltb length offset
            then load8 a m
            else copied buffer (start + offset) (available length offset size) m a))
unfolding initrd_read
initrd_read-copied file_headers inode offset size buffer a m wide fits flat apart =
    let length = file_length file_headers inode m in
    let start = file_offset file_headers inode m in
    let sum : (offset + size) % 2 ^ 32 ≡ offset + size = omega arith in
    let at : (start + offset) % 2 ^ 32 ≡ start + offset = omega arith in
    elim (Bool-cases (ltb length offset)) [
      | inl past ↦ rw past (refl, refl)
      | inr within ↦
          let rest : (length + 2 ^ 32 - offset) % 2 ^ 32 ≡ length - offset = ground arith in
          let n = available length offset size in
          let clear : (buffer ≤ start + offset) ⊎ (start + offset + n ≤ buffer) = ground arith in
          rw (within, sum, at, rest) (refl, memcpy_up buffer (start + offset) n m a clear)
    ]

-- Where offset and size do not wrap on their own but their sum does, to within the file, the request
-- is not cut down: the read returns its size, which is beyond the end of the file.
pub initrd_read_beyond :
    (file_headers inode offset size buffer : ℕ) (m : Memory)
    → let length = file_length file_headers inode m in
      offset ≤ length
      → length < 2 ^ 32
      → size < 2 ^ 32
      → 2 ^ 32 ≤ offset + size
      → let n = (initrd_read file_headers inode offset size buffer m).0 in
        (n ≡ size) × (length < offset + n)
unfolding initrd_read
initrd_read_beyond file_headers inode offset size buffer m within wide small wraps =
    let length = file_length file_headers inode m in
    let inside : ltb length offset ≡ false = ground arith in
    let uncut : ltb length ((offset + size) % 2 ^ 32) ≡ false = ground arith in
    rw (inside, uncut) (refl, omega arith)
