-- ===== src/Paging/Frames.antt =====
-- The bit set of frames in use, and giving frames to pages.
use panda_os.Base.{
  ℕ, zero, suc, ◌+◌, ◌-◌, ◌*◌, ◌/◌, ◌%◌, ◌^◌, Bool, Option, none, some, bit_and, bit_or, ◌==◌,
  if◌then◌else◌, u32, Outcome, ok, panic,
}

-- `frames` and `frame_count`; `frames i` is `frames[i]`.
pub record Frames : Type 0 where
  pub frames : ℕ → ℕ
  pub frame_count : ℕ

-- `page_t` of memory/paging.h.
pub record Page : Type 0 where
  pub present : ℕ
  pub rw : ℕ
  pub user : ℕ
  pub accessed : ℕ
  pub dirty : ℕ
  pub unused : ℕ
  pub frame : ℕ

-- The macros INDEX_FROM_BIT and OFFSET_FROM_BIT.
abbrev pub index_from_bit : ℕ → ℕ
index_from_bit a = a / 32

abbrev pub offset_from_bit : ℕ → ℕ
offset_from_bit a = a % 32

unfoldable pub put_word : (i v : ℕ) → (ℕ → ℕ) → ℕ → ℕ
put_word i v words j = if j == i then v else words j

unfoldable pub set_frame : (frame_addr : ℕ) → Frames → Frames
set_frame frame_addr s =
    let frame = frame_addr / 0x1000 in
    let idx = index_from_bit frame in
    let off = offset_from_bit frame in
    record s { frames = put_word idx (bit_or (s.frames idx) (2 ^ off)) s.frames }

-- `~(0x1 << off)` is the complement at 32 bits.
unfoldable pub clear_frame : (frame_addr : ℕ) → Frames → Frames
clear_frame frame_addr s =
    let frame = frame_addr / 0x1000 in
    let idx = index_from_bit frame in
    let off = offset_from_bit frame in
    record s { frames = put_word idx (bit_and (s.frames idx) (2 ^ 32 - 1 - 2 ^ off)) s.frames }

unfoldable pub test_frame : (frame_addr : ℕ) → Frames → ℕ
test_frame frame_addr s =
    let frame = frame_addr / 0x1000 in
    bit_and (s.frames (index_from_bit frame)) (2 ^ offset_from_bit frame)

-- The inner loop of `first_frame` over the bits of one word, `left` of them to go.
unfoldable pub first_bit : (left j : ℕ) (word : ℕ) → Option ℕ
first_bit zero j word = none
first_bit (suc left) j word =
    let rest = first_bit left (j + 1) word in if bit_and word (2 ^ j) == 0 then some j else rest

-- `return i*4*8+j` once the inner loop has found a bit, and otherwise the next round.
abbrev pub found_in : (i : ℕ) (found rest : Option ℕ) → Option ℕ
found_in i none rest = rest
found_in i (some j) rest = some (i * 32 + j)

unfoldable pub first_word : (left i : ℕ) → Frames → Option ℕ
first_word zero i s = none
first_word (suc left) i s =
    let rest = first_word left (i + 1) s in
    if s.frames i == 0xffff_ffff then rest else found_in i (first_bit 32 0 (s.frames i)) rest

-- `none` is the end of the function, which is reached without a `return`.
unfoldable pub first_frame : Frames → Option ℕ
first_frame s = first_word (index_from_bit s.frame_count) 0 s

-- A flag set from an `int`.
abbrev pub flag : Bool → ℕ
flag b = if b then 1 else 0

-- `garbage` is the value that the caller of `first_frame` sees when no frame is free: C leaves it
-- undefined. `frame` is a field of 20 bits.
unfoldable pub alloc_frame :
    (garbage : ℕ) (is_kernel is_writeable : Bool) → Page → Frames → Outcome (Page × Frames)
alloc_frame garbage is_kernel is_writeable page s =
    if page.frame == 0
    then (let frame_address : ℕ = elim (first_frame s) [ none ↦ garbage | some k ↦ k ] in
        if frame_address == 0xffff_ffff
        then panic
        else ok (
          record page {
            present = 1;
            rw = flag is_writeable;
            user = if is_kernel then 0 else 1;
            frame = frame_address % 2 ^ 20;
          },
          set_frame (u32 (frame_address * 0x1000)) s,
        ))
    else ok (page, s)

-- `clear_frame` gets the frame number as the source passes it, where it takes an address.
unfoldable pub free_frame : Page → Frames → Page × Frames
free_frame page s =
    if page.frame == 0 then (page, s) else (record page { frame = 0 }, clear_frame page.frame s)
