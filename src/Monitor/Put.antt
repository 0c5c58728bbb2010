-- ===== src/Monitor/Put.antt =====
-- What `monitor_put` does to the cells.
use panda_os.Base.{
  ℕ, ◌+◌, ◌-◌, ◌*◌, ◌^◌, ◌≤◌, ◌<◌, ◌≡◌, refl, List, [], ◌∷◌, bit_or, ltb, leb, ◌==◌, ◌||◌, ◌&&◌,
  false, if◌then◌else◌, arith, u16, ◌∙◌,
}
use panda_os.Base.Bits.{bit_or_fields, bit_or_comm}
use panda_os.Monitor.{
  Monitor, put_char, wrap, put_cell, monitor_put, monitor_write, scroll, move_cursor, blank,
  get_attribute_byte,
}
use panda_os.Monitor.Cells.{scroll-cell}
use panda_os.Monitor.Cursor.{IsValid, monitor_put-IsValid, wrap-put_char}

put_char-off_screen :
    (c : ℕ) {s : Monitor} (j : ℕ) → IsValid s → 2000 ≤ j → (wrap (put_char c s)).video j ≡ s.video j
unfolding put_char wrap put_cell
put_char-off_screen c {s} j v off = ground arith

-- `monitor_put` writes to no cell behind the 2000 cells of the screen.
pub monitor_put-off_screen :
    (c : ℕ) {s : Monitor} (j : ℕ) → IsValid s → 2000 ≤ j → (monitor_put c s).video j ≡ s.video j
unfolding monitor_put move_cursor
monitor_put-off_screen c {s} j v off =
    ground (arith, scroll-cell (wrap (put_char c s)) j, put_char-off_screen c j v off)

-- No string makes `monitor_write` write behind the screen.
pub monitor_write-off_screen :
    (cs : List ℕ) {s : Monitor} (j : ℕ)
    → IsValid s
    → 2000 ≤ j
    → (monitor_write cs s).video j ≡ s.video j
unfolding monitor_write
monitor_write-off_screen [] j v off = refl
monitor_write-off_screen (c ∷ cs) j v off =
    monitor_write-off_screen cs j (monitor_put-IsValid c v) off ∙ monitor_put-off_screen c j v off

-- The cell that shows the character c in the current colours: the attribute byte above the code.
abbrev pub shown : ℕ → Monitor → ℕ
shown c s = get_attribute_byte s * 256 + c

get_attribute_byte-lt : (s : Monitor) → get_attribute_byte s < 256
unfolding get_attribute_byte
get_attribute_byte-lt s = omega arith

-- The raster position of the cursor.
abbrev pub position : Monitor → ℕ
position s = s.cursor_y * 80 + s.cursor_x

print_cell :
    (c : ℕ) (s : Monitor)
    → c < 256
    → u16 (bit_or c (u16 (get_attribute_byte s * 2 ^ 8))) ≡ shown c s
print_cell c s h = ground (
  arith,
  get_attribute_byte-lt s,
  bit_or_comm 16 c (get_attribute_byte s * 2 ^ 8),
  bit_or_fields 8 (get_attribute_byte s) c,
)

-- The cells after c has been written at the cursor.
abbrev pub written : ℕ → Monitor → ℕ → ℕ
written c s j = if j == position s then shown c s else s.video j

-- The printable characters of a signed `char`.
abbrev pub IsPrintable : ℕ → Type 0
IsPrintable c = (0x20 ≤ c) × (c < 0x80)

put_char-written :
    (c : ℕ) {s : Monitor} (j : ℕ)
    → IsValid s
    → IsPrintable c
    → ((wrap (put_char c s)).video j ≡ written c s j)
      × (position (wrap (put_char c s)) ≡ position s + 1)
unfolding put_char wrap put_cell
put_char-written c {s} j v p = ground (arith, print_cell c s)

attribute-put_char :
    (c : ℕ) (s : Monitor) → get_attribute_byte (wrap (put_char c s)) ≡ get_attribute_byte s
unfolding put_char wrap get_attribute_byte
attribute-put_char c s = ground arith

blank-put_char : (c : ℕ) (s : Monitor) → blank (wrap (put_char c s)) ≡ blank s
unfolding blank
blank-put_char c s = rw (attribute-put_char c s)

-- A printable character appears in the cell at the cursor in the current colours, every other cell
-- stays, and the cursor goes to the next position of the raster. In the last cell of the screen the
-- text moves up a line instead, the last line becomes blank and the cursor goes to its start.
pub monitor_put-written :
    (c : ℕ) {s : Monitor} (j : ℕ)
    → IsValid s
    → IsPrintable c
    → let t = monitor_put c s in
      (position t ≡ (if ltb (position s + 1) 2000 then position s + 1 else 1920))
      × (t.video j ≡ (
          if ltb (position s + 1) 2000
          then written c s j
          else (if ltb j 1920
              then u16 (written c s (j + 80))
              else (if ltb j 2000 then u16 (blank s) else s.video j))))
unfolding monitor_put move_cursor
monitor_put-written c {s} j v p =
    let w = wrap (put_char c s) in
    let (x, y) = wrap-put_char c v in
    ground (
      arith,
      scroll-cell w j,
      put_char-written c j v p,
      put_char-written c (j + 80) v p,
      blank-put_char c s,
      x,
      y,
    )

-- A backspace right of the first column goes back one position and blanks the cell there, and no
-- other; in the first column it changes neither cell nor cursor.
pub monitor_put_backspace :
    {s : Monitor} (j : ℕ)
    → IsValid s
    → let t = monitor_put 0x08 s in
      (position t ≡ (if s.cursor_x == 0 then position s else position s - 1))
      × (t.video j ≡ (
          if s.cursor_x == 0
          then s.video j
          else (if j == (position s - 1) then u16 (blank s) else s.video j)))
unfolding monitor_put move_cursor put_char wrap put_cell
monitor_put_backspace {s} j v = ground (arith, scroll-cell (wrap (put_char 0x08 s)) j)

blank-monitor_put : (c : ℕ) (s : Monitor) → blank (monitor_put c s) ≡ blank s
unfolding monitor_put move_cursor scroll blank get_attribute_byte
blank-monitor_put c s = ground (arith, blank-put_char c s)

-- A backspace after a printable character, not in the last column, brings the cursor back and leaves
-- every cell but the character's as it was; that cell is blank.
pub monitor_put_undo :
    (c : ℕ) {s : Monitor} (j : ℕ)
    → IsValid s
    → IsPrintable c
    → s.cursor_x + 1 < 80
    → let t = monitor_put 0x08 (monitor_put c s) in
      (position t ≡ position s)
      × (t.video j ≡ (if j == position s then u16 (blank s) else s.video j))
monitor_put_undo c {s} j v p inside =
    let t = monitor_put c s in
    ground (
      arith,
      monitor_put_backspace j (monitor_put-IsValid c v),
      monitor_put-written c j v p,
      monitor_put-written c (position s) v p,
      monitor_put-IsValid c v,
      v,
      blank-monitor_put c s,
    )

-- A byte that is no printable ASCII character and none of backspace, tab, newline and return changes
-- no cell and does not move the cursor. All bytes from 0x80 on are such.
pub monitor_put_ignored :
    (c : ℕ) {s : Monitor} (j : ℕ)
    → IsValid s
    → ((c == 0x08) || (c == 0x09) || (c == 0x0a) || (c == 0x0d)) ≡ false
    → (leb 0x20 c && ltb c 0x80) ≡ false
    → let t = monitor_put c s in (position t ≡ position s) × (t.video j ≡ s.video j)
unfolding monitor_put move_cursor put_char wrap
monitor_put_ignored c {s} j v control printable =
    ground (arith, scroll-cell (wrap (put_char c s)) j)
