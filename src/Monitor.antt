-- ===== src/Monitor.antt =====
-- screen/monitor.c: the 80 x 25 text screen. A `char` is the bit pattern of its byte; as `char` is
-- signed on i386, `c >= ' '` holds of the patterns 0x20 to 0x7f only.
pub mod Cells
pub mod Cursor
pub mod Put
pub mod Hex
pub mod Dec
mod Tests
use panda_os.Base.{
  ℕ, zero, suc, ◌+◌, ◌-◌, ◌*◌, ◌/◌, ◌%◌, ◌^◌, Bool, ◌&&◌, ◌||◌, not, List, [], ◌∷◌, ◌++◌, bit_and,
  bit_or, ltb, leb, ◌==◌, if◌then◌else◌, u8, u16, u32, ◌<<<◌, ◌>>>◌,
}
use panda_os.Base.Int.{ℤ, pos, negsuc, signed32}

-- The globals, and the bytes sent to ports, the last one first. `video i` is `video_memory[i]`.
pub record Monitor : Type 0 where
  pub video : ℕ → ℕ
  pub cursor_x : ℕ
  pub cursor_y : ℕ
  pub background_color : ℕ
  pub foreground_color : ℕ
  pub ports : List (ℕ × ℕ)

-- `video_memory[i] = v`, a `uint16`.
unfoldable pub put_cell : (i v : ℕ) → (ℕ → ℕ) → ℕ → ℕ
put_cell i v video j = if j == i then u16 v else video j

unfoldable pub get_attribute_byte : Monitor → ℕ
get_attribute_byte s = u8 (bit_or (s.background_color <<< 4) (bit_and s.foreground_color 0x0f))

-- `0x20 | (get_attribute_byte() << 8)`
unfoldable pub blank : Monitor → ℕ
blank s = u16 (bit_or 0x20 (get_attribute_byte s <<< 8))

-- `outb` of utils/asm.c: the value is a `uint8`.
unfoldable pub outb : (port value : ℕ) → Monitor → Monitor
outb port value s = record s { ports = (port, u8 value) ∷ s.ports }

unfoldable pub move_cursor : Monitor → Monitor
unfolding outb
move_cursor s =
    let cursor_loc = u16 (s.cursor_y * 80 + s.cursor_x) in
    outb 0x3d5 cursor_loc (outb 0x3d4 15 (outb 0x3d5 (cursor_loc >>> 8) (outb 0x3d4 14 s)))

-- `for (i = ...; ...; i++) video_memory[i] = video_memory[i+80]`, by rounds left.
pub copy_up : (left i : ℕ) → (ℕ → ℕ) → ℕ → ℕ
copy_up zero i video = video
copy_up (suc left) i video = copy_up left (i + 1) (put_cell i (video (i + 80)) video)

-- `for (i = ...; ...; i++) video_memory[i] = v`
pub fill : (left i v : ℕ) → (ℕ → ℕ) → ℕ → ℕ
fill zero i v video = video
fill (suc left) i v video = fill left (i + 1) v (put_cell i v video)

unfoldable pub scroll : Monitor → Monitor
scroll s =
    if leb 25 s.cursor_y
    then record s {
      video = fill (25 * 80 - 24 * 80) (24 * 80) (blank s) (copy_up (24 * 80) 0 s.video);
      cursor_y = 24;
    }
    else s

backspace : Monitor → Monitor
backspace s = record s {
  cursor_x = s.cursor_x - 1;
  video = put_cell (s.cursor_y * 80 + (s.cursor_x - 1)) (blank s) s.video;
}

print : ℕ → Monitor → Monitor
print c s = record s {
  video =
      put_cell (s.cursor_y * 80 + s.cursor_x) (bit_or c (u16 (get_attribute_byte s <<< 8))) s.video;
  cursor_x = u8 (s.cursor_x + 1);
}

newline : Monitor → Monitor
newline s = record s { cursor_x = 0; cursor_y = u8 (s.cursor_y + 1) }

-- `(cursor_x + 8) & ~(8 - 1)`, of `int`s.
tab : Monitor → Monitor
tab s = record s { cursor_x = u8 (bit_and (s.cursor_x + 8) 0xffff_fff8) }

-- The branches of `monitor_put`.
unfoldable pub put_char : ℕ → Monitor → Monitor
unfolding backspace print newline tab
put_char c s =
    if c == 0x08 && not (s.cursor_x == 0)
    then backspace s
    else (if c == 0x09
        then tab s
        else (if c == 0x0a || c == 0x0d
            then newline s
            else (if leb 0x20 c && ltb c 0x80 then print c s else s)))

-- `if (cursor_x >= 80)`
unfoldable pub wrap : Monitor → Monitor
unfolding newline
wrap s = if leb 80 s.cursor_x then newline s else s

unfoldable pub monitor_put : ℕ → Monitor → Monitor
monitor_put c s = move_cursor (scroll (wrap (put_char c s)))

unfoldable pub monitor_clear : Monitor → Monitor
monitor_clear s =
    move_cursor
      (record s { video = fill (80 * 25) 0 (blank s) s.video; cursor_x = 0; cursor_y = 0 })

-- A string without its final 0.
unfoldable pub monitor_write : List ℕ → Monitor → Monitor
monitor_write [] s = s
monitor_write (c ∷ cs) s = monitor_write cs (monitor_put c s)

unfoldable pub monitor_write_color : List ℕ → (color : ℕ) → Monitor → Monitor
monitor_write_color c color s = record (monitor_write c (record s { foreground_color = color })) {
  foreground_color = s.foreground_color;
}

unfoldable pub monitor_write_sys : List ℕ → Monitor → Monitor
monitor_write_sys c s = monitor_write_color c 4 s

-- `tmp >= 0xA ? tmp-0xA+'a' : tmp+'0'`
unfoldable pub hex_char : ℕ → ℕ
hex_char tmp = if leb 0xa tmp then tmp - 0xa + b'a' else tmp + b'0'

-- The loop of `monitor_write_hex` with `left` rounds to go: `i` is `4 * left`. `skip` is `no_zeroes`.
unfoldable pub hex_loop : (left : ℕ) (skip : Bool) (n : ℕ) → Monitor → Monitor
hex_loop zero skip n s = s
hex_loop (suc left) skip n s =
    let tmp = bit_and (n >>> (4 * suc left)) 0xf in
    let skipped = hex_loop left skip n s in
    let written = hex_loop left Bool.false n (monitor_put (hex_char tmp) s) in
    if tmp == 0 && skip then skipped else written

unfoldable pub monitor_write_hex : ℕ → Monitor → Monitor
monitor_write_hex n s =
    monitor_put (hex_char (bit_and n 0xf))
      (hex_loop 7 Bool.true n (monitor_write (b'0' ∷ b'x' ∷ []) s))

-- `while (acc > 0)`: the digits in the order in which they come, which fill `c[0]`, `c[1]`, ...
-- Ten rounds are enough for a number below 2 ^ 31.
unfoldable pub dec_loop : (fuel acc : ℕ) → List ℕ
dec_loop zero acc = []
dec_loop (suc fuel) acc =
    let rest = (b'0' + acc % 10) ∷ dec_loop fuel (acc / 10) in if acc == 0 then [] else rest

-- `while (i >= 0) c2[i--] = c[j++];` fills `c2` from its end.
unfoldable pub turn : (c c2 : List ℕ) → List ℕ
turn [] c2 = c2
turn (x ∷ c) c2 = turn c (x ∷ c2)

-- A negative `acc` ends the first loop before its first round.
unfoldable pub digits_of : ℤ → List ℕ
digits_of (pos n) = dec_loop 10 n
digits_of (negsuc n) = []

unfoldable pub monitor_write_dec : ℕ → Monitor → Monitor
monitor_write_dec n s =
    if n == 0 then monitor_put b'0' s else monitor_write (turn (digits_of (signed32 n)) []) s
