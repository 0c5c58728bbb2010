-- ===== src/Monitor/Cursor.antt =====
-- Where the cursor is after each call, and what the VGA board is told.
use panda_os.Base.{ℕ, ◌+◌, ◌*◌, ◌/◌, ◌%◌, ◌^◌, ◌≤◌, ◌<◌, ◌≡◌, List, [], ◌∷◌, bit_and, arith}
use panda_os.Base.Bits.{bit_and_step, bit_and_mask}
use panda_os.Monitor.{Monitor, put_char, wrap, monitor_put, monitor_write, scroll, move_cursor}
use panda_os.Monitor.Cells.{scroll-cell}

-- The cursor is on the screen.
pub record IsValid (s : Monitor) : Type 0 where
  pub column : s.cursor_x < 80
  pub line : s.cursor_y < 25

-- `n & ~7` is the multiple of 8 at or below n.
pub tab_stop : (n : ℕ) → n < 2 ^ 32 → bit_and n 0xffff_fff8 ≡ n / 8 * 8
tab_stop n h = omega (
  arith,
  bit_and_step n 0xffff_fff8,
  bit_and_step (n / 2) 0x7fff_fffc,
  bit_and_step (n / 2 / 2) 0x3fff_fffe,
  bit_and_mask 29 (n / 2 / 2 / 2),
)

-- Before scrolling the cursor is at most one line below the screen.
pub wrap-put_char :
    (c : ℕ) {s : Monitor}
    → IsValid s
    → ((wrap (put_char c s)).cursor_x < 80) × ((wrap (put_char c s)).cursor_y ≤ 25)
unfolding put_char wrap
wrap-put_char c {s} v = ground (arith, tab_stop (s.cursor_x + 8))

scroll-IsValid : (s : Monitor) → s.cursor_x < 80 → s.cursor_y ≤ 25 → IsValid (scroll s)
scroll-IsValid s x y = ground (arith, scroll-cell s 0)

-- `monitor_put` keeps the cursor on the screen, whatever the character.
pub monitor_put-IsValid : (c : ℕ) {s : Monitor} → IsValid s → IsValid (monitor_put c s)
unfolding monitor_put move_cursor
monitor_put-IsValid c {s} v =
    let (x, y) = wrap-put_char c v in
    let v' = scroll-IsValid (wrap (put_char c s)) x y in
    record { column = v'.column; line = v'.line }

-- So does a string of any length, printable or not.
pub monitor_write-IsValid : (cs : List ℕ) {s : Monitor} → IsValid s → IsValid (monitor_write cs s)
unfolding monitor_write
monitor_write-IsValid [] v = v
monitor_write-IsValid (c ∷ cs) v = monitor_write-IsValid cs (monitor_put-IsValid c v)

-- What the last four bytes sent to the ports 0x3d4 and 0x3d5 tell the VGA board: the register
-- pair 14, 15 holds the position `pos`, high byte first.
abbrev pub Told : ℕ → Monitor → Type 0
Told loc s =
    (hi : ℕ) × (lo : ℕ) × (rest : List (ℕ × ℕ)) × (s.ports
      ≡ (0x3d5, lo) ∷ (0x3d4, 15) ∷ (0x3d5, hi) ∷ (0x3d4, 14) ∷ rest)
    × (hi * 256 + lo ≡ loc)
    × (lo < 256)

-- `move_cursor` reports any cursor on the screen exactly: its two data bytes make up
-- `80 * cursor_y + cursor_x`.
pub move_cursor-Told :
    (s : Monitor) → IsValid s → Told (s.cursor_y * 80 + s.cursor_x) (move_cursor s)
unfolding move_cursor
move_cursor-Told s v = (
  (s.cursor_y * 80 + s.cursor_x) / 256,
  (s.cursor_y * 80 + s.cursor_x) % 256,
  s.ports,
  ground arith,
  omega arith,
  omega arith,
)

-- After each `monitor_put` the hardware cursor is where the software cursor is, and on the screen.
pub monitor_put-Told :
    (c : ℕ) (s : Monitor)
    → IsValid s
    → let t = monitor_put c s in Told (t.cursor_y * 80 + t.cursor_x) t
unfolding monitor_put move_cursor
monitor_put-Told c s v =
    let (x, y) = wrap-put_char c v in move_cursor-Told _ (scroll-IsValid (wrap (put_char c s)) x y)
