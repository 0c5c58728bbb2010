-- ===== src/Monitor/Tests.antt =====
-- The screen functions at a few characters, and their theorems there.
use panda_os.Base.{ℕ, ◌≡◌, List, [], ◌∷◌, arith, map}
use panda_os.Monitor.{
  Monitor, monitor_put, monitor_write, monitor_write_hex, monitor_write_dec, get_attribute_byte,
}
use panda_os.Monitor.Cursor.{IsValid}
use panda_os.Monitor.Put.{position, monitor_put-written, monitor_write-off_screen}
use panda_os.Monitor.Hex.{hexadecimal, digit_value, IsHexNumeral, monitor_write_hex-IsHexNumeral}
use panda_os.Monitor.Dec.{decimal, IsNumeral, monitor_write_dec-IsNumeral}

-- The screen with the cursor in the last cell.
abbrev at_end : Monitor
at_end = record {
  video = λ i. i;
  cursor_x = 79;
  cursor_y = 24;
  background_color = 3;
  foreground_color = 15;
  ports = [];
}

-- And in the first.
abbrev at_start : Monitor
at_start = record at_end { cursor_x = 0; cursor_y = 0 }

at_end-IsValid : IsValid at_end
at_end-IsValid = omega arith

at_start-IsValid : IsValid at_start
at_start-IsValid = omega arith

monitor_put-written_example :
    (position (monitor_put b'A' at_start) ≡ 1) × ((monitor_put b'A' at_start).video 0 ≡ 0x3f41)
unfolding get_attribute_byte
monitor_put-written_example = monitor_put-written b'A' 0 at_start-IsValid (omega arith, omega arith)

monitor_write-off_screen_example : (monitor_write (b'A' ∷ 10 ∷ 9 ∷ []) at_end).video 2000 ≡ 2000
monitor_write-off_screen_example =
    monitor_write-off_screen (b'A' ∷ 10 ∷ 9 ∷ []) 2000 at_end-IsValid (omega arith)

monitor_write_hex-IsHexNumeral_example :
    (cs : List ℕ) × (monitor_write_hex 0x3f at_start ≡ monitor_write (b'0' ∷ b'x' ∷ cs) at_start)
    × (hexadecimal 0 (map digit_value cs) ≡ 0x3f)
    × IsHexNumeral cs
monitor_write_hex-IsHexNumeral_example = monitor_write_hex-IsHexNumeral 0x3f at_start (omega arith)

monitor_write_dec-IsNumeral_example :
    (cs : List ℕ) × (monitor_write_dec 120 at_start ≡ monitor_write cs at_start)
    × (decimal 0 cs ≡ 120)
    × IsNumeral cs
monitor_write_dec-IsNumeral_example =
    monitor_write_dec-IsNumeral 120 at_start (omega arith) (omega arith)
