-- ===== src/Keyboard.antt =====
-- drivers/keyboard/keyboard.c: the flags of the modifier keys, and the character of a key.
pub mod Keymap
pub mod Flags
pub mod Letters
pub mod Driver
mod Tests
use panda_os.Base.{
  ℕ, ◌+◌, ◌%◌, ◌^◌, Bool, ◌&&◌, ◌||◌, not, bit_and, bit_or, leb, ◌==◌, if◌then◌else◌, u8,
}
use panda_os.Monitor.{Monitor, monitor_put}
use panda_os.Keyboard.Keymap

-- The scan codes that the handler looks at (keyboard_mapping.h).
abbrev pub key_left_shift : ℕ
key_left_shift = 0x2a

abbrev pub key_right_shift : ℕ
key_right_shift = 0x36

abbrev pub key_left_control : ℕ
key_left_control = 0x1d

abbrev pub key_right_control : ℕ
key_right_control = 0xe01d

abbrev pub key_caps_lock : ℕ
key_caps_lock = 0x3a

unfoldable pub update_keyboard_flags_on_press : (scan_code keyboard_flags : ℕ) → ℕ
update_keyboard_flags_on_press scan_code keyboard_flags =
    if (scan_code == key_left_shift) || (scan_code == key_right_shift)
    then u8 (bit_or keyboard_flags 1)
    else (if (scan_code == key_left_control) || (scan_code == key_right_control)
        then u8 (bit_or keyboard_flags 4)
        else (if scan_code == key_caps_lock then u8 (bit_or keyboard_flags 2) else keyboard_flags))

-- `~SHIFT` and the like are complements of an `int`.
unfoldable pub update_keyboard_flags_on_release : (scan_code keyboard_flags : ℕ) → ℕ
update_keyboard_flags_on_release scan_code keyboard_flags =
    if (scan_code == bit_or key_left_shift 0x80) || (scan_code == bit_or key_right_shift 0x80)
    then u8 (bit_and keyboard_flags 0xffff_fffe)
    else (if scan_code == bit_or key_caps_lock 0x80
        then u8 (bit_and keyboard_flags 0xffff_fffd)
        else (if (scan_code == bit_or key_left_control 0x80)
              || (scan_code == bit_or key_right_control 0x80)
            then u8 (bit_and keyboard_flags 0xffff_fffb)
            else keyboard_flags))

-- A `char`, as the bit pattern of its byte.
unfoldable pub get_char_for_scan_code : (scan_code keyboard_flags : ℕ) → ℕ
get_char_for_scan_code scan_code keyboard_flags =
    let base = u8 (Keymap.base scan_code) in
    let shift = u8 (Keymap.shift scan_code) in
    if not (bit_and keyboard_flags 1 == 0)
    then shift
    else (if not (bit_and keyboard_flags 2 == 0)
        then (if leb b'a' base && leb base b'z' then shift else base)
        else base)

pub record Console : Type 0 where
  pub keyboard_flags : ℕ
  pub monitor : Monitor

-- `scan_code` is what `inb(0x60)` returns.
unfoldable pub keyboard_handler : (scan_code : ℕ) → Console → Console
keyboard_handler scan_code k =
    if not (bit_and scan_code 0x80 == 0)
    then record k { keyboard_flags = update_keyboard_flags_on_release scan_code k.keyboard_flags }
    else (let flags = update_keyboard_flags_on_press scan_code k.keyboard_flags in
        record k {
          keyboard_flags = flags;
          monitor = monitor_put (get_char_for_scan_code scan_code flags) k.monitor;
        })
