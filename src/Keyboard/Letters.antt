-- ===== src/Keyboard/Letters.antt =====
-- The characters of the keys under the modifiers.
use panda_os.Base.{
  ℕ, ◌-◌, ◌≤◌, ◌<◌, ◌≡◌, refl, Bool, true, false, ◌||◌, ◌&&◌, bit_and, ◌==◌, leb, ltb,
  if◌then◌else◌, arith, u8, ==_iff,
}
use panda_os.Base.Bits.{bit, bit-le, bit_and-two_pow}
use panda_os.Base.Table.{passes_below, passes_below_lem}
use panda_os.Keyboard.{
  Console, get_char_for_scan_code, update_keyboard_flags_on_press, keyboard_handler,
}
use panda_os.Monitor.Cursor.{IsValid}
use panda_os.Monitor.Put.{position, monitor_put_ignored}
use panda_os.Keyboard.Keymap

abbrev pub is_lower : ℕ → Bool
is_lower c = leb b'a' c && leb c b'z'

-- The capital of a small letter; any other character stays.
abbrev pub upper : ℕ → ℕ
upper c = if is_lower c then c - 32 else c

-- The key's character with no modifier held, and with shift.
abbrev pub plain : ℕ → ℕ
plain scan = u8 (Keymap.base scan)

abbrev pub shifted : ℕ → ℕ
shifted scan = u8 (Keymap.shift scan)

-- On every key of a letter, shift gives the capital.
letters_table :
    passes_below 128
      (λ scan. if is_lower (plain scan) then shifted scan == (plain scan - 32) else true)
    ≡ true
unfolding passes_below Keymap.base Keymap.shift
letters_table = refl

letter_shift :
    (scan : ℕ) → scan < 128 → is_lower (plain scan) ≡ true → shifted scan ≡ plain scan - 32
letter_shift scan h low = (==_iff _ _).0 (
    rw low at (
      passes_below_lem 128
        (λ scan. if is_lower (plain scan) then shifted scan == (plain scan - 32) else true) scan
        letters_table h))

-- With shift a key gives its shifted character, caps lock or not; with caps lock alone it gives
-- its plain character, a letter as a capital; with neither it gives its plain character. Other flags
-- do not matter.
pub get_char_for_scan_code_lem :
    (scan flags : ℕ)
    → scan < 128
    → get_char_for_scan_code scan flags ≡ (
        if bit flags 0 == 1
        then shifted scan
        else (if bit flags 1 == 1 then upper (plain scan) else plain scan))
unfolding get_char_for_scan_code
get_char_for_scan_code_lem scan flags h = ground (
  arith,
  bit_and-two_pow 0 flags,
  bit_and-two_pow 1 flags,
  bit-le 0 flags,
  bit-le 1 flags,
  letter_shift scan h,
)

-- Pressing a key whose character lies from 0x80 on, as those of the letters outside ASCII do, shows
-- nothing: no cell of the screen changes and the cursor stays.
pub keyboard_handler_silent :
    (scan j : ℕ) (k : Console)
    → scan < 128
    → IsValid k.monitor
    → 0x80 ≤ get_char_for_scan_code scan (update_keyboard_flags_on_press scan k.keyboard_flags)
    → let k' = keyboard_handler scan k in
      (position k'.monitor ≡ position k.monitor) × (k'.monitor.video j ≡ k.monitor.video j)
unfolding keyboard_handler
keyboard_handler_silent scan j k h v high =
    let press : bit_and scan 0x80 ≡ 0 = omega (arith, bit_and-two_pow 7 scan) in
    let c = get_char_for_scan_code scan (update_keyboard_flags_on_press scan k.keyboard_flags) in
    let control : ((c == 0x08) || (c == 0x09) || (c == 0x0a) || (c == 0x0d)) ≡ false =
      ground arith in
    let printable : (leb 0x20 c && ltb c 0x80) ≡ false = ground arith in
    rw press (monitor_put_ignored c j v control printable)
