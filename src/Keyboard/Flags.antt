-- ===== src/Keyboard/Flags.antt =====
-- What a key event does to the three modifier flags.
use panda_os.Base.{
  ℕ, zero, suc, ◌*◌, ◌/◌, ◌<◌, ◌≡◌, Bool, ◌||◌, bit_and, bit_or, ◌==◌, if◌then◌else◌, arith, u8,
}
use panda_os.Base.Bits.{bit, bit-le, bit-bit_or, bit-bit_and, bit_and-two_pow}
use panda_os.Keyboard.{
  Console, update_keyboard_flags_on_press, update_keyboard_flags_on_release, keyboard_handler,
}

-- A flag after an event: set by the codes `down`, cleared by the codes `up`, and else as it was.
abbrev pub tracked : (down up : Bool) (old : ℕ) → ℕ
tracked down up old = if down then 1 else (if up then 0 else old)

-- Setting and clearing flags, digit by digit.
set_flag : (f mask k : ℕ) → k < 3 → bit (u8 (bit_or f mask)) k ≡ bit (bit_or f mask) k
set_flag f mask zero h = omega arith
set_flag f mask (suc zero) h = omega arith
set_flag f mask (suc (suc zero)) h = omega arith
set_flag f mask (suc (suc (suc k))) h = absurd (omega arith)

clear_flag : (f mask k : ℕ) → k < 3 → bit (u8 (bit_and f mask)) k ≡ bit (bit_and f mask) k
clear_flag f mask zero h = omega arith
clear_flag f mask (suc zero) h = omega arith
clear_flag f mask (suc (suc zero)) h = omega arith
clear_flag f mask (suc (suc (suc k))) h = absurd (omega arith)

or_digit :
    (f mask k : ℕ) → k < 3 → bit (u8 (bit_or f mask)) k ≡ (if bit mask k == 1 then 1 else bit f k)
or_digit f mask k h =
    ground (arith, set_flag f mask k h, bit-bit_or k f mask, bit-le k f, bit-le k mask)

and_digit :
    (f mask k : ℕ) → k < 3 → bit (u8 (bit_and f mask)) k ≡ (if bit mask k == 1 then bit f k else 0)
and_digit f mask k h =
    ground (arith, clear_flag f mask k h, bit-bit_and k f mask, bit-le k f, bit-le k mask)

press_digit :
    (scan f k : ℕ)
    → k < 3
    → bit (update_keyboard_flags_on_press scan f) k ≡ (
        if scan == 0x2a || scan == 0x36
        then (if k == 0 then 1 else bit f k)
        else (if scan == 0x1d || scan == 0xe01d
            then (if k == 2 then 1 else bit f k)
            else (if scan == 0x3a then (if k == 1 then 1 else bit f k) else bit f k)))
unfolding update_keyboard_flags_on_press
press_digit scan f zero h = ground (arith, or_digit f 1 0 h, or_digit f 4 0 h, or_digit f 2 0 h)
press_digit scan f (suc zero) h =
    ground (arith, or_digit f 1 1 h, or_digit f 4 1 h, or_digit f 2 1 h)
press_digit scan f (suc (suc zero)) h =
    ground (arith, or_digit f 1 2 h, or_digit f 4 2 h, or_digit f 2 2 h)
press_digit scan f (suc (suc (suc k))) h = absurd (omega arith)

release_digit :
    (scan f k : ℕ)
    → k < 3
    → bit (update_keyboard_flags_on_release scan f) k ≡ (
        if scan == 0xaa || scan == 0xb6
        then (if k == 0 then 0 else bit f k)
        else (if scan == 0xba
            then (if k == 1 then 0 else bit f k)
            else (if scan == 0x9d || scan == 0xe09d
                then (if k == 2 then 0 else bit f k)
                else bit f k)))
unfolding update_keyboard_flags_on_release
release_digit scan f zero h =
    ground
      (arith, and_digit f 0xffff_fffe 0 h, and_digit f 0xffff_fffd 0 h, and_digit f 0xffff_fffb 0 h)
release_digit scan f (suc zero) h =
    ground
      (arith, and_digit f 0xffff_fffe 1 h, and_digit f 0xffff_fffd 1 h, and_digit f 0xffff_fffb 1 h)
release_digit scan f (suc (suc zero)) h =
    ground
      (arith, and_digit f 0xffff_fffe 2 h, and_digit f 0xffff_fffd 2 h, and_digit f 0xffff_fffb 2 h)
release_digit scan f (suc (suc (suc k))) h = absurd (omega arith)

is_release : (scan : ℕ) → scan < 256 → bit_and scan 0x80 ≡ scan / 128 * 128
is_release scan h = omega (arith, bit_and-two_pow 7 scan)

-- After any key event each flag says whether its key is held, as far as the events tell: the shift flag
-- is set by the press of either shift key and cleared by the release of either, the caps lock and
-- control flags by those of their one key, and every other event leaves all three flags alone.
pub keyboard_handler-tracked :
    (scan : ℕ) (k : Console)
    → scan < 256
    → let flags = (keyboard_handler scan k).keyboard_flags in
      (bit flags 0
        ≡ tracked
            (scan == 0x2a || scan == 0x36)
            (scan == 0xaa || scan == 0xb6)
            (bit k.keyboard_flags 0))
      × (bit flags 1 ≡ tracked (scan == 0x3a) (scan == 0xba) (bit k.keyboard_flags 1))
      × (bit flags 2 ≡ tracked (scan == 0x1d) (scan == 0x9d) (bit k.keyboard_flags 2))
unfolding keyboard_handler
keyboard_handler-tracked scan k h = ground (
  arith,
  is_release scan h,
  press_digit scan k.keyboard_flags 0,
  press_digit scan k.keyboard_flags 1,
  press_digit scan k.keyboard_flags 2,
  release_digit scan k.keyboard_flags 0,
  release_digit scan k.keyboard_flags 1,
  release_digit scan k.keyboard_flags 2,
)
