-- ===== src/Keyboard/Driver.antt =====
-- `install_keyboard_driver`, and a key interrupt from the entry in interrupts/isr.c on.
use panda_os.Base.{
  ℕ, ◌<◌, ◌≡◌, ◌≢◌, refl, ◌||◌, true, false, ◌==◌, if◌then◌else◌, Outcome, ok, panic, arith,
  Bool-cases, inl, inr, bit_and,
}
use panda_os.Base.Bits.{bit}
use panda_os.Monitor.Cursor.{IsValid, monitor_put-IsValid}
use panda_os.Interrupts.{
  Machine, Registers, irq1, register_interrupt_handler, acknowledge, irq_handler,
}
use panda_os.Interrupts.Dispatch.{acknowledge-IsValid}
use panda_os.Keyboard.{
  Console, keyboard_handler, update_keyboard_flags_on_press, get_char_for_scan_code,
}
use panda_os.Keyboard.Flags.{tracked, keyboard_handler-tracked}

-- `handler` is the address of `keyboard_handler`.
unfoldable pub install_keyboard_driver :
    {World : Type 0} (handler : ℕ) → Machine World → Machine World
install_keyboard_driver handler s = register_interrupt_handler irq1 handler s

-- A call of the function at an address, where only `keyboard_handler` can be called. What the handlers
-- change beside the monitor is `keyboard_flags`.
unfoldable pub call_keyboard :
    (handler scan_code address : ℕ) → Registers → Machine ℕ → Outcome (Machine ℕ)
call_keyboard handler scan_code address regs s =
    let k = keyboard_handler scan_code (record { keyboard_flags = s.world; monitor = s.monitor }) in
    if address == handler
    then ok (record s { monitor = k.monitor; world = k.keyboard_flags })
    else panic

keyboard_handler-IsValid :
    (scan_code : ℕ) (k : Console)
    → IsValid k.monitor
    → IsValid (keyboard_handler scan_code k).monitor
unfolding keyboard_handler
keyboard_handler-IsValid scan_code k v = elim (Bool-cases (bit_and scan_code 0x80 == 0)) [
  | inl pressed ↦ rw pressed (
      monitor_put-IsValid
        (get_char_for_scan_code scan_code
          (update_keyboard_flags_on_press scan_code k.keyboard_flags))
        v)
  | inr released ↦ rw released v
]

-- Once the driver is installed, an interrupt of the keyboard returns whatever the scan code is. The
-- cursor stays on the screen, the flags follow the keys, and the handlers stay registered.
pub key_interrupt :
    (handler scan_code : ℕ) (regs : Registers) (s : Machine ℕ)
    → handler ≢ 0
    → scan_code < 256
    → regs.int_no ≡ 33
    → IsValid s.monitor
    → (s' : Machine ℕ) × (irq_handler
          (call_keyboard handler scan_code)
          regs
          (install_keyboard_driver handler s)
        ≡ ok s')
      × IsValid s'.monitor
      × (bit s'.world 0
          ≡ tracked
              (scan_code == 0x2a || scan_code == 0x36)
              (scan_code == 0xaa || scan_code == 0xb6)
              (bit s.world 0))
      × (bit s'.world 1 ≡ tracked (scan_code == 0x3a) (scan_code == 0xba) (bit s.world 1))
      × (bit s'.world 2 ≡ tracked (scan_code == 0x1d) (scan_code == 0x9d) (bit s.world 2))
      × (s'.interrupt_handlers 33 ≡ handler)
unfolding irq_handler install_keyboard_driver register_interrupt_handler call_keyboard
key_interrupt handler scan_code regs s some_handler byte vector v =
    let here : (handler == 0) ≡ false = ground arith in
    let same : (handler == handler) ≡ true = ground arith in
    let m = acknowledge regs.int_no s.monitor in
    let k : Console = record { keyboard_flags = s.world; monitor = m } in
    let after = keyboard_handler scan_code k in
    let (shift, caps, control) = keyboard_handler-tracked scan_code k byte in
    (
      record (register_interrupt_handler irq1 handler s) {
        monitor = after.monitor;
        world = after.keyboard_flags;
      },
      rw (vector, here, same),
      keyboard_handler-IsValid scan_code k (acknowledge-IsValid regs.int_no v),
      shift,
      caps,
      control,
      refl,
    )
