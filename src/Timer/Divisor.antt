-- ===== src/Timer/Divisor.antt =====
-- What the timer chip is told.
use panda_os.Base.{
  ℕ, ◌+◌, ◌*◌, ◌/◌, ◌%◌, ◌^◌, ◌≤◌, ◌<◌, ◌≡◌, ◌↔◌, refl, ◌∷◌, ◌==◌, false, if◌then◌else◌, arith, ok,
  u8, bit_and,
}
use panda_os.Monitor.{outb}
use panda_os.Base.Bits.{bit_and_mask}
use panda_os.Interrupts.{Machine, irq0, register_interrupt_handler}
use panda_os.Timer.{init_timer}

-- Only a frequency from 19 on has a divisor of 16 bits.
enough : (f : ℕ) → 0 < f → 1193180 / f < 2 ^ 16 → 19 ≤ f
enough f pos small = grind arith

-- For any frequency but 0 `init_timer` sends the command byte and then the low 16 bits of the divisor,
-- low byte first, and registers the callback for the timer's vector alone. These bits are the whole
-- divisor exactly from 19 interrupts a second on.
pub init_timer-divisor :
    {World : Type 0} (callback frequency i : ℕ) (s : Machine World)
    → 0 < frequency
    → (s' : Machine World) × (l : ℕ) × (h : ℕ) × (init_timer callback frequency s ≡ ok s')
      × (s'.monitor.ports ≡ (0x40, h) ∷ (0x40, l) ∷ (0x43, 0x36) ∷ s.monitor.ports)
      × (l + h * 2 ^ 8 ≡ 1193180 / frequency % 2 ^ 16)
      × ((l + h * 2 ^ 8 ≡ 1193180 / frequency) ↔ (19 ≤ frequency))
      × (s'.interrupt_handlers i ≡ (if i == 32 then callback else s.interrupt_handlers i))
unfolding init_timer outb register_interrupt_handler
init_timer-divisor callback frequency i s pos =
    let some_frequency : (frequency == 0) ≡ false = ground arith in
    let d = 1193180 / frequency in
    let low = bit_and_mask 8 d in
    let high = bit_and_mask 8 (d / 2 ^ 8) in
    let s₁ = register_interrupt_handler irq0 callback s in
    let l = u8 (bit_and d 0xff) in
    let h = u8 (bit_and (d / 2 ^ 8) 0xff) in
    (
      record s₁ { monitor = outb 0x40 h (outb 0x40 l (outb 0x43 0x36 s₁.monitor)) },
      l,
      h,
      rw some_frequency,
      ground arith,
      omega arith,
      ((λ whole. enough frequency pos (omega arith)), λ big. grind arith),
      refl,
    )
