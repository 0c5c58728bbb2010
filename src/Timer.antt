-- ===== src/Timer.antt =====
-- drivers/timer/timer.c: the tick counter, and the set-up of the timer chip.
pub mod Divisor
mod Tests
use panda_os.Base.{
  ℕ, ◌+◌, ◌/◌, ◌%◌, bit_and, ◌==◌, if◌then◌else◌, add32, u8, ◌>>>◌, Outcome, ok, panic, ◌>>=◌,
}
use panda_os.Monitor.{outb}
use panda_os.Interrupts.{Machine, irq0, register_interrupt_handler}

-- `switch_task` is that of process/task.c, from the globals, with the tick, to the globals.
unfoldable pub timer_callback :
    {World : Type 0} (switch_task : ℕ × World → Outcome (ℕ × World)) (tick : ℕ)
    → World
    → Outcome (ℕ × World)
timer_callback switch_task tick w = switch_task (add32 tick 1, w)

-- `callback` is the address of `timer_callback`. A division by zero is a fault.
unfoldable pub init_timer :
    {World : Type 0} (callback frequency : ℕ) → Machine World → Outcome (Machine World)
init_timer callback frequency s =
    let s' = register_interrupt_handler irq0 callback s in
    let divisor = 1193180 / frequency in
    let l = u8 (bit_and divisor 0xff) in
    let h = u8 (bit_and (divisor >>> 8) 0xff) in
    if frequency == 0
    then panic
    else ok (record s' { monitor = outb 0x40 h (outb 0x40 l (outb 0x43 0x36 s'.monitor)) })
