-- ===== src/Interrupts/Dispatch.antt =====
-- What the two entries leave behind.
use panda_os.Base.{ℕ, List, [], ◌==◌, Outcome, ok, panic, out_of_fuel, Bool-cases, inl, inr, arith}
use panda_os.Base.Text.{bytes}
use panda_os.Monitor.{
  Monitor, outb, monitor_write_color, monitor_write_dec, monitor_write_sys, turn, digits_of,
}
use panda_os.Base.Int.{signed32}
use panda_os.Monitor.Cursor.{IsValid, monitor_put-IsValid, monitor_write-IsValid}
use panda_os.Interrupts.{Machine, Registers, unhandled, acknowledge, isr_handler}

-- A colour does not move the cursor.
IsValid-color : {s : Monitor} (c : ℕ) → IsValid s → IsValid (record s { foreground_color = c })
IsValid-color c v = record { column = v.column; line = v.line }

pub monitor_write_sys-IsValid :
    (cs : List ℕ) {s : Monitor} → IsValid s → IsValid (monitor_write_sys cs s)
unfolding monitor_write_sys monitor_write_color
monitor_write_sys-IsValid cs {s} v =
    IsValid-color s.foreground_color (monitor_write-IsValid cs (IsValid-color 4 v))

pub monitor_write_dec-IsValid : (n : ℕ) {s : Monitor} → IsValid s → IsValid (monitor_write_dec n s)
unfolding monitor_write_dec
monitor_write_dec-IsValid n {s} v = elim (Bool-cases (n == 0)) [
  | inl t ↦ rw t (monitor_put-IsValid b'0' v)
  | inr f ↦ rw f (monitor_write-IsValid (turn (digits_of (signed32 n)) []) v)
]

unhandled-IsValid : (int_no : ℕ) {m : Monitor} → IsValid m → IsValid (unhandled int_no m)
unfolding unhandled
unhandled-IsValid int_no v =
    monitor_put-IsValid 0x0a (
      monitor_write_dec-IsValid int_no
        (monitor_write_sys-IsValid (bytes "unhandled interrupt: ") v))

pub acknowledge-IsValid : (int_no : ℕ) {m : Monitor} → IsValid m → IsValid (acknowledge int_no m)
unfolding acknowledge outb
acknowledge-IsValid int_no {m} v = ground arith

-- What holds of the machine that a call leaves, if it returns.
abbrev pub Leaves : {World : Type 0} (P : Monitor → Type 0) → Outcome (Machine World) → Type 0
Leaves P (ok s) = P s.monitor
Leaves P panic = Unit
Leaves P out_of_fuel = Unit

module _ {World : Type 0}
    (call : (handler : ℕ) → Registers → Machine World → Outcome (Machine World))
    (keeps : (handler : ℕ) (regs : Registers) (s : Machine World)
      → IsValid s.monitor
      → Leaves IsValid (call handler regs s)) where
  -- If every handler keeps the cursor on the screen, so does an exception, handled or reported on the
  -- screen, whatever its number.
  pub isr_handler-IsValid :
      (regs : Registers) (s : Machine World)
      → IsValid s.monitor
      → Leaves IsValid (isr_handler call regs s)
  unfolding isr_handler
  isr_handler-IsValid regs s v = elim (Bool-cases (s.interrupt_handlers regs.int_no == 0)) [
    | inl t ↦ rw t (unhandled-IsValid regs.int_no v)
    | inr f ↦ rw f (keeps (s.interrupt_handlers regs.int_no) regs s v)
  ]
