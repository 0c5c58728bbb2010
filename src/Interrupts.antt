-- ===== src/Interrupts.antt =====
-- interrupts/isr.c: the table of handlers, and what becomes of an interrupt. The assembly of
-- interrupts/interrupt.s calls `isr_handler` for the exceptions and `irq_handler` for the interrupts
-- of the controllers.
pub mod Dispatch
use panda_os.Base.{ℕ, ◌+◌, Bool, List, [], ◌∷◌, leb, ◌==◌, if◌then◌else◌, Outcome, ok, u8}
use panda_os.Base.Text.{bytes}
use panda_os.Monitor.{Monitor, outb, monitor_put, monitor_write_dec, monitor_write_sys}

-- `registers_t`: what the assembly has pushed.
pub record Registers : Type 0 where
  pub ds : ℕ
  pub edi : ℕ
  pub esi : ℕ
  pub ebp : ℕ
  pub esp : ℕ
  pub ebx : ℕ
  pub edx : ℕ
  pub ecx : ℕ
  pub eax : ℕ
  pub int_no : ℕ
  pub err_code : ℕ
  pub eip : ℕ
  pub cs : ℕ
  pub eflags : ℕ
  pub useresp : ℕ
  pub ss : ℕ

-- IRQ0 and IRQ1, the vectors of the timer and the keyboard.
abbrev pub irq0 : ℕ
irq0 = 32

abbrev pub irq1 : ℕ
irq1 = 33

-- `interrupt_handlers`, by address with 0 for none, the monitor, and what else the handlers change.
pub record Machine (World : Type 0) : Type 0 where
  pub interrupt_handlers : ℕ → ℕ
  pub monitor : Monitor
  pub world : World

unfoldable pub unhandled : (int_no : ℕ) → Monitor → Monitor
unhandled int_no m =
    monitor_put 0x0a
      (monitor_write_dec int_no (monitor_write_sys (bytes "unhandled interrupt: ") m))

unfoldable pub acknowledge : (int_no : ℕ) → Monitor → Monitor
acknowledge int_no m = outb 0x20 0x20 (if leb 40 int_no then outb 0xa0 0x20 m else m)

module _ {World : Type 0} where
  unfoldable pub register_interrupt_handler : (n handler : ℕ) → Machine World → Machine World
  register_interrupt_handler n handler s = record s {
    interrupt_handlers = λ i. if i == u8 n then handler else s.interrupt_handlers i;
  }

  -- `call` runs the function at an address.
  module _ (call : (handler : ℕ) → Registers → Machine World → Outcome (Machine World)) where
    unfoldable pub isr_handler : Registers → Machine World → Outcome (Machine World)
    isr_handler regs s =
        let handler = s.interrupt_handlers regs.int_no in
        if handler == 0
        then ok (record s { monitor = unhandled regs.int_no s.monitor })
        else call handler regs s

    unfoldable pub irq_handler : Registers → Machine World → Outcome (Machine World)
    irq_handler regs s =
        let handler = s.interrupt_handlers regs.int_no in
        let s' = record s { monitor = acknowledge regs.int_no s.monitor } in
        if handler == 0 then ok s' else call handler regs s'
