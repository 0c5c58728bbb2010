-- ===== src/Keyboard/Tests.antt =====
-- Key events, and the theorems there.
use panda_os.Base.{ℕ, ◌≡◌, refl, [], arith, ok}
use panda_os.Base.Bits.{bit}
use panda_os.Keyboard.{Console}
use panda_os.Keyboard.Driver.{call_keyboard, install_keyboard_driver, key_interrupt}
use panda_os.Interrupts.{Machine, Registers, irq_handler}
use panda_os.Monitor.Cursor.{IsValid}

abbrev console : Console
console = record {
  keyboard_flags = 1;
  monitor = record {
    video = λ i. i;
    cursor_x = 0;
    cursor_y = 0;
    background_color = 3;
    foreground_color = 15;
    ports = [];
  };
}

abbrev regs : Registers
regs = record {
  ds = 0x10;
  edi = 0;
  esi = 0;
  ebp = 0;
  esp = 0;
  ebx = 0;
  edx = 0;
  ecx = 0;
  eax = 0;
  int_no = 33;
  err_code = 0;
  eip = 0;
  cs = 8;
  eflags = 0;
  useresp = 0;
  ss = 0x10;
}

abbrev before_installation : Machine ℕ
before_installation = record { interrupt_handlers = λ i. 0; monitor = console.monitor; world = 0 }

-- The press of the left shift key.
key_interrupt_example :
    (s' : Machine ℕ) × (irq_handler
        (call_keyboard 0x2000 0x2a)
        regs
        (install_keyboard_driver 0x2000 before_installation)
      ≡ ok s')
    × IsValid s'.monitor
    × (bit s'.world 0 ≡ 1)
    × (bit s'.world 1 ≡ 0)
    × (bit s'.world 2 ≡ 0)
    × (s'.interrupt_handlers 33 ≡ 0x2000)
key_interrupt_example =
    key_interrupt 0x2000 0x2a regs before_installation (omega arith) (omega arith) refl
      (record { column = omega arith; line = omega arith })
