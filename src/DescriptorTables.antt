-- ===== src/DescriptorTables.antt =====
-- descriptor_tables/descriptor_tables.c: the tables of segments and of interrupt gates. The entries
-- of a table are a function from their numbers.
pub mod Gates
mod Tests
use panda_os.Base.{
  ℕ, zero, suc, ◌+◌, ◌-◌, ◌*◌, ◌/◌, ◌%◌, ◌^◌, List, [], ◌∷◌, ltb, ◌==◌, if◌then◌else◌, bit_and,
  bit_or, u8, u16, ◌>>>◌,
}

-- `gdt_entry_t`.
pub record GdtEntry : Type 0 where
  pub limit_low : ℕ
  pub base_low : ℕ
  pub base_middle : ℕ
  pub access : ℕ
  pub granularity : ℕ
  pub base_high : ℕ

-- `idt_entry_t`.
pub record IdtEntry : Type 0 where
  pub base_lo : ℕ
  pub sel : ℕ
  pub always0 : ℕ
  pub flags : ℕ
  pub base_hi : ℕ

-- `gdt_ptr_t` and `idt_ptr_t`.
pub record TablePointer : Type 0 where
  pub limit : ℕ
  pub base : ℕ

-- The tables, the pointers to them, `interrupt_handlers` (0 where there is none), and the bytes sent
-- to ports, the last one first.
pub record Tables : Type 0 where
  pub gdt_entries : ℕ → GdtEntry
  pub gdt_ptr : TablePointer
  pub idt_entries : ℕ → IdtEntry
  pub idt_ptr : TablePointer
  pub interrupt_handlers : ℕ → ℕ
  pub ports : List (ℕ × ℕ)

unfoldable pub gdt_entry_of : (base limit access gran : ℕ) → GdtEntry
gdt_entry_of base limit access gran = record {
  limit_low = u16 (bit_and limit 0xffff);
  base_low = u16 (bit_and base 0xffff);
  base_middle = u8 (bit_and (base >>> 16) 0xff);
  access = access;
  granularity = u8 (bit_or (u8 (bit_and (limit >>> 16) 0x0f)) (bit_and gran 0xf0));
  base_high = u8 (bit_and (base >>> 24) 0xff);
}

unfoldable pub gdt_set_gate : (num base limit access gran : ℕ) → Tables → Tables
gdt_set_gate num base limit access gran s = record s {
  gdt_entries = λ i. if i == num then gdt_entry_of base limit access gran else s.gdt_entries i;
}

unfoldable pub idt_entry_of : (base sel flags : ℕ) → IdtEntry
idt_entry_of base sel flags = record {
  base_lo = u16 (bit_and base 0xffff);
  sel = sel;
  always0 = 0;
  flags = flags;
  base_hi = u16 (bit_and (base >>> 16) 0xffff);
}

unfoldable pub idt_set_gate : (num base sel flags : ℕ) → Tables → Tables
idt_set_gate num base sel flags s = record s {
  idt_entries = λ i. if i == num then idt_entry_of base sel flags else s.idt_entries i;
}

-- `address` is `&gdt_entries`. `gdt_flush` is assembly, and loads the pointer.
unfoldable pub init_gdt : (address : ℕ) → Tables → Tables
init_gdt address s = gdt_set_gate 4 0 0xffff_ffff 0xf2 0xcf (
    gdt_set_gate 3 0 0xffff_ffff 0xfa 0xcf (
      gdt_set_gate 2 0 0xffff_ffff 0x92 0xcf (
        gdt_set_gate 1 0 0xffff_ffff 0x9a 0xcf (
          gdt_set_gate 0 0 0 0 0
            (record s { gdt_ptr = record { limit = 8 * 5 - 1; base = address } })))))

-- The bytes that set up the two interrupt controllers, in the order in which they are sent.
abbrev pub controller_bytes : List (ℕ × ℕ)
controller_bytes =
    (0x20, 0x11)
    ∷ (0xa0, 0x11)
    ∷ (0x21, 0x20)
    ∷ (0xa1, 0x28)
    ∷ (0x21, 0x04)
    ∷ (0xa1, 0x02)
    ∷ (0x21, 0x01)
    ∷ (0xa1, 0x01)
    ∷ (0x21, 0)
    ∷ (0xa1, 0)
    ∷ []

unfoldable pub send : List (ℕ × ℕ) → Tables → Tables
send [] s = s
send (b ∷ bs) s = send bs (record s { ports = b ∷ s.ports })

-- The calls of `idt_set_gate`, one for each of the first `count` vectors. `isr` and `irq` give the
-- addresses of the assembly routines isr0 to isr31 and irq0 to irq15.
unfoldable pub set_gates : (isr irq : ℕ → ℕ) (count : ℕ) → Tables → Tables
set_gates isr irq zero s = s
set_gates isr irq (suc num) s =
    idt_set_gate num (if ltb num 32 then isr num else irq (num - 32)) 0x08 0x8e
      (set_gates isr irq num s)

unfoldable pub init_idt : (address : ℕ) (isr irq : ℕ → ℕ) → Tables → Tables
init_idt address isr irq s = set_gates isr irq 48 (
    send controller_bytes (record s {
      idt_ptr = record { limit = 8 * 256 - 1; base = address };
      idt_entries = λ i. record { base_lo = 0; sel = 0; always0 = 0; flags = 0; base_hi = 0 };
    }))

unfoldable pub init_descriptor_tables :
    (gdt_address idt_address : ℕ) (isr irq : ℕ → ℕ) → Tables → Tables
init_descriptor_tables gdt_address idt_address isr irq s =
    record (init_idt idt_address isr irq (init_gdt gdt_address s)) { interrupt_handlers = λ _. 0 }
