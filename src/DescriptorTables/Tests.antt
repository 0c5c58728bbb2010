-- ===== src/DescriptorTables/Tests.antt =====
-- The tables after the start, and the theorems there.
use panda_os.Base.{ℕ, ◌+◌, ◌*◌, ◌/◌, ◌%◌, ◌^◌, ◌≡◌, refl, [], arith}
use panda_os.DescriptorTables.{
  Tables, gdt_set_gate, init_descriptor_tables, gdt_entry_of, init_gdt, init_idt, set_gates, send,
  idt_set_gate,
}
use panda_os.DescriptorTables.Gates.{
  segment_base, segment_limit, segment_flags, gate_offset, gdt_set_gate-decoded,
  init_descriptor_tables-gates,
}

abbrev blank_tables : Tables
blank_tables = record {
  gdt_entries = λ i. record {
    limit_low = 0;
    base_low = 0;
    base_middle = 0;
    access = 0;
    granularity = 0;
    base_high = 0;
  };
  gdt_ptr = record { limit = 0; base = 0 };
  idt_entries = λ i. record { base_lo = 0; sel = 0; always0 = 0; flags = 0; base_hi = 0 };
  idt_ptr = record { limit = 0; base = 0 };
  interrupt_handlers = λ i. 7;
  ports = [];
}

abbrev isr : ℕ → ℕ
isr i = 0x100000 + 16 * i

abbrev irq : ℕ → ℕ
irq i = 0x110000 + 16 * i

-- The user-mode code segment covers the whole address space: 2 ^ 20 pages from 0.
user_code :
    let e = (init_descriptor_tables 0x5000 0x6000 isr irq blank_tables).gdt_entries 3 in
    (segment_base e ≡ 0) × (segment_limit e ≡ 0xf_ffff) × (segment_flags e ≡ 0xc)
unfolding init_descriptor_tables init_idt init_gdt gdt_set_gate gdt_entry_of set_gates send
    idt_set_gate
user_code = (refl, refl, refl)

gdt_set_gate-decoded_example :
    let t = gdt_set_gate 2 0x12345678 0xabcde 0x92 0xcf blank_tables in
    let e = t.gdt_entries 2 in
    (segment_base e ≡ 0x12345678)
    × (segment_limit e ≡ 0xabcde % 2 ^ 20)
    × (segment_flags e ≡ 0xcf / 16)
    × (e.access ≡ 0x92)
    × (t.gdt_entries 1 ≡ blank_tables.gdt_entries 1)
gdt_set_gate-decoded_example =
    gdt_set_gate-decoded 2 0x12345678 0xabcde 0x92 0xcf 1 blank_tables (omega arith) (omega arith)
      (λ e. absurd (omega (arith, e)))

init_descriptor_tables-gates_example :
    let t = init_descriptor_tables 0x5000 0x6000 isr irq blank_tables in
    let e = t.idt_entries 33 in
    (gate_offset e ≡ 0x110010) × (e.sel ≡ 0x08) × (e.flags ≡ 0x8e) × (t.interrupt_handlers 33 ≡ 0)
init_descriptor_tables-gates_example =
    init_descriptor_tables-gates 0x5000 0x6000 isr irq 33 blank_tables (omega arith)
