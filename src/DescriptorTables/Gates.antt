-- ===== src/DescriptorTables/Gates.antt =====
-- What the processor reads in the entries of the two tables.
use panda_os.Base.{
  ℕ, zero, suc, ◌+◌, ◌-◌, ◌*◌, ◌/◌, ◌%◌, ◌^◌, ◌<◌, ◌≡◌, ◌≢◌, refl, ap, sym, ltb, ◌==◌,
  if◌then◌else◌, bit_and, bit_or, arith, true, false, Bool-cases, inl, inr,
}
use panda_os.Base.Bits.{bit_and_mask, bit_and_high, bit_or_comm, bit_or_fields}
use panda_os.DescriptorTables.{
  GdtEntry, IdtEntry, Tables, gdt_entry_of, gdt_set_gate, idt_entry_of, idt_set_gate, set_gates,
  send, init_idt, init_descriptor_tables,
}

-- A segment descriptor as the processor takes it apart.
abbrev pub segment_base : GdtEntry → ℕ
segment_base e = e.base_low + e.base_middle * 2 ^ 16 + e.base_high * 2 ^ 24

abbrev pub segment_limit : GdtEntry → ℕ
segment_limit e = e.limit_low + e.granularity % 16 * 2 ^ 16

abbrev pub segment_flags : GdtEntry → ℕ
segment_flags e = e.granularity / 16

-- The address of the routine in an interrupt gate.
abbrev pub gate_offset : IdtEntry → ℕ
gate_offset e = e.base_lo + e.base_hi * 2 ^ 16

granularity_bytes :
    (low gran : ℕ) → low < 16 → gran < 256 → bit_or low (bit_and gran 0xf0) ≡ gran / 16 * 16 + low
granularity_bytes low gran h g = omega (
  arith,
  bit_and_high 4 gran 15,
  bit_and_mask 4 (gran / 16),
  bit_or_comm 8 low (bit_and gran 0xf0) (omega arith)
      (omega (arith, bit_and_high 4 gran 15, bit_and_mask 4 (gran / 16))),
  ap (λ t. bit_or t low) (bit_and_high 4 gran 15),
  bit_or_fields 4 (bit_and (gran / 16) 15) low h,
)

gdt_entry_of-decoded :
    (base limit access gran : ℕ)
    → base < 2 ^ 32
    → gran < 256
    → let e = gdt_entry_of base limit access gran in
      (segment_base e ≡ base)
      × (segment_limit e ≡ limit % 2 ^ 20)
      × (segment_flags e ≡ gran / 16)
      × (e.access ≡ access)
unfolding gdt_entry_of
gdt_entry_of-decoded base limit access gran h g =
    let low = bit_and_mask 16 limit in
    let high = bit_and_mask 4 (limit / 2 ^ 16) in
    let nibble = bit_and (limit / 2 ^ 16) 15 % 256 in
    let joined = granularity_bytes nibble gran (omega (arith, high)) g in
    (
      omega (
        arith,
        bit_and_mask 16 base,
        bit_and_mask 8 (base / 2 ^ 16),
        bit_and_mask 8 (base / 2 ^ 24),
      ),
      omega (arith, low, high, joined),
      omega (arith, high, joined),
      refl,
    )

-- `gdt_set_gate` stores a descriptor from which the processor reads back the base, the low 20 bits of
-- the limit, the upper half of `gran` and the access byte, and leaves every other entry alone.
pub gdt_set_gate-decoded :
    (num base limit access gran i : ℕ) (s : Tables)
    → base < 2 ^ 32
    → gran < 256
    → i ≢ num
    → let e = (gdt_set_gate num base limit access gran s).gdt_entries num in
      (segment_base e ≡ base)
      × (segment_limit e ≡ limit % 2 ^ 20)
      × (segment_flags e ≡ gran / 16)
      × (e.access ≡ access)
      × ((gdt_set_gate num base limit access gran s).gdt_entries i ≡ s.gdt_entries i)
unfolding gdt_set_gate
gdt_set_gate-decoded num base limit access gran i s h g other =
    let here : (num == num) ≡ true = ground arith in
    let there : (i == num) ≡ false = ground arith in
    let (b, l, f, a) = gdt_entry_of-decoded base limit access gran h g in
    rw (here, there) (b, l, f, a, refl)

-- The routine that serves vector i.
abbrev pub stub : (isr irq : ℕ → ℕ) (i : ℕ) → ℕ
stub isr irq i = if ltb i 32 then isr i else irq (i - 32)

set_gates-entry :
    (isr irq : ℕ → ℕ) (count i : ℕ) (s : Tables)
    → (set_gates isr irq count s).idt_entries i
      ≡ (if ltb i count then idt_entry_of (stub isr irq i) 0x08 0x8e else s.idt_entries i)
unfolding set_gates idt_set_gate
set_gates-entry isr irq zero i s = ground arith
set_gates-entry isr irq (suc count) i s = elim (Bool-cases (i == count)) [
  | inl t ↦
      let e : i ≡ count = ground arith in
      let within : ltb i (suc count) ≡ true = ground arith in
      rw (t, within) (ap (λ k. idt_entry_of (stub isr irq k) 0x08 0x8e) (sym e))
  | inr f ↦
      let same : ltb i (suc count) ≡ ltb i count = ground arith in
      rw (f, same) (set_gates-entry isr irq count i s)
]

idt_entry_of-offset :
    (base sel flags : ℕ) → base < 2 ^ 32 → gate_offset (idt_entry_of base sel flags) ≡ base
unfolding idt_entry_of
idt_entry_of-offset base sel flags h =
    omega (arith, bit_and_mask 16 base, bit_and_mask 16 (base / 2 ^ 16))

-- After the start each of the first 48 vectors has a gate, present, in the kernel's code segment, to
-- its own routine: the 32 exceptions to `isr`, the 16 interrupts of the controllers, which are sent
-- to 0x20 and on, to `irq`. No other vector has one, and no handler is registered.
pub init_descriptor_tables-gates :
    (gdt_address idt_address : ℕ) (isr irq : ℕ → ℕ) (i : ℕ) (s : Tables)
    → stub isr irq i < 2 ^ 32
    → let t = init_descriptor_tables gdt_address idt_address isr irq s in
      let e = t.idt_entries i in
      (gate_offset e ≡ (if ltb i 48 then stub isr irq i else 0))
      × (e.sel ≡ (if ltb i 48 then 0x08 else 0))
      × (e.flags ≡ (if ltb i 48 then 0x8e else 0))
      × (t.interrupt_handlers i ≡ 0)
unfolding init_descriptor_tables init_idt send idt_entry_of
init_descriptor_tables-gates gdt_address idt_address isr irq i s h =
    rw (set_gates-entry isr irq 48 i) (elim (Bool-cases (ltb i 48)) [
      | inl t ↦ rw t (idt_entry_of-offset (stub isr irq i) 0x08 0x8e h, refl, refl, refl)
      | inr f ↦ rw f (refl, refl, refl, refl)
    ])
