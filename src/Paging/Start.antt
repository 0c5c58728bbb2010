-- ===== src/Paging/Start.antt =====
-- memory/paging.c: `initialise_paging`, `switch_page_directory` and `page_fault`. Paging starts before
-- the heap exists, so memory comes from the placement allocator.
pub mod Step
pub mod Grow
pub mod Identity
pub mod Kheap
pub mod Complete
mod Tests
use panda_os.Base.{
  ℕ, zero, suc, ◌+◌, ◌*◌, ◌/◌, Bool, true, false, not, Option, none, some, ltb, ◌==◌, bit_and,
  bit_or, if◌then◌else◌, add32, Outcome, ok, panic, out_of_fuel, ◌>>=◌, List, [], ◌∷◌,
}
use panda_os.Base.Text.{bytes}
use panda_os.Monitor.{Monitor, monitor_write_sys, monitor_write_hex}
use panda_os.Interrupts
use panda_os.Interrupts.{Registers, register_interrupt_handler}
use panda_os.Base.Memory.{Memory}
use panda_os.Heap.Layout.{State}
use panda_os.Heap.Alloc.{create_heap}
use panda_os.Heap.Placement.{Early, kmalloc_early}
use panda_os.Paging.Frames.{Frames, index_from_bit}
use panda_os.Paging.Tables.{Paging, Machine, Directory, get_page, alloc_page, put_directory}

-- KHEAP_START and KHEAP_INITIAL_SIZE.
abbrev pub kheap_start : ℕ
kheap_start = 0xc000_0000

abbrev pub kheap_initial_size : ℕ
kheap_initial_size = 0x10_0000

-- Memory for tables from the placement allocator, whose addresses are physical too. The rest of the
-- machine is not used before paging is on.
unfoldable pub early_machine : (garbage : ℕ) → Machine Early
early_machine garbage = record {
  kmalloc_ap =
      λ sz s. let (at, e') = kmalloc_early sz true s.world in ok (at, at, record s { world = e' });
  copy_page_physical = λ src dest e. e;
  garbage = garbage;
}

module _ (garbage dir : ℕ) where
  -- `alloc_frame(get_page(i, 1, kernel_directory), 0, 0)`. The null pointer would be followed.
  unfoldable pub back_page : (i : ℕ) → Paging Early → Outcome (Paging Early)
  unfolding early_machine
  back_page i s = get_page (early_machine garbage) i true dir s >>= λ (page, s'). elim page [
    | none ↦ panic
    | some (table, index) ↦ alloc_page (early_machine garbage) false false table index s'
  ]

  -- The first loop, which makes the tables for the heap, by rounds left.
  unfoldable pub make_tables : (left i : ℕ) → Paging Early → Outcome (Paging Early)
  unfolding early_machine
  make_tables zero i s = ok s
  make_tables (suc left) i s = get_page (early_machine garbage) i true dir s >>= λ (page, s').
      make_tables left (add32 i 0x1000) s'

  -- `while (i < placement_address+0x1000)`: the bound moves while tables are made.
  unfoldable pub identity_map : (fuel i : ℕ) → Paging Early → Outcome (Paging Early)
  unfolding back_page
  identity_map zero i s = out_of_fuel
  identity_map (suc fuel) i s =
      let rest = back_page i s >>= identity_map fuel (add32 i 0x1000) in
      if ltb i (add32 s.world.placement_address 0x1000) then rest else ok s

  -- The last loop, which backs the pages of the heap.
  unfoldable pub back_pages : (left i : ℕ) → Paging Early → Outcome (Paging Early)
  unfolding back_page
  back_pages zero i s = ok s
  back_pages (suc left) i s = back_page i s >>= back_pages left (add32 i 0x1000)

-- `initialise_paging` up to the registration of `page_fault`, with the address of the kernel's
-- directory. `stale` is what memory holds behind the bit set: `frames` is given, and cleared,
-- INDEX_FROM_BIT(4096) = 128 bytes, which are 32 words of the 128 that the bit set has.
unfoldable pub map_kernel :
    (fuel garbage : ℕ) (stale : ℕ → ℕ) → Paging Early → Outcome (ℕ × Paging Early)
map_kernel fuel garbage stale s =
    let frame_count = 0x1000000 / 0x1000 in
    let (frames, e) = kmalloc_early (index_from_bit frame_count) false s.world in
    let (dir, e') = kmalloc_early 8196 true e in
    let s₀ = record s {
      frames = record {
        frames = λ i. if ltb i (index_from_bit frame_count / 4) then 0 else stale i;
        frame_count = frame_count;
      };
      directories =
          put_directory dir
            (record {
              tables = λ i. 0;
              tables_physical = λ i. 0;
              physical_address_of_tables_physical = add32 dir 0x1000;
            })
            s.directories;
      world = e';
    } in
    make_tables garbage dir 256 kheap_start s₀ >>= identity_map garbage dir fuel 0 >>= λ s₁.
    back_pages garbage dir 256 kheap_start s₁ >>= λ s₂. ok (dir, s₂)

-- The values of CR3 and CR0 that `switch_page_directory` loads, and the current directory.
unfoldable pub switch_page_directory : (dir cr0 : ℕ) → (ℕ → Directory) → ℕ × ℕ × ℕ
switch_page_directory dir cr0 directories =
    ((directories dir).physical_address_of_tables_physical, bit_or cr0 0x8000_0000, dir)

-- What `initialise_paging` leaves: the current directory, which is the kernel's, what the processor is
-- told of it, the handlers, and the heap with the state of paging. sizeof(heap_t) is 32.
pub record Started (World : Type 0) : Type 0 where
  pub current_directory : ℕ
  pub cr3 : ℕ
  pub cr0 : ℕ
  pub interrupts : Interrupts.Machine World
  pub kheap : State (Paging Early)

-- `handler` is the address of `page_fault`, `m` the memory of the heap.
unfoldable pub initialise_paging :
    {World : Type 0} (fuel garbage : ℕ) (stale : ℕ → ℕ) (handler cr0 : ℕ)
    → Interrupts.Machine World
    → Memory
    → Paging Early
    → Outcome (Started World)
initialise_paging fuel garbage stale handler cr0 machine m s =
    map_kernel fuel garbage stale s >>= λ (dir, s₁).
    let interrupts = register_interrupt_handler 14 handler machine in
    let (cr3, cr0', current) = switch_page_directory dir cr0 s₁.directories in
    let (_, e) = kmalloc_early 32 false s₁.world in
    create_heap kheap_start (add32 kheap_start kheap_initial_size) 0xcfff_f000 0 0 m
      (record s₁ { world = e })
    >>= λ kheap. ok (record {
      current_directory = current;
      cr3 = cr3;
      cr0 = cr0';
      interrupts = interrupts;
      kheap = kheap;
    })

-- What `page_fault` writes before it panics; `faulting_address` is CR2.
unfoldable pub page_fault : (faulting_address : ℕ) → Registers → Monitor → Monitor
page_fault faulting_address regs m =
    let say =
      λ (test : Bool) (text : List ℕ) (n : Monitor). if test then monitor_write_sys text n else n in
    let set = λ (mask : ℕ). not (bit_and regs.err_code mask == 0) in
    let start = monitor_write_hex regs.err_code (monitor_write_sys (bytes "Page fault! ( ") m) in
    let present = say (bit_and regs.err_code 0x1 == 0) (bytes " not present ") start in
    let rw' = say (set 0x2) (bytes "read-only ") present in
    let us = say (set 0x4) (bytes "user-mode ") rw' in
    let reserved = say (set 0x8) (bytes "reserved ") us in
    monitor_write_sys (bytes "\n") (
      monitor_write_hex regs.eip (
        monitor_write_sys (bytes " - EIP: ")
          (monitor_write_hex faulting_address (monitor_write_sys (bytes ") at ") reserved))))
