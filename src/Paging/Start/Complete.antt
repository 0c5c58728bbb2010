-- ===== src/Paging/Start/Complete.antt =====
-- The whole of `initialise_paging`.
use panda_os.Base.{
  bit_or, ℕ, zero, suc, ◌+◌, ◌*◌, ◌/◌, ◌%◌, ◌^◌, ◌≤◌, ◌<◌, ◌≡◌, ◌≢◌, refl, ap, sym, ◌∙◌, true,
  false, ◌==◌, ltb, if◌then◌else◌, Outcome, ok, ◌>>=◌, arith,
}
use mathlib.Core.Path.{subst}
use panda_os.Base.Bits.{bit, bit-le, bit-bit_or}
use panda_os.Base.Memory.{Memory}
use panda_os.Interrupts
use panda_os.Interrupts.{register_interrupt_handler}
use panda_os.Heap.Alloc.Create.{IsFirst, create_heap-IsFirst}
use panda_os.Heap.Placement.{Early, kmalloc_early_lem, page_up}
use panda_os.Paging.Tables.{Paging, Directory, put_directory}
use panda_os.Paging.Start.{
  kheap_start, make_tables, identity_map, back_pages, map_kernel, Started, switch_page_directory,
  initialise_paging,
}
use panda_os.Paging.Start.Step.{IsIdentity}
use panda_os.Paging.Start.Grow.{get_page-Found}
use panda_os.Paging.Start.Identity.{identity_map-IsIdentity}
use panda_os.Paging.Start.Kheap.{IsStarted, heap_table, make_tables_same, back_pages-IsStarted}

bit-zero : (k : ℕ) → bit 0 k ≡ 0
bit-zero zero = refl
bit-zero (suc k) = bit-zero k

module _ (garbage dir : ℕ) where
  -- The first loop makes the table of the heap and nothing else.
  make_tables-IsIdentity :
      (s : Paging Early)
      → IsIdentity dir 0 s
      → s.world.placement_address + 0x2000 < 2 ^ 32
      → (s' : Paging Early) × (make_tables garbage dir 256 kheap_start s ≡ ok s')
        × IsIdentity dir 0 s'
        × (heap_table dir s' ≢ 0)
        × (s'.world.placement_address ≤ s.world.placement_address + 0x2000)
  unfolding make_tables
  make_tables-IsIdentity s v room =
      let (s', found, f) = get_page-Found garbage dir 0 kheap_start s v room in
      (
        s',
        rw found (make_tables_same garbage dir 255 1 s' (omega arith) f.table),
        f.identity,
        f.table,
        ground (arith, f.cost),
      )

  -- The identity mapping, where the heap has its table, leaves that table to be filled.
  IsIdentity-IsStarted :
      (n : ℕ) (s : Paging Early)
      → IsIdentity dir n s
      → heap_table dir s ≢ 0
      → n ≤ 0x1000
      → IsStarted dir n 0 s
  IsIdentity-IsStarted n s v has le = record {
    count = v.count;
    frames = λ f. v.frames f ∙ ground arith;
    mapped = v.mapped;
    backed = λ j lt. absurd (omega arith);
    unbacked = λ j ge lt.
        let place : (0xc0000 + j) / 1024 ≡ 768 = omega arith in
        let index : (0xc0000 + j) % 1024 ≡ j = omega arith in
        sym (
          ap (λ t. (s.pages ((s.directories dir).tables t) ((0xc0000 + j) % 1024)).frame) place
          ∙ ap (λ x. (s.pages (heap_table dir s) x).frame) index)
        ∙ v.unmapped (0xc0000 + j) (omega arith)
            (λ e. has (ap (λ t. (s.directories dir).tables t) (sym place) ∙ e));
    some_table = has;
    apart = λ m lt same. let k = v.once (m / 1024) 768 (v.tables m lt) same in absurd (omega arith);
  }

  -- The three loops, one after the other.
  loops-IsStarted :
      (s : Paging Early)
      → IsIdentity dir 0 s
      → s.world.placement_address + 0xb000 ≤ 0xf0_0000
      → let done : Paging Early → Outcome (ℕ × Paging Early) = λ s₂. ok (dir, s₂) in
        (n : ℕ) × (s' : Paging Early) × ((make_tables garbage dir 256 kheap_start s
            >>= identity_map garbage dir 4097 0
            >>= λ s₁. back_pages garbage dir 256 kheap_start s₁ >>= done)
          ≡ ok (dir, s'))
        × IsStarted dir n 256 s'
        × (s'.world.placement_address + 0x1000 ≤ n * 0x1000)
        × (n ≤ 0x1000)
  loops-IsStarted s v room =
      let (s₁, made, v₁, has, cost) = make_tables-IsIdentity s v (omega arith) in
      let (n, s₂, mapped, v₂, covered, within, kept) =
        identity_map-IsIdentity garbage dir 0xf00 s₁ v₁ (omega arith) (omega arith) in
      let has₂ : heap_table dir s₂ ≢ 0 = λ e. has (sym (kept 768 has) ∙ e) in
      let (s₃, backed, v₃, same) =
        back_pages-IsStarted garbage dir 256 n 0 s₂
          (IsIdentity-IsStarted n s₂ v₂ has₂ (omega arith)) (omega arith) (omega arith) in
      (n, s₃, rw (made, mapped, backed), v₃, rw same covered, omega arith)

-- The loops, from a memory whose words behind the part of the bit set that is cleared are 0.
map_kernel-IsStarted :
    (garbage : ℕ) (stale : ℕ → ℕ) (s : Paging Early)
    → ((i : ℕ) → stale i ≡ 0)
    → s.world.placement_address + 0xf000 ≤ 0xf0_0000
    → (n : ℕ) × (s' : Paging Early) × (map_kernel 4097 garbage stale s
        ≡ ok (page_up (s.world.placement_address + 128), s'))
      × IsStarted (page_up (s.world.placement_address + 128)) n 256 s'
      × (s'.world.placement_address + 0x1000 ≤ n * 0x1000)
      × (n ≤ 0x1000)
unfolding map_kernel put_directory
map_kernel-IsStarted garbage stale s clear room =
    let p = s.world.placement_address in
    let first = kmalloc_early_lem 128 false s.world (omega arith) in
    let dir = page_up (p + 128) in
    let second =
      kmalloc_early_lem 8196 true (record { placement_address = p + 128 }) (omega arith) in
    let empty : Directory = record {
      tables = λ i. 0;
      tables_physical = λ i. 0;
      physical_address_of_tables_physical = (dir + 0x1000) % 2 ^ 32;
    } in
    let s₀ : Paging Early = record s {
      frames = record { frames = λ i. if ltb i 32 then 0 else stale i; frame_count = 0x1000 };
      directories = put_directory dir empty s.directories;
      world = record { placement_address = dir + 8196 };
    } in
    let here : (dir == dir) ≡ true = ground arith in
    let none_there : (k : ℕ) → (s₀.directories dir).tables k ≡ 0 = λ k. rw here refl in
    let v : IsIdentity dir 0 s₀ = record {
      count = refl;
      frames = λ f.
          let word : (if ltb (f / 32) 32 then 0 else stale (f / 32)) ≡ 0 =
            ground (arith, clear (f / 32)) in
          ap (λ w. bit w (f % 32)) word ∙ bit-zero (f % 32) ∙ ground arith;
      tables = λ m lt. absurd (omega arith);
      mapped = λ m lt. absurd (omega arith);
      unmapped = λ m le has. absurd (has (none_there (m / 1024)));
      once = λ j k has. absurd (has (none_there j));
      placed = λ j. omega (arith, none_there j);
    } in
    let (n, s', ran, started, covered, few) = loops-IsStarted garbage dir s₀ v (omega arith) in
    (n, s', rw (first, second) ran, started, covered, few)

-- Allocating from the placement allocator changes no page.
IsStarted-later :
    {dir n k : ℕ} (s : Paging Early) (e : Early)
    → IsStarted dir n k s
    → IsStarted dir n k (record s { world = e })
IsStarted-later s e v = record {
  count = v.count;
  frames = v.frames;
  mapped = v.mapped;
  backed = v.backed;
  unbacked = v.unbacked;
  some_table = v.some_table;
  apart = v.apart;
}

-- Take a placement address p at least 15 pages below 15 MB with room for the 512 bytes of the bit set in its
-- page, and words of 0 behind the 128 bytes of the bit set that the source asks for and clears. Then
-- `initialise_paging` returns. The bit set ends in front of the directory; in the directory the first
-- n pages have the frames of their numbers and the 256 pages of the heap the n-th frame and those behind it;
-- no other frame is in use, and all memory handed out so far lies in the first n pages. `page_fault` is the
-- handler of interrupt 14, paging is on with that directory, and the heap has one hole, which ends with it.
pub initialise_paging-IsStarted :
    {World : Type 0} (garbage : ℕ) (stale : ℕ → ℕ) (handler cr0 : ℕ)
    (machine : Interrupts.Machine World) (m : Memory) (s : Paging Early)
    → ((i : ℕ) → stale i ≡ 0)
    → s.world.placement_address + 0xf000 ≤ 0xf0_0000
    → s.world.placement_address % 0x1000 + 512 ≤ 0x1000
    → (n : ℕ) × (t : Started World) × (initialise_paging 4097 garbage stale handler cr0 machine m s
        ≡ ok t)
      × (s.world.placement_address + 512 ≤ t.current_directory)
      × IsStarted t.current_directory n 256 t.kheap.world
      × (t.kheap.world.world.placement_address + 0xfe0 ≤ n * 0x1000)
      × (t.interrupts.interrupt_handlers 14 ≡ handler)
      × (t.cr3
          ≡ (t.kheap.world.directories t.current_directory).physical_address_of_tables_physical)
      × (bit t.cr0 31 ≡ 1)
      × IsFirst t.kheap
unfolding initialise_paging switch_page_directory register_interrupt_handler
initialise_paging-IsStarted garbage stale handler cr0 machine m s clear room fits =
    let (n, s₁, ran, started, covered, few) = map_kernel-IsStarted garbage stale s clear room in
    let dir = page_up (s.world.placement_address + 128) in
    let e : Early = record { placement_address = s₁.world.placement_address + 32 } in
    let early = kmalloc_early_lem 32 false s₁.world (omega arith) in
    let (heap, created, first, same) = create_heap-IsFirst m (record s₁ { world = e }) in
    (
      n,
      record {
        current_directory = dir;
        cr3 = (s₁.directories dir).physical_address_of_tables_physical;
        cr0 = bit_or cr0 0x8000_0000;
        interrupts = record machine {
          interrupt_handlers = λ i. if i == 14 then handler else machine.interrupt_handlers i;
        };
        kheap = heap;
      },
      rw (ran, early, created) refl,
      omega arith,
      subst (IsStarted dir n 256) (sym same) (IsStarted-later s₁ e started),
      rw same (omega arith),
      refl,
      ap (λ (p : Paging Early). (p.directories dir).physical_address_of_tables_physical) (sym same),
      omega (arith, bit-bit_or 31 cr0 0x8000_0000, bit-le 31 cr0),
      first,
    )
