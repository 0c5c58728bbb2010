-- ===== src/Heap/Tests.antt =====
-- A small heap, runs of the heap functions on it, and the theorems at its holes.
use panda_os.Base.{
  ℕ, ◌+◌, ◌-◌, ◌%◌, ◌≤◌, ◌≡◌, refl, Bool, true, false, Option, none, some, List, [], ◌∷◌, arith,
  Outcome, ok, panic, out_of_fuel,
}
use mathlib.Core.Option
use native.Mathlib.Bridge.{le_by_compare, IsLe}
use panda_os.Base.Memory.{Memory, load8, load32, store8, store32}
use panda_os.OrderedArray.{
  OrderedArray, entry, put_entry, insert_ordered_array, lookup_ordered_array, remove_ordered_array,
}
use panda_os.OrderedArray.Entries.{contents}
use panda_os.OrderedArray.Remove.{remove_at}
use panda_os.OrderedArray.Sorted.{InOrder}
use panda_os.Heap.Layout.{size_of, put_header, put_footer, header_t_less_than, Pager, State}
use panda_os.Heap.Alloc.{
  fits, find_smallest_hole, alloc, place, carve, detach, settle, settle_at, insert_hole,
  remove_hole,
}
use panda_os.Heap.Alloc.Find.{find_smallest_hole_smallest}
use panda_os.Heap.Alloc.Place.{Usable, alloc-Settled}
use panda_os.Heap.Alloc.Carve.{Carved}
use panda_os.Heap.Alloc.Settle.{Settled}
use panda_os.Heap.Alloc.Aligned.{alloc_misaligned}
use panda_os.Heap.Placement.{Early}

returned : {A : Type 0} → Outcome A → Option A
returned (ok a) = some a
returned panic = none
returned out_of_fuel = none

-- Paging that only counts the pages.
abbrev counting : Pager ℕ
counting = record {
  map_page = λ a k w s. ok (record s { world = s.world + 1 });
  unmap_page = λ a n. ok (n - 1);
}

-- The index at address 0 holds two holes, of 0x40 bytes at 0x2000 and of 0x3000 bytes at 0x4000.
abbrev memory : Memory
memory =
    put_header 0x4000 1 0x3000
      (put_header 0x2000 1 0x40 (store32 4 0x4000 (store32 0 0x2000 (λ a. 0))))

abbrev index : OrderedArray
index = record { array = 0; size = 2; max_size = 8; less_than = some header_t_less_than }

abbrev two_holes : State ℕ
two_holes = record {
  mem = memory;
  heap = record {
    index = index;
    start_address = 0x2000;
    end_address = 0x7000;
    max_address = 0x10000;
    supervisor = 0;
    readonly = 0;
  };
  world = 0;
}

ordered : InOrder (header_t_less_than memory) (contents index memory)
unfolding entry load32 load8 store32 store8 put_header header_t_less_than
ordered = ((refl, tt), (tt, tt))

found_small : find_smallest_hole 28 false index memory ≡ some 0
unfolding find_smallest_hole fits entry load32 load8 store32 store8 put_header
found_small = refl

found_large : find_smallest_hole 120 false index memory ≡ some 1
unfolding find_smallest_hole fits entry load32 load8 store32 store8 put_header
found_large = refl

found_aligned : find_smallest_hole 120 true index memory ≡ some 1
unfolding find_smallest_hole fits entry load32 load8 store32 store8 put_header
found_aligned = refl

usable : Usable 1 100 0x4000 0x3000 two_holes
unfolding entry load32 load8 store32 store8 put_header
usable = record {
  position = omega arith;
  hole = refl;
  hole_size = refl;
  enough = omega arith;
  no_wrap = omega arith;
  within = omega arith;
  order = refl;
  below = omega arith;
  count = omega arith;
}

-- The block of 120 bytes at 0x4000 leaves a hole of 0x2f88 bytes behind it, which goes to the end of
-- the index.
alloc_run :
    Option.map {B = ℕ × List ℕ × ℕ}
      (λ r. (r.0, contents r.1.heap.index r.1.mem, size_of 0x4078 r.1.mem))
      (returned (alloc 1 counting 100 false two_holes))
    ≡ some (0x400c, 0x2000 ∷ 0x4078 ∷ [], 0x2f88)
unfolding returned alloc place find_smallest_hole fits entry load32 load8 store32 store8 put_header
    put_footer lookup_ordered_array carve detach settle settle_at insert_hole remove_hole
    insert_ordered_array remove_ordered_array header_t_less_than put_entry
alloc_run = refl

alloc-Settled_example :
    (size' n : ℕ) × (s' : State ℕ) × (alloc 1 counting 100 false two_holes ≡ ok (0x400c, s'))
    × Carved size' n 0x3000
    × (100 ≤ size')
    × Settled 0x4000 n 0x3000 (remove_at 1 (contents index memory)) 2 two_holes s'
alloc-Settled_example = alloc-Settled 0 counting 1 100 0x4000 0x3000 two_holes found_large usable

find_smallest_hole_smallest_example :
    (28 ≤ size_of (entry 0 0 memory) memory)
    × (size_of (entry 0 0 memory) memory ≤ size_of (entry 0 1 memory) memory)
unfolding IsLe
find_smallest_hole_smallest_example =
    find_smallest_hole_smallest 28 0 1 index memory ordered found_small (omega arith) enough
  where
    enough : 28 ≤ size_of (entry 0 1 memory) memory
    enough = unfold entry load32 load8 store32 store8 put_header in le_by_compare 28 0x3000 tt

alloc_misaligned_example :
    (at : ℕ) × (s' : State ℕ) × (alloc 1 counting 100 true two_holes ≡ ok (at, s'))
    × (at ≡ 0x4000 + 12)
    × (at % 0x1000 ≡ 12)
alloc_misaligned_example =
    alloc_misaligned 0 counting 1 100 0x4000 0x3000 two_holes found_aligned usable refl

abbrev requests : List (ℕ × Bool)
requests = (8, false) ∷ (0x1000, true) ∷ (16, false) ∷ []

abbrev early : Early
early = record { placement_address = 0x100004 }
