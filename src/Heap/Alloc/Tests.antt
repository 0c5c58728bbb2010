-- ===== src/Heap/Alloc/Tests.antt =====
-- A heap that has to grow, and the theorems there.
use panda_os.Base.{
  [], ◌∷◌, true, ◌-◌, ℕ, zero, suc, ◌+◌, ◌-◌, ◌≤◌, ◌<◌, ◌≡◌, ◌≢◌, refl, false, some, ok, arith,
}
use panda_os.Base.Memory.{load8, load32, store8, store32}
use panda_os.OrderedArray.{entry}
use panda_os.OrderedArray.Frame.{Outside}
use panda_os.Heap.Layout.{put_header, header_t_less_than, Pager, State}
use panda_os.Heap.Fields.{IsHeader, IsFooter}
use panda_os.Heap.Pages.{round_up}
use panda_os.Heap.Pages.Order.{Backed}
use panda_os.Heap.Alloc.{find_smallest_hole, fits, alloc}
use panda_os.Heap.Alloc.Grow.{Growable}
use panda_os.Heap.Alloc.Again.{IsLast, alloc-Grown}

abbrev counting : Pager ℕ
counting = record {
  map_page = λ a k w s. ok (record s { world = s.world + 1 });
  unmap_page = λ a n. ok (n - 1);
}

-- A heap from 0x1000 to 0x8000, with an index of two holes at address 0: of 0x40 bytes at 0x2000, and of
-- `last` bytes at 0x5000. A block begins behind it unless the hole ends with the heap.
abbrev two_holes : (last : ℕ) → State ℕ
two_holes last = record {
  mem = put_header (0x5000 + last) 0 0x100 (
      put_header 0x5000 1 last
        (put_header 0x2000 1 0x40 (store32 4 0x5000 (store32 0 0x2000 (λ a. 0)))));
  heap = record {
    index = record { array = 0; size = 2; max_size = 8; less_than = some header_t_less_than };
    start_address = 0x1000;
    end_address = 0x8000;
    max_address = 0x10000;
    supervisor = 0;
    readonly = 0;
  };
  world = 0;
}

two_holes-Growable : Growable 0x4000 0x7000 (two_holes 0x3000)
unfolding find_smallest_hole fits entry load32 load8 store32 store8 put_header round_up
two_holes-Growable = record {
  length = refl;
  some_size = omega arith;
  full = refl;
  room = omega arith;
  flat = omega arith;
  small = omega arith;
}

two_holes-IsLast : IsLast 1 0x5000 0x3000 (two_holes 0x3000)
unfolding entry load32 load8 store32 store8 put_header
two_holes-IsLast = record {
  position = omega arith;
  here = refl;
  size = refl;
  ends = refl;
  large = omega arith;
  some_address = omega arith;
  others = others;
  order = refl;
  below = omega arith;
  count = omega arith;
}
  where
    others :
        (k : ℕ)
        → k < 2
        → entry 0 k (two_holes 0x3000).mem ≢ 0x5000
        → entry 0 k (two_holes 0x3000).mem + 12 ≤ 0x5000
    others zero lt other = omega arith
    others (suc zero) lt other = absurd (other refl)
    others (suc (suc k)) lt other = absurd (omega arith)

alloc-Grown_example :
    (b : ℕ) × (s' : State ℕ) × (alloc 2 counting 0x3fec false (two_holes 0x3000) ≡ ok (0x500c, s'))
    × (0x4000 ≤ b)
    × (IsHeader 0x5000 0 b s'.mem × IsFooter (0x5000 + b - 8) 0x5000 s'.mem)
    × (b < 0x8000
        → IsHeader (0x5000 + b) 1 (0x8000 - b) s'.mem × IsFooter 0xcff8 (0x5000 + b) s'.mem)
    × (s'.heap.end_address ≡ 0xd000)
    × Backed counting false true
        (0x8000 ∷ 0x9000 ∷ 0xa000 ∷ 0xb000 ∷ 0xc000 ∷ [])
        (two_holes 0x3000)
        0
        s'.world
    × ((x : ℕ) → x < 0x5000 → Outside 0 0 2 x → load8 x s'.mem ≡ load8 x (two_holes 0x3000).mem)
unfolding round_up
alloc-Grown_example =
    alloc-Grown counting (λ a k w s. (s.world + 1, refl)) (two_holes 0x3000) 0x3fec 0x7000
      two_holes-Growable 1 0x5000 0x3000 two_holes-IsLast 0
