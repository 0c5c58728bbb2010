-- ===== src/Heap/Free/Ends/Tests.antt =====
-- The last block of a heap, and the theorems there.
use panda_os.Base.{ℕ, ◌+◌, ◌-◌, ◌<◌, ◌≡◌, refl, some, arith, inl, ok, [], ◌∷◌}
use panda_os.Base.Memory.{Memory, load8, load32, store8, store32}
use panda_os.OrderedArray.{entry}
use panda_os.OrderedArray.Entries.{contents}
use panda_os.OrderedArray.Frame.{Outside}
use panda_os.OrderedArray.Insert.{insert_in_order}
use panda_os.Heap.Layout.{put_header, put_footer, header_t_less_than, Pager, State}
use panda_os.Heap.Fields.{IsHeader, IsFooter}
use panda_os.Heap.Pages.Order.{TakenBack}
use panda_os.Heap.Free.{free}
use panda_os.Heap.Free.Joins.{Freeable}
use panda_os.Heap.Free.Ends.{free-Contracted}

abbrev counting : Pager ℕ
counting = record {
  map_page = λ a k w s. ok (record s { world = s.world + 1 });
  unmap_page = λ a n. ok (n - 1);
}

-- A heap from 0x1000 to 0x81000 with a block from p to the end, and a hole of 0x40 bytes at 0x2000 that is
-- alone in the index at address 0.
abbrev last_block : (p : ℕ) → State ℕ
last_block p = record {
  mem =
      put_footer 0x80ff8 p
        (put_header p 0 (0x81000 - p) (put_header 0x2000 1 0x40 (store32 0 0x2000 (λ a. 0))));
  heap = record {
    index = record { array = 0; size = 1; max_size = 8; less_than = some header_t_less_than };
    start_address = 0x1000;
    end_address = 0x81000;
    max_address = 0x100000;
    supervisor = 0;
    readonly = 0;
  };
  world = 0;
}

low-Freeable : Freeable 0x60000 0 0x21000 0 0 (last_block 0x60000)
unfolding entry load32 load8 store32 store8 put_header put_footer
low-Freeable = record {
  block = (
    record { magic_eq = refl; hole_eq = refl; size_eq = refl },
    record { magic_eq = refl; header_eq = refl },
  );
  room = omega arith;
  left = inl (refl, inl (λ e. omega (arith, e)));
  right = inl (refl, inl (λ e. omega (arith, e)));
  behind = omega arith;
  no_wrap = omega arith;
  order = refl;
  below = omega arith;
  count = omega arith;
}

free-Contracted_example :
    (s' : State ℕ) × (m : Memory) × (free counting 0x6000c (last_block 0x60000) ≡ ok s')
    × (s'.heap.end_address ≡ 0x71000)
    × TakenBack counting
        (0x80000 ∷ 0x7f000 ∷ 0x7e000 ∷ 0x7d000 ∷ 0x7c000 ∷ 0x7b000 ∷ 0x7a000 ∷ 0x79000 ∷ 0x78000
          ∷ 0x77000 ∷ 0x76000 ∷ 0x75000 ∷ 0x74000 ∷ 0x73000 ∷ 0x72000 ∷ [])
        0
        s'.world
    × IsHeader 0x60000 1 0x11000 s'.mem
    × IsFooter 0x70ff8 0x60000 s'.mem
    × ((q : ℕ) → Outside 0 0 2 q → load8 q s'.mem ≡ load8 q m)
    × (contents s'.heap.index s'.mem
        ≡ insert_in_order
            (header_t_less_than m)
            0x60000
            (contents (last_block 0x60000).heap.index (last_block 0x60000).mem))
    × ((q : ℕ) → q < 0x60000 → Outside 0 0 2 q → load8 q s'.mem ≡ load8 q (last_block 0x60000).mem)
free-Contracted_example =
    free-Contracted counting (λ a n. (n - 1, refl)) (last_block 0x60000) 0x60000 0x21000 0 0
      low-Freeable refl (omega arith) (omega arith) (omega arith)
