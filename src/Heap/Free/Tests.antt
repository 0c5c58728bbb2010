-- ===== src/Heap/Free/Tests.antt =====
-- Blocks that are freed between holes, and the theorems there.
use panda_os.Base.{ℕ, ◌+◌, ◌-◌, ◌≡◌, refl, false, some, [], arith, inl, inr, ok}
use panda_os.Base.Memory.{Memory, load8, load32, store8, store32}
use panda_os.OrderedArray.{entry}
use panda_os.OrderedArray.Entries.{contents}
use panda_os.OrderedArray.Remove.{remove_at}
use panda_os.OrderedArray.Sorted.{InOrder}
use panda_os.Heap.Layout.{put_header, put_footer, header_t_less_than, Pager, State}
use panda_os.Heap.Alloc.{find_smallest_hole, fits, alloc}
use panda_os.Heap.Alloc.Place.{Usable}
use panda_os.Heap.Free.{free}
use panda_os.Heap.Free.Index.{position}
use panda_os.Heap.Free.Joins.{Freeable}
use panda_os.Heap.Free.Merge.{Freed, free-Freed}
use panda_os.Heap.Free.Return.{Lone, Returned, alloc-free}
use panda_os.Heap.Order.Keep.{alloc-InOrder, free-InOrder}
use panda_os.Heap.Order.Lose.{free-out_of_order}

abbrev counting : Pager ℕ
counting = record {
  map_page = λ a k w s. ok (record s { world = s.world + 1 });
  unmap_page = λ a n. ok (n - 1);
}

-- A heap from 0x1000 to 0x8000 whose index is at address 0.
abbrev heap_of : (count : ℕ) → Memory → State ℕ
heap_of count m = record {
  mem = m;
  heap = record {
    index = record { array = 0; size = count; max_size = 8; less_than = some header_t_less_than };
    start_address = 0x1000;
    end_address = 0x8000;
    max_address = 0x10000;
    supervisor = 0;
    readonly = 0;
  };
  world = 0;
}

-- A block of 0x100 bytes at 0x3000, and a hole of 0x3000 bytes behind it.
abbrev block : Memory → Memory
block m = put_footer 0x30f8 0x3000 (put_header 0x3000 0 0x100 (put_header 0x3100 1 0x3000 m))

-- Holes of 0x40 bytes in front of the block and of 0x50 bytes at 0x1000.
abbrev between : State ℕ
between = heap_of 3 (
    block (
      put_footer 0x2ff8 0x2fc0 (
        put_header 0x2fc0 1 0x40 (
          put_header 0x1000 1 0x50
            (store32 8 0x3100 (store32 4 0x1000 (store32 0 0x2fc0 (λ a. 0))))))))

between-Freeable : Freeable 0x3000 0x40 0x100 0x3000 2 between
unfolding entry load32 load8 store32 store8 put_header put_footer position
between-Freeable = record {
  block = (
    record { magic_eq = refl; hole_eq = refl; size_eq = refl },
    record { magic_eq = refl; header_eq = refl },
  );
  room = omega arith;
  left = inr (
    omega arith,
    omega arith,
    record { magic_eq = refl; hole_eq = refl; size_eq = refl },
    record { magic_eq = refl; header_eq = refl },
  );
  right = inr (omega arith, record { magic_eq = refl; hole_eq = refl; size_eq = refl }, refl);
  behind = omega arith;
  no_wrap = omega arith;
  order = refl;
  below = omega arith;
  count = omega arith;
}

free-Freed_example :
    (s' : State ℕ) × (free counting 0x300c between ≡ ok s')
    × Freed 0x3000 0x40 0x100 0x3000 2 between s'
free-Freed_example =
    free-Freed counting between 0x3000 0x40 0x100 0x3000 2 between-Freeable (λ e. omega (arith, e))

free-out_of_order_example :
    (s' : State ℕ) × (free counting 0x300c between ≡ ok s')
    × ¬ InOrder (header_t_less_than s'.mem) (contents s'.heap.index s'.mem)
unfolding entry load32 load8 store32 store8 put_header put_footer remove_at
free-out_of_order_example =
    free-out_of_order counting between 0x3000 0x40 0x100 0x3000 2 0x1000 [] [] between-Freeable
      (λ e. omega (arith, e)) (λ e. omega (arith, e)) refl (inl (omega arith)) (omega arith)
      (omega arith)

-- The same block with no hole in front of it.
abbrev behind : State ℕ
behind = heap_of 2 (block (put_header 0x1000 1 0x50 (store32 4 0x3100 (store32 0 0x1000 (λ a. 0)))))

behind-Freeable : Freeable 0x3000 0 0x100 0x3000 1 behind
unfolding entry load32 load8 store32 store8 put_header put_footer position
behind-Freeable = record {
  block = (
    record { magic_eq = refl; hole_eq = refl; size_eq = refl },
    record { magic_eq = refl; header_eq = refl },
  );
  room = omega arith;
  left = inl (refl, inl (λ e. omega (arith, e)));
  right = inr (omega arith, record { magic_eq = refl; hole_eq = refl; size_eq = refl }, refl);
  behind = omega arith;
  no_wrap = omega arith;
  order = refl;
  below = omega arith;
  count = omega arith;
}

free-InOrder_example :
    (s' : State ℕ) × (free counting 0x300c behind ≡ ok s')
    × InOrder (header_t_less_than s'.mem) (contents s'.heap.index s'.mem)
unfolding entry load32 load8 store32 store8 put_header put_footer header_t_less_than
free-InOrder_example =
    free-InOrder counting behind 0x3000 0x100 0x3000 1 behind-Freeable (λ e. omega (arith, e))
      ((refl, tt), (tt, tt))
      ((inl (omega arith), omega arith), ((inr (omega arith), omega arith), tt))

-- Two holes, of 0x40 bytes at 0x2000 and of 0x3000 bytes at 0x4000.
abbrev apart : State ℕ
apart = heap_of 2 (
    put_header 0x4000 1 0x3000
      (put_header 0x2000 1 0x40 (store32 4 0x4000 (store32 0 0x2000 (λ a. 0)))))

apart_found : find_smallest_hole 120 false apart.heap.index apart.mem ≡ some 1
unfolding find_smallest_hole fits entry load32 load8 store32 store8 put_header
apart_found = refl

apart-Usable : Usable 1 100 0x4000 0x3000 apart
unfolding entry load32 load8 store32 store8 put_header
apart-Usable = record {
  position = omega arith;
  hole = refl;
  hole_size = refl;
  enough = omega arith;
  no_wrap = omega arith;
  within = omega arith;
  order = refl;
  below = omega arith;
  count = omega arith;
}

apart-Lone : Lone 0x4000 0x3000 (remove_at 1 (contents apart.heap.index apart.mem)) apart
unfolding entry load32 load8 store32 store8 put_header remove_at
apart-Lone = record {
  before = inl (λ e. omega (arith, e));
  behind = inl (λ e. omega (arith, e));
  others_apart = (inl (omega arith), tt);
  not_last = λ e. omega (arith, e);
  room = omega arith;
  count = omega arith;
}

alloc-free_example :
    (s' s'' : State ℕ) × (alloc 1 counting 100 false apart ≡ ok (0x400c, s'))
    × (free counting 0x400c s' ≡ ok s'')
    × Returned 0x4000 0x3000 (remove_at 1 (contents apart.heap.index apart.mem)) apart s''
alloc-free_example =
    alloc-free 0 counting 1 100 0x4000 0x3000 apart apart_found apart-Usable apart-Lone

alloc-InOrder_example :
    (s' : State ℕ) × (alloc 1 counting 100 false apart ≡ ok (0x400c, s'))
    × InOrder (header_t_less_than s'.mem) (contents s'.heap.index s'.mem)
unfolding entry load32 load8 store32 store8 put_header header_t_less_than remove_at
alloc-InOrder_example =
    alloc-InOrder 0 counting 1 100 0x4000 0x3000 apart apart_found apart-Usable
      ((refl, tt), (tt, tt)) ((inl (omega arith), omega arith), tt)
