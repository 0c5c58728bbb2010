-- ===== src/Heap/Alloc/Create.antt =====
-- `create_heap` for the heap of the kernel (memory/kheap.c).
use panda_os.Base.{◌≡◌, refl, [], ◌∷◌, some, ok, arith}
use panda_os.Base.Memory.{Memory}
use panda_os.OrderedArray.{OrderedArray, place_ordered_array}
use panda_os.OrderedArray.Entries.{contents}
use panda_os.OrderedArray.Frame.{insert_ordered_array-frame}
use panda_os.OrderedArray.Insert.{insert_in_order, insert_ordered_array-contents}
use panda_os.Heap.Layout.{header_t_less_than, put_header, State}
use panda_os.Heap.Fields.{IsHeader, IsHeader-same, put_header-IsHeader}
use panda_os.Heap.Alloc.{insert_hole, create_heap}
use panda_os.Mem.{memset}

-- The heap from 0xc0000000 to 0xc0100000: an index with one hole, which is all that the 0x80000 bytes of the
-- index leave.
pub record IsFirst {World : Type 0} (s : State World) : Type 0 where
  pub index : contents s.heap.index s.mem ≡ 0xc008_0000 ∷ []
  pub hole : IsHeader 0xc008_0000 1 0x8_0000 s.mem
  pub start : s.heap.start_address ≡ 0xc008_0000
  pub end : s.heap.end_address ≡ 0xc010_0000

pub create_heap-IsFirst :
    {World : Type 0} (m : Memory) (w : World)
    → (s : State World) × (create_heap 0xc000_0000 0xc010_0000 0xcfff_f000 0 0 m w ≡ ok s)
      × IsFirst s
      × (s.world ≡ w)
unfolding create_heap insert_hole place_ordered_array insert_in_order
create_heap-IsFirst m w =
    let m₁ = put_header 0xc008_0000 1 0x8_0000 (memset 0xc000_0000 0 0x8_0000 m) in
    let a : OrderedArray = record {
      array = 0xc000_0000;
      size = 0;
      max_size = 0x2_0000;
      less_than = some header_t_less_than;
    } in
    let (a', m', ran, _, held) =
      insert_ordered_array-contents header_t_less_than 0xc008_0000 a m₁ refl (omega arith)
        (omega arith) in
    (
      record {
        mem = m';
        heap = record {
          index = a';
          start_address = 0xc008_0000;
          end_address = 0xc010_0000;
          max_address = 0xcfff_f000;
          supervisor = 0;
          readonly = 0;
        };
        world = w;
      },
      rw ran refl,
      record {
        index = held;
        hole =
            IsHeader-same m'
              (put_header-IsHeader 0xc008_0000 (memset 0xc000_0000 0 0x8_0000 m) 1 0x8_0000
                (omega arith) (omega arith))
              (λ q ge lt.
                insert_ordered_array-frame header_t_less_than 0xc008_0000 q a a' m₁ m' refl ran
                  (omega arith));
        start = refl;
        end = refl;
      },
      refl,
    )
