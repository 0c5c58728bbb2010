-- ===== src/Heap/Layout.antt =====
-- Headers, footers and the record of a heap (memory/kheap.h), and what a heap call works on.
use panda_os.Base.{ℕ, ◌+◌, Bool, ltb, Outcome}
use panda_os.Base.Memory.{Memory, load8, load32, store8, store32}
use panda_os.OrderedArray.{OrderedArray, Predicate}

abbrev pub page_size : ℕ
page_size = 0x1000

abbrev pub heap_magic : ℕ
heap_magic = 0x123890AB

abbrev pub heap_index_size : ℕ
heap_index_size = 0x20000

abbrev pub heap_min_size : ℕ
heap_min_size = 0x70000

-- `sizeof(header_t)`, with three bytes of padding behind `is_hole`, and `sizeof(footer_t)`.
abbrev pub header_size : ℕ
header_size = 12

abbrev pub footer_size : ℕ
footer_size = 8

-- The fields of the header at p.
abbrev pub magic_of : (p : ℕ) → Memory → ℕ
magic_of p m = load32 p m

abbrev pub is_hole_of : (p : ℕ) → Memory → ℕ
is_hole_of p m = load8 (p + 4) m

abbrev pub size_of : (p : ℕ) → Memory → ℕ
size_of p m = load32 (p + 8) m

-- The field `header` of the footer at p; its magic is `magic_of p`.
abbrev pub header_of : (p : ℕ) → Memory → ℕ
header_of p m = load32 (p + 4) m

-- Writing a whole header, and a whole footer.
unfoldable pub put_header : (p is_hole size : ℕ) → Memory → Memory
put_header p is_hole size m = store32 (p + 8) size (store8 (p + 4) is_hole (store32 p heap_magic m))

unfoldable pub put_footer : (p header : ℕ) → Memory → Memory
put_footer p header m = store32 (p + 4) header (store32 p heap_magic m)

unfoldable pub set_size : (p size : ℕ) → Memory → Memory
set_size p size m = store32 (p + 8) size m

unfoldable pub set_hole : (p : ℕ) → Memory → Memory
set_hole p m = store8 (p + 4) 1 m

unfoldable pub header_t_less_than : Predicate
header_t_less_than m a b = ltb (size_of a m) (size_of b m)

pub record Heap : Type 0 where
  pub index : OrderedArray
  pub start_address : ℕ
  pub end_address : ℕ
  pub max_address : ℕ
  pub supervisor : ℕ
  pub readonly : ℕ

pub record State (World : Type 0) : Type 0 where
  pub mem : Memory
  pub heap : Heap
  pub world : World

-- What the heap asks of memory/paging.c: to back the page at an address with a frame, as
-- `alloc_frame(get_page(address, 1, kernel_directory), is_kernel, is_writeable)` does, where `get_page` may
-- ask the heap for a table, and to take it back, as `free_frame(get_page(address, 0, kernel_directory))` does.
-- `World` is the paging state.
pub record Pager (World : Type 0) : Type 0 where
  pub map_page : (address : ℕ) (is_kernel is_writeable : Bool) → State World → Outcome (State World)
  pub unmap_page : (address : ℕ) → World → Outcome World
