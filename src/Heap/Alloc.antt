-- ===== src/Heap/Alloc.antt =====
-- `create_heap`, `find_smallest_hole` and `alloc`.
pub mod Find
pub mod Place
pub mod Carve
pub mod Settle
pub mod Aligned
pub mod Grow
pub mod Again
pub mod Overlap
pub mod Create
mod Tests
use panda_os.Base.{
  ℕ, zero, suc, ◌+◌, ◌-◌, ◌*◌, ◌/◌, ◌%◌, ◌^◌, Bool, true, false, not, ◌&&◌, Option, none, some,
  bit_and, ltb, leb, ◌==◌, if◌then◌else◌, add32, sub32, Outcome, ok, out_of_fuel, assert, ◌>>=◌,
  ◌>>◌,
}
use panda_os.Base.Int.{ℤ, pos, negsuc, signed32}
use panda_os.Base.Memory.{Memory}
use panda_os.OrderedArray.{
  OrderedArray, Predicate, entry, place_ordered_array, insert_ordered_array, lookup_ordered_array,
  remove_ordered_array,
}
use panda_os.Heap.Layout.{
  page_size, heap_index_size, header_size, footer_size, size_of, put_header, put_footer, set_size,
  header_t_less_than, Heap, Pager, State,
}
use panda_os.Heap.Pages.{expand}

-- `a >= b` of `int32`s.
abbrev pub geb_ℤ : ℤ → ℤ → Bool
geb_ℤ (pos a) (pos b) = leb b a
geb_ℤ (pos a) (negsuc b) = true
geb_ℤ (negsuc a) (pos b) = false
geb_ℤ (negsuc a) (negsuc b) = leb a b

-- What is lost in front of a block whose data is to begin on a page.
unfoldable pub align_offset : (location : ℕ) → ℕ
align_offset location =
    if bit_and (add32 location header_size) 0xfff == 0
    then 0
    else page_size - add32 location header_size % page_size

-- The test in the loop of `find_smallest_hole`, for the hole at `header`.
unfoldable pub fits : (size : ℕ) (page_align : Bool) (header : ℕ) → Memory → Bool
unfolding align_offset
fits size page_align header m =
    if page_align
    then geb_ℤ (signed32 (sub32 (size_of header m) (align_offset header))) (signed32 size)
    else leb size (size_of header m)

find_loop : (size : ℕ) (page_align : Bool) (left i : ℕ) → OrderedArray → Memory → Option ℕ
find_loop size page_align zero i index m = none
find_loop size page_align (suc left) i index m =
    let rest = find_loop size page_align left (i + 1) index m in
    if fits size page_align (entry index.array i m) m then some i else rest

-- The index of the first hole that is large enough; `none` is the -1 of the source. The calls of
-- `lookup_ordered_array` are within the size by the loop's test.
unfoldable pub find_smallest_hole :
    (size : ℕ) (page_align : Bool) → OrderedArray → Memory → Option ℕ
unfolding find_loop
find_smallest_hole size page_align index m = find_loop size page_align index.size 0 index m

-- The loop of `alloc` over the index: the position of the hole with the greatest address.
pub last_hole : (left i value : ℕ) (idx : Option ℕ) → OrderedArray → Memory → Option ℕ
last_hole zero i value idx index m = idx
last_hole (suc left) i value idx index m =
    let tmp = entry index.array i m in
    let found = ltb value tmp in
    last_hole left (i + 1) (if found then tmp else value) (if found then some i else idx) index m

module _ {World : Type 0} where
  -- The heap's index with the memory, changed together.
  abbrev pub with_index : State World → OrderedArray × Memory → State World
  with_index s (index, m) = record s { heap = record s.heap { index = index }; mem = m }

  unfoldable pub insert_hole : (hole : ℕ) → State World → Outcome (State World)
  insert_hole hole s = insert_ordered_array hole s.heap.index s.mem >>= λ r. ok (with_index s r)

  unfoldable pub remove_hole : (i : ℕ) → State World → State World
  remove_hole i s = with_index s (remove_ordered_array i s.heap.index s.mem)

-- `kmalloc(sizeof(heap_t))` only finds room for the record, which the model keeps beside the memory.
unfoldable pub create_heap :
    {World : Type 0} (start end_addr max supervisor readonly : ℕ)
    → Memory
    → World
    → Outcome (State World)
create_heap start end_addr max supervisor readonly m w = do
  assert (start % page_size == 0)
  assert (end_addr % page_size == 0)
  let (index, m') = place_ordered_array start heap_index_size (some header_t_less_than) m
  let first = add32 start (4 * heap_index_size)
  let aligned =
      if bit_and first 0xfff == 0 then first else add32 (bit_and first 0xffff_f000) page_size
  insert_hole aligned (record {
    mem = put_header aligned 1 (sub32 end_addr aligned) m';
    heap = record {
      index = index;
      start_address = aligned;
      end_address = end_addr;
      max_address = max;
      supervisor = supervisor;
      readonly = readonly;
    };
    world = w;
  })

-- What the heap has gained behind its old end goes to the last hole, at the position in the index, or becomes
-- a hole.
unfoldable pub take_gained :
    {World : Type 0} → (old_end_address gained : ℕ) → Option ℕ → State World → Outcome (State World)
take_gained old_end_address gained none s = insert_hole old_end_address (record s {
  mem =
      put_footer (sub32 (add32 old_end_address gained) footer_size) old_end_address
        (put_header old_end_address 1 gained s.mem);
})
take_gained old_end_address gained (some idx) s = do
  header ← lookup_ordered_array idx s.heap.index s.mem
  let size = add32 (size_of header s.mem) gained
  ok (record s {
    mem = put_footer (sub32 (add32 header size) footer_size) header (set_size header size s.mem);
  })

-- The part of `alloc` for the case that no hole fits: the heap grows, and its last hole with it.
unfoldable pub grow :
    {World : Type 0} → Pager World → (new_size : ℕ) → State World → Outcome (State World)
unfolding last_hole take_gained
grow pager new_size s =
    let old_length = sub32 s.heap.end_address s.heap.start_address in
    let old_end_address = s.heap.end_address in
    do
      s' ← expand pager (add32 old_length new_size) s
      let gained = sub32 (sub32 s'.heap.end_address s'.heap.start_address) old_length
      let idx = last_hole s'.heap.index.size 0 0 none s'.heap.index s'.mem
      take_gained old_end_address gained idx s'

-- The block that is carved out of a hole, after the remainder that is too small to be a hole of its
-- own has been added: the size of the data, and of the block.
unfoldable pub carve : (size new_size hole_size : ℕ) → ℕ × ℕ
carve size new_size hole_size =
    if ltb (sub32 hole_size new_size) (header_size + footer_size)
    then (add32 size (sub32 hole_size new_size), hole_size)
    else (size, new_size)

-- `orig_hole_pos&0xFFFFF000 + PAGE_SIZE - sizeof(header_t)` as C reads it: `+` and `-` bind tighter
-- than `&`, and the right operand is 0xfffffff4.
unfoldable pub aligned_location : (orig_hole_pos : ℕ) → ℕ
aligned_location orig_hole_pos =
    bit_and orig_hole_pos (sub32 (add32 0xffff_f000 page_size) header_size)

module _ {World : Type 0} where
  -- Where the block goes, how large the hole is there, and the state after the hole in front of it
  -- was made (the page-aligned case), or the hole was taken out of the index.
  unfoldable pub detach :
      (i : ℕ) (page_align : Bool) (hole_pos hole_size : ℕ) → State World → ℕ × ℕ × State World
  detach i page_align hole_pos hole_size s =
      if page_align && not (bit_and hole_pos 0xfff == 0)
      then (let new_location = aligned_location hole_pos in
          let m =
            put_footer (sub32 new_location footer_size) hole_pos
              (put_header hole_pos 1 (sub32 new_location hole_pos) s.mem) in
          (new_location, sub32 hole_size (size_of hole_pos m), record s { mem = m }))
      else (hole_pos, hole_size, remove_hole i s)

  -- The writes of the end of `alloc`, from the addresses of the block and its footer, of the hole behind
  -- it, of `left` bytes, and of that hole's footer.
  unfoldable pub settle_at :
      (block block_footer new_size hole left hole_footer : ℕ)
      → State World
      → Outcome (ℕ × State World)
  settle_at block block_footer new_size hole left hole_footer s =
      let m = put_footer block_footer block (put_header block 0 new_size s.mem) in
      let m' = put_header hole 1 left m in
      let m'' = if ltb hole_footer s.heap.end_address then put_footer hole_footer hole m' else m' in
      if left == 0
      then ok (add32 block header_size, record s { mem = m })
      else (insert_hole hole (record s { mem = m'' }) >>= λ s'. ok (add32 block header_size, s'))

  -- The new block at `block`, in a hole of `hole_size` bytes there; what is left becomes a hole.
  unfoldable pub settle :
      (block size new_size hole_size : ℕ) → State World → Outcome (ℕ × State World)
  settle block size new_size hole_size s =
      let block_footer = add32 (add32 block header_size) size in
      let left = sub32 hole_size new_size in
      let hole = add32 block_footer footer_size in
      settle_at block block_footer new_size hole left (sub32 (add32 hole left) footer_size) s

  -- `alloc` once a hole has been found, at position i of the index.
  unfoldable pub place :
      (size new_size : ℕ) (page_align : Bool) (i : ℕ) → State World → Outcome (ℕ × State World)
  place size new_size page_align i s = do
    orig_hole_pos ← lookup_ordered_array i s.heap.index s.mem
    let orig_hole_size = size_of orig_hole_pos s.mem
    let (size', new_size') = carve size new_size orig_hole_size
    let (block, hole_size, s') = detach i page_align orig_hole_pos orig_hole_size s
    settle block size' new_size' hole_size s'

  -- The address of the new block's data. `fuel` bounds the calls of `alloc` by itself, each of which
  -- has grown the heap.
  unfoldable pub alloc :
      (fuel : ℕ)
      → Pager World
      → (size : ℕ) (page_align : Bool) → State World
      → Outcome (ℕ × State World)
  alloc zero pager size page_align s = out_of_fuel
  alloc (suc fuel) pager size page_align s =
      let new_size = add32 size (header_size + footer_size) in
      let again = grow pager new_size s >>= alloc fuel pager size page_align in
      elim (find_smallest_hole new_size page_align s.heap.index s.mem) [
        | none ↦ again
        | some i ↦ place size new_size page_align i s
      ]
