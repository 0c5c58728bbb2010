-- ===== src/Heap/Pages.antt =====
-- `expand` and `contract`: the end of the heap moves by pages.
pub mod Contract
pub mod Expand
pub mod Order
use panda_os.Base.{
  ℕ, zero, suc, ◌+◌, ◌-◌, ◌*◌, ◌/◌, ◌%◌, ◌^◌, Bool, true, false, not, bit_and, ltb, leb, ◌==◌,
  if◌then◌else◌, add32, sub32, Outcome, ok, out_of_fuel, assert, ◌>>=◌, ◌>>◌,
}
use panda_os.Heap.Layout.{page_size, heap_min_size, Heap, Pager, State}

-- The rounding of `expand`.
unfoldable pub round_up : ℕ → ℕ
round_up new_size =
    if bit_and new_size 0xffff_f000 == 0
    then new_size
    else add32 (bit_and new_size 0xffff_f000) page_size

-- `if (new_size&PAGE_SIZE) { new_size &= PAGE_SIZE; new_size += PAGE_SIZE; }`, then the minimum.
unfoldable pub contracted : ℕ → ℕ
contracted new_size =
    let kept =
      if bit_and new_size page_size == 0
      then new_size
      else add32 (bit_and new_size page_size) page_size in
    if ltb kept heap_min_size then heap_min_size else kept

module _ {World : Type 0} (pager : Pager World) where
  -- `while (i < new_size) { alloc_frame(...); i += PAGE_SIZE; }`
  pub map_pages : (fuel i new_size : ℕ) → State World → Outcome (State World)
  map_pages zero i new_size s = out_of_fuel
  map_pages (suc fuel) i new_size s =
      let rest = do
        s' ←
            pager.map_page (add32 s.heap.start_address i) (not (s.heap.supervisor == 0))
              (s.heap.readonly == 0) s
        map_pages fuel (add32 i page_size) new_size s'
      in if ltb i new_size then rest else ok s

  -- The rounds of the loop are at most one for each page of the new size.
  unfoldable pub expand : (new_size : ℕ) → State World → Outcome (State World)
  expand new_size s =
      let heap = s.heap in
      let old_size = sub32 heap.end_address heap.start_address in
      let rounded = round_up new_size in
      do
        assert (ltb old_size new_size)
        assert (leb (add32 heap.start_address rounded) heap.max_address)
        s' ← map_pages (rounded / page_size + 2) old_size rounded s
        ok (record s' {
          heap = record s'.heap { end_address = add32 s'.heap.start_address rounded };
        })

  -- `while (new_size < i) { free_frame(...); i -= PAGE_SIZE; }`
  pub unmap_pages : (fuel i new_size : ℕ) → Heap → World → Outcome World
  unmap_pages zero i new_size heap w = out_of_fuel
  unmap_pages (suc fuel) i new_size heap w =
      let rest = do
        w' ← pager.unmap_page (add32 heap.start_address i) w
        unmap_pages fuel (sub32 i page_size) new_size heap w'
      in if ltb new_size i then rest else ok w

  -- Returns the new length too.
  unfoldable pub contract : (new_size : ℕ) → State World → Outcome (ℕ × State World)
  contract new_size s =
      let heap = s.heap in
      let old_size = sub32 heap.end_address heap.start_address in
      let kept = contracted new_size in
      do
        assert (ltb new_size old_size)
        w ← unmap_pages (old_size / page_size + 2) (sub32 old_size page_size) kept heap s.world
        ok (
          kept,
          record s {
            heap = record heap { end_address = add32 heap.start_address kept };
            world = w;
          },
        )
