-- ===== src/Heap/Free.antt =====
-- `free`: the block becomes a hole, joined with the holes on either side.
pub mod Index
pub mod Left
pub mod Right
pub mod Joins
pub mod Merge
pub mod Return
pub mod Back
pub mod Ends
mod Tests
use panda_os.Base.{
  ℕ, zero, suc, ◌+◌, Bool, true, false, ◌&&◌, not, Option, none, some, ◌==◌, if◌then◌else◌, add32,
  sub32, Outcome, ok, panic, assert, ◌>>=◌, ◌>>◌,
}
use panda_os.Base.Memory.{Memory, store32}
use panda_os.OrderedArray.{OrderedArray, entry}
use panda_os.Heap.Layout.{
  header_size, footer_size, heap_magic, magic_of, is_hole_of, size_of, header_of, put_footer,
  set_size, set_hole, Pager, State,
}
use panda_os.Heap.Pages.{contract}
use panda_os.Heap.Alloc.{insert_hole, remove_hole}

-- `while (iterator < size && lookup(iterator) != item) iterator++;`: `none` when the end is reached.
find_entry : (item left i : ℕ) → OrderedArray → Memory → Option ℕ
find_entry item zero i index m = none
find_entry item (suc left) i index m =
    let rest = find_entry item left (i + 1) index m in
    if entry index.array i m == item then some i else rest

unfoldable pub index_of : (item : ℕ) → OrderedArray → Memory → Option ℕ
unfolding find_entry
index_of item index m = find_entry item index.size 0 index m

-- The header and footer of the hole so far, and whether it still has to be put into the index.
pub record Hole : Type 0 where
  pub header : ℕ
  pub footer : ℕ
  pub do_add : Bool

module _ {World : Type 0} where
  -- A hole that ends where the block begins takes the block in.
  unfoldable pub join_left : (header footer : ℕ) → State World → Hole × State World
  join_left header footer s =
      let m = set_hole header s.mem in
      let test_footer = sub32 header footer_size in
      let left = header_of test_footer m in
      if (magic_of test_footer m == heap_magic) && (is_hole_of left m == 1)
      then (let m' = store32 (footer + 4) left m in
          (
            record { header = left; footer = footer; do_add = false },
            record s { mem = set_size left (add32 (size_of left m') (size_of header m)) m' },
          ))
      else (record { header = header; footer = footer; do_add = true }, record s { mem = m })

  -- A hole that begins where the block ends is taken in, and out of the index. The value of
  -- `test_header` is returned too, since the end of `free` uses it.
  unfoldable pub join_right : Hole → State World → Outcome (Hole × State World)
  join_right hole s =
      let test_header = add32 hole.footer footer_size in
      let joined = record s {
        mem =
            set_size hole.header (add32 (size_of hole.header s.mem) (size_of test_header s.mem))
              s.mem;
      } in
      let footer = sub32 (add32 test_header (size_of test_header joined.mem)) footer_size in
      if (magic_of test_header s.mem == heap_magic) && not (is_hole_of test_header s.mem == 0)
      then elim (index_of test_header joined.heap.index joined.mem) [
        | none ↦ panic
        | some i ↦ ok (record hole { footer = footer }, remove_hole i joined)
      ]
      else ok (hole, s)

  -- A hole at the end of the heap is given back, down to the minimum.
  unfoldable pub give_back :
      Pager World → (test_header : ℕ) → Hole → State World → Outcome (State World)
  give_back pager test_header hole s =
      if add32 hole.footer footer_size == s.heap.end_address
      then (do
        let old_length = sub32 s.heap.end_address s.heap.start_address
        (new_length, s') ← contract pager (sub32 hole.header s.heap.start_address) s
        let cut = sub32 old_length new_length
        let size = sub32 (size_of hole.header s'.mem) cut
        if not (size == 0)
            then ok (record s' {
              mem =
                  put_footer (sub32 (add32 hole.header size) footer_size) hole.header
                    (set_size hole.header size s'.mem);
            })
            else elim (index_of test_header s'.heap.index s'.mem) [
              | none ↦ ok s'
              | some i ↦ ok (remove_hole i s')
            ])
      else ok s

  unfoldable pub free : Pager World → (p : ℕ) → State World → Outcome (State World)
  free pager p s =
      if p == 0
      then ok s
      else (let header = sub32 p header_size in
          let footer = sub32 (add32 header (size_of header s.mem)) footer_size in
          do
            assert (magic_of header s.mem == heap_magic)
            assert (magic_of footer s.mem == heap_magic)
            let (hole, s₁) = join_left header footer s
            (hole', s₂) ← join_right hole s₁
            s₃ ← give_back pager (add32 hole.footer footer_size) hole' s₂
            if hole'.do_add then insert_hole hole'.header s₃ else ok s₃)
