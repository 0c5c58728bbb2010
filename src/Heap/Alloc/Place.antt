-- ===== src/Heap/Alloc/Place.antt =====
-- `place` and `alloc` (memory/kheap.c) for an unaligned block, once a hole is found.
use panda_os.Base.{
  ℕ, suc, ◌+◌, ◌*◌, ◌%◌, ◌^◌, ◌≤◌, ◌<◌, ◌≡◌, refl, ap, ◌∙◌, true, false, some, List, ltb, arith, ok,
  lt→ltb,
}
use panda_os.OrderedArray.{entry, remove_ordered_array, lookup_ordered_array}
use panda_os.OrderedArray.Entries.{contents}
use panda_os.OrderedArray.Frame.{Outside, remove_ordered_array-frame}
use panda_os.OrderedArray.Remove.{remove_at, remove_ordered_array-contents}
use panda_os.Heap.Layout.{Pager, size_of, header_t_less_than, State}
use panda_os.Heap.Alloc.{carve, detach, settle, remove_hole, place, alloc, find_smallest_hole}
use panda_os.Heap.Alloc.Carve.{Carved, carve-Carved}
use panda_os.Heap.Alloc.Settle.{Settled, settle-Settled}

-- The hole at position i of the index, and the room that a call needs: the index is in order of size
-- and lies below the hole, which ends within the heap.
pub record Usable {World : Type 0} (i size p h : ℕ) (s : State World) : Type 0 where
  pub position : i < s.heap.index.size
  pub hole : entry s.heap.index.array i s.mem ≡ p
  pub hole_size : size_of p s.mem ≡ h
  pub enough : size + 20 ≤ h
  pub no_wrap : p + h < 2 ^ 32
  pub within : p + h ≤ s.heap.end_address
  pub order : s.heap.index.less_than ≡ some header_t_less_than
  pub below : s.heap.index.array + 4 * s.heap.index.size ≤ p
  pub count : s.heap.index.size < 2 ^ 32

Settled-remove :
    {World : Type 0} (s s' : State World) (i p n h : ℕ) (holes : List ℕ)
    → i < s.heap.index.size
    → Settled p n h holes s.heap.index.size (remove_hole i s) s'
    → Settled p n h holes s.heap.index.size s s'
unfolding remove_hole remove_ordered_array
Settled-remove s s' i p n h holes lt done =
    let same = λ (q : ℕ) (apart : Outside s.heap.index.array 0 s.heap.index.size q).
      remove_ordered_array-frame i q s.heap.index s.mem (omega arith) apart in
    record {
      block = done.block;
      rest = done.rest;
      index_whole = done.index_whole;
      index_rest = λ more.
          let (m, frame, agree, held) = done.index_rest more in
          (m, (λ q out apart. frame q out apart ∙ same q apart), agree, held);
      frame = λ q out apart. done.frame q out apart ∙ same q apart;
      array_same = done.array_same;
      order_same = done.order_same;
      end_same = done.end_same;
      start_same = done.start_same;
      world_same = done.world_same;
    }

pub remove_hole-index :
    {World : Type 0} (i : ℕ) (s : State World)
    → i < s.heap.index.size
    → s.heap.index.size < 2 ^ 32
    → let s' = remove_hole i s in
      (s'.heap.index.array ≡ s.heap.index.array)
      × (s'.heap.index.less_than ≡ s.heap.index.less_than)
      × (s'.heap.end_address ≡ s.heap.end_address)
      × (s'.heap.index.size + 1 ≡ s.heap.index.size)
      × (contents s'.heap.index s'.mem ≡ remove_at i (contents s.heap.index s.mem))
unfolding remove_hole
remove_hole-index i s lt count =
    let gone = remove_ordered_array-contents i s.heap.index s.mem lt count in
    (unfold remove_ordered_array in refl, unfold remove_ordered_array in refl, refl, gone.0, gone.1)

place-settle :
    {World : Type 0} (i size p h : ℕ) (s : State World)
    → Usable i size p h s
    → let c = carve size (size + 20) h in
      place size (size + 20) false i s ≡ settle p c.0 c.1 h (remove_hole i s)
unfolding place detach lookup_ordered_array
place-settle i size p h s u =
    let found : ltb i s.heap.index.size ≡ true = lt→ltb _ _ u.position in
    rw (found, u.hole, u.hole_size)

-- `place` puts an unaligned block at the front of a usable hole.
pub place-Settled :
    {World : Type 0} (i size p h : ℕ) (s : State World)
    → Usable i size p h s
    → (size' n : ℕ) × (s' : State World) × (place size (size + 20) false i s ≡ ok (p + 12, s'))
      × Carved size' n h
      × (size ≤ size')
      × Settled p n h (remove_at i (contents s.heap.index s.mem)) s.heap.index.size s s'
place-Settled i size p h s u =
    let c = carve size (size + 20) h in
    let s₁ = remove_hole i s in
    let (fits, grows) = carve-Carved size h u.enough (omega (arith, u.no_wrap)) in
    let (array, order, end, count, held) = remove_hole-index i s u.position u.count in
    let (s', ran, done) =
      settle-Settled s₁ p c.1 h (order ∙ u.order) (omega (arith, fits.data_size)) u.no_wrap
        (omega (arith, u.below, array, count)) (omega (arith, u.count, count))
        (omega (arith, u.within, end)) c.0 fits in
    (
      c.0,
      c.1,
      s',
      place-settle i size p h s u ∙ ran,
      fits,
      grows,
      Settled-remove s s' i p c.1 h (remove_at i (contents s.heap.index s.mem)) u.position
          (rw (held, count) at done),
    )

alloc-place :
    {World : Type 0} (fuel : ℕ) (pager : Pager World) (i size : ℕ) (s : State World)
    → size + 20 < 2 ^ 32
    → find_smallest_hole (size + 20) false s.heap.index s.mem ≡ some i
    → alloc (suc fuel) pager size false s ≡ place size (size + 20) false i s
unfolding alloc
alloc-place fuel pager i size s small found =
    let wide : (size + 20) % 2 ^ 32 ≡ size + 20 = omega arith in
    rw (wide, found, alloc) (ap (λ t. place size t false i s) wide)

-- `alloc` of an unaligned block, when the search finds a usable hole, returns the address behind the
-- header at the front of that hole, without growing the heap. The hole at p is out of the index. In its
-- place is a block of n bytes, header and footer of which agree, with room for at least `size` bytes
-- between them; what remains of the hole, unless the block takes all of it, is a hole with its own
-- header and footer and is inserted into the index; and no byte outside the hole and the index is
-- changed, so every other block and hole keeps its header, data and footer.
pub alloc-Settled :
    {World : Type 0} (fuel : ℕ) (pager : Pager World) (i size p h : ℕ) (s : State World)
    → find_smallest_hole (size + 20) false s.heap.index s.mem ≡ some i
    → Usable i size p h s
    → (size' n : ℕ) × (s' : State World) × (alloc (suc fuel) pager size false s ≡ ok (p + 12, s'))
      × Carved size' n h
      × (size ≤ size')
      × Settled p n h (remove_at i (contents s.heap.index s.mem)) s.heap.index.size s s'
alloc-Settled fuel pager i size p h s found u =
    let (size', n, s', ran, fits, grows, done) = place-Settled i size p h s u in
    let wide : size + 20 < 2 ^ 32 = omega (arith, u.enough, u.no_wrap) in
    (size', n, s', alloc-place fuel pager i size s wide found ∙ ran, fits, grows, done)
