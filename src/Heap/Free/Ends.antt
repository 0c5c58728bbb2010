-- ===== src/Heap/Free/Ends.antt =====
-- `free` of a block whose hole reaches the end of the heap.
mod Tests
use panda_os.Base.{
  ℕ, suc, ◌+◌, ◌-◌, ◌*◌, ◌/◌, ◌%◌, ◌^◌, ◌≤◌, ◌<◌, ◌≡◌, ◌≢◌, refl, ap, sym, ◌∙◌, ◌⊎◌, Bool, true,
  false, ◌==◌, Bool-cases, inl, inr, arith, if◌then◌else◌, some, List, ok,
}
use mathlib.Core.Path.{subst}
use panda_os.Base.Memory.{Memory, load8, Apart}
use panda_os.OrderedArray.Entries.{contents}
use panda_os.OrderedArray.Frame.{Outside, insert_ordered_array-frame}
use panda_os.OrderedArray.Insert.{insert_in_order, insert_ordered_array-contents}
use panda_os.Heap.Layout.{header_t_less_than, Pager, State, set_size, put_footer}
use panda_os.Heap.Fields.{
  IsHeader, IsFooter, IsHeader-same, IsFooter-same, set_size-frame, set_size-IsHeader,
  put_footer-frame, put_footer-IsFooter,
}
use panda_os.Heap.Pages.Order.{pages_down, TakenBack}
use panda_os.Heap.Pages.Contract.{Releases}
use panda_os.Heap.Alloc.{insert_hole}
use panda_os.Heap.Alloc.Settle.{entries-same}
use panda_os.Heap.Free.{Hole, give_back, free}
use panda_os.Heap.Free.Right.{without}
use panda_os.Heap.Free.Joins.{Freeable, Merged, merged_hole, merge}
use panda_os.Heap.Free.Back.{Cut, give_back-Cut}

-- An insertion of a hole into the index, which lies below some address.
insert_hole-contents :
    {World : Type 0} (hole : ℕ) (s : State World)
    → s.heap.index.less_than ≡ some header_t_less_than
    → hole < 2 ^ 32
    → s.heap.index.size + 1 < 2 ^ 32
    → (s' : State World) × (insert_hole hole s ≡ ok s')
      × (contents s'.heap.index s'.mem
          ≡ insert_in_order (header_t_less_than s.mem) hole (contents s.heap.index s.mem))
      × (s'.heap.end_address ≡ s.heap.end_address)
      × (s'.world ≡ s.world)
      × ((q : ℕ)
          → Outside s.heap.index.array 0 (s.heap.index.size + 1) q
          → load8 q s'.mem ≡ load8 q s.mem)
unfolding insert_hole
insert_hole-contents hole s order fits count =
    let (a', m', ran, _, held) =
      insert_ordered_array-contents header_t_less_than hole s.heap.index s.mem order fits count in
    (
      record s { heap = record s.heap { index = a' }; mem = m' },
      rw ran refl,
      held,
      refl,
      refl,
      λ q out.
          insert_ordered_array-frame header_t_less_than hole q s.heap.index a' s.mem m' order ran
            out,
    )

-- The pages taken back, where the heap and paging are as before a merge.
pages_same :
    {World : Type 0} (pager : Pager World) (s s₂ s₃ s' : State World)
    → s₂.heap.start_address ≡ s.heap.start_address
    → s₂.heap.end_address ≡ s.heap.end_address
    → s₂.world ≡ s.world
    → s'.world ≡ s₃.world
    → TakenBack pager
        (pages_down
          ((s₂.heap.end_address - (s₂.heap.start_address + 0x70000) - 1) / 0x1000)
          (s₂.heap.end_address - 0x1000))
        s₂.world
        s₃.world
    → TakenBack pager
        (pages_down
          ((s.heap.end_address - (s.heap.start_address + 0x70000) - 1) / 0x1000)
          (s.heap.end_address - 0x1000))
        s.world
        s'.world
pages_same pager s s₂ s₃ s' start end before after taken =
    rw (start, end, before) at (rw (sym after) at taken)

module _ {World : Type 0} (pager : Pager World) (releases : Releases pager) (s : State World)
    (p n r j : ℕ) (f : Freeable p 0 n r j s) (last : p + n + r ≡ s.heap.end_address)
    (after : s.heap.start_address ≤ p) where
  -- Where a block with no hole in front of it reaches the end of the heap, itself or with the hole behind
  -- it, and begins at least 20 bytes below the minimum length of the heap, which is at least that long, and
  -- paging takes pages back, `free` returns. The heap has its minimum length; the pages that paging is asked
  -- to take back are those behind the new end, from the last one downwards, without the one that begins at
  -- the new end, and no others. The hole goes from the block to the new end, with a header and a footer, and
  -- is in the index by the sizes in a memory that agrees with the new one outside the index; no byte in front
  -- of it and outside the index is changed.
  pub free-Contracted :
      p + 20 ≤ s.heap.start_address + 0x70000
      → s.heap.start_address + 0x70000 ≤ s.heap.end_address
      → let end = s.heap.start_address + 0x70000 in
        (s' : State World) × (m : Memory) × (free pager (p + 12) s ≡ ok s')
        × (s'.heap.end_address ≡ end)
        × TakenBack pager
            (pages_down ((s.heap.end_address - end - 1) / 0x1000) (s.heap.end_address - 0x1000))
            s.world
            s'.world
        × IsHeader p 1 (end - p) s'.mem
        × IsFooter (end - 8) p s'.mem
        × ((q : ℕ)
            → Outside s.heap.index.array 0 (s.heap.index.size + 1) q
            → load8 q s'.mem ≡ load8 q m)
        × (contents s'.heap.index s'.mem
            ≡ insert_in_order (header_t_less_than m) p (without r j (contents s.heap.index s.mem)))
        × ((q : ℕ)
            → q < p
            → Outside s.heap.index.array 0 (s.heap.index.size + 1) q
            → load8 q s'.mem ≡ load8 q s.mem)
  free-Contracted stays long =
      let (s₂, rest, both) = merge pager s p 0 n r j f in
      let start : p - 0 ≡ p = omega arith in
      let size₂ : 0 + n + r ≡ n + r = omega arith in
      let foot : p - 0 + (0 + n) + r - 8 + 8 ≡ s₂.heap.end_address =
        omega (arith, f.room, last, both.end_same) in
      let (s₃, ran, cut, taken) =
        give_back-Cut pager releases s₂ ((p + n - 8 + 8) % 2 ^ 32) p (n + r)
          (merged_hole pager s p 0 n r j f) start foot (rw (start, size₂) at both.header)
          (omega (arith, both.start_same, after)) (omega (arith, last, both.end_same))
          (omega (arith, both.end_same, last, f.no_wrap)) (omega (arith, both.start_same, stays))
          (omega (arith, both.start_same, both.end_same, long)) in
      let left : s₂.heap.start_address + 0x70000 - p ≡ s.heap.start_address + 0x70000 - p =
        omega (arith, both.start_same) in
      let order = ap (λ i. i.less_than) (cut.index_same) ∙ both.order_same ∙ f.order in
      let size₃ = ap (λ i. i.size) (cut.index_same) in
      let array₃ = ap (λ i. i.array) (cut.index_same) in
      let (s', inserted, held, end, world, outside) =
        insert_hole-contents p s₃ order (omega (arith, f.no_wrap))
          (omega (arith, size₃, both.count, f.count)) in
      let new_end : p + (s₂.heap.start_address + 0x70000 - p) - 8
          ≡ s.heap.start_address + 0x70000 - 8 =
        omega (arith, left, stays) in
      let same : contents s₃.heap.index s₃.mem ≡ without r j (contents s.heap.index s.mem) =
        ap (λ i. contents i s₃.mem) (cut.index_same)
        ∙ entries-same s₂.heap.index.array 0 s₂.heap.index.size s₂.mem s₃.mem p
            (omega (arith, both.array_same, both.count, f.below)) (cut.frame)
        ∙ both.held in
      let agree : (q : ℕ)
          → Outside s.heap.index.array 0 (s.heap.index.size + 1) q
          → load8 q s'.mem ≡ load8 q s₃.mem =
        λ q out. outside q (omega (arith, out, array₃, size₃, both.array_same, both.count)) in
      (
        s',
        s₃.mem,
        rest s₃ ran ∙ ap (λ h. insert_hole h s₃) start ∙ inserted,
        end ∙ cut.end_eq ∙ omega (arith, left, stays),
        pages_same pager s s₂ s₃ s' both.start_same both.end_same both.world_same world taken,
        IsHeader-same s'.mem (rw left at cut.header) (λ q ge lt. agree q (omega (arith, f.below))),
        IsFooter-same s'.mem (subst (λ x. IsFooter x p s₃.mem) new_end (cut.footer))
            (λ q ge lt. agree q (omega (arith, f.below, stays))),
        agree,
        held ∙ ap (insert_in_order (header_t_less_than s₃.mem) p) same,
        λ q lt out.
            agree q out
            ∙ cut.frame q lt
            ∙ both.frame q (omega (arith, lt, start)) (omega arith) (omega (arith, f.room)) out,
      )
