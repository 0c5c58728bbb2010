-- ===== src/Heap/Free/Merge.antt =====
-- `free` of a block that does not reach the end of the heap: the hole that it leaves.
use panda_os.Base.{
  false, ℕ, ◌+◌, ◌-◌, ◌*◌, ◌%◌, ◌^◌, ◌≤◌, ◌<◌, ◌≡◌, ◌≢◌, refl, ap, ◌∙◌, ◌==◌, Bool-cases, inl, inr,
  arith, some, ok,
}
use panda_os.Base.Memory.{Memory, load8, Apart}
use panda_os.OrderedArray.Entries.{contents}
use panda_os.OrderedArray.Frame.{Outside, insert_ordered_array-frame, insert_ordered_array-same}
use panda_os.OrderedArray.Insert.{insert_in_order, insert_ordered_array-contents}
use panda_os.Heap.Layout.{header_t_less_than, Pager, State}
use panda_os.Heap.Fields.{IsHeader, IsHeader-same}
use panda_os.Heap.Alloc.{insert_hole}
use panda_os.Heap.Free.{Hole, give_back, free}
use panda_os.Heap.Free.Right.{without}
use panda_os.Heap.Free.Joins.{Freeable, Merged, merged_hole, merge}

-- One hole from p - l to p + n + r. A hole that was in front stays where it was in the index, else the
-- new one is put into the index, in the order of the sizes in a memory m; the hole behind is out of it.
pub record Freed {World : Type 0} (p l n r j : ℕ) (s s' : State World) : Type 0 where
  pub header : IsHeader (p - l) 1 (l + n + r) s'.mem
  pub index_joined :
      l ≢ 0 → contents s'.heap.index s'.mem ≡ without r j (contents s.heap.index s.mem)
  pub index_new :
      l ≡ 0
      → (m : Memory) × ((q : ℕ)
          → Outside s.heap.index.array 0 (s.heap.index.size + 1) q
          → load8 q s'.mem ≡ load8 q m)
        × (contents s'.heap.index s'.mem
            ≡ insert_in_order (header_t_less_than m) p (without r j (contents s.heap.index s.mem)))
  pub frame :
      (q : ℕ)
      → Apart (p - l) 12 q 1
      → Apart p 12 q 1
      → Apart (p + n - 8) 8 q 1
      → Outside s.heap.index.array 0 (s.heap.index.size + 1) q
      → load8 q s'.mem ≡ load8 q s.mem
  pub array_same : s'.heap.index.array ≡ s.heap.index.array
  pub order_same : s'.heap.index.less_than ≡ s.heap.index.less_than
  pub end_same : s'.heap.end_address ≡ s.heap.end_address
  pub start_same : s'.heap.start_address ≡ s.heap.start_address
  pub world_same : s'.world ≡ s.world

insert-Freed :
    {World : Type 0} (p l n r j : ℕ) (s s₂ : State World)
    → l ≡ 0
    → Merged p l n r j s s₂
    → s.heap.index.less_than ≡ some header_t_less_than
    → s.heap.index.array + 4 * (s.heap.index.size + 1) ≤ p - l
    → s.heap.index.size + 1 < 2 ^ 32
    → p < 2 ^ 32
    → (s' : State World) × (insert_hole (p - l) s₂ ≡ ok s') × Freed p l n r j s s'
unfolding insert_hole
insert-Freed p l n r j s s₂ no_left both order below room fits =
    let here : p - l ≡ p = omega (arith, no_left) in
    let (a', m', ran, _, held) =
      insert_ordered_array-contents header_t_less_than p s₂.heap.index s₂.mem
        (both.order_same ∙ order) fits (omega (arith, both.count, room)) in
    let (array, kept) =
      insert_ordered_array-same header_t_less_than p s₂.heap.index a' s₂.mem m'
        (both.order_same ∙ order) ran in
    let after : (q : ℕ)
        → Outside s.heap.index.array 0 (s.heap.index.size + 1) q
        → load8 q m' ≡ load8 q s₂.mem =
      λ q out.
        insert_ordered_array-frame header_t_less_than p q s₂.heap.index a' s₂.mem m'
          (both.order_same ∙ order) ran (omega (arith, out, both.array_same, both.count)) in
    (
      record s₂ { heap = record s₂.heap { index = a' }; mem = m' },
      ap (λ h. insert_hole h s₂) here ∙ rw ran refl,
      record {
        header = IsHeader-same m' (both.header) (λ q ge lt. after q (omega (arith, below)));
        index_joined = λ some_left. absurd (some_left no_left);
        index_new = λ _.
            (s₂.mem, after, held ∙ ap (insert_in_order (header_t_less_than s₂.mem) p) (both.held));
        frame = λ q a b c out. after q out ∙ both.frame q a b c out;
        array_same = array ∙ both.array_same;
        order_same = kept ∙ both.order_same;
        end_same = both.end_same;
        start_same = both.start_same;
        world_same = both.world_same;
      },
    )

-- The end of `free` for a hole that does not reach the end of the heap.
give_back_none :
    {World : Type 0} (pager : Pager World) (test_header : ℕ) (hole : Hole) (s : State World)
    → (hole.footer + 8) % 2 ^ 32 ≢ s.heap.end_address
    → give_back pager test_header hole s ≡ ok s
unfolding give_back
give_back_none pager test_header hole s inside =
    let no : ((hole.footer + 8) % 2 ^ 32 == s.heap.end_address) ≡ false = ground arith in rw no refl

module _ {World : Type 0} (pager : Pager World) (s : State World) (p l n r j : ℕ)
    (f : Freeable p l n r j s) (not_last : p + n + r ≢ s.heap.end_address) where
  -- Freeing a block returns, where the block together with the hole behind it, if there is one, does not
  -- reach the end of the heap. There is then one hole from
  -- p - l to p + n + r; a hole in front of the block keeps its place in the index, and without one the new
  -- hole is inserted into the index in the order of the sizes; a hole behind the block is out of the index;
  -- and no byte is written but those of the index, of the two headers, and of the footer of the block.
  pub free-Freed : (s' : State World) × (free pager (p + 12) s ≡ ok s') × Freed p l n r j s s'
  free-Freed =
      let (s₂, rest, both) = merge pager s p l n r j f in
      let inside : l ≤ p = ground (arith, f.left) in
      let ends : (p - l + (l + n) + r - 8 + 8) % 2 ^ 32 ≢ s₂.heap.end_address =
        λ e. not_last (omega (arith, inside, f.no_wrap, f.room) ∙ e ∙ both.end_same) in
      let ran = rest s₂ (
        give_back_none pager ((p + n - 8 + 8) % 2 ^ 32) (merged_hole pager s p l n r j f) s₂
          ends) in
      elim (Bool-cases (l == 0)) [
        | inr some_left ↦ (
          s₂,
          ran ∙ rw some_left refl,
          record {
            header = both.header;
            index_joined = λ _. both.held;
            index_new = λ e. absurd (ground arith);
            frame = both.frame;
            array_same = both.array_same;
            order_same = both.order_same;
            end_same = both.end_same;
            start_same = both.start_same;
            world_same = both.world_same;
          },
        )
        | inl no_left ↦
            let (s', ran', freed) =
              insert-Freed p l n r j s s₂ (ground arith) both (f.order) (f.below) (f.count)
                (omega (arith, f.no_wrap)) in
            (s', ran ∙ rw no_left ran', freed)
      ]
