-- ===== src/Heap/Free/Joins.antt =====
-- Both joins of `free`, and what follows them.
use panda_os.Base.{
  ℕ, ◌+◌, ◌-◌, ◌*◌, ◌%◌, ◌^◌, ◌≤◌, ◌<◌, ◌≡◌, refl, ap, sym, ◌∙◌, false, ◌==◌, inl, inr, arith,
  if◌then◌else◌, some, List, ok,
}
use panda_os.Base.Memory.{Memory, load8, Apart, load32_same}
use panda_os.OrderedArray.Entries.{contents}
use panda_os.OrderedArray.Frame.{Outside}
use panda_os.Heap.Layout.{header_t_less_than, Pager, State}
use panda_os.Heap.Fields.{IsHeader, IsFooter, IsHeader-same}
use panda_os.Heap.Alloc.{insert_hole}
use panda_os.Heap.Alloc.Settle.{entries-same}
use panda_os.Heap.Free.{Hole, join_left, join_right, give_back, free}
use panda_os.Heap.Free.Left.{HasLeft, JoinedLeft, join_left-JoinedLeft}
use panda_os.Heap.Free.Right.{HasRight, without, JoinedRight, join_right-JoinedRight}

-- A block of n bytes at p behind a hole of l bytes, or none if l is 0, and in front of a hole of r bytes,
-- which is element j of the index, or none if r is 0. The index lies below all of them.
pub record Freeable {World : Type 0} (p l n r j : ℕ) (s : State World) : Type 0 where
  pub block : IsHeader p 0 n s.mem × IsFooter (p + n - 8) p s.mem
  pub room : 20 ≤ n
  pub left : HasLeft p l s.mem
  pub right : HasRight (p + n) r j (contents s.heap.index s.mem) s.mem
  pub behind : 8 ≤ p
  pub no_wrap : p + n + r < 2 ^ 32
  pub order : s.heap.index.less_than ≡ some header_t_less_than
  pub below : s.heap.index.array + 4 * (s.heap.index.size + 1) ≤ p - l
  pub count : s.heap.index.size + 1 < 2 ^ 32

HasRight-same :
    (b r j : ℕ) (holes holes' : List ℕ) (m m' : Memory)
    → ((q : ℕ) → b ≤ q → q < b + 12 → load8 q m' ≡ load8 q m)
    → holes' ≡ holes
    → HasRight b r j holes m
    → HasRight b r j holes' m'
HasRight-same b r j holes holes' m m' same index (inl (zero_right, inl other)) =
    let magic = load32_same b m' m (λ k lt. same (b + k) (omega arith) (omega arith)) in
    inl (zero_right, inl (λ e. other (sym magic ∙ e)))
HasRight-same b r j holes holes' m m' same index (inl (zero_right, inr busy)) =
    inl (zero_right, inr (same (b + 4) (omega arith) (omega arith) ∙ busy))
HasRight-same b r j holes holes' m m' same index (inr (large, right, found)) =
    inr (large, IsHeader-same m' right same, rw index found)

-- What both joins together leave, before the insertion.
pub record Merged {World : Type 0} (p l n r j : ℕ) (s s' : State World) : Type 0 where
  pub header : IsHeader (p - l) 1 (l + n + r) s'.mem
  pub held : contents s'.heap.index s'.mem ≡ without r j (contents s.heap.index s.mem)
  pub array_same : s'.heap.index.array ≡ s.heap.index.array
  pub order_same : s'.heap.index.less_than ≡ s.heap.index.less_than
  pub count : s'.heap.index.size ≤ s.heap.index.size
  pub end_same : s'.heap.end_address ≡ s.heap.end_address
  pub start_same : s'.heap.start_address ≡ s.heap.start_address
  pub world_same : s'.world ≡ s.world
  pub frame :
      (q : ℕ)
      → Apart (p - l) 12 q 1
      → Apart p 12 q 1
      → Apart (p + n - 8) 8 q 1
      → Outside s.heap.index.array 0 (s.heap.index.size + 1) q
      → load8 q s'.mem ≡ load8 q s.mem

joins-Merged :
    {World : Type 0} (p l n r j : ℕ) (s s₁ s₂ : State World)
    → JoinedLeft p l n s s₁
    → JoinedRight (p - l) (l + n) r j s₁ s₂
    → contents s₁.heap.index s₁.mem ≡ contents s.heap.index s.mem
    → Merged p l n r j s s₂
joins-Merged p l n r j s s₁ s₂ left right index =
    let heap = left.heap_same in
    record {
      header = right.header;
      held = right.held ∙ ap (without r j) index;
      array_same = right.array_same ∙ ap (λ h. h.index.array) heap;
      order_same = right.order_same ∙ ap (λ h. h.index.less_than) heap;
      count = omega (arith, right.count, ap (λ h. h.index.size) heap);
      end_same = right.end_same ∙ ap (λ h. h.end_address) heap;
      start_same = right.start_same ∙ ap (λ h. h.start_address) heap;
      world_same = right.world_same ∙ left.world_same;
      frame = λ q a b c out.
          right.frame q (omega (arith, a)) (rw heap (omega (arith, out))) ∙ left.frame q a b c;
    }

module _ {World : Type 0} (pager : Pager World) (s : State World) (p l n r j : ℕ)
    (f : Freeable p l n r j s) where
  -- `free` by the results of its stages.
  free_stages :
      (hole hole' : Hole) (s₁ s₂ s₃ : State World)
      → join_left p (p + n - 8) s ≡ (hole, s₁)
      → join_right hole s₁ ≡ ok (hole', s₂)
      → give_back pager ((hole.footer + 8) % 2 ^ 32) hole' s₂ ≡ ok s₃
      → free pager (p + 12) s ≡ (if hole'.do_add then insert_hole hole'.header s₃ else ok s₃)
  unfolding free
  free_stages hole hole' s₁ s₂ s₃ ran₁ ran₂ ran₃ =
      let (head, foot) = f.block in
      let some_block : (p + 12 == 0) ≡ false = ground arith in
      let front : (p + 12 + 2 ^ 32 - 12) % 2 ^ 32 ≡ p = omega (arith, f.no_wrap) in
      let back : ((p + n) % 2 ^ 32 + 2 ^ 32 - 8) % 2 ^ 32 ≡ p + n - 8 =
        omega (arith, f.no_wrap, f.room) in
      rw (some_block, front, head.size_eq, back, head.magic_eq, foot.magic_eq, ran₁, ran₂)
        (rw ran₃ refl)

  -- The hole after both joins.
  abbrev pub merged_hole : Hole
  merged_hole = record { header = p - l; footer = p - l + (l + n) + r - 8; do_add = l == 0 }

  -- `free` as its end, from the state after both joins.
  pub merge :
      (s₂ : State World) × ((s₃ : State World)
        → give_back pager ((p + n - 8 + 8) % 2 ^ 32) merged_hole s₂ ≡ ok s₃
        → free pager (p + 12) s ≡ (if l == 0 then insert_hole (p - l) s₃ else ok s₃))
      × Merged p l n r j s s₂
  unfolding free
  merge =
      let (head, foot) = f.block in
      let (s₁, ran₁, left) =
        join_left-JoinedLeft s p n f.behind f.room (omega (arith, f.no_wrap)) head foot l f.left in
      let inside : l ≤ p = ground (arith, f.left) in
      let whole : p - l + (l + n) ≡ p + n = omega (arith, inside) in
      let index =
        entries-same s.heap.index.array 0 s.heap.index.size s.mem s₁.mem (p - l)
          (omega (arith, f.below))
          (λ q lt. left.frame q (omega arith) (omega arith) (omega (arith, f.room))) in
      let held : contents s₁.heap.index s₁.mem ≡ contents s.heap.index s.mem =
        ap (λ h. contents h.index s₁.mem) (left.heap_same) ∙ index in
      let next =
        HasRight-same (p + n) r j (contents s.heap.index s.mem) (contents s₁.heap.index s₁.mem)
          s.mem s₁.mem
          (λ q ge lt. left.frame q (omega arith) (omega (arith, f.room)) (omega (arith, f.room)))
          held (f.right) in
      let (s₂, ran₂, right) =
        join_right-JoinedRight s₁ (p - l) (l + n) (l == 0) (omega (arith, f.room)) (left.header) r j
          (omega (arith, f.no_wrap, whole)) (rw (left.heap_same) (omega (arith, f.below)))
          (rw (left.heap_same) (omega (arith, f.count))) (rw whole next) in
      let start : p + n - 8 ≡ p - l + (l + n) - 8 = omega (arith, whole) in
      (
        s₂,
        (λ s₃ ran₃.
            free_stages (record { header = p - l; footer = p + n - 8; do_add = l == 0 }) merged_hole
              s₁ s₂ s₃ ran₁
              (ap (λ t. join_right (record { header = p - l; footer = t; do_add = l == 0 }) s₁)
                  start
                ∙ ran₂)
              ran₃),
        joins-Merged p l n r j s s₁ s₂ left right held,
      )
