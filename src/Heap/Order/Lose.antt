-- ===== src/Heap/Order/Lose.antt =====
-- Where the index is out of order after `free`.
use panda_os.Base.{
  ℕ, ◌+◌, ◌-◌, ◌*◌, ◌≤◌, ◌<◌, ◌≡◌, ◌≢◌, ◌∙◌, ◌⊎◌, Bool, false, List, [], ◌∷◌, ◌++◌, ltb, ok, arith,
}
use panda_os.Base.Memory.{load32_same}
use panda_os.OrderedArray.Entries.{contents}
use panda_os.OrderedArray.Sorted.{InOrder}
use panda_os.Heap.Layout.{size_of, header_t_less_than, Pager, State}
use panda_os.Heap.Free.{free}
use panda_os.Heap.Free.Right.{without}
use panda_os.Heap.Free.Joins.{Freeable}
use panda_os.Heap.Free.Merge.{free-Freed}

InOrder-append : (less : ℕ → ℕ → Bool) (xs ys : List ℕ) → InOrder less (xs ++ ys) → InOrder less ys
InOrder-append less [] ys ord = ord
InOrder-append less (x ∷ xs) ys ord = InOrder-append less xs ys ord.1

-- Where a block is freed behind a hole, does not reach the end of the heap even with the hole behind it, and
-- the hole that follows the one in front in the index, which lies apart from the block and the header of that
-- hole and behind the index, is smaller than the three together, `free` returns and the index is not in order
-- of size: the larger hole has not moved.
pub free-out_of_order :
    {World : Type 0} (pager : Pager World) (s : State World) (p l n r j y : ℕ) (front ys : List ℕ)
    → Freeable p l n r j s
    → p + n + r ≢ s.heap.end_address
    → l ≢ 0
    → without r j (contents s.heap.index s.mem) ≡ front ++ ((p - l) ∷ y ∷ ys)
    → (y + 12 ≤ p - l) ⊎ (p + n ≤ y)
    → s.heap.index.array + 4 * (s.heap.index.size + 1) ≤ y
    → size_of y s.mem < l + n + r
    → (s' : State World) × (free pager (p + 12) s ≡ ok s')
      × ¬ InOrder (header_t_less_than s'.mem) (contents s'.heap.index s'.mem)
free-out_of_order pager s p l n r j y front ys f not_last some_left split apart above small =
    let (s', ran, done) = free-Freed pager s p l n r j f not_last in
    let same = load32_same (y + 8) s'.mem s.mem (λ k lt.
      done.frame (y + 8 + k) (omega (arith, apart, f.room)) (omega (arith, apart, f.room))
        (omega (arith, apart, f.room)) (omega (arith, above))) in
    (
      s',
      ran,
      λ ord.
          let here = done.index_joined some_left ∙ split in
          let tail =
            InOrder-append (header_t_less_than s'.mem) front ((p - l) ∷ y ∷ ys) (rw here at ord) in
          let least : ltb (size_of y s'.mem) (size_of (p - l) s'.mem) ≡ false =
            unfold header_t_less_than in tail.0.0 in
          ground (arith, least, same, done.header.size_eq),
    )
