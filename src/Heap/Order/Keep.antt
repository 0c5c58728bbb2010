-- ===== src/Heap/Order/Keep.antt =====
-- Where the index stays in order.
use panda_os.Base.{
  ℕ, suc, ◌+◌, ◌*◌, ◌≤◌, ◌<◌, ◌≡◌, ◌≢◌, refl, sym, ◌∙◌, ◌⊎◌, false, some, List, [], ◌∷◌, All, inl,
  inr, ok, arith, ◌==◌, Bool-cases,
}
use panda_os.Base.Memory.{Memory, load8, load32_same}
use panda_os.OrderedArray.Entries.{contents}
use panda_os.OrderedArray.Remove.{remove_at}
use panda_os.OrderedArray.Sorted.{InOrder, remove_at-InOrder}
use panda_os.Heap.Layout.{header_t_less_than, Pager, State}
use panda_os.Heap.Alloc.{find_smallest_hole, alloc}
use panda_os.Heap.Alloc.Place.{Usable, alloc-Settled}
use panda_os.Heap.Free.{free}
use panda_os.Heap.Free.Right.{without}
use panda_os.Heap.Free.Joins.{Freeable}
use panda_os.Heap.Free.Merge.{free-Freed}
use panda_os.Heap.Order.{AreSame, InOrder-same, All-remove_at, insert_in_order-same}

-- The headers of the holes lie outside an area and behind the index.
abbrev pub AreClear : (first end index_end : ℕ) → List ℕ → Type 0
AreClear first end index_end holes =
    All (λ x. ((x + 12 ≤ first) ⊎ (end ≤ x)) × (index_end ≤ x)) holes

-- Their sizes are then the same where only that area and the index have changed.
AreClear-AreSame :
    (first end index_end : ℕ) (holes : List ℕ) (m m' : Memory)
    → ((q : ℕ) → (q < first) ⊎ (end ≤ q) → index_end ≤ q → load8 q m' ≡ load8 q m)
    → AreClear first end index_end holes
    → AreSame holes m m'
AreClear-AreSame first end index_end [] m m' same clear = tt
AreClear-AreSame first end index_end (x ∷ xs) m m' same (here, rest) = (
  load32_same (x + 8) m' m
      (λ k lt. same (x + 8 + k) (omega (arith, here.0)) (omega (arith, here.1))),
  AreClear-AreSame first end index_end xs m m' same rest,
)

-- Where the search of `alloc` finds a usable hole for an unaligned block, so that the heap does not grow, in
-- an index that is in order of size, and the other holes lie outside that hole and behind the index, `alloc`
-- returns and the index is in order of size after the call.
pub alloc-InOrder :
    {World : Type 0} (fuel : ℕ) (pager : Pager World) (i size p h : ℕ) (s : State World)
    → find_smallest_hole (size + 20) false s.heap.index s.mem ≡ some i
    → Usable i size p h s
    → InOrder (header_t_less_than s.mem) (contents s.heap.index s.mem)
    → AreClear p
        (p + h)
        (s.heap.index.array + 4 * s.heap.index.size)
        (remove_at i (contents s.heap.index s.mem))
    → (s' : State World) × (alloc (suc fuel) pager size false s ≡ ok (p + 12, s'))
      × InOrder (header_t_less_than s'.mem) (contents s'.heap.index s'.mem)
alloc-InOrder fuel pager i size p h s found u ord clear =
    let (size', n, s', ran, c, grows, done) = alloc-Settled fuel pager i size p h s found u in
    let others = remove_at i (contents s.heap.index s.mem) in
    let index_end = s.heap.index.array + 4 * s.heap.index.size in
    let left = remove_at-InOrder (header_t_less_than s.mem) i (contents s.heap.index s.mem) ord in
    (
      s',
      ran,
      elim c.rest [
        | inl whole ↦ rw (done.index_whole whole) (
            InOrder-same others s.mem s'.mem
              (AreClear-AreSame p (p + h) index_end others s.mem s'.mem
                (λ q out above. done.frame q out (omega arith)) clear)
              left)
        | inr more ↦
            let (m, frame, agree, held) = done.index_rest (omega arith) in
            rw held (
              insert_in_order-same (p + n) others s.mem m s'.mem
                (AreClear-AreSame p (p + h) index_end others s.mem m
                  (λ q out above. frame q out (omega arith)) clear)
                (
                  load32_same (p + n + 8) s'.mem m
                      (λ k lt. agree (p + n + 8 + k) (omega (arith, u.below))),
                  AreClear-AreSame p (p + h) index_end others m s'.mem
                      (λ q out above. agree q (omega arith)) clear,
                )
                left)
      ],
    )

-- Where `free` takes a block with no hole in front of it, which does not reach the end of the heap even with
-- the hole behind it, and the index is in order of size and all holes lie outside the block and behind the
-- index, `free` returns and the index is in order of size after the call.
pub free-InOrder :
    {World : Type 0} (pager : Pager World) (s : State World) (p n r j : ℕ)
    → Freeable p 0 n r j s
    → p + n + r ≢ s.heap.end_address
    → InOrder (header_t_less_than s.mem) (contents s.heap.index s.mem)
    → AreClear p
        (p + n)
        (s.heap.index.array + 4 * (s.heap.index.size + 1))
        (contents s.heap.index s.mem)
    → (s' : State World) × (free pager (p + 12) s ≡ ok s')
      × InOrder (header_t_less_than s'.mem) (contents s'.heap.index s'.mem)
free-InOrder pager s p n r j f not_last ord clear =
    let (s', ran, done) = free-Freed pager s p 0 n r j f not_last in
    let index_end = s.heap.index.array + 4 * (s.heap.index.size + 1) in
    let (m, agree, held) = done.index_new refl in
    let others = without r j (contents s.heap.index s.mem) in
    let (left, clear') : InOrder (header_t_less_than s.mem) others
        × AreClear p (p + n) index_end others =
      elim (Bool-cases (r == 0)) [
        | inl t ↦ rw t (ord, clear)
        | inr e ↦ rw e (
          remove_at-InOrder (header_t_less_than s.mem) j (contents s.heap.index s.mem) ord,
          All-remove_at _ j (contents s.heap.index s.mem) clear,
        )
      ] in
    let after = λ (q : ℕ) (above : index_end ≤ q). agree q (omega arith) in
    let same : (q : ℕ) → (q < p) ⊎ (p + n ≤ q) → index_end ≤ q → load8 q m ≡ load8 q s.mem =
      λ q out above.
        sym (after q above)
        ∙ done.frame q (omega (arith, out, f.room)) (omega (arith, out, f.room))
            (omega (arith, out, f.room)) (omega arith) in
    (
      s',
      ran,
      rw held (
          insert_in_order-same p others s.mem m s'.mem
            (AreClear-AreSame p (p + n) index_end others s.mem m same clear')
            (
              load32_same (p + 8) s'.mem m (λ k lt. after (p + 8 + k) (omega (arith, f.below))),
              AreClear-AreSame p (p + n) index_end others m s'.mem (λ q out above. after q above)
                  clear',
            )
            left),
    )
