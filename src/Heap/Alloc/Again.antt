-- ===== src/Heap/Alloc/Again.antt =====
-- `alloc` of an unaligned block that no hole has room for (memory/kheap.c).
use panda_os.Base.{
  not, sym, refl, ◌/◌, ℕ, suc, ◌+◌, ◌-◌, ◌*◌, ◌%◌, ◌^◌, ◌≤◌, ◌<◌, ◌≡◌, ◌≢◌, ap, ◌∙◌, false, ◌==◌,
  none, some, Bool-cases, inl, inr, ok, arith, ◌>>=◌,
}
use mathlib.Core.Path.{subst}
use panda_os.Base.Memory.{load8, Apart, load32_same, load32-store32_self}
use panda_os.OrderedArray.{entry}
use panda_os.OrderedArray.Frame.{Outside}
use panda_os.Heap.Layout.{size_of, set_size, header_t_less_than, Pager, State}
use panda_os.Heap.Fields.{IsHeader, IsFooter, set_size-frame, put_footer-frame}
use panda_os.Heap.Pages.Expand.{Supplies}
use panda_os.Heap.Alloc.{fits, find_smallest_hole, grow, alloc}
use panda_os.Heap.Pages.Order.{pages_up, Backed}
use panda_os.Heap.Alloc.Find.{Found, find_smallest_hole-Found}
use panda_os.Heap.Alloc.Grow.{
  find_only, last_hole-greatest, gained_for, gained-ge, Growable, expanded, lengthened,
  grow-lengthened, NewPages,
}
use panda_os.Heap.Alloc.Place.{Usable, alloc-Settled}

-- The hole of h bytes at q ends with the heap, and the headers of all other holes lie in front of it.
pub record IsLast {World : Type 0} (j q h : ℕ) (s : State World) : Type 0 where
  pub position : j < s.heap.index.size
  pub here : entry s.heap.index.array j s.mem ≡ q
  pub size : size_of q s.mem ≡ h
  pub ends : q + h ≡ s.heap.end_address
  pub large : 20 ≤ h
  pub some_address : 0 < q
  pub others :
      (k : ℕ)
      → k < s.heap.index.size
      → entry s.heap.index.array k s.mem ≢ q
      → entry s.heap.index.array k s.mem + 12 ≤ q
  pub order : s.heap.index.less_than ≡ some header_t_less_than
  pub below : s.heap.index.array + 4 * s.heap.index.size ≤ q
  pub count : s.heap.index.size < 2 ^ 32

module _ {World : Type 0} (pager : Pager World) (supplies : Supplies pager) (s : State World)
    (size n : ℕ) (g : Growable (size + 20) n s) (j q h : ℕ) (last : IsLast j q h s) where
  abbrev more : ℕ
  more = gained_for n (size + 20)

  abbrev grown : World → State World
  grown w = lengthened pager supplies s (size + 20) n g q h w

  -- What growing writes: the size in the header of the hole, and its new footer.
  grown-frame :
      (w : World) (x : ℕ)
      → Apart (q + 8) 4 x 1
      → Apart (q + (h + more) - 8) 8 x 1
      → load8 x (grown w).mem ≡ load8 x s.mem
  unfolding lengthened
  grown-frame w x a b =
      put_footer-frame (q + (h + more) - 8) (set_size q (h + more) s.mem) q x b
      ∙ set_size-frame q s.mem (h + more) x a

  grown-ran :
      (w : World) × (grow pager (size + 20) s ≡ ok (grown w))
      × NewPages pager supplies s (size + 20) n g w
  grown-ran =
      let (idx, ran, lt, here) =
        last_hole-greatest s.heap.index.size 0 0 q none s.heap.index s.mem
          (λ k ge le. elim (Bool-cases (entry s.heap.index.array k s.mem == q)) [
            | inl same ↦ ground arith
            | inr other ↦ omega (arith, last.others k (omega arith) (ground arith))
          ])
          (inr (last.some_address, (j, omega arith, omega (arith, last.position), last.here))) in
      grow-lengthened pager supplies s (size + 20) n g idx q h ran (omega (arith, lt)) here
        (last.size) (omega (arith, last.ends)) (last.large)

  grown-entry :
      (w : World) (k : ℕ)
      → k < s.heap.index.size
      → entry s.heap.index.array k (grown w).mem ≡ entry s.heap.index.array k s.mem
  unfolding entry
  grown-entry w k lt = load32_same (s.heap.index.array + 4 * k) (grown w).mem s.mem (λ b le.
      grown-frame w (s.heap.index.array + 4 * k + b) (omega (arith, last.below))
        (omega (arith, last.below, last.large)))

  grown_size : (w : World) → size_of q (grown w).mem ≡ h + more
  unfolding lengthened set_size
  grown_size w =
      load32_same (q + 8) (grown w).mem (set_size q (h + more) s.mem) (λ b le.
        put_footer-frame (q + (h + more) - 8) (set_size q (h + more) s.mem) q (q + 8 + b)
          (omega (arith, last.large)))
      ∙ load32-store32_self (q + 8) (h + more) s.mem
          (omega (arith, g.length, g.room, g.flat, gained-ge n (size + 20) (g.small), last.ends))

  -- The other holes are as small as before.
  grown_others :
      (w : World) (k : ℕ)
      → k < s.heap.index.size
      → entry s.heap.index.array k (grown w).mem ≢ q
      → size_of (entry s.heap.index.array k (grown w).mem) (grown w).mem < size + 20
  unfolding fits
  grown_others w k lt other =
      let same = grown-entry w k lt in
      let a = entry s.heap.index.array k s.mem in
      let apart = last.others k lt (λ e. other (same ∙ e)) in
      let kept : size_of a (grown w).mem ≡ size_of a s.mem =
        load32_same (a + 8) (grown w).mem s.mem
          (λ b le. grown-frame w (a + 8 + b) (omega arith) (omega (arith, last.large))) in
      let full : Found (size + 20) false s.heap.index s.mem 0 none =
        rw (g.full) at (find_smallest_hole-Found (size + 20) false s.heap.index s.mem) in
      ground (arith, full k (omega arith) lt, kept, ap (λ p. size_of p (grown w).mem) same)

  -- Then the hole is the one that the search finds.
  grown-Usable :
      (w : World)
      → (i : ℕ) × (find_smallest_hole (size + 20) false (grown w).heap.index (grown w).mem ≡ some i)
        × Usable i size q (h + more) (grown w)
  unfolding lengthened expanded
  grown-Usable w =
      let wide = gained-ge n (size + 20) (g.small) in
      let (i, found, lt, here) =
        find_only (size + 20) q s.heap.index (grown w).mem j (last.position)
          (grown-entry w j (last.position) ∙ last.here) (omega (arith, grown_size w, wide))
          (grown_others w) in
      (
        i,
        found,
        record {
          position = lt;
          hole = here;
          hole_size = grown_size w;
          enough = omega (arith, wide);
          no_wrap = omega (arith, g.length, g.room, g.flat, wide, last.ends);
          within = omega (arith, last.ends);
          order = last.order;
          below = last.below;
          count = last.count;
        },
      )

  alloc_none :
      (fuel : ℕ)
      → alloc (suc fuel) pager size false s
        ≡ (grow pager (size + 20) s >>= alloc fuel pager size false)
  unfolding alloc
  alloc_none fuel =
      let wide : (size + 20) % 2 ^ 32 ≡ size + 20 = omega (arith, g.small) in
      rw (wide, g.full, alloc) (ap (λ t. grow pager t s >>= alloc fuel pager size false) wide)

  -- Take an unaligned request that no hole has room for, where the last hole ends with the heap and the
  -- headers of all others lie in front of it, the heap may grow, and paging supplies frames, without calling
  -- the heap itself. Then `alloc` grows the heap once, for which it has the pages from the old end on backed,
  -- upwards, one for every 0x1000 bytes gained, with the flags of the heap, and no others; and it returns the block at the front of that hole, with its header and footer and room
  -- for the request between them; what is left of the hole and of what was gained is a hole behind
  -- the block, up to the new end of the heap; and no byte in front of the hole that is not in the index
  -- is changed.
  pub alloc-Grown :
      (fuel : ℕ)
      → (b : ℕ) × (s' : State World) × (alloc (suc (suc fuel)) pager size false s ≡ ok (q + 12, s'))
        × (size + 20 ≤ b)
        × (IsHeader q 0 b s'.mem × IsFooter (q + b - 8) q s'.mem)
        × (b < h + more
            → IsHeader (q + b) 1 (h + more - b) s'.mem
              × IsFooter (q + (h + more) - 8) (q + b) s'.mem)
        × (s'.heap.end_address ≡ q + (h + more))
        × Backed pager
            (not (s.heap.supervisor == 0))
            (s.heap.readonly == 0)
            (pages_up ((more + 0xfff) / 0x1000) s.heap.end_address)
            s
            s.world
            s'.world
        × ((x : ℕ)
            → x < q
            → Outside s.heap.index.array 0 s.heap.index.size x
            → load8 x s'.mem ≡ load8 x s.mem)
  alloc-Grown fuel =
      let (w, ran, backed) = grown-ran in
      let (i, found, usable) = grown-Usable w in
      let (size', b, s', ran', c, grows, done) =
        alloc-Settled fuel pager i size q (h + more) (grown w) found usable in
      (
        b,
        s',
        alloc_none (suc fuel) ∙ rw ran ran',
        omega (arith, c.data_size, grows),
        done.block,
        done.rest,
        done.end_same ∙ grown_end w,
        subst
            (Backed pager (not (s.heap.supervisor == 0)) (s.heap.readonly == 0)
              (pages_up ((more + 0xfff) / 0x1000) s.heap.end_address) s s.world)
            (sym (done.world_same ∙ grown_world w)) backed,
        λ x lt out.
            done.frame x (inl lt) (unfold lengthened expanded in out)
            ∙ grown-frame w x (omega arith) (omega (arith, last.large)),
      )
    where
      grown_end : (w : World) → (grown w).heap.end_address ≡ q + (h + more)
      grown_end w = unfold lengthened expanded in omega (arith, last.ends)

      grown_world : (w : World) → (grown w).world ≡ w
      grown_world w = unfold lengthened expanded in refl
