-- ===== src/Heap/Free/Return.antt =====
-- A block that is allocated and freed again.
use panda_os.Base.{
  ℕ, suc, ◌+◌, ◌-◌, ◌*◌, ◌^◌, ◌≤◌, ◌<◌, ◌≡◌, ◌≢◌, refl, ap, sym, ◌∙◌, ◌⊎◌, false, ◌==◌, inl, inr,
  arith, some, List, All, length, ok,
}
use panda_os.Base.Memory.{Memory, load8, load32_same}
use panda_os.OrderedArray.Entries.{contents, length-entries}
use panda_os.OrderedArray.Frame.{Outside}
use panda_os.OrderedArray.Insert.{insert_in_order}
use panda_os.OrderedArray.Remove.{remove_at}
use panda_os.Heap.Layout.{
  heap_magic, magic_of, is_hole_of, header_of, header_t_less_than, Pager, State,
}
use panda_os.Heap.Fields.{IsHeader}
use panda_os.Heap.Alloc.{find_smallest_hole, alloc}
use panda_os.Heap.Alloc.Carve.{Carved}
use panda_os.Heap.Alloc.Settle.{Settled}
use panda_os.Heap.Alloc.Place.{Usable, alloc-Settled}
use panda_os.Heap.Free.{free}
use panda_os.Heap.Free.Index.{
  position, position-insert_in_order, length-remove_at, length-insert_in_order, not_among,
}
use panda_os.Heap.Free.Left.{NoLeft}
use panda_os.Heap.Free.Right.{NoRight, HasRight, without}
use panda_os.Heap.Free.Joins.{Freeable}
use panda_os.Heap.Free.Merge.{Freed, free-Freed}

-- A hole from p to p + h with no hole on either side, inside the heap: what is in front of it and behind it
-- is not part of the index, and no other hole of the index begins in it.
pub record Lone {World : Type 0} (p h : ℕ) (others : List ℕ) (s : State World) : Type 0 where
  pub before :
      (magic_of (p - 8) s.mem ≢ heap_magic)
      ⊎ (let q = header_of (p - 8) s.mem in
          (is_hole_of q s.mem ≢ 1)
          × (q + 4 < p)
          × Outside s.heap.index.array 0 (s.heap.index.size + 1) (q + 4))
  pub behind : NoRight (p + h) s.mem
  pub others_apart : All (λ x. (x ≤ p) ⊎ (p + h ≤ x)) others
  pub not_last : p + h ≢ s.heap.end_address
  pub room : s.heap.index.array + 4 * (s.heap.index.size + 3) ≤ p
  pub count : s.heap.index.size + 1 < 2 ^ 32

-- The hole as it was before the block was taken from it, with its place in the index.
pub record Returned {World : Type 0} (p h : ℕ) (others : List ℕ) (s s' : State World) : Type 0 where
  pub header : IsHeader p 1 h s'.mem
  pub index :
      (m : Memory) × ((q : ℕ)
        → Outside s.heap.index.array 0 (s.heap.index.size + 1) q
        → load8 q s'.mem ≡ load8 q m)
      × (contents s'.heap.index s'.mem ≡ insert_in_order (header_t_less_than m) p others)
  pub frame :
      (q : ℕ)
      → (q < p) ⊎ (p + h ≤ q)
      → Outside s.heap.index.array 0 (s.heap.index.size + 1) q
      → load8 q s'.mem ≡ load8 q s.mem
  pub array_same : s'.heap.index.array ≡ s.heap.index.array
  pub order_same : s'.heap.index.less_than ≡ s.heap.index.less_than
  pub end_same : s'.heap.end_address ≡ s.heap.end_address
  pub start_same : s'.heap.start_address ≡ s.heap.start_address
  pub world_same : s'.world ≡ s.world

module _ {World : Type 0} (size p n h : ℕ) (others : List ℕ) (s s' : State World)
    (done : Settled p n h others s.heap.index.size s s') (c : Carved size n h)
    (lone : Lone p h others s) (few : length others < s.heap.index.size) (fit : p + h < 2 ^ 32)
    (order : s.heap.index.less_than ≡ some header_t_less_than) where
  size-le : s'.heap.index.size ≤ s.heap.index.size
  size-le =
      let size' = length-entries s'.heap.index.array 0 s'.heap.index.size s'.mem in
      elim c.rest [
        | inl whole ↦ omega (arith, size', ap length (done.index_whole whole), few)
        | inr more ↦
            let (m, _, _, held) = done.index_rest (omega arith) in
            omega (
              arith,
              size',
              ap length held ∙ length-insert_in_order (header_t_less_than m) (p + n) others,
              few,
            )
      ]

  -- Nothing is written in front of the hole or behind it.
  outside :
      (q : ℕ)
      → (q < p) ⊎ (p + h ≤ q)
      → s.heap.index.array + 4 * s.heap.index.size ≤ q
      → load8 q s'.mem ≡ load8 q s.mem
  outside q out above = done.frame q out (omega arith)

  NoLeft-after : NoLeft p s'.mem
  NoLeft-after =
      let magic =
        load32_same (p - 8) s'.mem s.mem
          (λ k lt. outside (p - 8 + k) (omega (arith, lone.room)) (omega (arith, lone.room))) in
      let header =
        load32_same (p - 8 + 4) s'.mem s.mem
          (λ k lt. outside (p - 8 + 4 + k) (omega (arith, lone.room)) (omega (arith, lone.room))) in
      elim lone.before [
        | inl other ↦ inl (λ e. other (sym magic ∙ e))
        | inr (busy, in_front, apart) ↦
            let same =
              done.frame (header_of (p - 8) s.mem + 4) (inl in_front) (omega (arith, apart)) in
            inr (
              (λ e. omega (arith, header, e, in_front)),
              λ e. busy (sym same ∙ ap (λ q. load8 (q + 4) s'.mem) (sym header) ∙ e),
            )
      ]

  NoRight-after : NoRight (p + h) s'.mem
  NoRight-after = elim lone.behind [
    | inl other ↦
        let magic =
          load32_same (p + h) s'.mem s.mem
            (λ k lt. outside (p + h + k) (inr (omega arith)) (omega (arith, lone.room))) in
        inl (λ e. other (sym magic ∙ e))
    | inr busy ↦ inr (outside (p + h + 4) (inr (omega arith)) (omega (arith, lone.room)) ∙ busy)
  ]

  freeable :
      (r j : ℕ)
      → n + r ≡ h
      → HasRight (p + n) r j (contents s'.heap.index s'.mem) s'.mem
      → Freeable p 0 n r j s'
  freeable r j sum right = record {
    block = done.block;
    room = omega (arith, c.data_size);
    left = inl (refl, NoLeft-after);
    right = right;
    behind = omega (arith, lone.room);
    no_wrap = omega (arith, fit, sum);
    order = done.order_same ∙ order;
    below = omega (arith, lone.room, done.array_same, size-le);
    count = omega (arith, lone.count, size-le);
  }

  Freed-Returned :
      (r j : ℕ) (s'' : State World)
      → n + r ≡ h
      → without r j (contents s'.heap.index s'.mem) ≡ others
      → Freed p 0 n r j s' s''
      → Returned p h others s s''
  Freed-Returned r j s'' sum back f =
      let start : p - 0 ≡ p = omega arith in
      let size' : 0 + n + r ≡ h = omega arith in
      let (m, agree, held) = f.index_new refl in
      record {
        header = rw (start, size') at f.header;
        index = (
          m,
          (λ q out. agree q (omega (arith, out, done.array_same, size-le))),
          held ∙ ap (insert_in_order (header_t_less_than m) p) back,
        );
        frame = λ q out apart.
            f.frame q (omega (arith, out, sum, c.data_size)) (omega (arith, out, sum, c.data_size))
              (omega (arith, out, sum, c.data_size))
              (omega (arith, apart, done.array_same, size-le))
            ∙ done.frame q out (omega (arith, apart));
        array_same = f.array_same ∙ done.array_same;
        order_same = f.order_same ∙ done.order_same;
        end_same = f.end_same ∙ done.end_same;
        start_same = f.start_same ∙ done.start_same;
        world_same = f.world_same ∙ done.world_same;
      }

  Settled-Returned :
      (pager : Pager World)
      → (s'' : State World) × (free pager (p + 12) s' ≡ ok s'') × Returned p h others s s''
  Settled-Returned pager = elim c.rest [
    | inl whole ↦
        let sum : n + 0 ≡ h = omega arith in
        let here : p + n ≡ p + h = omega arith in
        let (s'', ran, f) =
          free-Freed pager s' p 0 n 0 0 (freeable 0 0 sum (inl (refl, rw here NoRight-after)))
            (λ e. lone.not_last (omega (arith, sum, e, done.end_same))) in
        (s'', ran, Freed-Returned 0 0 s'' sum (done.index_whole whole) f)
    | inr more ↦
        let (m, _, _, held) = done.index_rest (omega arith) in
        let sum : n + (h - n) ≡ h = omega arith in
        let (k, at, back) = position-insert_in_order (header_t_less_than m) (p + n) others (
          not_among (p + n) p h others (omega (arith, c.data_size)) (omega arith)
            (lone.others_apart)) in
        let some_rest : (h - n == 0) ≡ false = ground arith in
        let (s'', ran, f) =
          free-Freed pager s' p 0 n (h - n) k
            (freeable (h - n) k sum
              (inr (omega arith, (done.rest (omega arith)).0, ap (position (p + n)) held ∙ at)))
            (λ e. lone.not_last (omega (arith, sum, e, done.end_same))) in
        (s'', ran, Freed-Returned (h - n) k s'' sum (rw some_rest (ap (remove_at k) held ∙ back)) f)
  ]

-- Take an unaligned request for which the search finds a usable hole that does not end with the heap, that
-- has no hole on either side, and in which no other hole of the index begins. Then
-- `alloc` returns a block in it, and `free` of that block returns: the hole is whole again, from p on with all
-- of its h bytes, it is in the index in the order of the sizes among the other holes, which are as
-- before, and outside that hole and the index no byte has changed.
pub alloc-free :
    {World : Type 0} (fuel : ℕ) (pager : Pager World) (i size p h : ℕ) (s : State World)
    → find_smallest_hole (size + 20) false s.heap.index s.mem ≡ some i
    → Usable i size p h s
    → Lone p h (remove_at i (contents s.heap.index s.mem)) s
    → (s' s'' : State World) × (alloc (suc fuel) pager size false s ≡ ok (p + 12, s'))
      × (free pager (p + 12) s' ≡ ok s'')
      × Returned p h (remove_at i (contents s.heap.index s.mem)) s s''
alloc-free fuel pager i size p h s found u lone =
    let (size', n, s', ran, c, grows, done) = alloc-Settled fuel pager i size p h s found u in
    let holes = contents s.heap.index s.mem in
    let all = length-entries s.heap.index.array 0 s.heap.index.size s.mem in
    let few : length (remove_at i holes) < s.heap.index.size =
      omega (arith, all, length-remove_at i holes (omega (arith, u.position, all))) in
    let (s'', freed, back) =
      Settled-Returned size' p n h (remove_at i holes) s s' done c lone few (u.no_wrap) (u.order)
        pager in
    (s', s'', ran, freed, back)
