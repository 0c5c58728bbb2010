-- ===== src/Heap/Alloc/Settle.antt =====
-- The headers and footers that `settle` writes, and the hole it leaves in the index.
use panda_os.Base.{
  ℕ, zero, suc, ◌+◌, ◌-◌, ◌*◌, ◌%◌, ◌^◌, ◌≤◌, ◌<◌, ◌≡◌, refl, ap, ◌∙◌, true, false, some, List, ◌∷◌,
  ltb, ◌==◌, arith, inl, inr, ◌⊎◌, ok,
}
use mathlib.Core.Path.{ap₂}
use panda_os.Base.Memory.{Memory, load8, load32_same}
use panda_os.OrderedArray.{entry}
use panda_os.OrderedArray.Entries.{entries, contents}
use panda_os.OrderedArray.Frame.{Outside, insert_ordered_array-frame, insert_ordered_array-same}
use panda_os.OrderedArray.Insert.{insert_in_order, insert_ordered_array-contents}
use panda_os.Heap.Layout.{header_t_less_than, State}
use panda_os.Heap.Fields.{IsHeader, IsFooter, IsHeader-same, IsFooter-same}
use panda_os.Heap.Alloc.{settle, settle_at, insert_hole}
use panda_os.Heap.Alloc.Carve.{
  Carved, carved_mem, block_mem, block_mem-frame, block_mem-IsHeader, block_mem-IsFooter,
  carved_mem-frame, carved_mem-rest, carved_mem-block,
}

-- What a successful placement leaves: a block of n bytes at p, the rest of the h bytes of the hole,
-- and the index, which held `holes` before and of which `written` entries may be written.
pub record Settled {World : Type 0} (p n h : ℕ) (holes : List ℕ) (written : ℕ) (s s' : State World)
    : Type 0 where
  pub block : IsHeader p 0 n s'.mem × IsFooter (p + n - 8) p s'.mem
  pub rest : n < h → IsHeader (p + n) 1 (h - n) s'.mem × IsFooter (p + h - 8) (p + n) s'.mem
  pub index_whole : n ≡ h → contents s'.heap.index s'.mem ≡ holes
  pub index_rest :
      n < h
      → (m : Memory) × ((q : ℕ)
          → (q < p) ⊎ (p + h ≤ q)
          → Outside s.heap.index.array 0 written q
          → load8 q m ≡ load8 q s.mem)
        × ((q : ℕ) → Outside s.heap.index.array 0 written q → load8 q s'.mem ≡ load8 q m)
        × (contents s'.heap.index s'.mem ≡ insert_in_order (header_t_less_than m) (p + n) holes)
  pub frame :
      (q : ℕ)
      → (q < p) ⊎ (p + h ≤ q)
      → Outside s.heap.index.array 0 written q
      → load8 q s'.mem ≡ load8 q s.mem
  pub array_same : s'.heap.index.array ≡ s.heap.index.array
  pub order_same : s'.heap.index.less_than ≡ s.heap.index.less_than
  pub end_same : s'.heap.end_address ≡ s.heap.end_address
  pub start_same : s'.heap.start_address ≡ s.heap.start_address
  pub world_same : s'.world ≡ s.world

-- The entries of an index that lies below p are the same in a memory that agrees below p.
pub entries-same :
    (array i n : ℕ) (m m' : Memory) (p : ℕ)
    → array + 4 * (i + n) ≤ p
    → ((q : ℕ) → q < p → load8 q m' ≡ load8 q m)
    → entries array i n m' ≡ entries array i n m
unfolding entry
entries-same array i zero m m' p below same = refl
entries-same array i (suc n) m m' p below same =
    ap₂ ◌∷◌ (load32_same (array + 4 * i) m' m (λ k lt. same (array + 4 * i + k) (omega arith)))
      (entries-same array (i + 1) n m m' p (omega arith) same)

module _ {World : Type 0} (s : State World) (p n h : ℕ)
    (order : s.heap.index.less_than ≡ some header_t_less_than) (room : 20 ≤ n)
    (fit : p + h < 2 ^ 32) (below : s.heap.index.array + 4 * (s.heap.index.size + 1) ≤ p)
    (count : s.heap.index.size + 1 < 2 ^ 32) (ends : p + h ≤ s.heap.end_address) where
  settle_at_whole :
      n ≡ h
      → (s' : State World) × (settle_at p (p + n - 8) n (p + n) 0 (p + h - 8) s ≡ ok (p + 12, s'))
        × Settled p n h (contents s.heap.index s.mem) (s.heap.index.size + 1) s s'
  unfolding settle_at
  settle_at_whole e = (
    record s { mem = block_mem p n s.mem },
    ap (λ a. ok (a, record s { mem = block_mem p n s.mem })) (omega arith),
    record {
      block = (
        block_mem-IsHeader p n s.mem room (omega arith),
        block_mem-IsFooter p n s.mem room (omega arith),
      );
      rest = λ lt. absurd (omega arith);
      index_whole = λ _.
          entries-same s.heap.index.array 0 s.heap.index.size s.mem (block_mem p n s.mem) p
            (omega arith) (λ q lt. block_mem-frame p n s.mem room (omega arith) q (omega arith));
      index_rest = λ lt. absurd (omega arith);
      frame = λ q out apart. block_mem-frame p n s.mem room (omega arith) q (omega arith);
      array_same = refl;
      order_same = refl;
      end_same = refl;
      start_same = refl;
      world_same = refl;
    },
  )

  settle_at_rest :
      n + 20 ≤ h
      → (s' : State World) × (settle_at p (p + n - 8) n (p + n) (h - n) (p + h - 8) s
          ≡ ok (p + 12, s'))
        × Settled p n h (contents s.heap.index s.mem) (s.heap.index.size + 1) s s'
  unfolding settle_at insert_hole
  settle_at_rest more =
      let m = carved_mem p n h s.mem in
      let (a', m', ran, grown, held) =
        insert_ordered_array-contents header_t_less_than (p + n) s.heap.index m order (omega arith)
          count in
      let (array, kept) =
        insert_ordered_array-same header_t_less_than (p + n) s.heap.index a' m m' order ran in
      let after = λ (q : ℕ) (apart : Outside s.heap.index.array 0 (s.heap.index.size + 1) q).
        insert_ordered_array-frame header_t_less_than (p + n) q s.heap.index a' m m' order ran
          apart in
      let in_range : ltb (p + h - 8) s.heap.end_address ≡ true = ground arith in
      let left : (h - n == 0) ≡ false = ground arith in
      let sum : (p + 12) % 2 ^ 32 ≡ p + 12 = omega arith in
      let same =
        entries-same s.heap.index.array 0 s.heap.index.size s.mem m p (omega arith)
          (λ q lt. carved_mem-frame p n h s.mem room more fit q (omega arith)) in
      let (head, foot) = carved_mem-block p n h s.mem room more fit in
      let (rest_head, rest_foot) = carved_mem-rest p n h s.mem room more fit in
      (
        record s { heap = record s.heap { index = a' }; mem = m' },
        rw (left, in_range, ran, sum),
        record {
          block = (
            IsHeader-same m' head (λ q ge lt. after q (omega arith)),
            IsFooter-same m' foot (λ q ge lt. after q (omega arith)),
          );
          rest = λ _. (
            IsHeader-same m' rest_head (λ q ge lt. after q (omega arith)),
            IsFooter-same m' rest_foot (λ q ge lt. after q (omega arith)),
          );
          index_whole = λ e. absurd (omega arith);
          index_rest = λ _. (
            m,
            (λ q out apart. carved_mem-frame p n h s.mem room more fit q out),
            after,
            held ∙ ap (insert_in_order (header_t_less_than m) (p + n)) same,
          );
          frame = λ q out apart. after q apart ∙ carved_mem-frame p n h s.mem room more fit q out;
          array_same = array;
          order_same = kept;
          end_same = refl;
          start_same = refl;
          world_same = refl;
        },
      )

  pub settle-Settled :
      (size : ℕ)
      → Carved size n h
      → (s' : State World) × (settle p size n h s ≡ ok (p + 12, s'))
        × Settled p n h (contents s.heap.index s.mem) (s.heap.index.size + 1) s s'
  unfolding settle
  settle-Settled size c =
      let foot : ((p + 12) % 2 ^ 32 + size) % 2 ^ 32 ≡ p + n - 8 =
        omega (arith, c.data_size, c.inside) in
      let hole : (p + n - 8 + 8) % 2 ^ 32 ≡ p + n = omega (arith, c.inside) in
      let left : (h + 2 ^ 32 - n) % 2 ^ 32 ≡ h - n = omega (arith, c.inside) in
      let end : ((p + n + (h - n)) % 2 ^ 32 + 2 ^ 32 - 8) % 2 ^ 32 ≡ p + h - 8 =
        omega (arith, c.inside) in
      rw (foot, hole, left, end)
        (elim c.rest [
          | inl e ↦ let none_left : h - n ≡ 0 = omega arith in rw none_left (settle_at_whole e)
          | inr more ↦ settle_at_rest more
        ])
