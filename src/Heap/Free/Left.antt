-- ===== src/Heap/Free/Left.antt =====
-- Joining a block that is freed with the hole that ends where it begins.
use panda_os.Base.{
  ℕ, ◌+◌, ◌-◌, ◌%◌, ◌^◌, ◌≤◌, ◌<◌, ◌≡◌, ◌≢◌, refl, ◌∙◌, ◌⊎◌, true, false, ◌&&◌, ◌==◌, inl, inr,
  arith,
}
use panda_os.Base.Memory.{
  Memory, load8, store32, Apart, load8-store32-Apart, load32-store32_self, load32-store32-Apart,
  load32_same,
}
use panda_os.Heap.Layout.{
  heap_magic, magic_of, is_hole_of, size_of, header_of, set_size, set_hole, State,
}
use panda_os.Heap.Fields.{
  IsHeader, IsFooter, IsHeader-same, IsFooter-same, set_size-frame, set_size-IsHeader,
  set_hole-frame, set_hole-IsHeader,
}
use panda_os.Heap.Free.{join_left}

-- What lies in front of p: no hole, or a hole of l bytes.
abbrev pub NoLeft : (p : ℕ) → Memory → Type 0
NoLeft p m =
    (magic_of (p - 8) m ≢ heap_magic)
    ⊎ ((header_of (p - 8) m ≢ p) × (is_hole_of (header_of (p - 8) m) m ≢ 1))

abbrev pub HasLeft : (p l : ℕ) → Memory → Type 0
HasLeft p l m =
    ((l ≡ 0) × NoLeft p m)
    ⊎ ((20 ≤ l) × (l ≤ p) × IsHeader (p - l) 1 l m × IsFooter (p - 8) (p - l) m)

-- The hole after the first join: l bytes more, from p - l on.
pub record JoinedLeft {World : Type 0} (p l n : ℕ) (s s' : State World) : Type 0 where
  pub header : IsHeader (p - l) 1 (l + n) s'.mem
  pub footer : IsFooter (p + n - 8) (p - l) s'.mem
  pub frame :
      (q : ℕ)
      → Apart (p - l) 12 q 1
      → Apart p 12 q 1
      → Apart (p + n - 8) 8 q 1
      → load8 q s'.mem ≡ load8 q s.mem
  pub heap_same : s'.heap ≡ s.heap
  pub world_same : s'.world ≡ s.world

module _ {World : Type 0} (s : State World) (p n : ℕ) (behind : 8 ≤ p) (room : 20 ≤ n)
    (fit : p + n < 2 ^ 32) (head : IsHeader p 0 n s.mem) (foot : IsFooter (p + n - 8) p s.mem) where
  join_left_none :
      NoLeft p s.mem
      → join_left p (p + n - 8) s ≡ (
        record { header = p; footer = p + n - 8; do_add = true },
        record s { mem = set_hole p s.mem },
      )
  unfolding join_left
  join_left_none none_left =
      let before : (p + 2 ^ 32 - 8) % 2 ^ 32 ≡ p - 8 = omega arith in
      let m = set_hole p s.mem in
      let same = λ (a : ℕ) (out : Apart (p + 4) 1 a 4).
        load32_same a m s.mem (λ k lt. set_hole-frame p s.mem (a + k) (omega (arith, out))) in
      let magic = same (p - 8) (omega arith) in
      let header = same (p - 8 + 4) (omega arith) in
      let left = header_of (p - 8) s.mem in
      elim none_left [
        | inl other ↦
            let no : (magic_of (p - 8) s.mem == heap_magic) ≡ false = ground arith in
            rw (before, magic, no) refl
        | inr (apart, busy) ↦
            let hole : is_hole_of left m ≡ is_hole_of left s.mem =
              set_hole-frame p s.mem (left + 4) (grind arith) in
            let no : ((magic_of (p - 8) s.mem == heap_magic) && (is_hole_of left s.mem == 1))
                ≡ false =
              ground arith in
            rw (before, magic, header, hole, no) refl
      ]

  -- The memory once the hole of l bytes in front has taken in the block.
  merged : (l : ℕ) → Memory
  merged l = set_size (p - l) (l + n) (store32 (p + n - 8 + 4) (p - l) (set_hole p s.mem))

  join_left_hole :
      (l : ℕ)
      → 20 ≤ l
      → l ≤ p
      → IsHeader (p - l) 1 l s.mem
      → IsFooter (p - 8) (p - l) s.mem
      → join_left p (p + n - 8) s ≡ (
        record { header = p - l; footer = p + n - 8; do_add = false },
        record s { mem = merged l },
      )
  unfolding join_left merged
  join_left_hole l large inside left_head left_foot =
      let before : (p + 2 ^ 32 - 8) % 2 ^ 32 ≡ p - 8 = omega arith in
      let m = set_hole p s.mem in
      let same = λ (a : ℕ) (out : Apart (p + 4) 1 a 4).
        load32_same a m s.mem (λ k lt. set_hole-frame p s.mem (a + k) (omega (arith, out))) in
      let magic = same (p - 8) (omega arith) ∙ left_foot.magic_eq in
      let header = same (p - 8 + 4) (omega arith) ∙ left_foot.header_eq in
      let hole = set_hole-frame p s.mem (p - l + 4) (omega arith) ∙ left_head.hole_eq in
      let left_size =
        load32-store32-Apart (p + n - 8 + 4) (p - l + 8) (p - l) m (omega arith)
        ∙ same (p - l + 8) (omega arith)
        ∙ left_head.size_eq in
      let size : size_of p m ≡ n = (set_hole-IsHeader p s.mem 0 n head).size_eq in
      let sum : (l + n) % 2 ^ 32 ≡ l + n = omega arith in
      rw (before, magic, header, hole, left_size, size, sum) refl

  merged-outside :
      (l q : ℕ)
      → l ≤ p
      → Apart (p - l) 12 q 1
      → Apart p 12 q 1
      → Apart (p + n - 8) 8 q 1
      → load8 q (merged l) ≡ load8 q s.mem
  unfolding merged
  merged-outside l q inside a b c =
      let m = set_hole p s.mem in
      set_size-frame (p - l) (store32 (p + n - 8 + 4) (p - l) m) (l + n) q (omega (arith, a))
      ∙ load8-store32-Apart (p + n - 8 + 4) q (p - l) m (omega (arith, c))
      ∙ set_hole-frame p s.mem q (omega (arith, b))

  merged-JoinedLeft :
      (l : ℕ)
      → 20 ≤ l
      → l ≤ p
      → IsHeader (p - l) 1 l s.mem
      → JoinedLeft p l n s (record s { mem = merged l })
  unfolding merged
  merged-JoinedLeft l large inside left_head =
      let m = set_hole p s.mem in
      let m₁ = store32 (p + n - 8 + 4) (p - l) m in
      record {
        header = set_size-IsHeader (p - l) m₁ 1 l (l + n) (omega arith) (
            IsHeader-same m₁ left_head (λ q ge lt.
              load8-store32-Apart (p + n - 8 + 4) q (p - l) m (omega arith)
              ∙ set_hole-frame p s.mem q (omega arith)));
        footer = record {
          magic_eq =
              load32_same (p + n - 8) (set_size (p - l) (l + n) m₁) s.mem (λ k lt.
                set_size-frame (p - l) m₁ (l + n) (p + n - 8 + k) (omega arith)
                ∙ load8-store32-Apart (p + n - 8 + 4) (p + n - 8 + k) (p - l) m (omega arith)
                ∙ set_hole-frame p s.mem (p + n - 8 + k) (omega arith))
              ∙ foot.magic_eq;
          header_eq =
              load32_same (p + n - 8 + 4) (set_size (p - l) (l + n) m₁) m₁
                (λ k lt. set_size-frame (p - l) m₁ (l + n) (p + n - 8 + 4 + k) (omega arith))
              ∙ load32-store32_self (p + n - 8 + 4) (p - l) m (omega arith);
        };
        frame = λ q a b c. merged-outside l q inside a b c;
        heap_same = refl;
        world_same = refl;
      }

  marked-JoinedLeft : JoinedLeft p 0 n s (record s { mem = set_hole p s.mem })
  marked-JoinedLeft = record {
    header =
        let start : p - 0 ≡ p = omega arith in
        let size : 0 + n ≡ n = omega arith in rw (start, size) (set_hole-IsHeader p s.mem 0 n head);
    footer =
        let start : p - 0 ≡ p = omega arith in
        rw start (
          IsFooter-same (set_hole p s.mem) foot
            (λ q ge lt. set_hole-frame p s.mem q (omega arith)));
    frame = λ q a b c. set_hole-frame p s.mem q (omega (arith, b));
    heap_same = refl;
    world_same = refl;
  }

  -- The first join, for either neighbour: only a block without a hole in front of it is to be put into
  -- the index.
  pub join_left-JoinedLeft :
      (l : ℕ)
      → HasLeft p l s.mem
      → (s' : State World) × (join_left p (p + n - 8) s
          ≡ (record { header = p - l; footer = p + n - 8; do_add = l == 0 }, s'))
        × JoinedLeft p l n s s'
  join_left-JoinedLeft l (inl (zero_left, none_left)) =
      let start : p - 0 ≡ p = omega arith in
      rw zero_left (
        record s { mem = set_hole p s.mem },
        rw start (join_left_none none_left),
        marked-JoinedLeft,
      )
  join_left-JoinedLeft l (inr (large, inside, left_head, left_foot)) =
      let some_left : (l == 0) ≡ false = ground arith in
      rw some_left (
        record s { mem = merged l },
        join_left_hole l large inside left_head left_foot,
        merged-JoinedLeft l large inside left_head,
      )
