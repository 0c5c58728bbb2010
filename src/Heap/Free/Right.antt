-- ===== src/Heap/Free/Right.antt =====
-- Joining the hole so far with the hole that begins where it ends.
use panda_os.Base.{
  ℕ, ◌+◌, ◌-◌, ◌*◌, ◌%◌, ◌^◌, ◌≤◌, ◌<◌, ◌≡◌, ◌≢◌, refl, ap, ◌∙◌, ◌⊎◌, Bool, false, ◌&&◌, not, ◌==◌,
  inl, inr, arith, if◌then◌else◌, some, List, ok,
}
use panda_os.Base.Memory.{Memory, load8, Apart}
use panda_os.OrderedArray.Entries.{contents, length-entries}
use panda_os.OrderedArray.Frame.{Outside, remove_ordered_array-frame}
use panda_os.OrderedArray.Remove.{remove_at}
use panda_os.Heap.Layout.{heap_magic, magic_of, is_hole_of, set_size, State}
use panda_os.Heap.Fields.{IsHeader, IsHeader-same, set_size-frame, set_size-IsHeader}
use panda_os.Heap.Alloc.{remove_hole}
use panda_os.Heap.Alloc.Settle.{entries-same}
use panda_os.Heap.Alloc.Place.{remove_hole-index}
use panda_os.Heap.Free.{Hole, index_of, join_right}
use panda_os.Heap.Free.Index.{position, position-lt, index_of-position}

-- What lies at b: no hole, or a hole of r bytes that is element j of the index.
abbrev pub NoRight : (b : ℕ) → Memory → Type 0
NoRight b m = (magic_of b m ≢ heap_magic) ⊎ (is_hole_of b m ≡ 0)

abbrev pub HasRight : (b r j : ℕ) (holes : List ℕ) → Memory → Type 0
HasRight b r j holes m =
    ((r ≡ 0) × NoRight b m) ⊎ ((20 ≤ r) × IsHeader b 1 r m × (position b holes ≡ some j))

-- The other holes.
abbrev pub without : (r j : ℕ) → List ℕ → List ℕ
without r j holes = if r == 0 then holes else remove_at j holes

-- The hole at a after the second join.
pub record JoinedRight {World : Type 0} (a k r j : ℕ) (s s' : State World) : Type 0 where
  pub header : IsHeader a 1 (k + r) s'.mem
  pub held : contents s'.heap.index s'.mem ≡ without r j (contents s.heap.index s.mem)
  pub array_same : s'.heap.index.array ≡ s.heap.index.array
  pub order_same : s'.heap.index.less_than ≡ s.heap.index.less_than
  pub count : s'.heap.index.size ≤ s.heap.index.size
  pub end_same : s'.heap.end_address ≡ s.heap.end_address
  pub start_same : s'.heap.start_address ≡ s.heap.start_address
  pub world_same : s'.world ≡ s.world
  pub frame :
      (q : ℕ)
      → Apart (a + 8) 4 q 1
      → Outside s.heap.index.array 0 s.heap.index.size q
      → load8 q s'.mem ≡ load8 q s.mem

module _ {World : Type 0} (s : State World) (a k : ℕ) (do_add : Bool) (room : 20 ≤ k)
    (head : IsHeader a 1 k s.mem) where
  abbrev hole : Hole
  hole = record { header = a; footer = a + k - 8; do_add = do_add }

  join_right_none : a + k < 2 ^ 32 → NoRight (a + k) s.mem → join_right hole s ≡ ok (hole, s)
  unfolding join_right
  join_right_none fit none_right =
      let behind : (a + k - 8 + 8) % 2 ^ 32 ≡ a + k = omega arith in
      let no : ((magic_of (a + k) s.mem == heap_magic) && not (is_hole_of (a + k) s.mem == 0))
          ≡ false =
        ground (arith, none_right) in
      rw (behind, no) refl

  -- The state with the size of the hole, still with the old index.
  joined : (r : ℕ) → State World
  joined r = record s { mem = set_size a (k + r) s.mem }

  join_right_hole :
      (r j : ℕ)
      → a + k + r < 2 ^ 32
      → 20 ≤ r
      → IsHeader (a + k) 1 r s.mem
      → s.heap.index.array + 4 * s.heap.index.size ≤ a
      → position (a + k) (contents s.heap.index s.mem) ≡ some j
      → join_right hole s ≡ ok (record hole { footer = a + k + r - 8 }, remove_hole j (joined r))
  unfolding join_right joined
  join_right_hole r j fit large right below found =
      let m' = set_size a (k + r) s.mem in
      let behind : (a + k - 8 + 8) % 2 ^ 32 ≡ a + k = omega arith in
      let sum : (k + r) % 2 ^ 32 ≡ k + r = omega arith in
      let right' =
        IsHeader-same m' right (λ q ge lt. set_size-frame a s.mem (k + r) q (omega arith)) in
      let end : ((a + k + r) % 2 ^ 32 + 2 ^ 32 - 8) % 2 ^ 32 ≡ a + k + r - 8 = omega arith in
      let same =
        entries-same s.heap.index.array 0 s.heap.index.size s.mem m' a (omega arith)
          (λ q lt. set_size-frame a s.mem (k + r) q (omega arith)) in
      let at : index_of (a + k) s.heap.index m' ≡ some j =
        index_of-position (a + k) s.heap.index m' ∙ ap (position (a + k)) same ∙ found in
      rw (behind, right.magic_eq, right.hole_eq, right.size_eq, head.size_eq, sum, at)
        (rw (behind, right.size_eq, head.size_eq, sum, right'.size_eq, end) refl)

  join_right_hole-JoinedRight :
      (r j : ℕ)
      → a + k + r < 2 ^ 32
      → 20 ≤ r
      → s.heap.index.array + 4 * s.heap.index.size ≤ a
      → s.heap.index.size < 2 ^ 32
      → position (a + k) (contents s.heap.index s.mem) ≡ some j
      → JoinedRight a k r j s (remove_hole j (joined r))
  unfolding joined remove_hole
  join_right_hole-JoinedRight r j fit large below count found =
      let m' = set_size a (k + r) s.mem in
      let there : j < s.heap.index.size = omega (
        arith,
        position-lt (a + k) j (contents s.heap.index s.mem) found,
        length-entries s.heap.index.array 0 s.heap.index.size s.mem,
      ) in
      let (array, order, end, size, held) = remove_hole-index j (joined r) there count in
      let same =
        entries-same s.heap.index.array 0 s.heap.index.size s.mem m' a (omega arith)
          (λ q lt. set_size-frame a s.mem (k + r) q (omega arith)) in
      let after = λ (q : ℕ) (apart : Outside s.heap.index.array 0 s.heap.index.size q).
        remove_ordered_array-frame j q s.heap.index m' (omega arith) apart in
      let some_right : (r == 0) ≡ false = ground arith in
      record {
        header =
            IsHeader-same (remove_hole j (joined r)).mem
              (set_size-IsHeader a s.mem 1 k (k + r) (omega arith) head)
              (λ q ge lt. after q (omega arith));
        held = rw some_right (held ∙ ap (remove_at j) same);
        array_same = array;
        order_same = order;
        count = omega (arith, size);
        end_same = end;
        start_same = refl;
        world_same = refl;
        frame = λ q out apart. after q apart ∙ set_size-frame a s.mem (k + r) q out;
      }

  -- The second join, for either neighbour.
  pub join_right-JoinedRight :
      (r j : ℕ)
      → a + k + r < 2 ^ 32
      → s.heap.index.array + 4 * s.heap.index.size ≤ a
      → s.heap.index.size < 2 ^ 32
      → HasRight (a + k) r j (contents s.heap.index s.mem) s.mem
      → (s' : State World) × (join_right hole s ≡ ok (record hole { footer = a + k + r - 8 }, s'))
        × JoinedRight a k r j s s'
  join_right-JoinedRight r j fit below count (inl (zero_right, none_right)) =
      let end : a + k + r - 8 ≡ a + k - 8 = omega arith in
      let size : k + 0 ≡ k = omega arith in
      (
        s,
        rw end (join_right_none (omega arith) none_right),
        rw zero_right (record {
          header = rw size head;
          held = refl;
          array_same = refl;
          order_same = refl;
          count = omega arith;
          end_same = refl;
          start_same = refl;
          world_same = refl;
          frame = λ q out apart. refl;
        }),
      )
  join_right-JoinedRight r j fit below count (inr (large, right, found)) = (
    remove_hole j (joined r),
    join_right_hole r j fit large right below found,
    join_right_hole-JoinedRight r j fit large below count found,
  )
