-- ===== src/Heap/Alloc/Find.antt =====
-- The search of `find_smallest_hole` (memory/kheap.c) through the index.
use panda_os.Base.{
  ℕ, zero, suc, ◌+◌, ◌≤◌, ◌<◌, ◌≡◌, Bool, true, false, Option, none, some, ltb, leb, arith,
  Bool-cases, inl, inr, ltb→lt,
}
use native.Mathlib.Nat.{le_refl}
use panda_os.Base.Memory.{Memory}
use panda_os.OrderedArray.{OrderedArray, entry}
use panda_os.OrderedArray.Entries.{entries, contents}
use panda_os.OrderedArray.Sorted.{InOrder, AllNotLess}
use panda_os.Heap.Layout.{size_of, header_t_less_than}
use panda_os.Heap.Alloc.{fits, find_loop, find_smallest_hole}

-- The hole at position j is large enough.
abbrev pub Fits :
    (size : ℕ) (page_align : Bool) (index : OrderedArray) (m : Memory) (j : ℕ) (b : Bool) → Type 0
Fits size page_align index m j b = fits size page_align (entry index.array j m) m ≡ b

-- What the search for a hole may answer.
abbrev pub Found :
    (size : ℕ) (page_align : Bool) (index : OrderedArray) (m : Memory) (lo : ℕ) → Option ℕ → Type 0
Found size page_align index m lo none =
    (j : ℕ) → lo ≤ j → j < index.size → Fits size page_align index m j false
Found size page_align index m lo (some i) =
    (i < index.size)
    × Fits size page_align index m i true
    × ((j : ℕ) → lo ≤ j → j < i → Fits size page_align index m j false)

Found-skip :
    (size : ℕ) (page_align : Bool) (index : OrderedArray) (m : Memory) (lo : ℕ) (r : Option ℕ)
    → Fits size page_align index m lo false
    → Found size page_align index m (lo + 1) r
    → Found size page_align index m lo r
Found-skip size page_align index m lo none miss rest = λ j ge lt. elim (Bool-cases (leb j lo)) [
  | inl e ↦ let same : j ≡ lo = ground arith in rw same miss
  | inr n ↦ rest j (ground arith) lt
]
Found-skip size page_align index m lo (some i) miss rest = (
  rest.0,
  rest.1,
  λ j ge lt. elim (Bool-cases (leb j lo)) [
    | inl e ↦ let same : j ≡ lo = ground arith in rw same miss
    | inr n ↦ rest.2 j (ground arith) lt
  ],
)

find_loop-Found :
    (size : ℕ) (page_align : Bool) (left i : ℕ) (index : OrderedArray) (m : Memory)
    → index.size ≡ i + left
    → Found size page_align index m i (find_loop size page_align left i index m)
unfolding find_loop
find_loop-Found size page_align zero i index m e = λ j ge lt. absurd (omega arith)
find_loop-Found size page_align (suc left) i index m e =
    elim (Bool-cases (fits size page_align (entry index.array i m) m)) [
      | inl t ↦ rw t (omega arith, t, λ j ge lt. absurd (omega arith))
      | inr f ↦ rw f (
          Found-skip size page_align index m i (find_loop size page_align left (i + 1) index m) f
            (find_loop-Found size page_align left (i + 1) index m (omega arith)))
    ]

-- `find_smallest_hole` answers with the first position whose hole is large enough, aligned or not, and
-- with none only if no hole of the index is.
pub find_smallest_hole-Found :
    (size : ℕ) (page_align : Bool) (index : OrderedArray) (m : Memory)
    → Found size page_align index m 0 (find_smallest_hole size page_align index m)
unfolding find_smallest_hole
find_smallest_hole-Found size page_align index m =
    find_loop-Found size page_align index.size 0 index m (omega arith)

-- In an array in order no entry is less than an earlier one.
AllNotLess-entry :
    (less : ℕ → ℕ → Bool) (x array i n k : ℕ) (m : Memory)
    → AllNotLess less x (entries array i n m)
    → i ≤ k
    → k < i + n
    → less (entry array k m) x ≡ false
AllNotLess-entry less x array i zero k m all ge lt = absurd (omega arith)
AllNotLess-entry less x array i (suc n) k m all ge lt = elim (Bool-cases (leb k i)) [
  | inl e ↦ let same : k ≡ i = ground arith in rw same all.0
  | inr more ↦ AllNotLess-entry less x array (i + 1) n k m all.1 (ground arith) (omega arith)
]

InOrder-entry :
    (less : ℕ → ℕ → Bool) (array i n j k : ℕ) (m : Memory)
    → InOrder less (entries array i n m)
    → i ≤ j
    → j < k
    → k < i + n
    → less (entry array k m) (entry array j m) ≡ false
InOrder-entry less array i zero j k m ord ge lt top = absurd (omega arith)
InOrder-entry less array i (suc n) j k m ord ge lt top = elim (Bool-cases (leb j i)) [
  | inl e ↦
      let same : j ≡ i = ground arith in
      rw same (
        AllNotLess-entry less (entry array i m) array (i + 1) n k m ord.0 (omega arith)
          (omega arith))
  | inr more ↦ InOrder-entry less array (i + 1) n j k m ord.1 (ground arith) lt (omega arith)
]

-- Best fit: in an index that is in order of size, the hole that is found for an unaligned block is
-- large enough, and no larger than any other hole that would be.
pub find_smallest_hole_smallest :
    (size i j : ℕ) (index : OrderedArray) (m : Memory)
    → InOrder (header_t_less_than m) (contents index m)
    → find_smallest_hole size false index m ≡ some i
    → j < index.size
    → size ≤ size_of (entry index.array j m) m
    → (size ≤ size_of (entry index.array i m) m)
      × (size_of (entry index.array i m) m ≤ size_of (entry index.array j m) m)
unfolding fits header_t_less_than
find_smallest_hole_smallest size i j index m ord found lt enough =
    let all = find_smallest_hole-Found size false index m in
    let (below, fit, before) : Found size false index m 0 (some i) = rw found at all in
    let least : size_of (entry index.array i m) m ≤ size_of (entry index.array j m) m =
      elim (Bool-cases (ltb i j)) [
        | inl later ↦
            let lt_ij = ltb→lt i j later in
            ground (
              arith,
              InOrder-entry (header_t_less_than m) index.array 0 index.size i j m ord (omega arith)
                  lt_ij (omega arith),
            )
        | inr not_later ↦ elim (Bool-cases (ltb j i)) [
          | inl earlier ↦ ground (arith, before j (omega arith) (ltb→lt j i earlier))
          | inr same ↦ let e : j ≡ i = ground arith in rw e (le_refl _)
        ]
      ] in
    (ground (arith, fit), least)
