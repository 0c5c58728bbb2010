-- ===== src/Heap/Alloc/Aligned.antt =====
-- What becomes of a request for a page-aligned block (`kmalloc_a`, `kmalloc_ap`).
use panda_os.Base.{
  ℕ, suc, ◌+◌, ◌*◌, ◌/◌, ◌%◌, ◌^◌, ◌≤◌, ◌<◌, ◌≡◌, refl, ap, ◌∙◌, true, false, some, bit_and, ltb,
  arith, lt→ltb, ok,
}
use panda_os.Base.Bits.{bit_and_mask, bit_and_step}
use panda_os.OrderedArray.{lookup_ordered_array}
use panda_os.Heap.Layout.{Pager, State}
use panda_os.Heap.Alloc.{find_smallest_hole, place, detach, alloc, aligned_location}
use panda_os.Heap.Alloc.Place.{Usable, place-Settled}

-- At a hole on a page boundary the request for alignment is not looked at.
place_on_page :
    {World : Type 0} (i size p h : ℕ) (s : State World)
    → Usable i size p h s
    → p % 0x1000 ≡ 0
    → place size (size + 20) true i s ≡ place size (size + 20) false i s
unfolding place detach lookup_ordered_array
place_on_page i size p h s u page =
    let found : ltb i s.heap.index.size ≡ true = lt→ltb _ _ u.position in
    let even : bit_and p 0xfff ≡ 0 = omega (arith, bit_and_mask 12 p, page) in
    rw (found, u.hole, u.hole_size, even)

alloc_aligned-place :
    {World : Type 0} (fuel : ℕ) (pager : Pager World) (i size : ℕ) (s : State World)
    → size + 20 < 2 ^ 32
    → find_smallest_hole (size + 20) true s.heap.index s.mem ≡ some i
    → alloc (suc fuel) pager size true s ≡ place size (size + 20) true i s
unfolding alloc
alloc_aligned-place fuel pager i size s small found =
    let wide : (size + 20) % 2 ^ 32 ≡ size + 20 = omega arith in
    rw (wide, found, alloc) (ap (λ t. place size t true i s) wide)

-- A page-aligned block from a hole that begins on a page boundary, as the first hole of the heap
-- does, is not page-aligned: its data begins 12 bytes behind the boundary.
pub alloc_misaligned :
    {World : Type 0} (fuel : ℕ) (pager : Pager World) (i size p h : ℕ) (s : State World)
    → find_smallest_hole (size + 20) true s.heap.index s.mem ≡ some i
    → Usable i size p h s
    → p % 0x1000 ≡ 0
    → (at : ℕ) × (s' : State World) × (alloc (suc fuel) pager size true s ≡ ok (at, s'))
      × (at ≡ p + 12)
      × (at % 0x1000 ≡ 12)
alloc_misaligned fuel pager i size p h s found u page =
    let (size', n, s', ran, fits, grows, done) = place-Settled i size p h s u in
    (
      p + 12,
      s',
      alloc_aligned-place fuel pager i size s (omega (arith, u.enough, u.no_wrap)) found
          ∙ place_on_page i size p h s u page
          ∙ ran,
      refl,
      omega arith,
    )

aligned_location_digits : (p : ℕ) → p < 2 ^ 32 → aligned_location p ≡ p / 16 * 16 + p / 4 % 2 * 4
unfolding aligned_location
aligned_location_digits p h = omega (
  arith,
  bit_and_step p 0xffff_fff4,
  bit_and_step (p / 2) 0x7fff_fffa,
  bit_and_step (p / 2 / 2) 0x3fff_fffd,
  bit_and_step (p / 2 / 2 / 2) 0x1fff_fffe,
  bit_and_mask 28 (p / 2 / 2 / 2 / 2),
)

-- Where C puts the block of a page-aligned request in any other hole: never behind the start of the
-- hole, and on the place 12 bytes in front of a page only if the hole began at most 11 bytes
-- behind that.
pub aligned_location_lem :
    (p : ℕ)
    → p < 2 ^ 32
    → (aligned_location p ≤ p) × ((aligned_location p + 12) % 0x1000 ≡ 0 → 0xff4 ≤ p % 0x1000)
aligned_location_lem p h = omega (arith, aligned_location_digits p h)
