-- ===== src/Heap/Placement.antt =====
-- `kmalloc_int` and its callers: the placement allocator that serves until the heap exists, and the
-- heap afterwards.
use panda_os.Base.{
  ℕ, ◌+◌, ◌*◌, ◌%◌, ◌/◌, ◌^◌, ◌≤◌, ◌<◌, ◌≡◌, refl, Bool, true, false, not, ◌&&◌, bit_and, ◌==◌,
  if◌then◌else◌, add32, Outcome, ok, ◌>>=◌, arith, List, [], ◌∷◌, ◌<<<◌, u32,
}
use panda_os.Base.Bits.{bit_and_mask, bit_and_page}
use panda_os.Heap.Layout.{page_size, Pager, State}
use panda_os.Heap.Alloc.{alloc}
use panda_os.Heap.Free.{free}

-- `kheap` is null until `create_heap` has run; `Early` is the state before that.
pub record Early : Type 0 where
  pub placement_address : ℕ

-- The branch of `kmalloc_int` without a heap. The result is the address, which is also what `*phys`
-- receives, with the new state.
unfoldable pub kmalloc_early : (sz : ℕ) (align : Bool) → Early → ℕ × Early
kmalloc_early sz align e =
    let at =
      if align && not (bit_and e.placement_address 0xfff == 0)
      then add32 (bit_and e.placement_address 0xffff_f000) page_size
      else e.placement_address in
    (at, record e { placement_address = add32 at sz })

-- The branch with a heap. `frame_of` is the `frame` field of the page that `get_page` finds for an
-- address; the physical address is 0 when the caller passes no `phys`.
unfoldable pub kmalloc_heap :
    {World : Type 0} (fuel : ℕ) (pager : Pager World) (frame_of : ℕ → World → ℕ) (sz : ℕ)
    (align phys : Bool)
    → State World
    → Outcome (ℕ × ℕ × State World)
kmalloc_heap fuel pager frame_of sz align phys s = alloc fuel pager sz align s >>= λ (addr, s').
    ok (
      addr,
      if phys then add32 (u32 (frame_of addr s'.world <<< 12)) (bit_and addr 0xfff) else 0,
      s',
    )

-- The allocator before and after `kheap` is set.
pub data Kernel (World : Type 0) : Type 0 where
  placing : Early → Kernel World
  heap_ready : State World → Kernel World

-- The address, the physical address and the new state. The physical one is 0 without `phys`.
module _ {World : Type 0} (fuel : ℕ) (pager : Pager World) (frame_of : ℕ → World → ℕ) where
  unfoldable pub kmalloc_int :
      (sz : ℕ) (align phys : Bool) → Kernel World → Outcome (ℕ × ℕ × Kernel World)
  kmalloc_int sz align phys (placing e) =
      let (at, e') = kmalloc_early sz align e in ok (at, (if phys then at else 0), placing e')
  kmalloc_int sz align phys (heap_ready s) =
      kmalloc_heap fuel pager frame_of sz align phys s >>= λ (addr, frame, s').
      ok (addr, frame, heap_ready s')

  unfoldable pub kmalloc_a : (sz : ℕ) → Kernel World → Outcome (ℕ × ℕ × Kernel World)
  kmalloc_a sz k = kmalloc_int sz true false k

  unfoldable pub kmalloc_p : (sz : ℕ) → Kernel World → Outcome (ℕ × ℕ × Kernel World)
  kmalloc_p sz k = kmalloc_int sz false true k

  unfoldable pub kmalloc_ap : (sz : ℕ) → Kernel World → Outcome (ℕ × ℕ × Kernel World)
  kmalloc_ap sz k = kmalloc_int sz true true k

  unfoldable pub kmalloc : (sz : ℕ) → Kernel World → Outcome (ℕ × ℕ × Kernel World)
  kmalloc sz k = kmalloc_int sz false false k

-- `kfree` once the heap exists.
unfoldable pub kfree :
    {World : Type 0} → Pager World → (p : ℕ) → State World → Outcome (State World)
kfree pager p s = free pager p s

-- The first page boundary at or above an address.
abbrev pub page_up : ℕ → ℕ
page_up n = (n + 0xfff) / 0x1000 * 0x1000

-- As long as the addresses do not wrap, the early allocator hands out the placement address, rounded
-- up to a page if that is asked for, and moves it behind the `sz` bytes.
pub kmalloc_early_lem :
    (sz : ℕ) (align : Bool) (e : Early)
    → e.placement_address + 0x1000 + sz < 2 ^ 32
    → kmalloc_early sz align e ≡ (
        let at = if align then page_up e.placement_address else e.placement_address in
        (at, record { placement_address = at + sz }))
unfolding kmalloc_early
kmalloc_early_lem sz true e h =
    ground (arith, bit_and_mask 12 e.placement_address, bit_and_page e.placement_address)
kmalloc_early_lem sz false e h = ground arith

-- A sequence of requests to the early allocator, with the regions that it hands out.
pub early_run : List (ℕ × Bool) → Early → List (ℕ × ℕ)
early_run [] e = []
early_run ((sz, align) ∷ rs) e =
    let (at, e') = kmalloc_early sz align e in (at, sz) ∷ early_run rs e'

-- What the requests need at most, each with the padding of a page.
abbrev pub demand : List (ℕ × Bool) → ℕ
demand [] = 0
demand ((sz, align) ∷ rs) = 0x1000 + sz + demand rs

-- Each region lies at or behind `lo` and in front of the next one.
abbrev pub Ascending : ℕ → List (ℕ × ℕ) → Type 0
Ascending lo [] = Unit {0}
Ascending lo ((at, sz) ∷ rs) = (lo ≤ at) × Ascending (at + sz) rs

-- Each page-aligned request gets a page boundary.
abbrev pub Aligned : List (ℕ × Bool) → List (ℕ × ℕ) → Type 0
Aligned ((sz, true) ∷ rs) ((at, n) ∷ rest) = (at % 0x1000 ≡ 0) × (n ≡ sz) × Aligned rs rest
Aligned ((sz, false) ∷ rs) ((at, n) ∷ rest) = (n ≡ sz) × Aligned rs rest
Aligned [] [] = Unit {0}
Aligned _ _ = ⊥

-- Before the heap exists, any sequence of requests that fits the address space gets regions of the
-- sizes asked for that do not overlap, behind the start of free memory and one behind the other, the
-- page-aligned ones on page boundaries.
pub early_run-Ascending :
    (rs : List (ℕ × Bool)) (e : Early)
    → e.placement_address + demand rs < 2 ^ 32
    → Ascending e.placement_address (early_run rs e) × Aligned rs (early_run rs e)
unfolding early_run
early_run-Ascending [] e h = (tt, tt)
early_run-Ascending ((sz, true) ∷ rs) e h =
    let at = page_up e.placement_address in
    let rest = early_run-Ascending rs (record { placement_address = at + sz }) (omega arith) in
    rw (kmalloc_early_lem sz true e (omega arith))
      ((omega arith, rest.0), (omega arith, refl, rest.1))
early_run-Ascending ((sz, false) ∷ rs) e h =
    let rest =
      early_run-Ascending rs (record { placement_address = e.placement_address + sz })
        (omega arith) in
    rw (kmalloc_early_lem sz false e (omega arith)) ((omega arith, rest.0), (refl, rest.1))
