-- ===== src/Heap/Pages/Contract.antt =====
-- The rounding of `contract` (memory/kheap.c).
use panda_os.Base.{
  ℕ, zero, suc, ◌+◌, ◌-◌, ◌*◌, ◌/◌, ◌%◌, ◌^◌, ◌≤◌, ◌<◌, ◌≡◌, ap, sym, ◌∙◌, false, ltb, ◌==◌,
  Bool-cases, inl, inr, ok, lt→ltb, le→ltb, if◌then◌else◌, arith, refl,
}
use mathlib.Core.Path.{subst}
use panda_os.Base.Bits.{bit_and-two_pow}
use panda_os.Heap.Layout.{Heap, Pager, State}
use panda_os.Heap.Pages.{unmap_pages, contracted, contract}
use panda_os.Heap.Pages.Order.{pages_down, TakenBack}

-- The length that `contract` keeps of a request: the request, or the minimum if it is below; but for a
-- request with an odd number of whole pages always the minimum, which may be far below the request.
pub contracted_lem :
    (new_size : ℕ)
    → contracted new_size ≡ (
        if new_size / 0x1000 % 2 == 1
        then 0x70000
        else (if ltb new_size 0x70000 then 0x70000 else new_size))
unfolding contracted
contracted_lem new_size = ground (arith, bit_and-two_pow 12 new_size)

-- Paging that takes every page back.
abbrev pub Releases : {World : Type 0} → Pager World → Type 0
Releases {World} pager =
    (address : ℕ) (w : World) → (w' : World) × (pager.unmap_page address w ≡ ok w')

module _ {World : Type 0} (pager : Pager World) (releases : Releases pager) where
  unmap_pages-ok :
      (rounds i new_size : ℕ) (heap : Heap) (w : World)
      → 0x1000 ≤ new_size
      → heap.start_address + i < 2 ^ 32
      → i ≤ new_size + 0x1000 * rounds
      → (w' : World) × (unmap_pages pager (suc rounds) i new_size heap w ≡ ok w')
        × TakenBack pager
            (pages_down ((i - new_size + 0xfff) / 0x1000) (heap.start_address + i))
            w
            w'
  unfolding unmap_pages
  unmap_pages-ok zero i new_size heap w least small enough =
      let done : ltb new_size i ≡ false = le→ltb new_size i (omega arith) in
      let none_left : (i - new_size + 0xfff) / 0x1000 ≡ 0 = omega arith in
      (w, rw done, rw none_left refl)
  unmap_pages-ok (suc rounds) i new_size heap w least small enough =
      elim (Bool-cases (ltb new_size i)) [
        | inl more ↦
            let lt : new_size < i = ground arith in
            let step : (i + 2 ^ 32 - 0x1000) % 2 ^ 32 ≡ i - 0x1000 = omega arith in
            let address : (heap.start_address + i) % 2 ^ 32 ≡ heap.start_address + i =
              omega arith in
            let next : heap.start_address + (i - 0x1000) ≡ heap.start_address + i - 0x1000 =
              omega arith in
            let count : (i - new_size + 0xfff) / 0x1000
                ≡ suc ((i - 0x1000 - new_size + 0xfff) / 0x1000) =
              omega arith in
            let (w₁, given) = releases (heap.start_address + i) w in
            let (w', ran, taken) =
              unmap_pages-ok rounds (i - 0x1000) new_size heap w₁ least (omega arith)
                (omega arith) in
            (
              w',
              rw (more, ap (λ a. pager.unmap_page a w) address ∙ given)
                  (ap (λ k. unmap_pages pager (suc rounds) k new_size heap w₁) step ∙ ran),
              subst (λ c. TakenBack pager (pages_down c (heap.start_address + i)) w w') (sym count)
                  (
                    w₁,
                    given,
                    subst
                        (λ a.
                          TakenBack pager (pages_down ((i - 0x1000 - new_size + 0xfff) / 0x1000) a)
                            w₁ w')
                        next taken,
                  ),
            )
        | inr done ↦
            let none_left : (i - new_size + 0xfff) / 0x1000 ≡ 0 = ground arith in
            (w, rw done, rw none_left refl)
      ]

  contract-unmap_pages :
      (new_size n : ℕ) (s : State World) (w : World)
      → s.heap.start_address + n ≡ s.heap.end_address
      → s.heap.end_address < 2 ^ 32
      → new_size < n
      → 0x1000 ≤ n
      → contracted new_size ≤ n
      → unmap_pages pager (n / 0x1000 + 2) (n - 0x1000) (contracted new_size) s.heap s.world ≡ ok w
      → contract pager new_size s
        ≡ ok (
          contracted new_size,
          record s {
            heap = record s.heap { end_address = s.heap.start_address + contracted new_size };
            world = w;
          },
        )
  unfolding contract
  contract-unmap_pages new_size n s w length small less long_enough within ran =
      let long : (s.heap.end_address + 2 ^ 32 - s.heap.start_address) % 2 ^ 32 ≡ n =
        omega (arith, length) in
      let first : (n + 2 ^ 32 - 0x1000) % 2 ^ 32 ≡ n - 0x1000 = omega (arith, length) in
      let end : (s.heap.start_address + contracted new_size) % 2 ^ 32
          ≡ s.heap.start_address + contracted new_size =
        omega (arith, length) in
      rw (long, lt→ltb new_size n less, first, ran, end) refl

  -- `contract` of a heap of n bytes, at least as many as the length it keeps.
  pub contract-ok :
      (new_size n : ℕ) (s : State World)
      → s.heap.start_address + n ≡ s.heap.end_address
      → s.heap.end_address < 2 ^ 32
      → new_size < n
      → 0x1000 ≤ contracted new_size
      → contracted new_size ≤ n
      → (w : World) × (contract pager new_size s
          ≡ ok (
            contracted new_size,
            record s {
              heap = record s.heap { end_address = s.heap.start_address + contracted new_size };
              world = w;
            },
          ))
        × TakenBack pager
            (pages_down ((n - contracted new_size - 1) / 0x1000) (s.heap.end_address - 0x1000))
            s.world
            w
  contract-ok new_size n s length small less least within =
      let kept = contracted new_size in
      let fuel : n / 0x1000 + 2 ≡ suc (n / 0x1000 + 1) = omega arith in
      let (w, ran, taken) =
        unmap_pages-ok (n / 0x1000 + 1) (n - 0x1000) kept s.heap s.world least
          (omega (arith, length)) (omega arith) in
      let count : (n - 0x1000 - kept + 0xfff) / 0x1000 ≡ (n - kept - 1) / 0x1000 = omega arith in
      let first : s.heap.start_address + (n - 0x1000) ≡ s.heap.end_address - 0x1000 =
        omega (arith, length) in
      (
        w,
        contract-unmap_pages new_size n s w length small less (omega arith) within
            (ap (λ k. unmap_pages pager k (n - 0x1000) kept s.heap s.world) fuel ∙ ran),
        subst (λ c. TakenBack pager (pages_down c (s.heap.end_address - 0x1000)) s.world w) count
            (subst
              (λ a. TakenBack pager (pages_down ((n - 0x1000 - kept + 0xfff) / 0x1000) a) s.world w)
              first taken),
      )
