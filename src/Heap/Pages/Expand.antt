-- ===== src/Heap/Pages/Expand.antt =====
-- The loop of `expand` and its rounding (memory/kheap.c).
use panda_os.Base.{
  ℕ, zero, suc, ◌+◌, ◌*◌, ◌/◌, ◌%◌, ◌^◌, ◌≤◌, ◌<◌, ◌≡◌, ◌-◌, refl, ap, sym, ◌∙◌, Bool, true, false,
  not, ◌==◌, ltb, leb, Bool-cases, inl, inr, if◌then◌else◌, ok, sub32, arith, lt→ltb, le→ltb,
}
use mathlib.Core.Path.{subst}
use panda_os.Base.Bits.{bit_and_page}
use panda_os.Heap.Layout.{Pager, State}
use panda_os.Heap.Pages.{map_pages, round_up, expand}
use panda_os.Heap.Pages.Order.{pages_up, Backed}

-- Paging that always finds a frame, and the table for it, so that it does not call the heap.
abbrev pub Supplies : {World : Type 0} → Pager World → Type 0
Supplies {World} pager =
    (address : ℕ) (is_kernel is_writeable : Bool) (s : State World)
    → (w' : World) × (pager.map_page address is_kernel is_writeable s
        ≡ ok (record s { world = w' }))

module _ {World : Type 0} (pager : Pager World) (supplies : Supplies pager) where
  map_pages-ok :
      (rounds i new_size : ℕ) (s : State World) (w : World)
      → new_size + 0x1000 ≤ 2 ^ 32
      → s.heap.start_address + new_size ≤ 2 ^ 32
      → new_size ≤ i + 0x1000 * rounds
      → (w' : World) × (map_pages pager (suc rounds) i new_size (record s { world = w })
          ≡ ok (record s { world = w' }))
        × Backed pager
            (not (s.heap.supervisor == 0))
            (s.heap.readonly == 0)
            (pages_up ((new_size - i + 0xfff) / 0x1000) (s.heap.start_address + i))
            s
            w
            w'
  unfolding map_pages
  map_pages-ok zero i new_size s w flat below enough =
      let done : ltb i new_size ≡ false = le→ltb i new_size (omega arith) in
      let none_left : (new_size - i + 0xfff) / 0x1000 ≡ 0 = omega arith in
      (w, rw done, rw none_left refl)
  map_pages-ok (suc rounds) i new_size s w flat below enough = elim (Bool-cases (ltb i new_size)) [
    | inl more ↦
        let lt : i < new_size = ground arith in
        let step : (i + 0x1000) % 2 ^ 32 ≡ i + 0x1000 = omega arith in
        let address : (s.heap.start_address + i) % 2 ^ 32 ≡ s.heap.start_address + i =
          omega arith in
        let (w₁, mapped) =
          supplies (s.heap.start_address + i) (not (s.heap.supervisor == 0)) (s.heap.readonly == 0)
            (record s { world = w }) in
        let (w', ran, backed) =
          map_pages-ok rounds (i + 0x1000) new_size s w₁ flat below (omega arith) in
        let next : s.heap.start_address + (i + 0x1000) ≡ s.heap.start_address + i + 0x1000 =
          omega arith in
        let count : (new_size - i + 0xfff) / 0x1000
            ≡ suc ((new_size - (i + 0x1000) + 0xfff) / 0x1000) =
          omega arith in
        (
          w',
          rw
              (
                more,
                ap
                      (λ a.
                        pager.map_page a (not (s.heap.supervisor == 0)) (s.heap.readonly == 0)
                          (record s { world = w }))
                      address
                    ∙ mapped,
              )
              (ap (λ k. map_pages pager (suc rounds) k new_size (record s { world = w₁ })) step
                ∙ ran),
          subst
              (λ c.
                Backed pager (not (s.heap.supervisor == 0)) (s.heap.readonly == 0)
                  (pages_up c (s.heap.start_address + i)) s w w')
              (sym count)
              (
                w₁,
                mapped,
                subst
                    (λ a.
                      Backed pager (not (s.heap.supervisor == 0)) (s.heap.readonly == 0)
                        (pages_up ((new_size - (i + 0x1000) + 0xfff) / 0x1000) a) s w₁ w')
                    next backed,
              ),
        )
    | inr done ↦
        let none_left : (new_size - i + 0xfff) / 0x1000 ≡ 0 = ground arith in
        (w, rw done, rw none_left refl)
  ]

  -- When paging supplies frames, `expand` to a larger size within the maximum ends, with the end of the
  -- heap at the start and the rounded size, and changes neither the memory nor the index.
  pub expand-ok :
      (new_size : ℕ) (s : State World)
      → sub32 s.heap.end_address s.heap.start_address < new_size
      → s.heap.start_address + round_up new_size ≤ s.heap.max_address
      → s.heap.max_address + 0x1000 ≤ 2 ^ 32
      → (w' : World) × (expand pager new_size s
          ≡ ok (record s {
            heap = record s.heap { end_address = s.heap.start_address + round_up new_size };
            world = w';
          }))
        × Backed pager
            (not (s.heap.supervisor == 0))
            (s.heap.readonly == 0)
            (pages_up
              ((round_up new_size - sub32 s.heap.end_address s.heap.start_address + 0xfff) / 0x1000)
              (s.heap.start_address + sub32 s.heap.end_address s.heap.start_address))
            s
            s.world
            w'
  unfolding expand
  expand-ok new_size s larger within flat =
      let rounded = round_up new_size in
      let old_size = sub32 s.heap.end_address s.heap.start_address in
      let grows = lt→ltb old_size new_size larger in
      let sum : (s.heap.start_address + rounded) % 2 ^ 32 ≡ s.heap.start_address + rounded =
        omega arith in
      let room : leb ((s.heap.start_address + rounded) % 2 ^ 32) s.heap.max_address ≡ true =
        ground arith in
      let fuel : rounded / 0x1000 + 2 ≡ suc (rounded / 0x1000 + 1) = omega arith in
      let (w', ran, backed) =
        map_pages-ok (rounded / 0x1000 + 1) old_size rounded s s.world (omega arith) (omega arith)
          (omega arith) in
      let ran' = ap (λ k. map_pages pager k old_size rounded s) fuel ∙ ran in
      (
        w',
        rw (grows, room, ran')
            (ap (λ e. ok (record s { heap = record s.heap { end_address = e }; world = w' })) sum),
        backed,
      )

-- `expand` rounds a size of a page or more up to the next page boundary above it, a size that is a
-- boundary itself by a whole page; a size below a page is not rounded.
pub round_up_lem :
    (n : ℕ)
    → n + 0x1000 < 2 ^ 32
    → round_up n ≡ (if ltb n 0x1000 then n else (n / 0x1000 + 1) * 0x1000)
unfolding round_up
round_up_lem n h = ground (arith, bit_and_page n)
