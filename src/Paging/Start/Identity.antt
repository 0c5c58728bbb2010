-- ===== src/Paging/Start/Identity.antt =====
-- The loop that maps memory to itself.
use panda_os.Base.{
  sym, refl, ℕ, zero, suc, ◌+◌, ◌-◌, ◌*◌, ◌/◌, ◌%◌, ◌^◌, ◌≤◌, ◌<◌, ◌≡◌, ◌≢◌, ap, ◌∙◌, false, some,
  ◌==◌, ltb, if◌then◌else◌, add32, ok, arith, Bool-cases, inl, inr,
}
use mathlib.Core.Path.{subst}
use panda_os.Heap.Placement.{Early}
use panda_os.Paging.Tables.{Directory, Paging}
use panda_os.Paging.Start.{back_page, identity_map}
use panda_os.Paging.Start.Step.{IsIdentity, KeepsTables, table_of, alloc_next}
use panda_os.Paging.Start.Grow.{get_page-Found}

module _ (garbage dir : ℕ) where
  -- Page n is found and backed, and a table is made for the first page of 1024 only.
  round :
      (n : ℕ) (s : Paging Early)
      → IsIdentity dir n s
      → n < 0x1000
      → s.world.placement_address + 0x2000 < 2 ^ 32
      → (s' : Paging Early) × (back_page garbage dir (n * 0x1000) s ≡ ok s')
        × IsIdentity dir (n + 1) s'
        × (s'.world.placement_address
            ≤ s.world.placement_address + (if n % 1024 == 0 then 0x2000 else 0))
        × KeepsTables dir s s'
  unfolding back_page
  round n s v lt room =
      let (s₁, found, f) = get_page-Found garbage dir n (n * 0x1000) s v room in
      let same : n * 0x1000 / 0x1000 ≡ n = omega arith in
      let table = subst (λ m. table_of dir m s₁ ≢ 0) same f.table in
      let (s₂, ran, identity, kept, linked) = alloc_next garbage dir n s₁ f.identity lt table in
      let found' = found ∙ ap (λ m. ok (some (table_of dir m s₁, m % 1024), s₁)) same in
      let cost =
        subst
          (λ m.
            s₁.world.placement_address
            ≤ s.world.placement_address + (if table_of dir m s == 0 then 0x2000 else 0))
          same f.cost in
      (
        s₂,
        rw found' ran,
        identity,
        rw kept (elim (Bool-cases (n % 1024 == 0)) [
          | inl first ↦ rw first (elim (Bool-cases (table_of dir n s == 0)) [
            | inl e ↦ omega (arith, rw e at cost)
            | inr e ↦ omega (arith, rw e at cost)
          ])
          | inr later ↦
              let page_before : (n - 1) / 1024 ≡ n / 1024 = ground arith in
              let has =
                subst (λ k. (s.directories dir).tables k ≢ 0) page_before
                  (v.tables (n - 1) (ground arith)) in
              let old : (table_of dir n s == 0) ≡ false = ground (arith, has) in
              rw later (rw old at cost)
        ]),
        λ k has_table. ap (λ (ds : ℕ → Directory). (ds dir).tables k) linked ∙ f.kept k has_table,
      )

  -- `identity_map` from page n on, where each started group of 1024 pages has had its table.
  map_from :
      (fuel n base limit : ℕ) (s : Paging Early)
      → IsIdentity dir n s
      → s.world.placement_address ≤ base + 0x2000 * ((n + 1023) / 1024)
      → base + 0x9000 ≤ limit * 0x1000
      → limit ≤ 0x1000
      → n ≤ limit
      → limit < n + fuel
      → (m : ℕ) × (s' : Paging Early) × (identity_map garbage dir fuel (n * 0x1000) s ≡ ok s')
        × IsIdentity dir m s'
        × (s'.world.placement_address + 0x1000 ≤ m * 0x1000)
        × (m ≤ limit)
        × KeepsTables dir s s'
  unfolding identity_map
  map_from zero n base limit s v brk room flat le enough = absurd (omega arith)
  map_from (suc fuel) n base limit s v brk room flat le enough =
      elim (Bool-cases (ltb (n * 0x1000) (add32 s.world.placement_address 0x1000))) [
        | inr done ↦ (n, s, rw done, v, ground arith, le, λ k has. refl)
        | inl more ↦
            let lt : n < limit = ground (arith, brk) in
            let (s₁, ran, v₁, cost, kept) = round n s v (omega arith) (omega arith) in
            let (m, s', rest, v', covered, within, kept') =
              map_from fuel (n + 1) base limit s₁ v₁ (ground (arith, cost)) room flat (omega arith)
                (omega arith) in
            let next : (n * 0x1000 + 0x1000) % 2 ^ 32 ≡ (n + 1) * 0x1000 = omega arith in
            (
              m,
              s',
              rw (more, ran) (ap (λ i. identity_map garbage dir fuel i s₁) next ∙ rest),
              v',
              covered,
              within,
              λ k has. kept' k (λ e. has (sym (kept k has) ∙ e)) ∙ kept k has,
            )
      ]

  -- From a bit set and a directory that map nothing, with at least 9 pages below the limit not handed out,
  -- the loop ends within 4097 rounds, although its bound moves while tables are made. Then a first part
  -- of memory is mapped to itself and everything handed out lies there, with a page to spare.
  pub identity_map-IsIdentity :
      (limit : ℕ) (s : Paging Early)
      → IsIdentity dir 0 s
      → s.world.placement_address + 0x9000 ≤ limit * 0x1000
      → limit ≤ 0x1000
      → (n : ℕ) × (s' : Paging Early) × (identity_map garbage dir 4097 0 s ≡ ok s')
        × IsIdentity dir n s'
        × (s'.world.placement_address + 0x1000 ≤ n * 0x1000)
        × (n ≤ limit)
        × KeepsTables dir s s'
  identity_map-IsIdentity limit s v room flat =
      map_from 4097 0 s.world.placement_address limit s v (omega arith) room flat (omega arith)
        (omega arith)
