-- ===== src/Tasks/Stack.antt =====
-- `move_stack` of process/task.c: the kernel's stack moves to pages of its own.
use panda_os.Base.{
  ℕ, zero, suc, ◌+◌, ◌-◌, ◌*◌, ◌/◌, ◌%◌, ◌^◌, ◌≤◌, ◌<◌, ◌≡◌, refl, ap, sym, ◌∙◌, ◌&&◌, false, ltb,
  leb, if◌then◌else◌, add32, sub32, Outcome, ok, out_of_fuel, ◌>>=◌, arith, Bool-cases, inl, inr,
  ◌⊎◌,
}
use panda_os.Base.Memory.{
  Memory, load8, load32, store32, load32-store32_self, load32-store32-Apart, load8-store32-Apart,
  load32-lt, load32_same,
}
use panda_os.Mem.{memcpy}

-- `for (i = start; i >= start-size; i -= 0x1000) alloc_frame(get_page(i, 1, ...), 0, 1);`
unfoldable pub stack_pages :
    {World : Type 0} (map_page : ℕ → World → Outcome World) (fuel i low : ℕ) → World → Outcome World
stack_pages map_page zero i low w = out_of_fuel
stack_pages map_page (suc fuel) i low w =
    let rest = map_page i w >>= stack_pages map_page fuel (sub32 i 0x1000) low in
    if leb low i then rest else ok w

-- A word that points into the old stack, between the old stack pointer and its start, is moved along.
unfoldable pub relocated : (old_stack_pointer initial_esp offset tmp : ℕ) → ℕ
relocated old_stack_pointer initial_esp offset tmp =
    if ltb old_stack_pointer tmp && ltb tmp initial_esp then add32 tmp offset else tmp

-- `for (i = start; i > start-size; i -= 4)`
unfoldable pub relocate :
    (fuel i low old_stack_pointer initial_esp offset : ℕ) → Memory → Outcome Memory
relocate zero i low old initial_esp offset m = out_of_fuel
relocate (suc fuel) i low old initial_esp offset m =
    let m' = store32 i (relocated old initial_esp offset (load32 i m)) m in
    let rest = relocate fuel (sub32 i 4) low old initial_esp offset m' in
    if ltb low i then rest else ok m

-- The new stack and base pointers and the memory. The old pointers are those that the assembly reads.
unfoldable pub move_stack :
    {World : Type 0} (map_page : ℕ → World → Outcome World)
    (new_stack_start size old_stack_pointer old_base_pointer initial_esp : ℕ)
    → Memory
    → World
    → Outcome (ℕ × ℕ × Memory × World)
move_stack map_page new_stack_start size old_stack_pointer old_base_pointer initial_esp m w =
    let low = sub32 new_stack_start size in
    let offset = sub32 new_stack_start initial_esp in
    let new_stack_pointer = add32 old_stack_pointer offset in
    let m' = memcpy new_stack_pointer old_stack_pointer (sub32 initial_esp old_stack_pointer) m in
    stack_pages map_page (size / 0x1000 + 2) new_stack_start low w >>= λ w'.
    relocate (size / 4 + 2) new_stack_start low old_stack_pointer initial_esp offset m' >>= λ m''.
    ok (new_stack_pointer, add32 old_base_pointer offset, m'', w')

relocated-lt : (old esp offset v : ℕ) → v < 2 ^ 32 → relocated old esp offset v < 2 ^ 32
unfolding relocated
relocated-lt old esp offset v h = ground arith

-- The relocation ends, changes each word from the start of the new stack down to its end by `relocated`,
-- once, and nothing above.
relocate-each :
    (rounds i low old esp offset : ℕ) (m : Memory)
    → 4 ≤ low
    → i < 2 ^ 32
    → i ≤ low + 4 * rounds
    → (m' : Memory) × (relocate (suc rounds) i low old esp offset m ≡ ok m')
      × ((k : ℕ)
          → low + 4 * k < i
          → load32 (i - 4 * k) m' ≡ relocated old esp offset (load32 (i - 4 * k) m))
      × ((q : ℕ) → i + 4 ≤ q → load8 q m' ≡ load8 q m)
unfolding relocate
relocate-each zero i low old esp offset m above small near =
    let done : ltb low i ≡ false = ground arith in
    (m, rw done, (λ k lt. absurd (omega arith)), λ q le. refl)
relocate-each (suc rounds) i low old esp offset m above small near = elim (Bool-cases (ltb low i)) [
  | inr done ↦ (m, rw done, (λ k lt. absurd (ground arith)), λ q le. refl)
  | inl more ↦
      let lt : low < i = ground arith in
      let v = relocated old esp offset (load32 i m) in
      let m₁ = store32 i v m in
      let (m', ran, words, frame) =
        relocate-each rounds (i - 4) low old esp offset m₁ above (omega arith) (omega arith) in
      let step : (i + 2 ^ 32 - 4) % 2 ^ 32 ≡ i - 4 = omega arith in
      let top : load32 i m' ≡ v =
        load32_same i m' m₁ (λ k h. frame (i + k) (omega arith))
        ∙ load32-store32_self i v m (relocated-lt old esp offset (load32 i m) (load32-lt i m)) in
      (
        m',
        rw more (ap (λ j. relocate (suc rounds) j low old esp offset m₁) step ∙ ran),
        λ k.
            elim k
              as (λ k.
                low + 4 * k < i
                → load32 (i - 4 * k) m' ≡ relocated old esp offset (load32 (i - 4 * k) m)) [
                  | zero ↦ λ _.
                      let here : i - 4 * 0 ≡ i = omega arith in
                      ap (λ a. load32 a m') here
                      ∙ top
                      ∙ ap (λ a. relocated old esp offset (load32 a m)) (sym here)
                  | suc j ↦ λ h.
                      let there : i - 4 * suc j ≡ i - 4 - 4 * j = omega arith in
                      ap (λ a. load32 a m') there
                      ∙ words j (omega arith)
                      ∙ ap (relocated old esp offset)
                          (load32-store32-Apart i (i - 4 - 4 * j) v m (omega arith))
                      ∙ ap (λ a. relocated old esp offset (load32 a m)) (sym there)
                ],
        λ q le. frame q (omega arith) ∙ load8-store32-Apart i q v m (omega arith),
      )
]

relocated-inside :
    (old esp offset v : ℕ) → old < v → v < esp → relocated old esp offset v ≡ (v + offset) % 2 ^ 32
unfolding relocated
relocated-inside old esp offset v above below = ground arith

relocated-outside : (old esp offset v : ℕ) → (v ≤ old) ⊎ (esp ≤ v) → relocated old esp offset v ≡ v
unfolding relocated
relocated-outside old esp offset v out = ground arith

-- Where the stack lies above the first four bytes and the fuel reaches its end, the relocation ends. Each
-- word from the start of the new stack down to its end that points strictly between the old stack pointer
-- and the start of the old stack is then larger by the offset, modulo 2 ^ 32; each other word there is as it
-- was; and so is each byte above the word at the start.
pub relocate-relocated :
    (rounds i low old esp offset : ℕ) (m : Memory)
    → 4 ≤ low
    → i < 2 ^ 32
    → i ≤ low + 4 * rounds
    → (m' : Memory) × (relocate (suc rounds) i low old esp offset m ≡ ok m')
      × ((k : ℕ)
          → low + 4 * k < i
          → (old < load32 (i - 4 * k) m
              → load32 (i - 4 * k) m < esp
              → load32 (i - 4 * k) m' ≡ (load32 (i - 4 * k) m + offset) % 2 ^ 32)
            × ((load32 (i - 4 * k) m ≤ old) ⊎ (esp ≤ load32 (i - 4 * k) m)
                → load32 (i - 4 * k) m' ≡ load32 (i - 4 * k) m))
      × ((q : ℕ) → i + 4 ≤ q → load8 q m' ≡ load8 q m)
relocate-relocated rounds i low old esp offset m above small near =
    let (m', ran, words, frame) = relocate-each rounds i low old esp offset m above small near in
    (
      m',
      ran,
      λ k lt. (
        (λ in_front behind.
            words k lt ∙ relocated-inside old esp offset (load32 (i - 4 * k) m) in_front behind),
        λ out. words k lt ∙ relocated-outside old esp offset (load32 (i - 4 * k) m) out,
      ),
      frame,
    )
