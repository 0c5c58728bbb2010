-- ===== src/Tasks/Resume.antt =====
-- A task that comes back finds its registers.
use panda_os.Base.{
  ℕ, suc, ◌+◌, ◌-◌, ◌%◌, ◌≤◌, ◌<◌, ◌≡◌, ◌≢◌, refl, ap, sym, ◌∙◌, List, [], ◌∷◌, length, get_or, ltb,
  false, some, arith, Bool-cases, inl, inr,
}
use mathlib.Core.Path.{subst}
use native.Mathlib.Nat.{mod-lt, mod-eq_of_lt, mod-eq-sub-mod, mod-add-mod, add-mod_right}
use panda_os.Tasks.Queue.{next-put_task, put_task-ne, put_task_self}
use panda_os.Tasks.{Task, Tasking, Jump, put_task, after, switch_to_next, switch_task}
use panda_os.Tasks.Switch.{
  IsRunning, next_lem, Context, AreFresh, switches, switch_to_next-IsRunning, switch_task-next,
  switches-IsRunning,
}

-- No task stands in the queue twice.
abbrev pub Distinct : List ℕ → Type 0
Distinct ts = (i j : ℕ) → i < length ts → j < length ts → get_or ts i 0 ≡ get_or ts j 0 → i ≡ j

-- Going less than once round leads elsewhere.
elsewhere : (i m n : ℕ) → i < n → 0 < m → m < n → (i + m) % n ≢ i
elsewhere i m n lt pos less e = elim (Bool-cases (ltb (i + m) n)) [
  | inl t ↦ let here = mod-eq_of_lt {n = i + m} {m = n} (ground arith) in omega (arith, here, e)
  | inr f ↦
      let wrapped : (i + m) % n ≡ (i + m - n) % n = mod-eq-sub-mod (ground arith) in
      let low : (i + m - n) % n ≡ i + m - n = mod-eq_of_lt (ground arith) in
      omega (arith, wrapped, low, e, pos, less, (ltb→le f))
]
  where
    ltb→le : ltb (i + m) n ≡ false → n ≤ i + m
    ltb→le g = ground arith

-- While other tasks run, the fields of a task stay.
switches-keep :
    (cs : List Context) (ts : List ℕ) (i m : ℕ) (s : Tasking)
    → Distinct ts
    → i < length ts
    → 0 < m
    → m + length cs ≤ length ts
    → IsRunning ts ((i + m) % length ts) s
    → AreFresh cs
    → (switches cs s).tasks (get_or ts i 0) ≡ s.tasks (get_or ts i 0)
unfolding switches switch_to_next
switches-keep [] ts i m s apart lt pos room r fresh = refl
switches-keep (c ∷ cs) ts i m s apart lt pos room r fresh =
    let s' = (switch_to_next c.esp c.ebp c.eip s).0 in
    let place : suc ((i + m) % length ts) % length ts ≡ (i + suc m) % length ts =
      ap (λ k. k % length ts) (omega arith)
      ∙ mod-add-mod (i + m) (length ts) 1
      ∙ ap (λ k. k % length ts) (omega arith) in
    let r' = subst (λ k. IsRunning ts k s') place (switch_to_next-IsRunning r c.esp c.ebp c.eip) in
    let ne : get_or ts i 0 ≢ s.current_task = λ e.
      elsewhere i m (length ts) lt pos (omega arith)
        (sym (apart i ((i + m) % length ts) lt r.number (e ∙ r.current))) in
    let step = ap (λ p. p.0) (switch_task-next r c.esp c.ebp c.eip fresh.0) in
    ap (λ t. (switches cs t).tasks (get_or ts i 0)) step
    ∙ switches-keep cs ts i (suc m) s' apart lt (omega arith) (omega arith) r' fresh.1
    ∙ put_task-ne s.current_task (get_or ts i 0) _ s.tasks ne

abbrev jump_of : Task → Jump
jump_of t = record { eip = t.eip; esp = t.esp; ebp = t.ebp; page_directory = t.page_directory }

-- A switch to another task jumps to where that task is.
switch_to_next-jump :
    {ts : List ℕ} {k : ℕ} {s : Tasking} (r : IsRunning ts k s) (esp ebp eip : ℕ)
    → get_or ts (suc k % length ts) 0 ≢ s.current_task
    → (switch_to_next esp ebp eip s).1 ≡ jump_of (s.tasks (get_or ts (suc k % length ts) 0))
unfolding switch_to_next
switch_to_next-jump {ts} {k} {s} r esp ebp eip ne =
    let saved = record (s.tasks s.current_task) { eip = eip; esp = esp; ebp = ebp } in
    let tasks = put_task s.current_task saved s.tasks in
    let to : after (tasks s.current_task).next s.ready_queue ≡ get_or ts (suc k % length ts) 0 =
      ap (λ q. after q s.ready_queue)
        (next-put_task s.current_task saved s.tasks s.current_task refl)
      ∙ next_lem r in
    ap (λ q. jump_of (tasks q)) to
    ∙ ap jump_of (put_task-ne s.current_task (get_or ts (suc k % length ts) 0) saved s.tasks ne)

-- A task that was switched out at i comes back after one round: the last of n switches among n tasks
-- jumps to where it was, with the stack it had and its own page directory.
pub switches-resume :
    (c d : Context) (cs : List Context) (ts : List ℕ) (i : ℕ) (s : Tasking)
    → IsRunning ts i s
    → Distinct ts
    → length cs + 2 ≡ length ts
    → AreFresh (c ∷ cs)
    → d.eip ≢ 0x12345
    → (switch_task d.esp d.ebp d.eip (switches (c ∷ cs) s)).1
      ≡ some (record {
        eip = c.eip;
        esp = c.esp;
        ebp = c.ebp;
        page_directory = (s.tasks s.current_task).page_directory;
      })
unfolding switches switch_to_next
switches-resume c d cs ts i s r apart round fresh last =
    let t = get_or ts i 0 in
    let n = length ts in
    let saved = record (s.tasks s.current_task) { eip = c.eip; esp = c.esp; ebp = c.ebp } in
    let s₁ = (switch_to_next c.esp c.ebp c.eip s).0 in
    let s₂ = switches cs s₁ in
    let start : suc i % n ≡ (i + 1) % n = ap (λ k. k % n) (omega arith) in
    let r₀ = switch_to_next-IsRunning r c.esp c.ebp c.eip in
    let r₁ = subst (λ k. IsRunning ts k s₁) start r₀ in
    let kept = switches-keep cs ts i 1 s₁ apart r.number (omega arith) (omega arith) r₁ fresh.1 in
    let held : s₁.tasks t ≡ saved =
      ap s₁.tasks (sym r.current) ∙ put_task_self s.current_task saved s.tasks in
    let r₂ = switches-IsRunning cs r₀ fresh.1 in
    let k = (suc i % n + length cs) % n in
    let back : suc k % n ≡ i =
      ap (λ x. x % n) (omega arith)
      ∙ mod-add-mod (suc i % n + length cs) n 1
      ∙ ap (λ x. x % n) (omega arith)
      ∙ mod-add-mod (suc i) n (length cs + 1)
      ∙ ap (λ x. x % n) (omega arith)
      ∙ add-mod_right i n
      ∙ mod-eq_of_lt r.number in
    let home = ap (λ x. get_or ts x 0) back in
    let ne : get_or ts (suc k % n) 0 ≢ s₂.current_task = λ e.
      elsewhere k 1 n r₂.number (omega arith) (omega (arith, round)) (
        ap (λ x. x % n) (omega arith)
        ∙ apart (suc k % n) k (mod-lt (suc k) (omega (arith, round))) r₂.number (e ∙ r₂.current)) in
    let step =
      ap (λ p. switch_task d.esp d.ebp d.eip (switches cs p.0))
        (switch_task-next r c.esp c.ebp c.eip fresh.0) in
    ap (λ p. p.1) (step ∙ switch_task-next r₂ d.esp d.ebp d.eip last)
    ∙ ap some (
        switch_to_next-jump r₂ d.esp d.ebp d.eip ne
        ∙ ap (λ u. jump_of (s₂.tasks u)) home
        ∙ ap jump_of (kept ∙ held))
