-- ===== src/Tasks/Switch.antt =====
-- `switch_task` goes round the queue.
use panda_os.Base.{
  ℕ, suc, ◌+◌, ◌-◌, ◌%◌, ◌≤◌, ◌<◌, ◌≡◌, ◌≢◌, refl, ap, sym, ◌∙◌, List, [], ◌∷◌, length, get_or,
  ◌==◌, leb, ◌&&◌, false, some, if◌then◌else◌, arith, Bool-cases, inl, inr,
}
use mathlib.Core.Path.{subst}
use native.Mathlib.Nat.{mod-lt, mod-eq_of_lt, mod_self, mod-add-mod, add-mod_left}
use panda_os.Tasks.{Task, Tasking, put_task, after, switch_to_next, switch_task}
use panda_os.Tasks.Queue.{Queue, Queue-next, Queue-same, next-put_task}

-- Task number i of the queue ts runs, and there are others.
pub record IsRunning (ts : List ℕ) (i : ℕ) (s : Tasking) : Type 0 where
  pub queue : Queue s.tasks s.ready_queue ts
  pub several : 2 ≤ length ts
  pub number : i < length ts
  pub current : s.current_task ≡ get_or ts i 0

-- The null pointer stands behind the end of a list.
get_or-end : (ts : List ℕ) → get_or ts (length ts) 0 ≡ 0
get_or-end [] = refl
get_or-end (t ∷ ts) = get_or-end ts

Queue-head : (tasks : ℕ → Task) (p : ℕ) (ts : List ℕ) → Queue tasks p ts → p ≡ get_or ts 0 0
Queue-head tasks p [] q = q
Queue-head tasks p (t ∷ ts) q = q.0

module _ {ts : List ℕ} {i : ℕ} {s : Tasking} (r : IsRunning ts i s) where
  pub next_lem : after (s.tasks s.current_task).next s.ready_queue ≡ get_or ts (suc i % length ts) 0
  next_lem =
      let (n, pos) = Queue-next s.tasks s.ready_queue ts i r.queue r.number in
      let to : (s.tasks s.current_task).next ≡ get_or ts (suc i) 0 =
        ap (λ p. (s.tasks p).next) r.current ∙ n in
      elim (Bool-cases (suc i == length ts)) [
        | inl last ↦
            let e : suc i ≡ length ts = ground arith in
            let null : (s.tasks s.current_task).next ≡ 0 =
              to ∙ ap (λ k. get_or ts k 0) e ∙ get_or-end ts in
            let start : suc i % length ts ≡ 0 = ap (λ k. k % length ts) e ∙ mod_self (length ts) in
            rw (null, start) (Queue-head s.tasks s.ready_queue ts r.queue)
        | inr more ↦
            let ne : suc i ≢ length ts = ground arith in
            let lt : suc i < length ts = omega (arith, r.number) in
            let same : suc i % length ts ≡ suc i = mod-eq_of_lt lt in
            let (_, pos') = Queue-next s.tasks s.ready_queue ts (suc i) r.queue lt in
            let on : (get_or ts (suc i) 0 == 0) ≡ false = ground arith in rw (to, same, on)
      ]

  -- Neither of the first two tests of `switch_task` holds.
  not_alone :
      ((s.current_task == 0) ≡ false)
      × ((s.current_task == s.ready_queue && (s.tasks s.current_task).next == 0) ≡ false)
  not_alone =
      let (_, pos) = Queue-next s.tasks s.ready_queue ts i r.queue r.number in
      let first = Queue-head s.tasks s.ready_queue ts r.queue in
      let (to, _) = Queue-next s.tasks s.ready_queue ts 0 r.queue (omega (arith, r.several)) in
      let (_, second) = Queue-next s.tasks s.ready_queue ts 1 r.queue (omega (arith, r.several)) in
      (
        ground (arith, r.current),
        elim (Bool-cases (s.current_task == s.ready_queue)) [
          | inl t ↦
              let at : s.current_task ≡ get_or ts 0 0 = ground arith in
              let n : (s.tasks s.current_task).next ≡ get_or ts 1 0 =
                ap (λ p. (s.tasks p).next) at ∙ to in
              rw t (ground arith)
          | inr f ↦ rw f
        ],
      )

  -- The state in which the next task of the queue runs.
  pub switch_to_next-IsRunning :
      (esp ebp eip : ℕ) → IsRunning ts (suc i % length ts) (switch_to_next esp ebp eip s).0
  unfolding switch_to_next
  switch_to_next-IsRunning esp ebp eip =
      let old = s.tasks s.current_task in
      let saved = record old { eip = eip; esp = esp; ebp = ebp } in
      let same = λ (t : ℕ). next-put_task s.current_task saved s.tasks t refl in
      let n : 0 < length ts = omega (arith, r.several) in
      record {
        queue =
            Queue-same s.tasks (put_task s.current_task saved s.tasks) s.ready_queue ts same
              r.queue;
        several = r.several;
        number = mod-lt (suc i) n;
        current = ap (λ k. after k s.ready_queue) (same s.current_task) ∙ next_lem;
      }

  pub switch_task-next :
      (esp ebp eip : ℕ)
      → eip ≢ 0x12345
      → switch_task esp ebp eip s
        ≡ ((switch_to_next esp ebp eip s).0, some (switch_to_next esp ebp eip s).1)
  unfolding switch_task
  switch_task-next esp ebp eip ne =
      let fresh : (eip == 0x12345) ≡ false = ground arith in rw (not_alone.0, not_alone.1, fresh)

-- The registers at the time of a switch, and what `read_eip` returns.
pub record Context : Type 0 where
  pub esp : ℕ
  pub ebp : ℕ
  pub eip : ℕ

-- A sequence of switches, each from the task that the one before has brought in.
unfoldable pub switches : List Context → Tasking → Tasking
switches [] s = s
switches (c ∷ cs) s = switches cs (switch_task c.esp c.ebp c.eip s).0

-- No instruction stands at the address by which `switch_task` tells that a task has come back.
abbrev pub AreFresh : List Context → Type 0
AreFresh [] = Unit {0}
AreFresh (c ∷ cs) = (c.eip ≢ 0x12345) × AreFresh cs

-- Switching goes round the queue: from task i of n, after any number k of switches task (i + k) % n
-- runs, and the queue is what it was.
pub switches-IsRunning :
    (cs : List Context) {ts : List ℕ} {i : ℕ} {s : Tasking}
    → IsRunning ts i s
    → AreFresh cs
    → IsRunning ts ((i + length cs) % length ts) (switches cs s)
unfolding switches
switches-IsRunning [] {ts} {i} {s} r fresh =
    let here : (i + 0) % length ts ≡ i =
      ap (λ k. k % length ts) (omega arith) ∙ mod-eq_of_lt r.number in
    subst (λ k. IsRunning ts k s) (sym here) r
switches-IsRunning (c ∷ cs) {ts} {i} {s} r fresh =
    let s' = (switch_to_next c.esp c.ebp c.eip s).0 in
    let rest = switches-IsRunning cs (switch_to_next-IsRunning r c.esp c.ebp c.eip) fresh.1 in
    let place : (suc i % length ts + length cs) % length ts ≡ (i + suc (length cs)) % length ts =
      mod-add-mod (suc i) (length ts) (length cs) ∙ ap (λ k. k % length ts) (omega arith) in
    let step = ap (λ p. switches cs p.0) (switch_task-next r c.esp c.ebp c.eip fresh.0) in
    subst (λ k. IsRunning ts k (switches cs (switch_task c.esp c.ebp c.eip s).0)) place
      (subst (λ t. IsRunning ts ((suc i % length ts + length cs) % length ts) t) (sym step) rest)

-- The number of switches after which the turn passes from task i to task j of n.
abbrev pub turns : (i j n : ℕ) → ℕ
turns i j n = if leb i j then j - i else n - i + j

-- Every task of the queue gets its turn: task j runs after fewer switches than there are tasks,
-- whatever the others do in the meantime.
pub switches_fair :
    (j : ℕ) (cs : List Context) {ts : List ℕ} {i : ℕ} {s : Tasking}
    → IsRunning ts i s
    → j < length ts
    → length cs ≡ turns i j (length ts)
    → AreFresh cs
    → (length cs < length ts) × ((switches cs s).current_task ≡ get_or ts j 0)
switches_fair j cs {ts} {i} {s} r h count fresh =
    let runs = (switches-IsRunning cs r fresh).current in
    elim (Bool-cases (leb i j)) [
      | inl t ↦
          let sum : i + length cs ≡ j = ground (arith, count) in
          (
            ground (arith, r.number, count),
            runs ∙ ap (λ m. get_or ts m 0) (ap (λ m. m % length ts) sum ∙ mod-eq_of_lt h),
          )
      | inr f ↦
          let sum : i + length cs ≡ length ts + j = ground (arith, r.number, count) in
          (
            ground (arith, r.number, count),
            runs
                ∙ ap (λ m. get_or ts m 0)
                    (ap (λ m. m % length ts) sum ∙ add-mod_left (length ts) j ∙ mod-eq_of_lt h),
          )
    ]
