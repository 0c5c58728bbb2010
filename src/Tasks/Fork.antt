-- ===== src/Tasks/Fork.antt =====
-- `fork` adds a task to the queue.
use panda_os.Base.{
  Outcome, ℕ, zero, suc, ◌+◌, ◌%◌, ◌^◌, ◌≤◌, ◌<◌, ◌≡◌, ◌≢◌, refl, ap, sym, ◌∙◌, List, [], ◌∷◌, ◌++◌,
  length, All, ◌==◌, false, true, ok, arith, Bool-cases, inl, inr,
}
use mathlib.Core.Path.{subst}
use panda_os.Tasks.{Task, Tasking, put_task, last_task, add_task, fork_start, fork_finish, fork}
use panda_os.Paging.Tables.{Paging, Machine, clone_directory}
use panda_os.Tasks.Queue.{Queue, Queue-same, next-put_task, put_task-ne, put_task_self}

-- A task that is not in the queue can be written without touching it.
Queue-put_task :
    (p : ℕ) (t : Task) (tasks : ℕ → Task) (q : ℕ) (ts : List ℕ)
    → All (λ u. u ≢ p) ts
    → Queue tasks q ts
    → Queue (put_task p t tasks) q ts
Queue-put_task p t tasks q [] out h = h
Queue-put_task p t tasks q (u ∷ ts) out h = (
  h.0,
  h.1,
  subst (λ n. Queue (put_task p t tasks) n ts)
      (ap (λ (v : Task). v.next) (sym (put_task-ne p u t tasks out.0)))
      (Queue-put_task p t tasks (tasks u).next ts out.1 h.2),
)

-- No task stands in the queue twice.
abbrev pub IsUnique : List ℕ → Type 0
IsUnique [] = Unit {0}
IsUnique (t ∷ ts) = All (λ u. u ≢ t) ts × IsUnique ts

-- The loop of `fork` finds the last task, behind which the new one can be linked.
link :
    (fuel : ℕ) (tasks : ℕ → Task) (p new : ℕ) (ts : List ℕ)
    → Queue tasks p ts
    → IsUnique ts
    → 0 < length ts
    → length ts ≤ fuel
    → 0 < new
    → All (λ u. u ≢ new) ts
    → (tasks new).next ≡ 0
    → (last : ℕ) × (last_task fuel p tasks ≡ ok last)
      × Queue (put_task last (record (tasks last) { next = new }) tasks) p (ts ++ new ∷ [])
      × ((x : ℕ) → All (λ u. u ≢ x) ts → last ≢ x)
unfolding last_task
link zero tasks p new ts q u some_task lt pos out end = absurd (omega arith)
link (suc fuel) tasks p new [] q u some_task lt pos out end = absurd (omega arith)
link (suc fuel) tasks p new (t ∷ []) q u some_task lt pos out end =
    let at : (tasks p).next ≡ 0 = ap (λ v. (tasks v).next) q.0 ∙ q.2 in
    let held = record (tasks p) { next = new } in
    let tasks' = put_task p held tasks in
    let linked : (tasks' t).next ≡ new =
      ap (λ v. (tasks' v).next) (sym q.0)
      ∙ ap (λ (v : Task). v.next) (put_task_self p held tasks) in
    let ne : new ≢ p = λ e. out.0 (sym q.0 ∙ sym e) in
    let stop = ap (λ (v : Task). v.next) (put_task-ne p new held tasks ne) ∙ end in
    (p, rw at, (q.0, q.1, (linked, pos, stop)), λ x apart e. apart.0 (sym q.0 ∙ e))
link (suc fuel) tasks p new (t ∷ v ∷ ts) q u some_task lt pos out end =
    let (last, ran, q', in_rest) =
      link fuel tasks (tasks t).next new (v ∷ ts) q.2 u.1 (omega arith) (omega arith) pos out.1
        end in
    let held = record (tasks last) { next = new } in
    let tasks' = put_task last held tasks in
    let at : (tasks p).next ≡ (tasks t).next = ap (λ w. (tasks w).next) q.0 in
    let on : ((tasks t).next == 0) ≡ false = ground (arith, q.2.0, q.2.1) in
    let spared : t ≢ last = λ e. in_rest t u.0 (sym e) in
    let same = ap (λ (w : Task). w.next) (put_task-ne last t held tasks spared) in
    (
      last,
      rw (at, on) ran,
      (q.0, q.1, subst (λ n. Queue tasks' n (v ∷ (ts ++ new ∷ []))) (sym same) q'),
      λ x apart. in_rest x apart.1,
    )

-- What a fork leaves: the new task at the end of the queue, with the next number, the directory and
-- the registers given, and the parent running as before with interrupts on.
pub record Forked (ts : List ℕ) (new directory esp ebp eip : ℕ) (s s' : Tasking) : Type 0 where
  pub queue : Queue s'.tasks s'.ready_queue (ts ++ new ∷ [])
  pub number : (s'.tasks new).id ≡ s.next_pid
  pub directory_set : (s'.tasks new).page_directory ≡ directory
  pub esp_set : (s'.tasks new).esp ≡ esp
  pub ebp_set : (s'.tasks new).ebp ≡ ebp
  pub eip_set : (s'.tasks new).eip ≡ eip
  pub running : s'.current_task ≡ s.current_task
  pub parent_id : (t : ℕ) → t ≢ new → (s'.tasks t).id ≡ (s.tasks t).id
  pub later : s'.next_pid ≡ (s.next_pid + 1) % 2 ^ 32
  pub enabled : s'.interrupts ≡ true

id-put_task :
    (p : ℕ) (t : Task) (tasks : ℕ → Task) (q : ℕ)
    → t.id ≡ (tasks p).id
    → (put_task p t tasks q).id ≡ (tasks q).id
unfolding put_task
id-put_task p t tasks q e = elim (Bool-cases (q == p)) [
  | inl same ↦ let at : q ≡ p = ground arith in rw (same, at) e
  | inr other ↦ rw other
]

-- The two halves of `fork` behind the calls of `clone_directory` and `kmalloc`.
add_task-Forked :
    (fuel directory new esp ebp eip : ℕ) (ts : List ℕ) (s : Tasking)
    → Queue s.tasks s.ready_queue ts
    → IsUnique ts
    → 0 < length ts
    → length ts ≤ fuel
    → 0 < new
    → All (λ u. u ≢ new) ts
    → (s₁ : Tasking) × (s' : Tasking) × (add_task fuel directory new s ≡ ok s₁)
      × (fork_finish s.current_task new esp ebp eip s₁ ≡ (s.next_pid, s'))
      × Forked ts new directory esp ebp eip s s'
unfolding add_task fork_finish
add_task-Forked fuel directory new esp ebp eip ts s q u some_task enough pos out =
    let child : Task = record {
      id = s.next_pid;
      esp = 0;
      ebp = 0;
      eip = 0;
      page_directory = directory;
      next = 0;
    } in
    let tasks = put_task new child s.tasks in
    let born = put_task_self new child s.tasks in
    let (last, ran, linked, in_queue) =
      link fuel tasks s.ready_queue new ts (Queue-put_task new child s.tasks s.ready_queue ts out q)
        u some_task enough pos out (ap (λ (t : Task). t.next) born) in
    let held = record (tasks last) { next = new } in
    let tasks₁ = put_task last held tasks in
    let spared : new ≢ last = λ e. in_queue new out (sym e) in
    let kept : tasks₁ new ≡ child = put_task-ne last new held tasks spared ∙ born in
    let final = record (tasks₁ new) { esp = esp; ebp = ebp; eip = eip } in
    let tasks₂ = put_task new final tasks₁ in
    let made : tasks₂ new ≡ final = put_task_self new final tasks₁ in
    let self : (s.current_task == s.current_task) ≡ true = ground arith in
    let s₁ = record s {
      tasks = tasks₁;
      next_pid = (s.next_pid + 1) % 2 ^ 32;
      interrupts = false;
    } in
    let s' = record s { tasks = tasks₂; next_pid = (s.next_pid + 1) % 2 ^ 32; interrupts = true } in
    (
      s₁,
      s',
      rw ran,
      rw self (ap (λ (t : Task). (t.id, s')) kept),
      record {
        queue =
            Queue-same tasks₁ tasks₂ s.ready_queue (ts ++ new ∷ [])
              (λ t. next-put_task new final tasks₁ t refl) linked;
        number = ap (λ (t : Task). t.id) made ∙ ap (λ (t : Task). t.id) kept;
        directory_set =
            ap (λ (t : Task). t.page_directory) made ∙ ap (λ (t : Task). t.page_directory) kept;
        esp_set = ap (λ (t : Task). t.esp) made;
        ebp_set = ap (λ (t : Task). t.ebp) made;
        eip_set = ap (λ (t : Task). t.eip) made;
        running = refl;
        parent_id = λ t ne.
            id-put_task new final tasks₁ t refl
            ∙ id-put_task last held tasks t refl
            ∙ ap (λ (w : Task). w.id) (put_task-ne new t child s.tasks ne);
        later = refl;
        enabled = refl;
      },
    )

module _ {World : Type 0} (machine : Machine World)
    (kmalloc : (sz : ℕ) → Paging World → Outcome (ℕ × Paging World)) (kernel : ℕ) where
  -- Let the queue have no repetitions, `clone_directory` of the current directory return one, and `kmalloc`
  -- after it return an address that is not yet in the queue, neither of them stopping the machine. Then `fork`
  -- comes to an end and returns the next number. The new task stands at the end of the queue with that
  -- number, the directory that `clone_directory` has returned and the registers of the caller; the caller
  -- goes on, no other task's number has changed, and interrupts are on again.
  pub fork-Forked :
      (fuel esp ebp eip directory new : ℕ) (ts : List ℕ) (s : Tasking)
      (paging cloned paging' : Paging World)
      → clone_directory machine kernel s.current_directory paging ≡ ok (directory, cloned)
      → kmalloc 24 cloned ≡ ok (new, paging')
      → Queue s.tasks s.ready_queue ts
      → IsUnique ts
      → 0 < length ts
      → length ts ≤ fuel
      → 0 < new
      → All (λ u. u ≢ new) ts
      → (s' : Tasking) × (fork machine kmalloc kernel fuel esp ebp eip s paging
          ≡ ok (s.next_pid, s', paging'))
        × Forked ts new directory esp ebp eip s s'
  unfolding fork fork_start
  fork-Forked fuel esp ebp eip directory new ts s paging cloned paging' clones room q u some_task
        enough pos out =
      let (s₁, s', added, finished, f) =
        add_task-Forked fuel directory new esp ebp eip ts s q u some_task enough pos out in
      (s', rw (clones, room, added) (ap (λ r. ok (r.0, r.1, paging')) finished), f)
