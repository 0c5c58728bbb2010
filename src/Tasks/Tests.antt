-- ===== src/Tasks/Tests.antt =====
-- Three tasks, and the theorems there.
use panda_os.Base.{
  Outcome, ◌%◌, ◌^◌, ◌⊎◌, ℕ, zero, suc, ◌+◌, ◌-◌, ◌*◌, ◌≤◌, ◌<◌, ◌≡◌, refl, List, [], ◌∷◌, ◌==◌,
  if◌then◌else◌, true, some, ok, arith,
}
use panda_os.Tasks.{Task, Tasking, switch_task, fork}
use panda_os.Tasks.Switch.{
  IsRunning, Context, AreFresh, switches, switches-IsRunning, switches_fair,
}
use panda_os.Tasks.Resume.{Distinct, switches-resume}
use panda_os.Tasks.Stack.{relocate, relocate-relocated}
use panda_os.Base.Memory.{Memory, load8, load32, store32}
use panda_os.Paging.Tables.{
  Paging, Machine, empty_page, put_directory, clone_entry, clone_entries, clone_directory,
}
use panda_os.Tasks.Fork.{Forked, fork-Forked}

abbrev task_at : (next : ℕ) → ℕ → Task
task_at next p = record { id = p; esp = 1; ebp = 2; eip = 3; page_directory = p + 4; next = next }

-- The queue 100, 200, 300.
abbrev three_tasks : ℕ → Task
three_tasks p = task_at (if p == 100 then 200 else (if p == 200 then 300 else 0)) p

abbrev three : Tasking
three = record {
  tasks = three_tasks;
  current_task = 200;
  ready_queue = 100;
  next_pid = 4;
  current_directory = 204;
  interrupts = true;
  monitor = record {
    video = λ i. i;
    cursor_x = 0;
    cursor_y = 0;
    background_color = 3;
    foreground_color = 15;
    ports = [];
  };
}

abbrev queue : List ℕ
queue = 100 ∷ 200 ∷ 300 ∷ []

running : IsRunning queue 1 three
running = record {
  queue = (refl, omega arith, (refl, omega arith, (refl, omega arith, refl)));
  several = omega arith;
  number = omega arith;
  current = refl;
}

abbrev context : ℕ → Context
context n = record { esp = n; ebp = n; eip = n }

fresh : AreFresh (context 7 ∷ context 8 ∷ [])
fresh = (omega arith, (omega arith, tt))

switches-IsRunning_example : IsRunning queue 0 (switches (context 7 ∷ context 8 ∷ []) three)
switches-IsRunning_example = switches-IsRunning (context 7 ∷ context 8 ∷ []) running fresh

switches_fair_example : (2 < 3) × ((switches (context 7 ∷ context 8 ∷ []) three).current_task ≡ 100)
switches_fair_example =
    switches_fair 0 (context 7 ∷ context 8 ∷ []) running (omega arith) refl fresh

distinct : Distinct queue
distinct zero zero p q e = refl
distinct zero (suc zero) p q e = absurd (omega (arith, e))
distinct zero (suc (suc zero)) p q e = absurd (omega (arith, e))
distinct (suc zero) zero p q e = absurd (omega (arith, e))
distinct (suc zero) (suc zero) p q e = refl
distinct (suc zero) (suc (suc zero)) p q e = absurd (omega (arith, e))
distinct (suc (suc zero)) zero p q e = absurd (omega (arith, e))
distinct (suc (suc zero)) (suc zero) p q e = absurd (omega (arith, e))
distinct (suc (suc zero)) (suc (suc zero)) p q e = refl
distinct (suc (suc (suc i))) j p q e = absurd (omega (arith, p))
distinct i (suc (suc (suc j))) p q e = absurd (omega (arith, q))

switches-resume_example :
    (switch_task 9 9 9 (switches (context 7 ∷ context 8 ∷ []) three)).1
    ≡ some (record { eip = 7; esp = 7; ebp = 7; page_directory = 204 })
switches-resume_example =
    switches-resume (context 7) (context 9) (context 8 ∷ []) queue 1 three running distinct refl
      fresh (omega arith)

-- Tables and directories from 0x100000 on, by a count of those handed out.
abbrev machine : Machine ℕ
machine = record {
  kmalloc_ap = λ sz s. ok (
    0x10_0000 + s.world * 0x3000,
    0x10_0000 + s.world * 0x3000,
    record s { world = s.world + 1 },
  );
  copy_page_physical = λ src dest w. w;
  garbage = 0xffff_ffff;
}

abbrev no_pages : Paging ℕ
no_pages = record {
  directories = λ d. record {
    tables = λ i. 0;
    tables_physical = λ i. 0;
    physical_address_of_tables_physical = 0;
  };
  pages = λ t i. empty_page;
  frames = record { frames = λ i. 0; frame_count = 4096 };
  world = 0;
}

-- The clone of an empty directory is empty.
clone_entries-empty :
    (left i kernel src dir : ℕ) (s : Paging ℕ)
    → ((k : ℕ) → (s.directories src).tables k ≡ 0)
    → clone_entries machine left i kernel src dir s ≡ ok s
unfolding clone_entries clone_entry
clone_entries-empty zero i kernel src dir s none_there = refl
clone_entries-empty (suc left) i kernel src dir s none_there =
    rw (none_there i) (clone_entries-empty left (i + 1) kernel src dir s none_there)

abbrev cloned_directory : Paging ℕ
cloned_directory = record no_pages {
  directories =
      put_directory 0x10_0000
        (record {
          tables = λ i. 0;
          tables_physical = λ i. 0;
          physical_address_of_tables_physical = 0x10_1000;
        })
        no_pages.directories;
  world = 1;
}

cloned : clone_directory machine 0x200 204 no_pages ≡ ok (0x10_0000, cloned_directory)
unfolding clone_directory put_directory
cloned = rw (clone_entries-empty 1024 0 0x200 204 0x10_0000 cloned_directory (λ k. refl)) refl

abbrev kmalloc : (sz : ℕ) → Paging ℕ → Outcome (ℕ × Paging ℕ)
kmalloc sz p = ok (400, record p { world = p.world + 1 })

fork-Forked_example :
    (s' : Tasking) × (fork machine kmalloc 0x200 3 5 6 7 three no_pages
      ≡ ok (4, s', record cloned_directory { world = 2 }))
    × Forked queue 400 0x10_0000 5 6 7 three s'
fork-Forked_example =
    fork-Forked machine kmalloc 0x200 3 5 6 7 0x10_0000 400 queue three no_pages cloned_directory
      (record cloned_directory { world = 2 }) cloned refl running.queue
      ((omega arith, (omega arith, tt)), ((omega arith, tt), (tt, tt))) (omega arith) (omega arith)
      (omega arith) (omega arith, (omega arith, (omega arith, tt)))

-- The word 1020 at 100 points into the stack from 1000 to 1040, which moves up by 500.
relocate-relocated_example :
    (m' : Memory) × (relocate 4 104 92 1000 1040 500 (store32 100 1020 (λ a. 0)) ≡ ok m')
    × ((k : ℕ)
        → 92 + 4 * k < 104
        → (1000 < load32 (104 - 4 * k) (store32 100 1020 (λ a. 0))
            → load32 (104 - 4 * k) (store32 100 1020 (λ a. 0)) < 1040
            → load32 (104 - 4 * k) m'
              ≡ (load32 (104 - 4 * k) (store32 100 1020 (λ a. 0)) + 500) % 2 ^ 32)
          × ((load32 (104 - 4 * k) (store32 100 1020 (λ a. 0)) ≤ 1000)
                ⊎ (1040 ≤ load32 (104 - 4 * k) (store32 100 1020 (λ a. 0)))
              → load32 (104 - 4 * k) m' ≡ load32 (104 - 4 * k) (store32 100 1020 (λ a. 0))))
    × ((q : ℕ) → 108 ≤ q → load8 q m' ≡ load8 q (store32 100 1020 (λ a. 0)))
relocate-relocated_example =
    relocate-relocated 3 104 92 1000 1040 500 (store32 100 1020 (λ a. 0)) (omega arith)
      (omega arith) (omega arith)
