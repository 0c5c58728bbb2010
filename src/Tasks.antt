-- ===== src/Tasks.antt =====
-- process/task.c: the queue of tasks, switching and forking. Task structures live in a store from
-- addresses to their fields; 0 is the null pointer.
pub mod Queue
pub mod Switch
pub mod Fork
pub mod Resume
pub mod Stack
mod Tests
use panda_os.Base.{
  ℕ, zero, suc, ◌+◌, Bool, true, false, ◌&&◌, Option, none, some, ◌==◌, if◌then◌else◌, add32,
  Outcome, ok, out_of_fuel, ◌>>=◌,
}
use panda_os.Base.Text.{bytes}
use panda_os.Monitor.{Monitor, monitor_write}
use panda_os.Paging.Tables.{Paging, Machine, clone_directory}

-- `task_t`.
pub record Task : Type 0 where
  pub id : ℕ
  pub esp : ℕ
  pub ebp : ℕ
  pub eip : ℕ
  pub page_directory : ℕ
  pub next : ℕ

-- The globals, the store, and the interrupt flag of the processor.
pub record Tasking : Type 0 where
  pub tasks : ℕ → Task
  pub current_task : ℕ
  pub ready_queue : ℕ
  pub next_pid : ℕ
  pub current_directory : ℕ
  pub interrupts : Bool
  pub monitor : Monitor

-- Where a switch goes: the registers that are loaded, and the directory for CR3.
pub record Jump : Type 0 where
  pub eip : ℕ
  pub esp : ℕ
  pub ebp : ℕ
  pub page_directory : ℕ

unfoldable pub put_task : (p : ℕ) → Task → (ℕ → Task) → ℕ → Task
put_task p t tasks q = if q == p then t else tasks q

-- `current_task = current_task->next; if (!current_task) current_task = ready_queue;`
abbrev pub after : (next ready_queue : ℕ) → ℕ
after next ready_queue = if next == 0 then ready_queue else next

-- The end of `switch_task`, from the saving of the registers on.
unfoldable pub switch_to_next : (esp ebp eip : ℕ) → Tasking → Tasking × Jump
switch_to_next esp ebp eip s =
    let old = s.tasks s.current_task in
    let tasks = put_task s.current_task (record old { eip = eip; esp = esp; ebp = ebp }) s.tasks in
    let next = after (tasks s.current_task).next s.ready_queue in
    let t = tasks next in
    (
      record s {
        tasks = tasks;
        current_task = next;
        current_directory = t.page_directory;
        interrupts = true;
      },
      record { eip = t.eip; esp = t.esp; ebp = t.ebp; page_directory = t.page_directory },
    )

abbrev say : (text : Monitor → Monitor) → Tasking → Tasking × Option Jump
say text s = (record s { monitor = text s.monitor }, none)

-- `esp` and `ebp` are the registers, and `eip` is what `read_eip()` returns. `none` is a return to the
-- caller, and a jump is the end of the task's run.
unfoldable pub switch_task : (esp ebp eip : ℕ) → Tasking → Tasking × Option Jump
unfolding switch_to_next
switch_task esp ebp eip s =
    if s.current_task == 0
    then say (monitor_write (bytes "Error: attempted to switch tasks before enabling tasking\n")) s
    else (if s.current_task == s.ready_queue && (s.tasks s.current_task).next == 0
        then say (monitor_write (bytes "only one task found, not going to switch\n")) s
        else (if eip == 0x12345
            then say (monitor_write (bytes "parent task found, return\n")) s
            else (let (s', jump) = switch_to_next esp ebp eip s in (s', some jump))))

-- `while (tmp_task->next) tmp_task = tmp_task->next;`
unfoldable pub last_task : (fuel p : ℕ) → (ℕ → Task) → Outcome ℕ
last_task zero p tasks = out_of_fuel
last_task (suc fuel) p tasks =
    let rest = last_task fuel (tasks p).next tasks in if (tasks p).next == 0 then ok p else rest

-- The rest of `fork` up to `read_eip`, with the directory and the memory that it has asked for. `fork` turns
-- interrupts off before it asks, which only this part shows.
unfoldable pub add_task : (fuel directory new_task : ℕ) → Tasking → Outcome Tasking
add_task fuel directory new_task s =
    let child : Task = record {
      id = s.next_pid;
      esp = 0;
      ebp = 0;
      eip = 0;
      page_directory = directory;
      next = 0;
    } in
    let tasks = put_task new_task child s.tasks in
    last_task fuel s.ready_queue tasks >>= λ last. ok (record s {
      tasks = put_task last (record (tasks last) { next = new_task }) tasks;
      next_pid = add32 s.next_pid 1;
      interrupts = false;
    })

-- `fork` from `read_eip` on, which both tasks run: the parent at once, the child when it is switched
-- to. `parent_task` and `new_task` are local variables, of which the child has copies.
unfoldable pub fork_finish : (parent_task new_task esp ebp eip : ℕ) → Tasking → ℕ × Tasking
fork_finish parent_task new_task esp ebp eip s =
    let t = s.tasks new_task in
    if s.current_task == parent_task
    then (
      t.id,
      record s {
        tasks = put_task new_task (record t { esp = esp; ebp = ebp; eip = eip }) s.tasks;
        interrupts = true;
      },
    )
    else (0, s)

-- `kmalloc` is that of memory/kheap.c, on the state of paging, which has that of the allocator in it, and
-- `kernel` the address of the kernel's directory.
module _ {World : Type 0} (machine : Machine World)
    (kmalloc : (sz : ℕ) → Paging World → Outcome (ℕ × Paging World)) (kernel : ℕ) where
  -- `fork` up to `read_eip`: a clone of the current directory, sizeof(task_t) = 24 bytes for the task, and
  -- its place in the queue. The address of the task is returned too.
  unfoldable pub fork_start :
      (fuel : ℕ) → Tasking → Paging World → Outcome (ℕ × Tasking × Paging World)
  fork_start fuel s paging = do
    (directory, cloned) ← clone_directory machine kernel s.current_directory paging
    (new_task, paging') ← kmalloc 24 cloned
    s' ← add_task fuel directory new_task s
    ok (new_task, s', paging')

  unfoldable pub fork :
      (fuel esp ebp eip : ℕ) → Tasking → Paging World → Outcome (ℕ × Tasking × Paging World)
  fork fuel esp ebp eip s paging = do
    (new_task, s', paging') ← fork_start fuel s paging
    let (id, s'') = fork_finish s.current_task new_task esp ebp eip s'
    ok (id, s'', paging')

unfoldable pub getpid : Tasking → ℕ
getpid s = (s.tasks s.current_task).id

-- `initialise_tasking` after `move_stack`; `root` is the address that `kmalloc` returns.
unfoldable pub initialise_tasking : (root : ℕ) → Tasking → Tasking
initialise_tasking root s = record s {
  tasks =
      put_task root
        (record {
          id = s.next_pid;
          esp = 0;
          ebp = 0;
          eip = 0;
          page_directory = s.current_directory;
          next = 0;
        })
        s.tasks;
  current_task = root;
  ready_queue = root;
  next_pid = add32 s.next_pid 1;
  interrupts = true;
}
