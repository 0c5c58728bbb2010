-- ===== src/Tasks/Queue.antt =====
-- The linked list of tasks as a list of addresses.
use panda_os.Base.{
  ℕ, zero, suc, ◌<◌, ◌≡◌, ◌≢◌, sym, List, [], ◌∷◌, length, get_or, ◌==◌, false, true, arith,
  Bool-cases, inl, inr,
}
use mathlib.Core.Path.{subst}
use panda_os.Tasks.{Task, put_task}

-- From p the `next` pointers lead through the tasks ts to the null pointer.
abbrev pub Queue : (tasks : ℕ → Task) (p : ℕ) (ts : List ℕ) → Type 0
Queue tasks p [] = p ≡ 0
Queue tasks p (t ∷ ts) = (p ≡ t) × (0 < t) × Queue tasks (tasks t).next ts

-- Behind each task comes the next of the list, and behind the last the null pointer.
pub Queue-next :
    (tasks : ℕ → Task) (p : ℕ) (ts : List ℕ) (i : ℕ)
    → Queue tasks p ts
    → i < length ts
    → ((tasks (get_or ts i 0)).next ≡ get_or ts (suc i) 0) × (0 < get_or ts i 0)
Queue-next tasks p [] i q h = absurd (omega arith)
Queue-next tasks p (t ∷ []) zero q h = (q.2, q.1)
Queue-next tasks p (t ∷ u ∷ ts) zero q h = (q.2.0, q.1)
Queue-next tasks p (t ∷ ts) (suc i) q h = Queue-next tasks (tasks t).next ts i q.2 (omega arith)

-- A change that spares the `next` pointers leaves the queue alone.
pub Queue-same :
    (tasks tasks' : ℕ → Task) (p : ℕ) (ts : List ℕ)
    → ((t : ℕ) → (tasks' t).next ≡ (tasks t).next)
    → Queue tasks p ts
    → Queue tasks' p ts
Queue-same tasks tasks' p [] same q = q
Queue-same tasks tasks' p (t ∷ ts) same q = (
  q.0,
  q.1,
  subst (λ n. Queue tasks' n ts) (sym (same t))
      (Queue-same tasks tasks' (tasks t).next ts same q.2),
)

pub next-put_task :
    (p : ℕ) (t : Task) (tasks : ℕ → Task) (q : ℕ)
    → t.next ≡ (tasks p).next
    → (put_task p t tasks q).next ≡ (tasks q).next
unfolding put_task
next-put_task p t tasks q e = elim (Bool-cases (q == p)) [
  | inl same ↦ let at : q ≡ p = ground arith in rw (same, at) e
  | inr other ↦ rw other
]

pub put_task-ne : (p q : ℕ) (t : Task) (tasks : ℕ → Task) → q ≢ p → put_task p t tasks q ≡ tasks q
unfolding put_task
put_task-ne p q t tasks ne = let other : (q == p) ≡ false = ground arith in rw other

pub put_task_self : (p : ℕ) (t : Task) (tasks : ℕ → Task) → put_task p t tasks p ≡ t
unfolding put_task
put_task_self p t tasks = let here : (p == p) ≡ true = ground arith in rw here
