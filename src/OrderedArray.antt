-- ===== src/OrderedArray.antt =====
-- utils/ordered_array.c: an array of pointers in memory, kept in the order of a predicate. Entry i is
-- the word at `array + 4 * i`. Loops recur on the rounds left, `size - iterator`.
pub mod Entries
pub mod Frame
pub mod Insert
pub mod Remove
pub mod Sorted
mod Tests
use panda_os.Base.{
  ℕ, zero, suc, ◌+◌, ◌-◌, ◌*◌, Bool, Option, none, some, ltb, ◌==◌, if◌then◌else◌, sub32, add32,
  u32, Outcome, ok, panic, assert, ◌>>=◌, ◌>>◌,
}
use panda_os.Base.Memory.{Memory, load32, store32}
use panda_os.Mem.{memset}

-- A predicate may look into memory, as `header_t_less_than` does.
abbrev pub Predicate : Type 0
Predicate = Memory → ℕ → ℕ → Bool

-- `none` is a null `less_than`.
pub record OrderedArray : Type 0 where
  pub array : ℕ
  pub size : ℕ
  pub max_size : ℕ
  pub less_than : Option Predicate

unfoldable pub standard_lessthan_predicate : Predicate
standard_lessthan_predicate m a b = ltb a b

-- `array[i]` and `array[i] = v`.
unfoldable pub entry : (array i : ℕ) → Memory → ℕ
entry array i m = load32 (array + 4 * i) m

unfoldable pub put_entry : (array i v : ℕ) → Memory → Memory
put_entry array i v m = store32 (array + 4 * i) v m

unfoldable pub place_ordered_array :
    (addr max_size : ℕ) → Option Predicate → Memory → OrderedArray × Memory
place_ordered_array addr max_size less_than m = (
  record { array = addr; size = 0; max_size = max_size; less_than = less_than },
  memset addr 0 (u32 (max_size * 4)) m,
)

-- `kmalloc` of memory/kheap.c is an argument, since that file is built on this one.
unfoldable pub create_ordered_array :
    (kmalloc : ℕ → Memory → Outcome (ℕ × Memory)) (max_size : ℕ)
    → Option Predicate
    → Memory
    → Outcome (OrderedArray × Memory)
create_ordered_array kmalloc max_size less_than m = kmalloc (u32 (max_size * 4)) m >>= λ (addr, m').
    ok (
      record { array = addr; size = 0; max_size = max_size; less_than = less_than },
      memset addr 0 (u32 (max_size * 4)) m',
    )

-- The first `while` of `insert_ordered_array`: the index where the new item goes.
scan : (less : ℕ → ℕ → Bool) (array item left i : ℕ) → Memory → ℕ
scan less array item zero i m = i
scan less array item (suc left) i m =
    let next = scan less array item left (i + 1) m in
    if less (entry array i m) item then next else i

-- The second `while`: each entry above `i` takes the value before it, carried in `tmp`.
shift_up : (array tmp left i : ℕ) → Memory → Memory
shift_up array tmp zero i m = m
shift_up array tmp (suc left) i m =
    shift_up array (entry array (i + 1) m) left (i + 1) (put_entry array (i + 1) tmp m)

insert_at : (array size item i : ℕ) → Memory → Memory
unfolding shift_up
insert_at array size item i m =
    if i == size
    then put_entry array size item m
    else shift_up array (entry array i m) (size - i) i (put_entry array i item m)

insert_with : Predicate → (item : ℕ) → OrderedArray → Memory → OrderedArray × Memory
unfolding scan insert_at
insert_with less item a m = (
  record a { size = add32 a.size 1 },
  insert_at a.array a.size item (scan (less m) a.array item a.size 0 m) m,
)

unfoldable pub insert_ordered_array :
    (item : ℕ) → OrderedArray → Memory → Outcome (OrderedArray × Memory)
unfolding insert_with
insert_ordered_array item a m = elim a.less_than [
  | none ↦ panic
  | some less ↦ ok (insert_with less item a m)
]

unfoldable pub lookup_ordered_array : (i : ℕ) → OrderedArray → Memory → Outcome ℕ
lookup_ordered_array i a m = do assert (ltb i a.size); ok (entry a.array i m)

shift_down : (array left i : ℕ) → Memory → Memory
shift_down array zero i m = m
shift_down array (suc left) i m =
    shift_down array left (i + 1) (put_entry array i (entry array (i + 1) m) m)

-- The loop runs `size - i` rounds, none if `i` is not below `size`; `size--` runs in any case.
unfoldable pub remove_ordered_array : (i : ℕ) → OrderedArray → Memory → OrderedArray × Memory
unfolding shift_down
remove_ordered_array i a m =
    (record a { size = sub32 a.size 1 }, shift_down a.array (a.size - i) i m)
