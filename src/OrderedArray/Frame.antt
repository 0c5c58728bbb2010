-- ===== src/OrderedArray/Frame.antt =====
-- What the operations on an array do not write.
use panda_os.Base.{
  ℕ, zero, suc, ◌+◌, ◌-◌, ◌*◌, ◌≤◌, ◌<◌, ◌≡◌, refl, ◌∙◌, arith, ◌⊎◌, inl, inr, ok, some, ◌==◌, Bool,
  Bool-cases,
}
use panda_os.Base.Memory.{Memory, load8, load8-store32-Apart}
use panda_os.OrderedArray.{
  Predicate, OrderedArray, entry, put_entry, scan, shift_up, shift_down, insert_at, insert_with,
  insert_ordered_array, remove_ordered_array,
}

-- The address q is no byte of the n entries from index i on.
abbrev pub Outside : (array i n q : ℕ) → Type 0
Outside array i n q = (q < array + 4 * i) ⊎ (array + 4 * i + 4 * n ≤ q)

put_entry-frame :
    (array i v q : ℕ) (m : Memory)
    → Outside array i 1 q
    → load8 q (put_entry array i v m) ≡ load8 q m
unfolding put_entry
put_entry-frame array i v q m out = load8-store32-Apart (array + 4 * i) q v m (omega arith)

shift_up-frame :
    (array tmp left i q : ℕ) (m : Memory)
    → Outside array (i + 1) left q
    → load8 q (shift_up array tmp left i m) ≡ load8 q m
unfolding shift_up
shift_up-frame array tmp zero i q m out = refl
shift_up-frame array tmp (suc left) i q m out =
    shift_up-frame array (entry array (i + 1) m) left (i + 1) q (put_entry array (i + 1) tmp m)
      (omega arith)
    ∙ put_entry-frame array (i + 1) tmp q m (omega arith)

shift_down-frame :
    (array left i q : ℕ) (m : Memory)
    → Outside array i left q
    → load8 q (shift_down array left i m) ≡ load8 q m
unfolding shift_down
shift_down-frame array zero i q m out = refl
shift_down-frame array (suc left) i q m out =
    shift_down-frame array left (i + 1) q (put_entry array i (entry array (i + 1) m) m)
      (omega arith)
    ∙ put_entry-frame array i (entry array (i + 1) m) q m (omega arith)

insert_at-frame :
    (array size item i q : ℕ) (m : Memory)
    → i ≤ size
    → Outside array 0 (size + 1) q
    → load8 q (insert_at array size item i m) ≡ load8 q m
unfolding insert_at
insert_at-frame array size item i q m le out = elim (Bool-cases (i == size)) [
  | inl t ↦ rw t (put_entry-frame array size item q m (omega arith))
  | inr f ↦ rw f (
      shift_up-frame array (entry array i m) (size - i) i q (put_entry array i item m) (omega arith)
      ∙ put_entry-frame array i item q m (ground arith))
]

scan-le :
    (less : ℕ → ℕ → Bool) (array item left i size : ℕ) (m : Memory)
    → i + left ≤ size
    → scan less array item left i m ≤ size
unfolding scan
scan-le less array item zero i size m h = omega arith
scan-le less array item (suc left) i size m h =
    ground (arith, scan-le less array item left (i + 1) size m)

-- An insertion writes only the size + 1 entries that the array then has.
pub insert_ordered_array-frame :
    (less : Predicate) (item q : ℕ) (a a' : OrderedArray) (m m' : Memory)
    → a.less_than ≡ some less
    → insert_ordered_array item a m ≡ ok (a', m')
    → Outside a.array 0 (a.size + 1) q
    → load8 q m' ≡ load8 q m
unfolding insert_ordered_array insert_with
insert_ordered_array-frame less item q a a' m m' has ran out = ground (
  arith,
  insert_at-frame a.array a.size item (scan (less m) a.array item a.size 0 m) q m
      (scan-le (less m) a.array item a.size 0 a.size m (omega arith)) out,
)

-- A removal writes only the entries from its index to the old size.
pub remove_ordered_array-frame :
    (i q : ℕ) (a : OrderedArray) (m : Memory)
    → i ≤ a.size
    → Outside a.array 0 a.size q
    → load8 q (remove_ordered_array i a m).1 ≡ load8 q m
unfolding remove_ordered_array
remove_ordered_array-frame i q a m le out =
    shift_down-frame a.array (a.size - i) i q m (omega arith)

-- An insertion keeps the array where it is, and its predicate.
pub insert_ordered_array-same :
    (less : Predicate) (item : ℕ) (a a' : OrderedArray) (m m' : Memory)
    → a.less_than ≡ some less
    → insert_ordered_array item a m ≡ ok (a', m')
    → (a'.array ≡ a.array) × (a'.less_than ≡ a.less_than)
unfolding insert_ordered_array insert_with
insert_ordered_array-same less item a a' m m' has ran = ground arith
