-- ===== src/OrderedArray/Insert.antt =====
-- `insert_ordered_array` of utils/ordered_array.c and insertion into a list.
use panda_os.Base.{
  ℕ, zero, suc, ◌+◌, ◌-◌, ◌%◌, ◌^◌, ◌≤◌, ◌<◌, ◌≡◌, refl, ◌∙◌, Bool, true, false, none, some, List,
  [], ◌∷◌, arith, inl, inr, if◌then◌else◌, ◌==◌, Bool-cases, ok, panic, add32,
}
use panda_os.Base.Memory.{Memory}
use panda_os.OrderedArray.{
  Predicate, OrderedArray, entry, put_entry, scan, shift_up, insert_at, insert_with,
  insert_ordered_array,
}
use panda_os.OrderedArray.Entries.{
  entry-put_self, entry-put_ne, entry-lt, entries, contents, entries-put_ne,
}

-- Insertion in front of the first element that is not less than the item.
unfoldable pub insert_in_order : (less : ℕ → ℕ → Bool) → ℕ → List ℕ → List ℕ
insert_in_order less item [] = item ∷ []
insert_in_order less item (x ∷ xs) =
    if less x item then x ∷ insert_in_order less item xs else item ∷ x ∷ xs

-- The shift writes above `i` only.
shift_up-below :
    (array tmp left i j : ℕ) (m : Memory)
    → j ≤ i
    → entry array j (shift_up array tmp left i m) ≡ entry array j m
unfolding shift_up
shift_up-below array tmp zero i j m h = refl
shift_up-below array tmp (suc left) i j m h =
    shift_up-below array (entry array (i + 1) m) left (i + 1) j (put_entry array (i + 1) tmp m)
      (omega arith)
    ∙ entry-put_ne array (i + 1) j tmp m (omega arith)

-- It moves the entries one up, `tmp` first.
shift_up-entries :
    (array tmp left i : ℕ) (m : Memory)
    → tmp < 2 ^ 32
    → entries array (i + 1) (suc left) (shift_up array tmp (suc left) i m)
      ≡ tmp ∷ entries array (i + 1) left m
unfolding shift_up
shift_up-entries array tmp zero i m h = rw (entry-put_self array (i + 1) tmp m h)
shift_up-entries array tmp (suc left) i m h =
    let m' = put_entry array (i + 1) tmp m in
    let v = entry array (i + 1) m in
    rw (
      shift_up-below array v (suc left) (i + 1) (i + 1) m' (omega arith),
      entry-put_self array (i + 1) tmp m h,
      shift_up-entries array v left (i + 1) m' (entry-lt array (i + 1) m),
      entries-put_ne array (i + 1) (i + 1 + 1) left tmp m (inl (omega arith)),
    )

insert_at-below :
    (array size item i j : ℕ) (m : Memory)
    → j < i
    → entry array j (insert_at array size item i m) ≡ entry array j m
unfolding insert_at
insert_at-below array size item i j m h = ground (
  arith,
  entry-put_ne array size j item m,
  entry-put_ne array i j item m,
  shift_up-below array (entry array i m) (size - i) i j (put_entry array i item m),
)

scan-ge :
    (less : ℕ → ℕ → Bool) (array item left i : ℕ) (m : Memory) → i ≤ scan less array item left i m
unfolding scan
scan-ge less array item zero i m = omega arith
scan-ge less array item (suc left) i m = ground (arith, scan-ge less array item left (i + 1) m)

insert_at-entries :
    (array item left i : ℕ) (m : Memory)
    → item < 2 ^ 32
    → entries array i (suc (suc left)) (insert_at array (i + suc left) item i m)
      ≡ item ∷ entries array i (suc left) m
unfolding insert_at
insert_at-entries array item left i m h =
    let m' = put_entry array i item m in
    let rounds : i + suc left - i ≡ suc left = omega arith in
    let later : (i == (i + suc left)) ≡ false = ground arith in
    rw (later, rounds)
      (rw (
        shift_up-below array (entry array i m) (suc left) i i m' (omega arith),
        entry-put_self array i item m h,
        shift_up-entries array (entry array i m) left i m' (entry-lt array i m),
        entries-put_ne array i (i + 1) left item m (inl (omega arith)),
      ))

insert_at-end :
    (array item i : ℕ) (m : Memory) → insert_at array i item i m ≡ put_entry array i item m
unfolding insert_at
insert_at-end array item i m = let last : (i == i) ≡ true = ground arith in rw last

insert_from :
    (less : ℕ → ℕ → Bool) (array size item left i : ℕ) (m : Memory)
    → item < 2 ^ 32
    → size ≡ i + left
    → entries array i (suc left) (insert_at array size item (scan less array item left i m) m)
      ≡ insert_in_order less item (entries array i left m)
unfolding scan insert_in_order
insert_from less array size item zero i m h e =
    let e' : size ≡ i = omega arith in
    rw (e', insert_at-end array item i m, entry-put_self array i item m h)
insert_from less array size item (suc left) i m h e =
    let p = scan less array item left (i + 1) m in
    elim (Bool-cases (less (entry array i m) item)) [
      | inl t ↦ rw t (
          rw (
            insert_at-below array size item p i m
                (omega (arith, scan-ge less array item left (i + 1) m)),
            insert_from less array size item left (i + 1) m h (omega arith),
          ))
      | inr f ↦ rw (f, e) (insert_at-entries array item left i m h)
    ]

-- `insert_ordered_array` returns whenever the array has a predicate, counts one element more, and the
-- list that the array then stands for is the old one with the item in front of the first element that
-- is not less than it. The predicate is read in the memory before the call.
pub insert_ordered_array-contents :
    (less : Predicate) (item : ℕ) (a : OrderedArray) (m : Memory)
    → a.less_than ≡ some less
    → item < 2 ^ 32
    → a.size + 1 < 2 ^ 32
    → (a' : OrderedArray) × (m' : Memory) × (insert_ordered_array item a m ≡ ok (a', m'))
      × (a'.size ≡ a.size + 1)
      × (contents a' m' ≡ insert_in_order (less m) item (contents a m))
unfolding insert_ordered_array
insert_ordered_array-contents less item a m has fits room = (
  record a { size = add32 a.size 1 },
  insert_at a.array a.size item (scan (less m) a.array item a.size 0 m) m,
  rw (has, insert_with),
  omega arith,
  let grown : (a.size + 1) % 2 ^ 32 ≡ suc a.size = omega arith in
      rw grown (insert_from (less m) a.array a.size item a.size 0 m fits (omega arith)),
)

-- Without a predicate the ASSERT stops the machine.
pub insert_ordered_array_null :
    (item : ℕ) (a : OrderedArray) (m : Memory)
    → a.less_than ≡ none
    → insert_ordered_array item a m ≡ panic
unfolding insert_ordered_array
insert_ordered_array_null item a m null = rw null
