-- ===== src/OrderedArray/Remove.antt =====
-- `remove_ordered_array` and `lookup_ordered_array` against the list that the array stands for.
use panda_os.Base.{
  ℕ, zero, suc, ◌+◌, ◌-◌, ◌%◌, ◌^◌, ◌≤◌, ◌<◌, ◌≡◌, refl, ap, ◌∙◌, sym, List, [], ◌∷◌, arith, inl,
  inr, if◌then◌else◌, ok, panic, get_or, ltb, length, Bool-cases, ltb→lt,
}
use panda_os.Base.Memory.{Memory}
use panda_os.OrderedArray.{
  OrderedArray, entry, put_entry, shift_down, remove_ordered_array, lookup_ordered_array,
}
use panda_os.OrderedArray.Entries.{
  entry-put_self, entry-put_ne, entry-lt, entries, contents, entries-put_ne, get_or-entries,
  length-entries,
}

-- The list without its element k.
unfoldable pub remove_at : ℕ → List ℕ → List ℕ
remove_at k [] = []
remove_at zero (x ∷ xs) = xs
remove_at (suc k) (x ∷ xs) = x ∷ remove_at k xs

shift_down-below :
    (array left i j : ℕ) (m : Memory)
    → j < i
    → entry array j (shift_down array left i m) ≡ entry array j m
unfolding shift_down
shift_down-below array zero i j m h = refl
shift_down-below array (suc left) i j m h =
    let v = entry array (i + 1) m in
    shift_down-below array left (i + 1) j (put_entry array i v m) (omega arith)
    ∙ entry-put_ne array i j v m (omega arith)

-- The entries that the rounds rewrite take the value of the next one up.
shift_down-entries :
    (array left n i : ℕ) (m : Memory)
    → n ≤ left
    → entries array i n (shift_down array left i m) ≡ entries array (i + 1) n m
unfolding shift_down
shift_down-entries array left zero i m h = refl
shift_down-entries array zero (suc n) i m h = absurd (omega arith)
shift_down-entries array (suc left) (suc n) i m h =
    let v = entry array (i + 1) m in
    let m' = put_entry array i v m in
    rw (
      shift_down-below array left (i + 1) i m' (omega arith),
      entry-put_self array i v m (entry-lt array (i + 1) m),
      shift_down-entries array left n (i + 1) m' (omega arith),
      entries-put_ne array i (i + 1 + 1) n v m (inl (omega arith)),
    )

remove_from :
    (array left k n j i : ℕ) (m : Memory)
    → i ≡ j + k
    → n < k + left
    → k ≤ n
    → entries array j n (shift_down array left i m) ≡ remove_at k (entries array j (suc n) m)
unfolding remove_at
remove_from array left zero n j i m e h le =
    let e' : i ≡ j = omega arith in rw e' (shift_down-entries array left n j m (omega arith))
remove_from array left (suc k) zero j i m e h le = absurd (omega arith)
remove_from array left (suc k) (suc n) j i m e h le =
    rw (shift_down-below array left i j m (omega arith)) (
      ap (λ r. entry array j m ∷ r)
        (remove_from array left k n (j + 1) i m (omega arith) (omega arith) (omega arith)))

-- Removing index i below `size` leaves the list without its element i, one shorter, whatever the
-- predicate.
pub remove_ordered_array-contents :
    (i : ℕ) (a : OrderedArray) (m : Memory)
    → i < a.size
    → a.size < 2 ^ 32
    → let (a', m') = remove_ordered_array i a m in
      (a'.size + 1 ≡ a.size) × (contents a' m' ≡ remove_at i (contents a m))
unfolding remove_ordered_array
remove_ordered_array-contents i a m below fits =
    let left : (a.size + 2 ^ 32 - 1) % 2 ^ 32 ≡ a.size - 1 = omega arith in
    let whole : a.size ≡ suc (a.size - 1) = omega arith in
    (
      omega arith,
      rw left (
          remove_from a.array (a.size - i) i (a.size - 1) 0 i m (omega arith) (omega arith)
            (omega arith)
          ∙ ap (λ n. remove_at i (entries a.array 0 n m)) (sym whole)),
    )

-- `lookup_ordered_array` returns element i of the list when i is below `size`, and otherwise its
-- ASSERT stops the machine.
pub lookup_ordered_array-contents :
    (i : ℕ) (a : OrderedArray) (m : Memory)
    → lookup_ordered_array i a m
      ≡ (if ltb i (length (contents a m)) then ok (get_or (contents a m) i 0) else panic)
unfolding lookup_ordered_array
lookup_ordered_array-contents i a m =
    rw (length-entries a.array 0 a.size m) (elim (Bool-cases (ltb i a.size)) [
      | inl t ↦
          rw (t, get_or-entries a.array 0 a.size i m (ltb→lt _ _ t))
            (ap (λ k. ok (entry a.array k m)) (omega arith))
      | inr f ↦ rw f
    ])
