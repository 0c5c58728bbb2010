-- ===== src/OrderedArray/Sorted.antt =====
-- The order of the array in utils/ordered_array.c under its operations.
use mathlib.Core.List.{Perm}
use mathlib.Core.List.Perm
use panda_os.Base.{
  ℕ, zero, suc, ◌+◌, ◌^◌, ◌<◌, ◌≡◌, Bool, true, false, some, List, [], ◌∷◌, arith, inl, inr,
  Bool-cases, ok,
}
use panda_os.Base.Memory.{Memory}
use panda_os.OrderedArray.{
  Predicate, OrderedArray, insert_ordered_array, remove_ordered_array, standard_lessthan_predicate,
}
use panda_os.OrderedArray.Entries.{contents}
use panda_os.OrderedArray.Insert.{insert_in_order, insert_ordered_array-contents}
use panda_os.OrderedArray.Remove.{remove_at, remove_ordered_array-contents}

-- No element of the list is less than `x`.
abbrev pub AllNotLess : (ℕ → ℕ → Bool) → ℕ → List ℕ → Type 0
AllNotLess less x [] = Unit {0}
AllNotLess less x (y ∷ ys) = (less y x ≡ false) × AllNotLess less x ys

-- No element is less than one that stands before it.
abbrev pub InOrder : (ℕ → ℕ → Bool) → List ℕ → Type 0
InOrder less [] = Unit {0}
InOrder less (x ∷ xs) = AllNotLess less x xs × InOrder less xs

-- A strict weak order: what a predicate has to be for the array to make sense.
pub record IsStrict (less : ℕ → ℕ → Bool) : Type 0 where
  pub asymmetric : (x y : ℕ) → less x y ≡ true → less y x ≡ false
  pub below : (x y z : ℕ) → less x y ≡ false → less y z ≡ false → less x z ≡ false

module _ {less : ℕ → ℕ → Bool} (strict : IsStrict less) where
  AllNotLess-below :
      (x y : ℕ) (xs : List ℕ) → less y x ≡ false → AllNotLess less y xs → AllNotLess less x xs
  AllNotLess-below x y [] h all = tt
  AllNotLess-below x y (z ∷ zs) h all =
      (strict.below z y x all.0 h, AllNotLess-below x y zs h all.1)

  AllNotLess-insert :
      (x item : ℕ) (xs : List ℕ)
      → less item x ≡ false
      → AllNotLess less x xs
      → AllNotLess less x (insert_in_order less item xs)
  unfolding insert_in_order
  AllNotLess-insert x item [] h all = (h, tt)
  AllNotLess-insert x item (y ∷ ys) h all = elim (Bool-cases (less y item)) [
    | inl t ↦ rw t (all.0, AllNotLess-insert x item ys h all.1)
    | inr f ↦ rw f (h, all)
  ]

  pub insert_in_order-InOrder :
      (item : ℕ) (xs : List ℕ) → InOrder less xs → InOrder less (insert_in_order less item xs)
  unfolding insert_in_order
  insert_in_order-InOrder item [] ord = (tt, tt)
  insert_in_order-InOrder item (x ∷ xs) ord = elim (Bool-cases (less x item)) [
    | inl t ↦ rw t (
      AllNotLess-insert x item xs (strict.asymmetric x item t) ord.0,
      insert_in_order-InOrder item xs ord.1,
    )
    | inr f ↦ rw f ((f, AllNotLess-below item x xs f ord.0), ord)
  ]

insert_in_order-perm :
    (less : ℕ → ℕ → Bool) (item : ℕ) (xs : List ℕ) → Perm (insert_in_order less item xs) (item ∷ xs)
unfolding insert_in_order
insert_in_order-perm less item [] = Perm.refl _
insert_in_order-perm less item (x ∷ xs) = elim (Bool-cases (less x item)) [
  | inl t ↦ rw t (Perm.trans (Perm.cons x (insert_in_order-perm less item xs)) (Perm.swap _ _ _))
  | inr f ↦ rw f (Perm.refl _)
]

-- For a predicate that is a strict weak order, `insert_ordered_array` keeps the array in order, and
-- the elements are afterwards the old ones and the item.
pub insert_ordered_array-InOrder :
    (less : Predicate) (item : ℕ) (a : OrderedArray) (m : Memory)
    → a.less_than ≡ some less
    → item < 2 ^ 32
    → a.size + 1 < 2 ^ 32
    → IsStrict (less m)
    → InOrder (less m) (contents a m)
    → (a' : OrderedArray) × (m' : Memory) × (insert_ordered_array item a m ≡ ok (a', m'))
      × InOrder (less m) (contents a' m')
      × Perm (contents a' m') (item ∷ contents a m)
insert_ordered_array-InOrder less item a m has fits room strict ord =
    let (a', m', ran, grown, same) = insert_ordered_array-contents less item a m has fits room in
    (
      a',
      m',
      ran,
      rw same (insert_in_order-InOrder strict item (contents a m) ord),
      rw same (insert_in_order-perm (less m) item (contents a m)),
    )

module _ (less : ℕ → ℕ → Bool) where
  AllNotLess-remove_at :
      (x k : ℕ) (xs : List ℕ) → AllNotLess less x xs → AllNotLess less x (remove_at k xs)
  unfolding remove_at
  AllNotLess-remove_at x zero [] all = tt
  AllNotLess-remove_at x zero (y ∷ ys) all = all.1
  AllNotLess-remove_at x (suc k) [] all = tt
  AllNotLess-remove_at x (suc k) (y ∷ ys) all = (all.0, AllNotLess-remove_at x k ys all.1)

  pub remove_at-InOrder : (k : ℕ) (xs : List ℕ) → InOrder less xs → InOrder less (remove_at k xs)
  unfolding remove_at
  remove_at-InOrder zero [] ord = tt
  remove_at-InOrder zero (x ∷ xs) ord = ord.1
  remove_at-InOrder (suc k) [] ord = tt
  remove_at-InOrder (suc k) (x ∷ xs) ord =
      (AllNotLess-remove_at x k xs ord.0, remove_at-InOrder k xs ord.1)

-- `standard_lessthan_predicate`, by address, is a strict weak order.
pub standard_lessthan_predicate-IsStrict : (m : Memory) → IsStrict (standard_lessthan_predicate m)
unfolding standard_lessthan_predicate
standard_lessthan_predicate-IsStrict m = record {
  asymmetric = λ x y h. ground arith;
  below = λ x y z h k. ground arith;
}

-- `remove_ordered_array` keeps any order that the array was in.
pub remove_ordered_array-InOrder :
    (less : ℕ → ℕ → Bool) (i : ℕ) (a : OrderedArray) (m : Memory)
    → i < a.size
    → a.size < 2 ^ 32
    → InOrder less (contents a m)
    → let (a', m') = remove_ordered_array i a m in InOrder less (contents a' m')
remove_ordered_array-InOrder less i a m below fits ord =
    rw ((remove_ordered_array-contents i a m below fits).1)
      (remove_at-InOrder less i (contents a m) ord)
