-- ===== src/Heap/Order.antt =====
-- The index in order of size: what `alloc` and `free` do to that order.
pub mod Keep
pub mod Lose
use panda_os.Base.{
  ℕ, zero, suc, ◌+◌, ◌≡◌, refl, ap, ◌∙◌, Bool, true, false, List, [], ◌∷◌, All, ltb, inl, inr,
  Bool-cases, arith,
}
use mathlib.Core.Path.{ap₂}
use panda_os.Base.Memory.{Memory}
use panda_os.OrderedArray.Insert.{insert_in_order}
use panda_os.OrderedArray.Remove.{remove_at}
use panda_os.OrderedArray.Sorted.{AllNotLess, InOrder, IsStrict, insert_in_order-InOrder}
use panda_os.Heap.Layout.{size_of, header_t_less_than}

-- The predicate of the heap is a strict weak order, whatever the memory.
pub header_t_less_than-IsStrict : (m : Memory) → IsStrict (header_t_less_than m)
unfolding header_t_less_than
header_t_less_than-IsStrict m = record {
  asymmetric = λ x y h. ground arith;
  below = λ x y z h k. ground arith;
}

-- The sizes of some holes are the same in two memories.
abbrev pub AreSame : (holes : List ℕ) (m m' : Memory) → Type 0
AreSame holes m m' = All (λ x. size_of x m' ≡ size_of x m) holes

AllNotLess-same :
    (x : ℕ) (holes : List ℕ) (m m' : Memory)
    → size_of x m' ≡ size_of x m
    → AreSame holes m m'
    → AllNotLess (header_t_less_than m) x holes
    → AllNotLess (header_t_less_than m') x holes
unfolding header_t_less_than
AllNotLess-same x [] m m' here same all = tt
AllNotLess-same x (y ∷ ys) m m' here (first, same) (least, all) =
    (rw (here, first) least, AllNotLess-same x ys m m' here same all)

pub InOrder-same :
    (holes : List ℕ) (m m' : Memory)
    → AreSame holes m m'
    → InOrder (header_t_less_than m) holes
    → InOrder (header_t_less_than m') holes
InOrder-same [] m m' same ord = tt
InOrder-same (x ∷ xs) m m' (here, same) (least, ord) =
    (AllNotLess-same x xs m m' here same least, InOrder-same xs m m' same ord)

module _ {ℓ} (P : ℕ → Type ℓ) where
  pub All-remove_at : (k : ℕ) (xs : List ℕ) → All P xs → All P (remove_at k xs)
  unfolding remove_at
  All-remove_at k [] all = tt
  All-remove_at zero (x ∷ xs) all = all.1
  All-remove_at (suc k) (x ∷ xs) all = (all.0, All-remove_at k xs all.1)

  pub All-insert_in_order :
      (less : ℕ → ℕ → Bool) (item : ℕ) (xs : List ℕ)
      → P item
      → All P xs
      → All P (insert_in_order less item xs)
  unfolding insert_in_order
  All-insert_in_order less item [] new all = (new, tt)
  All-insert_in_order less item (x ∷ xs) new all = elim (Bool-cases (less x item)) [
    | inl t ↦ rw t (all.0, All-insert_in_order less item xs new all.1)
    | inr f ↦ rw f (new, all)
  ]

-- An insertion by the sizes in one memory, where the sizes are the same before and after it.
pub insert_in_order-same :
    (hole : ℕ) (holes : List ℕ) (m m₁ m' : Memory)
    → AreSame holes m m₁
    → AreSame (hole ∷ holes) m₁ m'
    → InOrder (header_t_less_than m) holes
    → InOrder (header_t_less_than m') (insert_in_order (header_t_less_than m₁) hole holes)
insert_in_order-same hole holes m m₁ m' before (new, after) ord =
    let less = header_t_less_than m₁ in
    InOrder-same (insert_in_order less hole holes) m₁ m'
      (All-insert_in_order (λ x. size_of x m' ≡ size_of x m₁) less hole holes new after)
      (insert_in_order-InOrder (header_t_less_than-IsStrict m₁) hole holes
        (InOrder-same holes m m₁ before ord))
