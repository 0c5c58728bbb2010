-- ===== src/Heap/Free/Index.antt =====
-- The search of the index for a hole that is to be taken out.
use panda_os.Base.{
  ℕ, zero, suc, ◌+◌, ◌<◌, ◌≤◌, ◌⊎◌, length, ◌≡◌, ◌≢◌, refl, ap, ◌∙◌, Bool, true, false, Bool-cases,
  inl, inr, Option, none, some, List, [], ◌∷◌, All, ◌==◌, if◌then◌else◌, arith,
}
use mathlib.Core.Option.{none-ne-some, some-injective}
use mathlib.Core.Option
use panda_os.Base.Memory.{Memory}
use panda_os.OrderedArray.{OrderedArray, entry}
use panda_os.OrderedArray.Entries.{entries, contents}
use panda_os.OrderedArray.Insert.{insert_in_order}
use panda_os.OrderedArray.Remove.{remove_at}
use panda_os.Heap.Free.{find_entry, index_of}

-- Where the element first stands in a list.
unfoldable pub position : ℕ → List ℕ → Option ℕ
position item [] = none
position item (x ∷ xs) = if x == item then some 0 else Option.map suc (position item xs)

find_entry-position :
    (item left i : ℕ) (index : OrderedArray) (m : Memory)
    → find_entry item left i index m
      ≡ Option.map (λ k. i + k) (position item (entries index.array i left m))
unfolding find_entry position
find_entry-position item zero i index m = refl
find_entry-position item (suc left) i index m = elim (Bool-cases (entry index.array i m == item)) [
  | inl here ↦ let e : i ≡ i + 0 = omega arith in rw here (ap some e)
  | inr there ↦ rw there (
      find_entry-position item left (i + 1) index m
      ∙ moved (position item (entries index.array (i + 1) left m)))
]
  where
    moved :
        (o : Option ℕ) → Option.map (λ k. i + 1 + k) o ≡ Option.map (λ k. i + k) (Option.map suc o)
    moved none = refl
    moved (some k) = let e : i + 1 + k ≡ i + suc k = omega arith in ap some e

-- The loop finds the position in the list that the array stands for.
pub index_of-position :
    (item : ℕ) (index : OrderedArray) (m : Memory)
    → index_of item index m ≡ position item (contents index m)
unfolding index_of
index_of-position item index m =
    find_entry-position item index.size 0 index m ∙ same (position item (contents index m))
  where
    same : (o : Option ℕ) → Option.map (λ k. 0 + k) o ≡ o
    same none = refl
    same (some k) = let e : 0 + k ≡ k = omega arith in ap some e

-- A new element is found where it was inserted, and removing it there gives the list back.
pub position-insert_in_order :
    (less : ℕ → ℕ → Bool) (item : ℕ) (xs : List ℕ)
    → All (λ x. x ≢ item) xs
    → (k : ℕ) × (position item (insert_in_order less item xs) ≡ some k)
      × (remove_at k (insert_in_order less item xs) ≡ xs)
unfolding position insert_in_order remove_at
position-insert_in_order less item [] new =
    let here : (item == item) ≡ true = ground arith in (0, rw here refl, refl)
position-insert_in_order less item (x ∷ xs) (other, new) =
    let here : (item == item) ≡ true = ground arith in
    let not_here : (x == item) ≡ false = ground arith in
    elim (Bool-cases (less x item)) [
      | inl before ↦
          let (k, at, back) = position-insert_in_order less item xs new in
          rw before (suc k, rw (not_here, at) refl, ap (λ r. x ∷ r) back)
      | inr behind ↦ rw behind (0, rw here refl, refl)
    ]

pub position-lt : (item k : ℕ) (xs : List ℕ) → position item xs ≡ some k → k < length xs
unfolding position
position-lt item k [] h = absurd (none-ne-some k h)
position-lt item k (x ∷ xs) h = elim (Bool-cases (x == item)) [
  | inl here ↦ let e : 0 ≡ k = some-injective 0 k (rw here at h) in omega (arith, e)
  | inr there ↦ later (position item xs) (λ i found. position-lt item i xs found) (rw there at h)
]
  where
    later :
        (o : Option ℕ)
        → ((i : ℕ) → o ≡ some i → i < length xs)
        → Option.map suc o ≡ some k
        → k < suc (length xs)
    later none bound e = absurd (none-ne-some k e)
    later (some i) bound e =
        let same : suc i ≡ k = some-injective (suc i) k e in omega (arith, same, bound i refl)

pub length-remove_at :
    (i : ℕ) (xs : List ℕ) → i < length xs → suc (length (remove_at i xs)) ≡ length xs
unfolding remove_at
length-remove_at i [] lt = absurd (omega arith)
length-remove_at zero (x ∷ xs) lt = refl
length-remove_at (suc i) (x ∷ xs) lt = ap suc (length-remove_at i xs (omega arith))

pub length-insert_in_order :
    (less : ℕ → ℕ → Bool) (x : ℕ) (xs : List ℕ)
    → length (insert_in_order less x xs) ≡ suc (length xs)
unfolding insert_in_order
length-insert_in_order less x [] = refl
length-insert_in_order less x (y ∷ ys) = elim (Bool-cases (less y x)) [
  | inl t ↦ rw t (ap suc (length-insert_in_order less x ys))
  | inr f ↦ rw f refl
]

pub not_among :
    (x p h : ℕ) (xs : List ℕ)
    → p < x
    → x < p + h
    → All (λ y. (y ≤ p) ⊎ (p + h ≤ y)) xs
    → All (λ y. y ≢ x) xs
not_among x p h [] above below apart = tt
not_among x p h (y ∷ ys) above below (here, rest) =
    ((λ e. omega (arith, e, here)), not_among x p h ys above below rest)
