-- ===== src/OrderedArray/Entries.antt =====
-- Reading and writing entries, and the list that an array in memory stands for.
use panda_os.Base.{
  ℕ, zero, suc, ◌+◌, ◌*◌, ◌^◌, ◌≤◌, ◌<◌, ◌≡◌, ◌≢◌, refl, ap, List, [], ◌∷◌, arith, length, get_or,
  ◌⊎◌,
}
use panda_os.Base.Memory.{Memory, load32-lt, load32-store32_self, load32-store32-Apart}
use panda_os.OrderedArray.{OrderedArray, entry, put_entry}

pub entry-put_self :
    (array i v : ℕ) (m : Memory) → v < 2 ^ 32 → entry array i (put_entry array i v m) ≡ v
unfolding entry put_entry
entry-put_self array i v m h = load32-store32_self (array + 4 * i) v m h

pub entry-put_ne :
    (array i j v : ℕ) (m : Memory) → i ≢ j → entry array j (put_entry array i v m) ≡ entry array j m
unfolding entry put_entry
entry-put_ne array i j v m h =
    load32-store32-Apart (array + 4 * i) (array + 4 * j) v m (grind arith)

pub entry-lt : (array i : ℕ) (m : Memory) → entry array i m < 2 ^ 32
unfolding entry
entry-lt array i m = load32-lt (array + 4 * i) m

-- The n entries from index i on.
abbrev pub entries : (array i n : ℕ) → Memory → List ℕ
entries array i zero m = []
entries array i (suc n) m = entry array i m ∷ entries array (i + 1) n m

-- What the array holds, first to last.
abbrev pub contents : OrderedArray → Memory → List ℕ
contents a m = entries a.array 0 a.size m

pub length-entries : (array i n : ℕ) (m : Memory) → length (entries array i n m) ≡ n
length-entries array i zero m = refl
length-entries array i (suc n) m = ap suc (length-entries array (i + 1) n m)

-- A write outside the range leaves the entries of the range alone.
pub entries-put_ne :
    (array j i n v : ℕ) (m : Memory)
    → (j < i) ⊎ (i + n ≤ j)
    → entries array i n (put_entry array j v m) ≡ entries array i n m
entries-put_ne array j i zero v m h = refl
entries-put_ne array j i (suc n) v m h =
    rw
      (entry-put_ne array j i v m (grind arith), entries-put_ne array j (i + 1) n v m (grind arith))

pub get_or-entries :
    (array i n k : ℕ) (m : Memory)
    → k < n
    → get_or (entries array i n m) k 0 ≡ entry array (i + k) m
get_or-entries array i zero k m h = absurd (omega arith)
get_or-entries array i (suc n) zero m h = ap (λ t. entry array t m) (omega arith)
get_or-entries array i (suc n) (suc k) m h =
    ground (arith, get_or-entries array (i + 1) n k m, ap (λ t. entry array t m) same)
  where
    same : i + 1 + k ≡ i + suc k
    same = omega arith
