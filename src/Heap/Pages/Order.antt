-- ===== src/Heap/Pages/Order.antt =====
-- The order in which `expand` and `contract` ask paging for pages (memory/kheap.c).
use panda_os.Base.{ℕ, zero, suc, ◌+◌, ◌-◌, ◌≡◌, Bool, List, [], ◌∷◌, ok}
use panda_os.Heap.Layout.{Pager, State}

-- The addresses of `count` pages from `first` on, upwards.
abbrev pub pages_up : (count first : ℕ) → List ℕ
pages_up zero first = []
pages_up (suc count) first = first ∷ pages_up count (first + 0x1000)

-- The same downwards.
abbrev pub pages_down : (count first : ℕ) → List ℕ
pages_down zero first = []
pages_down (suc count) first = first ∷ pages_down count (first - 0x1000)

-- From w, w' is where paging is when it has backed the pages at these addresses, one after the other, and
-- done nothing else, while the memory and the heap are those of s.
abbrev pub Backed :
    {World : Type 0} (pager : Pager World) (is_kernel is_writeable : Bool) (addresses : List ℕ)
    → State World
    → World
    → World
    → Type 0
Backed pager is_kernel is_writeable [] s w w' = w' ≡ w
Backed {World} pager is_kernel is_writeable (a ∷ addresses) s w w' =
    (w₁ : World) × (pager.map_page a is_kernel is_writeable (record s { world = w })
      ≡ ok (record s { world = w₁ }))
    × Backed pager is_kernel is_writeable addresses s w₁ w'

-- From w, w' is where paging is when it has taken these pages back in this order, and done nothing else.
abbrev pub TakenBack :
    {World : Type 0} (pager : Pager World) (addresses : List ℕ) → World → World → Type 0
TakenBack pager [] w w' = w' ≡ w
TakenBack {World} pager (a ∷ addresses) w w' =
    (w₁ : World) × (pager.unmap_page a w ≡ ok w₁) × TakenBack pager addresses w₁ w'
