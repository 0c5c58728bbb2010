-- ===== src/Heap/Alloc/Grow.antt =====
-- `grow`: the part of `alloc` that makes the heap larger (memory/kheap.c), and the call of `alloc` after it.
use panda_os.Base.{
  ℕ, zero, suc, ◌+◌, ◌-◌, ◌%◌, ◌^◌, ◌≤◌, ◌<◌, ◌≡◌, ◌≢◌, not, ◌/◌, refl, ap, sym, ◌∙◌, ◌⊎◌, true,
  false, ◌==◌, ltb, Option, none, some, Bool-cases, inl, inr, ok, arith, lt→ltb, if◌then◌else◌,
  add32, sub32,
}
use mathlib.Core.Path.{subst}
use panda_os.Base.Memory.{Memory}
use panda_os.OrderedArray.{OrderedArray, entry, lookup_ordered_array}
use panda_os.Heap.Layout.{size_of, set_size, put_footer, Pager, State}
use panda_os.Heap.Pages.{expand, round_up}
use panda_os.Heap.Pages.Order.{pages_up, Backed}
use panda_os.Heap.Pages.Expand.{Supplies, expand-ok, round_up_lem}
use panda_os.Heap.Alloc.{fits, find_smallest_hole, last_hole, grow, take_gained}
use panda_os.Heap.Alloc.Find.{Found, find_smallest_hole-Found}

-- Where the hole at q is the only one that is large enough, the search finds it.
pub find_only :
    (size q : ℕ) (index : OrderedArray) (m : Memory) (j : ℕ)
    → j < index.size
    → entry index.array j m ≡ q
    → size ≤ size_of q m
    → ((k : ℕ)
        → k < index.size
        → entry index.array k m ≢ q
        → size_of (entry index.array k m) m < size)
    → (i : ℕ) × (find_smallest_hole size false index m ≡ some i)
      × (i < index.size)
      × (entry index.array i m ≡ q)
unfolding fits
find_only size q index m j lt here large others =
    answer (find_smallest_hole size false index m) refl
      (find_smallest_hole-Found size false index m)
  where
    answer :
        (o : Option ℕ)
        → find_smallest_hole size false index m ≡ o
        → Found size false index m 0 o
        → (i : ℕ) × (find_smallest_hole size false index m ≡ some i)
          × (i < index.size)
          × (entry index.array i m ≡ q)
    answer none e found =
        absurd (ground (arith, found j (omega arith) lt, ap (λ p. size_of p m) here))
    answer (some i) e (below, fit, _) = (
      i,
      e,
      below,
      elim (Bool-cases (entry index.array i m == q)) [
        | inl same ↦ ground arith
        | inr other ↦ absurd (ground (arith, fit, others i below (ground arith)))
      ],
    )

-- The loop over the index ends at the hole with the greatest address.
pub last_hole-greatest :
    (left i value q : ℕ) (idx : Option ℕ) (index : OrderedArray) (m : Memory)
    → ((k : ℕ) → i ≤ k → k < i + left → entry index.array k m ≤ q)
    → ((value ≡ q) × ((j : ℕ) × (idx ≡ some j) × (j < i + left) × (entry index.array j m ≡ q)))
      ⊎ ((value < q) × ((j : ℕ) × (i ≤ j) × (j < i + left) × (entry index.array j m ≡ q)))
    → (j : ℕ) × (last_hole left i value idx index m ≡ some j)
      × (j < i + left)
      × (entry index.array j m ≡ q)
unfolding last_hole
last_hole-greatest zero i value q idx index m bound (inl (e, (j, at, lt, here))) = (j, at, lt, here)
last_hole-greatest zero i value q idx index m bound (inr (low, (j, ge, lt, here))) =
    absurd (omega arith)
last_hole-greatest (suc left) i value q idx index m bound (inl (e, (j, at, lt, here))) =
    let top : ltb value (entry index.array i m) ≡ false =
      ground (arith, bound i (omega arith) (omega arith)) in
    let (j', ran, lt', here') =
      last_hole-greatest left (i + 1) value q idx index m
        (λ k ge le. bound k (omega arith) (omega arith)) (inl (e, (j, at, omega arith, here))) in
    (j', rw top ran, omega arith, here')
last_hole-greatest (suc left) i value q idx index m bound (inr (low, (j, ge, lt, here))) =
    elim (Bool-cases (entry index.array i m == q)) [
      | inl this ↦
          let e : entry index.array i m ≡ q = ground arith in
          let up : ltb value (entry index.array i m) ≡ true = ground (arith, e) in
          let (j', ran, lt', here') =
            last_hole-greatest left (i + 1) (entry index.array i m) q (some i) index m
              (λ k ge le. bound k (omega arith) (omega arith))
              (inl (e, (i, refl, omega arith, e))) in
          (j', rw up ran, omega arith, here')
      | inr other ↦
          let below = bound i (omega arith) (omega arith) in
          let next : ℕ =
            if ltb value (entry index.array i m) then entry index.array i m else value in
          let not_here : j ≢ i =
            λ e. ground (arith, ap (λ k. entry index.array k m) (sym e) ∙ here, other) in
          let (j', ran, lt', here') =
            last_hole-greatest left (i + 1) next q
              (if ltb value (entry index.array i m) then some i else idx) index m
              (λ k ge le. bound k (omega arith) (omega arith))
              (inr (ground arith, (j, grind (arith, not_here), omega arith, here))) in
          (j', ran, omega arith, here')
    ]

-- What `expand` adds to a heap of `length` bytes for a request.
abbrev pub gained_for : (length new_size : ℕ) → ℕ
gained_for length new_size = round_up (length + new_size) - length

pub gained-ge :
    (length new_size : ℕ)
    → length + new_size + 0x1000 < 2 ^ 32
    → new_size ≤ gained_for length new_size
gained-ge length new_size flat = ground (arith, round_up_lem (length + new_size) flat)

-- The heap of n bytes has no hole for the request, and room below its maximum.
pub record Growable {World : Type 0} (new_size n : ℕ) (s : State World) : Type 0 where
  pub length : s.heap.start_address + n ≡ s.heap.end_address
  pub some_size : 0 < new_size
  pub full : find_smallest_hole new_size false s.heap.index s.mem ≡ none
  pub room : s.heap.start_address + round_up (n + new_size) ≤ s.heap.max_address
  pub flat : s.heap.max_address + 0x2000 ≤ 2 ^ 32
  pub small : n + new_size + 0x1000 < 2 ^ 32

-- `grow` by what `expand` has returned.
grow-expand :
    {World : Type 0} (pager : Pager World) (new_size gain : ℕ) (s s' : State World)
    → expand pager (add32 (sub32 s.heap.end_address s.heap.start_address) new_size) s ≡ ok s'
    → sub32
        (sub32 s'.heap.end_address s'.heap.start_address)
        (sub32 s.heap.end_address s.heap.start_address)
      ≡ gain
    → grow pager new_size s
      ≡ take_gained s.heap.end_address gain
          (last_hole s'.heap.index.size 0 0 none s'.heap.index s'.mem)
          s'
unfolding grow
grow-expand pager new_size gain s s' ran gains = rw ran (
    ap
      (λ t.
        take_gained s.heap.end_address t
          (last_hole s'.heap.index.size 0 0 none s'.heap.index s'.mem) s')
      gains)

module _ {World : Type 0} (pager : Pager World) (supplies : Supplies pager) (s : State World)
    (new_size n : ℕ) (g : Growable new_size n s) where
  abbrev gained : ℕ
  gained = gained_for n new_size

  -- The pages behind the end of the heap are backed, upwards, one for every 0x1000 bytes that are gained.
  abbrev pub NewPages : World → Type 0
  NewPages w =
      Backed pager (not (s.heap.supervisor == 0)) (s.heap.readonly == 0)
        (pages_up ((gained + 0xfff) / 0x1000) s.heap.end_address) s s.world w

  -- The end of the heap moves by the bytes that are gained.
  unfoldable pub expanded : World → State World
  expanded w = record s {
    heap = record s.heap { end_address = s.heap.end_address + gained };
    world = w;
  }

  grow-expanded :
      (w : World) × (expand pager ((n + new_size) % 2 ^ 32) s ≡ ok (expanded w)) × NewPages w
  unfolding expanded
  grow-expanded =
      let whole : (n + new_size) % 2 ^ 32 ≡ n + new_size = omega (arith, g.small) in
      let long : (s.heap.end_address + 2 ^ 32 - s.heap.start_address) % 2 ^ 32 ≡ n =
        omega (arith, g.length, g.room, g.flat, g.small) in
      let (w, ran, backed) =
        expand-ok pager supplies (n + new_size) s (omega (arith, long, g.some_size)) (g.room)
          (omega (arith, g.flat)) in
      let end : s.heap.start_address + round_up (n + new_size) ≡ s.heap.end_address + gained =
        omega (arith, g.length, gained-ge n new_size (g.small)) in
      let first : s.heap.start_address
            + (s.heap.end_address + 2 ^ 32 - s.heap.start_address) % 2 ^ 32
          ≡ s.heap.end_address =
        omega (arith, long, g.length) in
      let more : round_up (n + new_size)
            - (s.heap.end_address + 2 ^ 32 - s.heap.start_address) % 2 ^ 32
          ≡ gained =
        omega (arith, long) in
      (
        w,
        ap (λ t. expand pager t s) whole
            ∙ ran
            ∙ ap (λ e. ok (record s { heap = record s.heap { end_address = e }; world = w })) end,
        subst
            (λ a.
              Backed pager (not (s.heap.supervisor == 0)) (s.heap.readonly == 0)
                (pages_up ((gained + 0xfff) / 0x1000) a) s s.world w)
            first
            (subst
              (λ g.
                Backed pager (not (s.heap.supervisor == 0)) (s.heap.readonly == 0)
                  (pages_up ((g + 0xfff) / 0x1000) (
                    s.heap.start_address
                    + (s.heap.end_address + 2 ^ 32 - s.heap.start_address) % 2 ^ 32))
                  s s.world w)
              more backed),
      )

  -- The hole at q, of h bytes, is longer by what was gained.
  unfoldable pub lengthened : (q h : ℕ) → World → State World
  unfolding expanded
  lengthened q h w = record (expanded w) {
    mem = put_footer (q + (h + gained) - 8) q (set_size q (h + gained) s.mem);
  }

  pub grow-lengthened :
      (idx q h : ℕ)
      → last_hole s.heap.index.size 0 0 none s.heap.index s.mem ≡ some idx
      → idx < s.heap.index.size
      → entry s.heap.index.array idx s.mem ≡ q
      → size_of q s.mem ≡ h
      → q + h ≤ s.heap.end_address
      → 20 ≤ h
      → (w : World) × (grow pager new_size s ≡ ok (lengthened q h w)) × NewPages w
  unfolding lengthened expanded take_gained lookup_ordered_array
  grow-lengthened idx q h last below here size ends large =
      let (w, ran, backed) = grow-expanded in
      let long : (s.heap.end_address + 2 ^ 32 - s.heap.start_address) % 2 ^ 32 ≡ n =
        omega (arith, g.length, g.room, g.flat, g.small) in
      let more = gained-ge n new_size (g.small) in
      let long' : (s.heap.end_address + gained + 2 ^ 32 - s.heap.start_address) % 2 ^ 32
          ≡ n + gained =
        omega (arith, g.length, g.room, g.flat, more) in
      let gain : (n + gained + 2 ^ 32 - n) % 2 ^ 32 ≡ gained = omega (arith, g.room, g.flat) in
      let found : ltb idx s.heap.index.size ≡ true = lt→ltb _ _ below in
      let sum : (h + gained) % 2 ^ 32 ≡ h + gained =
        omega (arith, g.length, g.room, g.flat, more, ends) in
      let foot : ((q + (h + gained)) % 2 ^ 32 + 2 ^ 32 - 8) % 2 ^ 32 ≡ q + (h + gained) - 8 =
        omega (arith, g.length, g.room, g.flat, more, ends) in
      (
        w,
        grow-expand pager new_size gained s (expanded w)
              (ap (λ t. expand pager ((t + new_size) % 2 ^ 32) s) long ∙ ran)
              (rw (long', long) gain)
            ∙ ap (λ o. take_gained s.heap.end_address gained o (expanded w)) last
            ∙ rw (found, here, size, sum, foot) refl,
        backed,
      )
