-- ===== src/Heap/Free/Back.antt =====
-- The end of `free` for a hole that reaches the end of the heap: the pages that are given back.
use panda_os.Base.{
  ℕ, ◌+◌, ◌-◌, ◌/◌, ◌%◌, ◌^◌, ◌≤◌, ◌<◌, ◌≡◌, refl, ◌∙◌, true, false, ◌==◌, none, ok, arith,
}
use mathlib.Core.Path.{subst}
use panda_os.Base.Memory.{load8}
use panda_os.Heap.Layout.{size_of, set_size, put_footer, Pager, State}
use panda_os.Heap.Fields.{
  IsHeader, IsFooter, IsHeader-same, set_size-frame, set_size-IsHeader, put_footer-frame,
  put_footer-IsFooter,
}
use panda_os.Heap.Pages.{contracted, contract}
use panda_os.Heap.Pages.Order.{pages_down, TakenBack}
use panda_os.Heap.Pages.Contract.{contracted_lem, Releases, contract-ok}
use panda_os.Heap.Free.{Hole, index_of, give_back}

module _ {World : Type 0} (pager : Pager World) (s : State World) (t a k : ℕ) (hole : Hole)
    (header : hole.header ≡ a) (footer : hole.footer + 8 ≡ s.heap.end_address)
    (sized : IsHeader a 1 k s.mem) (after : s.heap.start_address ≤ a)
    (ends : a + k ≡ s.heap.end_address) (small : s.heap.end_address < 2 ^ 32) where
  -- `give_back` by the result of `contract`, where some bytes of the hole stay.
  pub give_back_some :
      (kept left : ℕ) (s' : State World)
      → contract pager (a - s.heap.start_address) s ≡ ok (kept, s')
      → size_of a s'.mem ≡ k
      → s.heap.start_address + kept ≡ a + left
      → 20 ≤ left
      → left ≤ k
      → give_back pager t hole s
        ≡ ok (record s' { mem = put_footer (a + left - 8) a (set_size a left s'.mem) })
  unfolding give_back
  give_back_some kept left s' ran size sum large within =
      let last : ((hole.footer + 8) % 2 ^ 32 == s.heap.end_address) ≡ true =
        ground (arith, footer, small) in
      let front : (a + 2 ^ 32 - s.heap.start_address) % 2 ^ 32 ≡ a - s.heap.start_address =
        omega (arith, after, ends, small) in
      let long : (s.heap.end_address + 2 ^ 32 - s.heap.start_address) % 2 ^ 32
          ≡ s.heap.end_address - s.heap.start_address =
        omega (arith, after, ends, small) in
      let cut : (s.heap.end_address - s.heap.start_address + 2 ^ 32 - kept) % 2 ^ 32 ≡ k - left =
        omega (arith, after, ends, small, sum, within) in
      let size' : (k + 2 ^ 32 - (k - left)) % 2 ^ 32 ≡ left = omega (arith, within, ends, small) in
      let stays : (left == 0) ≡ false = ground (arith, large) in
      let foot : ((a + left) % 2 ^ 32 + 2 ^ 32 - 8) % 2 ^ 32 ≡ a + left - 8 =
        omega (arith, within, ends, small, large) in
      rw (last, header, front, ran) (rw (long, size, cut, size', stays, foot) refl)

  -- Where nothing of the hole stays and the hole behind the block is not in the index, nothing else is done.
  pub give_back_all :
      (kept : ℕ) (s' : State World)
      → contract pager (a - s.heap.start_address) s ≡ ok (kept, s')
      → size_of a s'.mem ≡ k
      → s.heap.start_address + kept ≡ a
      → index_of t s'.heap.index s'.mem ≡ none
      → give_back pager t hole s ≡ ok s'
  unfolding give_back
  give_back_all kept s' ran size sum absent =
      let last : ((hole.footer + 8) % 2 ^ 32 == s.heap.end_address) ≡ true =
        ground (arith, footer, small) in
      let front : (a + 2 ^ 32 - s.heap.start_address) % 2 ^ 32 ≡ a - s.heap.start_address =
        omega (arith, after, ends, small) in
      let long : (s.heap.end_address + 2 ^ 32 - s.heap.start_address) % 2 ^ 32
          ≡ s.heap.end_address - s.heap.start_address =
        omega (arith, after, ends, small) in
      let cut : (s.heap.end_address - s.heap.start_address + 2 ^ 32 - kept) % 2 ^ 32 ≡ k =
        omega (arith, after, ends, small, sum) in
      let size' : (k + 2 ^ 32 - k) % 2 ^ 32 ≡ 0 = omega arith in
      rw (last, header, front, ran) (rw (long, size, cut, size', absent) refl)

-- What giving pages back leaves of a hole at a: `left` bytes.
pub record Cut {World : Type 0} (a left : ℕ) (s s' : State World) : Type 0 where
  pub header : IsHeader a 1 left s'.mem
  pub footer : IsFooter (a + left - 8) a s'.mem
  pub index_same : s'.heap.index ≡ s.heap.index
  pub end_eq : s'.heap.end_address ≡ a + left
  pub frame : (q : ℕ) → q < a → load8 q s'.mem ≡ load8 q s.mem

pub give_back-Cut :
    {World : Type 0} (pager : Pager World) (releases : Releases pager) (s : State World) (t a k : ℕ)
    (hole : Hole)
    → hole.header ≡ a
    → hole.footer + 8 ≡ s.heap.end_address
    → IsHeader a 1 k s.mem
    → s.heap.start_address ≤ a
    → a + k ≡ s.heap.end_address
    → s.heap.end_address < 2 ^ 32
    → a + 20 ≤ s.heap.start_address + 0x70000
    → s.heap.start_address + 0x70000 ≤ s.heap.end_address
    → (s' : State World) × (give_back pager t hole s ≡ ok s')
      × Cut a (s.heap.start_address + 0x70000 - a) s s'
      × TakenBack pager
          (pages_down
            ((s.heap.end_address - (s.heap.start_address + 0x70000) - 1) / 0x1000)
            (s.heap.end_address - 0x1000))
          s.world
          s'.world
give_back-Cut pager releases s t a k hole header footer sized after ends small stays long =
    let start = s.heap.start_address in
    let left = start + 0x70000 - a in
    let kept : contracted (a - start) ≡ 0x70000 = ground (arith, contracted_lem (a - start)) in
    let (w, ran, taken) =
      contract-ok pager releases (a - start) (s.heap.end_address - start) s (omega arith) small
        (omega (arith, sized, stays, long)) (omega (arith, kept)) (omega (arith, kept, long)) in
    let s₁ = record s {
      heap = record s.heap { end_address = start + contracted (a - start) };
      world = w;
    } in
    let m = set_size a left s.mem in
    let count : s.heap.end_address - start - contracted (a - start) - 1
        ≡ s.heap.end_address - (start + 0x70000) - 1 =
      omega (arith, kept) in
    (
      record s₁ { mem = put_footer (a + left - 8) a m },
      give_back_some pager s t a k hole header footer sized after ends small
          (contracted (a - start)) left s₁ ran (sized.size_eq) (omega (arith, kept, stays))
          (omega (arith, stays)) (omega (arith, long, ends)),
      record {
        header =
            IsHeader-same (put_footer (a + left - 8) a m)
              (set_size-IsHeader a s.mem 1 k left (omega (arith, small, long)) sized)
              (λ q ge lt. put_footer-frame (a + left - 8) m a q (omega (arith, stays)));
        footer = put_footer-IsFooter (a + left - 8) m a (omega (arith, small, ends));
        index_same = refl;
        end_eq = omega (arith, kept, stays);
        frame = λ q lt.
            put_footer-frame (a + left - 8) m a q (omega (arith, stays))
            ∙ set_size-frame a s.mem left q (omega arith);
      },
      subst (λ c. TakenBack pager (pages_down (c / 0x1000) (s.heap.end_address - 0x1000)) s.world w)
          count taken,
    )
