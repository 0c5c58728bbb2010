-- ===== src/Paging/Start/Kheap.antt =====
-- Frames for the pages of the kernel heap.
use panda_os.Base.{
  ℕ, zero, suc, ◌+◌, ◌*◌, ◌/◌, ◌%◌, ◌^◌, ◌≤◌, ◌<◌, ◌≡◌, ◌≢◌, refl, ap, ◌∙◌, true, false, ◌&&◌, some,
  ◌==◌, ltb, if◌then◌else◌, ok, arith, Bool-cases, inl, inr,
}
use mathlib.Core.Path.{subst}
use panda_os.Heap.Placement.{Early}
use panda_os.Paging.Frames.{Page}
use panda_os.Paging.Bitmap.{used}
use panda_os.Paging.Owned.{alloc_frame-Backed}
use panda_os.Paging.Tables.{Paging, get_page, alloc_page, put_page}
use panda_os.Paging.Start.{kheap_start, back_page, back_pages, make_tables, early_machine}
use panda_os.Paging.Start.Step.{table_of, page_of, next_free, put_page_here}

-- The table of the heap's pages, and page j there.
abbrev pub heap_table : (dir : ℕ) → Paging Early → ℕ
heap_table dir s = (s.directories dir).tables 768

abbrev pub heap_page : (dir j : ℕ) → Paging Early → Page
heap_page dir j s = s.pages (heap_table dir s) j

-- The first n pages have the frames of their numbers, the first k pages of the heap have the next ones,
-- and these are all the frames in use.
pub record IsStarted (dir n k : ℕ) (s : Paging Early) : Type 0 where
  pub count : s.frames.frame_count ≡ 0x1000
  pub frames : (f : ℕ) → used s.frames f ≡ (if ltb f (n + k) then 1 else 0)
  pub mapped : (m : ℕ) → m < n → ((page_of dir m s).frame ≡ m) × ((page_of dir m s).present ≡ 1)
  pub backed :
      (j : ℕ) → j < k → ((heap_page dir j s).frame ≡ n + j) × ((heap_page dir j s).present ≡ 1)
  pub unbacked : (j : ℕ) → k ≤ j → j < 1024 → (heap_page dir j s).frame ≡ 0
  pub some_table : heap_table dir s ≢ 0
  pub apart : (m : ℕ) → m < n → table_of dir m s ≢ heap_table dir s

put_page_other :
    (t i u j : ℕ) (p : Page) (pages : ℕ → ℕ → Page)
    → (t == u && i == j) ≡ false
    → put_page u j p pages t i ≡ pages t i
unfolding put_page
put_page_other t i u j p pages off = rw off

module _ (garbage dir : ℕ) where
  get_page_heap :
      (k : ℕ) (s : Paging Early)
      → k < 1024
      → heap_table dir s ≢ 0
      → get_page (early_machine garbage) (kheap_start + k * 0x1000) true dir s
        ≡ ok (some (heap_table dir s, k), s)
  unfolding get_page
  get_page_heap k s lt has =
      let place : (0xc000_0000 + k * 0x1000) / 0x1000 / 1024 ≡ 768 = omega arith in
      let index : (0xc000_0000 + k * 0x1000) / 0x1000 % 1024 ≡ k = omega arith in
      let there : (heap_table dir s == 0) ≡ false = ground arith in rw (place, there, index)

  -- One table serves all the pages of the heap, so that only the first of them makes one.
  pub make_tables_same :
      (left k : ℕ) (s : Paging Early)
      → left + k ≤ 256
      → heap_table dir s ≢ 0
      → make_tables garbage dir left (kheap_start + k * 0x1000) s ≡ ok s
  unfolding make_tables
  make_tables_same zero k s le has = refl
  make_tables_same (suc left) k s le has =
      let next : (0xc000_0000 + k * 0x1000 + 0x1000) % 2 ^ 32 ≡ 0xc000_0000 + (k + 1) * 0x1000 =
        omega arith in
      rw (get_page_heap k s (omega arith) has) (
        ap (λ i. make_tables garbage dir left i s) next
        ∙ make_tables_same left (k + 1) s (omega arith) has)

  back_heap :
      (n k : ℕ) (s : Paging Early)
      → IsStarted dir n k s
      → k < 256
      → n + 256 ≤ 0x1000
      → (s' : Paging Early) × (back_page garbage dir (kheap_start + k * 0x1000) s ≡ ok s')
        × IsStarted dir n (k + 1) s'
        × (s'.world ≡ s.world)
  unfolding back_page alloc_page early_machine
  back_heap n k s v lt room =
      let t = heap_table dir s in
      let (p, f, ran, b) =
        alloc_frame-Backed garbage (n + k) false false (heap_page dir k s) s.frames
          (v.unbacked k (omega arith) (omega arith)) (omega (arith, v.count))
          (next_free s.frames (n + k) v.count v.frames (omega arith)) in
      let s' : Paging Early = record s { pages = put_page t k p s.pages; frames = f } in
      let here = put_page_here t k p s.pages in
      let low : (m : ℕ) → m < n → page_of dir m s' ≡ page_of dir m s = λ m le.
        put_page_other (table_of dir m s) (m % 1024) t k p s.pages (ground (arith, v.apart m le)) in
      let other : (j : ℕ) → j ≢ k → heap_page dir j s' ≡ heap_page dir j s =
        λ j ne. put_page_other t j t k p s.pages (ground arith) in
      (
        s',
        rw (get_page_heap k s (omega arith) v.some_table, ran),
        record {
          count = b.count ∙ v.count;
          frames = λ g. b.in_use g ∙ ground (arith, v.frames g);
          mapped = λ m le.
              let (old_frame, old_present) = v.mapped m le in
              (
                ap (λ (q : Page). q.frame) (low m le) ∙ old_frame,
                ap (λ (q : Page). q.present) (low m le) ∙ old_present,
              );
          backed = λ j le. elim (Bool-cases (j == k)) [
            | inl e ↦
                let at : k ≡ j = ground arith in
                subst
                  (λ x. ((heap_page dir x s').frame ≡ n + x) × ((heap_page dir x s').present ≡ 1))
                  at
                  (
                    ap (λ (q : Page). q.frame) here ∙ b.frame,
                    ap (λ (q : Page). q.present) here ∙ b.present,
                  )
            | inr ne ↦
                let same = other j (ground arith) in
                let (old_frame, old_present) = v.backed j (ground arith) in
                (
                  ap (λ (q : Page). q.frame) same ∙ old_frame,
                  ap (λ (q : Page). q.present) same ∙ old_present,
                )
          ];
          unbacked = λ j ge le.
              ap (λ (q : Page). q.frame) (other j (omega arith)) ∙ v.unbacked j (omega arith) le;
          some_table = v.some_table;
          apart = v.apart;
        },
        refl,
      )

  -- The last loop of `initialise_paging` backs all the pages of the heap.
  pub back_pages-IsStarted :
      (left n k : ℕ) (s : Paging Early)
      → IsStarted dir n k s
      → left + k ≡ 256
      → n + 256 ≤ 0x1000
      → (s' : Paging Early) × (back_pages garbage dir left (kheap_start + k * 0x1000) s ≡ ok s')
        × IsStarted dir n 256 s'
        × (s'.world ≡ s.world)
  unfolding back_pages
  back_pages-IsStarted zero n k s v sum room =
      let all : k ≡ 256 = omega arith in (s, refl, subst (λ x. IsStarted dir n x s) all v, refl)
  back_pages-IsStarted (suc left) n k s v sum room =
      let (s₁, ran, v₁, same) = back_heap n k s v (omega arith) room in
      let (s', rest, v', same') = back_pages-IsStarted left n (k + 1) s₁ v₁ (omega arith) room in
      let next : (0xc000_0000 + k * 0x1000 + 0x1000) % 2 ^ 32 ≡ 0xc000_0000 + (k + 1) * 0x1000 =
        omega arith in
      (s', rw ran (ap (λ i. back_pages garbage dir left i s₁) next ∙ rest), v', same' ∙ same)
