-- ===== src/Paging/Start/Step.antt =====
-- One round of the identity mapping.
use panda_os.Base.{
  ℕ, ◌+◌, ◌*◌, ◌/◌, ◌%◌, ◌≤◌, ◌<◌, ◌≡◌, ◌≢◌, refl, ap, ◌∙◌, true, false, ◌&&◌, none, some, ◌==◌,
  ltb, if◌then◌else◌, ok, arith, Bool-cases, Option-cases, inl, inr,
}
use mathlib.Core.Path.{subst}
use panda_os.Heap.Placement.{Early}
use panda_os.Paging.Frames.{Frames, Page, first_frame}
use panda_os.Paging.Bitmap.{used}
use panda_os.Paging.Search.{Least, first_frame-Least}
use panda_os.Paging.Owned.{alloc_frame-Backed}
use panda_os.Paging.Tables.{Paging, alloc_page, put_page}
use panda_os.Paging.Start.{early_machine}

-- The table for virtual page m, and the page's entry there.
abbrev pub table_of : (dir m : ℕ) → Paging Early → ℕ
table_of dir m s = (s.directories dir).tables (m / 1024)

abbrev pub page_of : (dir m : ℕ) → Paging Early → Page
page_of dir m s = s.pages (table_of dir m s) (m % 1024)

-- The first n virtual pages are backed by the frames of the same number, and nothing else is backed. No
-- table serves twice, and all lie below the placement address.
pub record IsIdentity (dir n : ℕ) (s : Paging Early) : Type 0 where
  pub count : s.frames.frame_count ≡ 0x1000
  pub frames : (f : ℕ) → used s.frames f ≡ (if ltb f n then 1 else 0)
  pub tables : (m : ℕ) → m < n → table_of dir m s ≢ 0
  pub mapped : (m : ℕ) → m < n → ((page_of dir m s).frame ≡ m) × ((page_of dir m s).present ≡ 1)
  pub unmapped : (m : ℕ) → n ≤ m → table_of dir m s ≢ 0 → (page_of dir m s).frame ≡ 0
  pub once :
      (j k : ℕ)
      → (s.directories dir).tables j ≢ 0
      → (s.directories dir).tables j ≡ (s.directories dir).tables k
      → j ≡ k
  pub placed : (j : ℕ) → (s.directories dir).tables j < s.world.placement_address

-- A table that is there stays where it is.
abbrev pub KeepsTables : (dir : ℕ) (s s' : Paging Early) → Type 0
KeepsTables dir s s' =
    (k : ℕ)
    → (s.directories dir).tables k ≢ 0
    → (s'.directories dir).tables k ≡ (s.directories dir).tables k

-- Where the first n frames are in use and no others, the lowest free frame is the next.
pub next_free :
    (fs : Frames) (n : ℕ)
    → fs.frame_count ≡ 0x1000
    → ((f : ℕ) → used fs f ≡ (if ltb f n then 1 else 0))
    → n < 0x1000
    → first_frame fs ≡ some n
next_free fs n count frames lt = elim (Option-cases (first_frame fs)) [
  | inl e ↦
      let full : Least (used fs) 0 (fs.frame_count / 32 * 32) none =
        rw e at (first_frame-Least fs) in
      absurd (ground (arith, full n (omega arith) (omega (arith, count)), frames n))
  | inr (k, e) ↦
      let least : Least (used fs) 0 (fs.frame_count / 32 * 32) (some k) =
        rw e at (first_frame-Least fs) in
      let not_below : n ≤ k = elim (Bool-cases (ltb k n)) [
        | inl t ↦ absurd (ground (arith, frames k, least.2))
        | inr g ↦ ground arith
      ] in
      let not_above : k ≤ n = elim (Bool-cases (ltb n k)) [
        | inl t ↦ absurd (ground (arith, frames n, least.3 n (omega arith) (ground arith)))
        | inr g ↦ ground arith
      ] in
      let same : k ≡ n = omega arith in e ∙ ap some same
]

pub put_page_here : (t i : ℕ) (p : Page) (pages : ℕ → ℕ → Page) → put_page t i p pages t i ≡ p
unfolding put_page
put_page_here t i p pages = let here : (t == t && i == i) ≡ true = ground arith in rw here

-- A round where the table is there: page n gets frame n.
module _ (garbage dir n : ℕ) (s : Paging Early) (v : IsIdentity dir n s) (lt : n < 0x1000)
    (has : table_of dir n s ≢ 0) where
  page_apart :
      (m : ℕ) (p : Page)
      → m ≢ n
      → put_page (table_of dir n s) (n % 1024) p s.pages (table_of dir m s) (m % 1024)
        ≡ page_of dir m s
  unfolding put_page
  page_apart m p ne =
      elim (Bool-cases (table_of dir m s == table_of dir n s && m % 1024 == n % 1024)) [
        | inl both ↦
            let same : table_of dir n s ≡ table_of dir m s = ground arith in
            let rest : m % 1024 ≡ n % 1024 = ground arith in
            let place = v.once (n / 1024) (m / 1024) has same in absurd (ne (omega arith))
        | inr off ↦ rw off
      ]

  pub alloc_next :
      (s' : Paging Early) × (alloc_page
          (early_machine garbage)
          false
          false
          (table_of dir n s)
          (n % 1024)
          s
        ≡ ok s')
      × IsIdentity dir (n + 1) s'
      × (s'.world ≡ s.world)
      × (s'.directories ≡ s.directories)
  unfolding alloc_page early_machine
  alloc_next =
      let t = table_of dir n s in
      let (p, f, ran, b) =
        alloc_frame-Backed garbage n false false (page_of dir n s) s.frames
          (v.unmapped n (omega arith) has) (omega (arith, v.count))
          (next_free s.frames n v.count v.frames lt) in
      let pages = put_page t (n % 1024) p s.pages in
      let s' : Paging Early = record s { pages = pages; frames = f } in
      let here = put_page_here t (n % 1024) p s.pages in
      (
        s',
        rw ran,
        record {
          count = b.count ∙ v.count;
          frames = λ g. b.in_use g ∙ ground (arith, v.frames g);
          tables = λ m le. elim (Bool-cases (m == n)) [
            | inl e ↦ let at : m ≡ n = ground arith in rw at has
            | inr ne ↦ v.tables m (ground arith)
          ];
          mapped = λ m le. elim (Bool-cases (m == n)) [
            | inl e ↦
                let at : n ≡ m = ground arith in
                subst (λ k. ((page_of dir k s').frame ≡ k) × ((page_of dir k s').present ≡ 1)) at
                  (
                    ap (λ (q : Page). q.frame) here ∙ b.frame,
                    ap (λ (q : Page). q.present) here ∙ b.present,
                  )
            | inr ne ↦
                let same = page_apart m p (ground arith) in
                let (old_frame, old_present) = v.mapped m (ground arith) in
                (
                  ap (λ (q : Page). q.frame) same ∙ old_frame,
                  ap (λ (q : Page). q.present) same ∙ old_present,
                )
          ];
          unmapped = λ m le some_table.
              ap (λ (q : Page). q.frame) (page_apart m p (λ e. omega arith))
              ∙ v.unmapped m (omega arith) some_table;
          once = v.once;
          placed = v.placed;
        },
        refl,
        refl,
      )
