-- ===== src/Paging/Start/Grow.antt =====
-- What a new table does to the identity mapping.
use panda_os.Base.{
  ℕ, ◌+◌, ◌/◌, ◌%◌, ◌^◌, ◌≤◌, ◌<◌, ◌≡◌, ◌≢◌, refl, ap, sym, ◌∙◌, true, false, some, ◌==◌,
  if◌then◌else◌, ok, arith, Bool-cases, inl, inr, ◌⊎◌, bit_or,
}
use panda_os.Heap.Placement.{Early, kmalloc_early_lem, page_up}
use panda_os.Paging.Frames.{Page}
use panda_os.Paging.Tables.{Paging, empty_page, get_page, put_directory, put_table, clear_table}
use panda_os.Paging.Start.{early_machine}
use panda_os.Paging.Start.Step.{IsIdentity, KeepsTables, table_of, page_of}

clear_table_here : (t i : ℕ) (pages : ℕ → ℕ → Page) → clear_table t pages t i ≡ empty_page
unfolding clear_table
clear_table_here t i pages = let here : (t == t) ≡ true = ground arith in rw here

clear_table_elsewhere :
    (t u i : ℕ) (pages : ℕ → ℕ → Page) → u ≢ t → clear_table t pages u i ≡ pages u i
unfolding clear_table
clear_table_elsewhere t u i pages ne = let off : (u == t) ≡ false = ground arith in rw off

-- The state with a table for place j at `at`.
abbrev made : (dir j at brk : ℕ) → Paging Early → Paging Early
made dir j at brk s = record s {
  directories =
      put_directory dir (put_table j at (bit_or at 0x7) (s.directories dir)) s.directories;
  pages = clear_table at s.pages;
  world = record { placement_address = brk };
}

made_cases :
    (dir j at brk : ℕ) (s : Paging Early) (k : ℕ)
    → ((k ≡ j) × (((made dir j at brk s).directories dir).tables k ≡ at))
      ⊎ ((k ≢ j)
          × (((made dir j at brk s).directories dir).tables k ≡ (s.directories dir).tables k))
unfolding put_directory put_table
made_cases dir j at brk s k =
    let here : (dir == dir) ≡ true = ground arith in
    elim (Bool-cases (k == j)) [
      | inl e ↦ inl (ground arith, rw (here, e))
      | inr ne ↦ inr (ground arith, rw (here, ne))
    ]

module _ (dir n j at brk : ℕ) (s : Paging Early) (v : IsIdentity dir n s)
    (missing : (s.directories dir).tables j ≡ 0) (behind : s.world.placement_address ≤ at)
    (before : at < brk) where
  some_table : at ≢ 0
  some_table = λ e. omega (arith, v.placed j)

  -- An old table is another one, and keeps its pages.
  apart :
      (k i : ℕ)
      → (made dir j at brk s).pages ((s.directories dir).tables k) i
        ≡ s.pages ((s.directories dir).tables k) i
  apart k i =
      clear_table_elsewhere at ((s.directories dir).tables k) i s.pages
        (λ e. omega (arith, v.placed k))

  made_page : (m : ℕ) → (m / 1024 ≢ j) → page_of dir m (made dir j at brk s) ≡ page_of dir m s
  made_page m ne = elim (made_cases dir j at brk s (m / 1024)) [
    | inl (e, _) ↦ absurd (ne e)
    | inr (_, old) ↦ ap (λ t. clear_table at s.pages t (m % 1024)) old ∙ apart (m / 1024) (m % 1024)
  ]

  -- A new table in an empty place leaves the mapping as it is.
  pub made-IsIdentity : IsIdentity dir n (made dir j at brk s)
  made-IsIdentity = record {
    count = v.count;
    frames = v.frames;
    tables = λ m lt. elim (made_cases dir j at brk s (m / 1024)) [
      | inl (_, new) ↦ λ e. some_table (sym new ∙ e)
      | inr (_, old) ↦ λ e. v.tables m lt (sym old ∙ e)
    ];
    mapped = λ m lt.
        let same =
          made_page m (λ e. v.tables m lt (ap (λ k. (s.directories dir).tables k) e ∙ missing)) in
        let (old_frame, old_present) = v.mapped m lt in
        (
          ap (λ (q : Page). q.frame) same ∙ old_frame,
          ap (λ (q : Page). q.present) same ∙ old_present,
        );
    unmapped = λ m le has. elim (made_cases dir j at brk s (m / 1024)) [
      | inl (_, new) ↦
          ap (λ t. (clear_table at s.pages t (m % 1024)).frame) new
          ∙ ap (λ (q : Page). q.frame) (clear_table_here at (m % 1024) s.pages)
      | inr (ne, old) ↦
          ap (λ (q : Page). q.frame) (made_page m ne) ∙ v.unmapped m le (λ e. has (old ∙ e))
    ];
    once = λ k l has same. elim (made_cases dir j at brk s k) [
      | inl (kj, k_new) ↦ elim (made_cases dir j at brk s l) [
        | inl (lj, _) ↦ kj ∙ sym lj
        | inr (_, l_old) ↦ absurd (omega (arith, v.placed l, sym k_new ∙ same ∙ l_old))
      ]
      | inr (_, k_old) ↦ elim (made_cases dir j at brk s l) [
        | inl (_, l_new) ↦ absurd (omega (arith, v.placed k, sym k_old ∙ same ∙ l_new))
        | inr (_, l_old) ↦ v.once k l (λ e. has (k_old ∙ e)) (sym k_old ∙ same ∙ l_old)
      ]
    ];
    placed = λ k. elim (made_cases dir j at brk s k) [
      | inl (_, new) ↦ omega (arith, new)
      | inr (_, old) ↦ omega (arith, old, v.placed k)
    ];
  }

-- The page of an address, with the table that it is in, and what making that takes.
pub record Found (dir n a : ℕ) (s s' : Paging Early) : Type 0 where
  pub table : table_of dir (a / 0x1000) s' ≢ 0
  pub identity : IsIdentity dir n s'
  pub kept : KeepsTables dir s s'
  pub above : s.world.placement_address ≤ s'.world.placement_address
  pub cost :
      s'.world.placement_address
      ≤ s.world.placement_address + (if table_of dir (a / 0x1000) s == 0 then 0x2000 else 0)

pub get_page-Found :
    (garbage dir n a : ℕ) (s : Paging Early)
    → IsIdentity dir n s
    → s.world.placement_address + 0x2000 < 2 ^ 32
    → (s' : Paging Early) × (get_page (early_machine garbage) a true dir s
        ≡ ok (some (table_of dir (a / 0x1000) s', a / 0x1000 % 1024), s'))
      × Found dir n a s s'
unfolding get_page early_machine
get_page-Found garbage dir n a s v room = elim (Bool-cases (table_of dir (a / 0x1000) s == 0)) [
  | inr old ↦ (
    s,
    rw old,
    record {
      table = ground arith;
      identity = v;
      kept = λ k has. refl;
      above = omega arith;
      cost = omega arith;
    },
  )
  | inl new ↦
      let j = a / 0x1000 / 1024 in
      let at = page_up s.world.placement_address in
      let missing : (s.directories dir).tables j ≡ 0 = ground arith in
      let given = kmalloc_early_lem 0x1000 true s.world (omega arith) in
      let s' = made dir j at (at + 0x1000) s in
      elim (made_cases dir j at (at + 0x1000) s j) [
        | inr (ne, _) ↦ absurd (ne refl)
        | inl (_, there) ↦ (
          s',
          rw (new, given, there),
          record {
            table = λ e.
                some_table dir n j at (at + 0x1000) s v missing (omega arith) (omega arith)
                  (sym there ∙ e);
            identity =
                made-IsIdentity dir n j at (at + 0x1000) s v missing (omega arith) (omega arith);
            kept = λ k has. elim (made_cases dir j at (at + 0x1000) s k) [
              | inl (e, _) ↦ absurd (has (ap (λ x. (s.directories dir).tables x) e ∙ missing))
              | inr (_, old) ↦ old
            ];
            above = omega arith;
            cost = rw new (omega arith);
          },
        )
      ]
]
