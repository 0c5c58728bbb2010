-- ===== src/Paging/Tables/Clone/Table.antt =====
-- `clone_table` and the ownership of frames.
use panda_os.Base.{
  Bool, ltb, ◌*◌, ◌≤◌, ◌<◌, ap, sym, ◌⊎◌, ℕ, zero, suc, ◌+◌, ◌≡◌, ◌≢◌, refl, ◌∙◌, true, false, ◌&&◌,
  ◌||◌, ◌==◌, if◌then◌else◌, arith, Bool-cases, inl, inr,
}
use mathlib.Core.Path.{subst, fun_ext}
use panda_os.Paging.Frames.{Page}
use panda_os.Paging.Owned.{alloc_frame_cases}
use panda_os.Paging.Tables.{
  Paging, Machine, Directory, is_cleared, clear_directories, put_page, alloc_page, clear_directory,
  copy_flags, clone_page, clone_pages, clone_table,
}
use panda_os.Paging.Tables.Ownership.{
  Owned-fewer, IsSound, Allocated, Ensures, Ensures-bind, Ensures-mono, alloc_page-Allocated,
  put_page-frame,
}

if_false : (b : Bool) → b ≡ false → (x y : ℕ) → (if b then x else y) ≡ y
if_false b e x y = rw e refl

clear_directory-frame :
    (table : ℕ) (pages : ℕ → ℕ → Page) (t i : ℕ)
    → (clear_directory table pages t i).frame ≢ 0
    → (clear_directory table pages t i).frame ≡ (pages t i).frame
unfolding clear_directory
clear_directory-frame table pages t i ne =
    elim (Bool-cases (t == table || t == table + 0x1000 || (t == table + 0x2000 && i == 0))) [
      | inl cleared ↦ absurd (ne (rw cleared))
      | inr kept ↦ rw kept
    ]

-- Neither the 8196 bytes of a directory nor the 8196 from a table on reach into the others.
abbrev pub IsApart : (table d : ℕ) → Type 0
IsApart table d = (table + 8196 ≤ d) ⊎ (d + 8196 ≤ table)

is_cleared-not : (table d k : ℕ) → IsApart table d → k < 8196 → is_cleared table (d + k) ≡ false
unfolding is_cleared
is_cleared-not table d k apart lt = ground arith

-- Clearing 8196 bytes of a table leaves a directory that lies apart from them.
clear_directories-apart :
    (table d : ℕ) (ds : ℕ → Directory) → IsApart table d → clear_directories table ds d ≡ ds d
unfolding clear_directories
clear_directories-apart table d ds apart =
    let first = λ (i : ℕ).
      let kept : (ltb i 1024 && is_cleared table (d + 4 * i)) ≡ false =
        elim (Bool-cases (ltb i 1024)) [
          | inl lt ↦ rw lt (is_cleared-not table d (4 * i) apart (ground (arith, lt)))
          | inr ge ↦ rw ge refl
        ] in
      if_false _ kept 0 ((ds d).tables i) in
    let second = λ (i : ℕ).
      let here : d + 0x1000 + 4 * i ≡ d + (0x1000 + 4 * i) = omega arith in
      let kept : (ltb i 1024 && is_cleared table (d + 0x1000 + 4 * i)) ≡ false =
        elim (Bool-cases (ltb i 1024)) [
          | inl lt ↦
              rw (lt, here) (is_cleared-not table d (0x1000 + 4 * i) apart (ground (arith, lt)))
          | inr ge ↦ rw ge refl
        ] in
      if_false _ kept 0 ((ds d).tables_physical i) in
    let third =
      if_false _ (is_cleared-not table d 0x2000 apart (omega arith)) 0
        ((ds d).physical_address_of_tables_physical) in
    ap (λ t. record (clear_directories table ds d) { tables = t }) (fun_ext first)
    ∙ ap
        (λ t. record (clear_directories table ds d) { tables = (ds d).tables; tables_physical = t })
        (fun_ext second)
    ∙ ap (λ p. record (ds d) { physical_address_of_tables_physical = p }) third

-- What the copying of pages keeps. `Later` tells the states of the allocator.
pub record Copied {World : Type 0} (Later : World → Type 0) (s s' : Paging World) : Type 0 where
  pub sound : IsSound s'
  pub directories : s'.directories ≡ s.directories
  pub later : Later s'.world

module _ {World : Type 0} (machine : Machine World) (returns_none : machine.garbage ≡ 0xffff_ffff)
    (Later : World → Type 0)
    (copies : (src dest : ℕ) (w : World)
      → Later w
      → Later (machine.copy_page_physical src dest w)) where
  clone_page-Copied :
      (src table i : ℕ) (s : Paging World)
      → IsSound s
      → Later s.world
      → Ensures (Copied Later s) (clone_page machine src table i s)
  unfolding clone_page
  clone_page-Copied src table i s v later = elim (Bool-cases ((s.pages src i).frame == 0)) [
    | inl empty ↦ rw empty (record { sound = v; directories = refl; later = later })
    | inr held ↦ rw held (
        Ensures-bind (Allocated table s) (Copied Later s) (alloc_page machine false false table i s)
          _ (alloc_page-Allocated machine returns_none false false table i s v)
          (λ s₁ a. record {
            sound = record {
              owned =
                  Owned-fewer s₁.pages _ s₁.frames
                    (λ u j _.
                      put_page-frame table i (copy_flags (s.pages src i) (s₁.pages table i))
                        s₁.pages refl u j)
                    a.sound.owned;
              count = a.sound.count;
            };
            directories = a.directories;
            later = copies _ _ s₁.world (subst Later (sym a.world_same) later);
          }))
  ]

  clone_pages-Copied :
      (left i src table : ℕ) (s : Paging World)
      → IsSound s
      → Later s.world
      → Ensures (Copied Later s) (clone_pages machine left i src table s)
  unfolding clone_pages
  clone_pages-Copied zero i src table s v later = record {
    sound = v;
    directories = refl;
    later = later;
  }
  clone_pages-Copied (suc left) i src table s v later =
      Ensures-bind (Copied Later s) (Copied Later s) (clone_page machine src table i s) _
        (clone_page-Copied src table i s v later)
        (λ s₁ a.
          Ensures-mono (Copied Later s₁) (Copied Later s)
            (clone_pages machine left (i + 1) src table s₁)
            (λ s₂ b. record {
              sound = b.sound;
              directories = b.directories ∙ a.directories;
              later = b.later;
            })
            (clone_pages-Copied left (i + 1) src table s₁ a.sound a.later))

-- What a call of the allocator returns and keeps: an address as `P` tells, pages that have their frames for
-- themselves, and the directories at the addresses that `Kept` tells.
pub record Supplied {World : Type 0} (P Kept : ℕ → Type 0) (Later : World → Type 0)
    (s : Paging World) (at : ℕ) (s' : Paging World) : Type 0 where
  pub address : P at
  pub sound : IsSound s'
  pub kept : (d : ℕ) → Kept d → s'.directories d ≡ s.directories d
  pub later : Later s'.world

-- An allocator for tables: from a state that `Later` tells, each call that does not panic supplies an address
-- that `Fresh` tells and comes to such a state again; so does copying a page. No table that it supplies lies
-- where the 8196 bytes that are cleared of it reach a directory that is to be kept.
pub record Allocator {World : Type 0} (machine : Machine World) (Fresh Kept : ℕ → Type 0)
    (Later : World → Type 0) : Type 0 where
  pub supplies :
      (s : Paging World)
      → IsSound s
      → Later s.world
      → Ensures (λ r. Supplied Fresh Kept Later s r.0 r.2) (machine.kmalloc_ap 0x1000 s)
  pub copies : (src dest : ℕ) (w : World) → Later w → Later (machine.copy_page_physical src dest w)
  pub apart : (table d : ℕ) → Fresh table → Kept d → IsApart table d

pub clone_table-Supplied :
    {World : Type 0} (machine : Machine World) (Fresh Kept : ℕ → Type 0) (Later : World → Type 0)
    (allocator : Allocator machine Fresh Kept Later) (src : ℕ) (s : Paging World)
    → machine.garbage ≡ 0xffff_ffff
    → IsSound s
    → Later s.world
    → Ensures (λ r. Supplied Fresh Kept Later s r.0 r.2) (clone_table machine src s)
unfolding clone_table
clone_table-Supplied machine Fresh Kept Later allocator src s returns_none v later =
    Ensures-bind (λ r. Supplied Fresh Kept Later s r.0 r.2)
      (λ r. Supplied Fresh Kept Later s r.0 r.2) (machine.kmalloc_ap 0x1000 s) _
      (allocator.supplies s v later)
      (λ (table, physical, s₁) got.
        let s₀ = record s₁ {
          directories = clear_directories table s₁.directories;
          pages = clear_directory table s₁.pages;
        } in
        let sound : IsSound s₀ = record {
          owned =
              Owned-fewer s₁.pages (clear_directory table s₁.pages) s₁.frames
                (clear_directory-frame table s₁.pages) got.sound.owned;
          count = got.sound.count;
        } in
        Ensures-bind (Copied Later s₀) (λ r. Supplied Fresh Kept Later s r.0 r.2)
          (clone_pages machine 1024 0 src table s₀) _
          (clone_pages-Copied machine returns_none Later (allocator.copies) 1024 0 src table s₀
            sound got.later)
          (λ s' a. record {
            address = got.address;
            sound = a.sound;
            kept = λ d is_kept.
                ap (λ (ds : ℕ → Directory). ds d) a.directories
                ∙ clear_directories-apart table d s₁.directories
                    (allocator.apart table d (got.address) is_kept)
                ∙ got.kept d is_kept;
            later = a.later;
          }))

-- A page that `clone_page` copies is present and open to user mode whatever the source page was, since
-- the flags of the source are only ever added; it is writable only if the source is.
pub clone_page-open :
    {World : Type 0} (machine : Machine World) (src table i : ℕ) (s : Paging World)
    → machine.garbage ≡ 0xffff_ffff
    → IsSound s
    → (s.pages src i).frame ≢ 0
    → (s.pages table i).frame ≡ 0
    → Ensures
        (λ s'.
          let p = s'.pages table i in
          (p.present ≡ 1) × (p.user ≡ 1) × (p.rw ≡ (if (s.pages src i).rw == 0 then 0 else 1)))
        (clone_page machine src table i s)
unfolding clone_page put_page
clone_page-open machine src table i s returns_none v held empty =
    let copied : ((s.pages src i).frame == 0) ≡ false = ground arith in
    let here : (table == table && i == i) ≡ true = ground arith in
    elim (alloc_frame_cases machine.garbage false false (s.pages table i) s.frames returns_none
      v.count) [
        | inl stop ↦ rw (copied, stop) tt
        | inr (inl (has, ran)) ↦ absurd (has empty)
        | inr (inr (k, p, f, _, ran, b)) ↦
            rw (copied, ran, here)
              (
                ground (arith, b.present, b.user_flag),
                ground (arith, b.user_flag),
                ground (arith, b.rw_flag),
              )
      ]
