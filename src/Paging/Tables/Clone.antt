-- ===== src/Paging/Tables/Clone.antt =====
-- A cloned directory: its tables, and the ownership of frames.
pub mod Table
pub mod Entries
use panda_os.Base.{
  ℕ, zero, suc, ◌+◌, ◌*◌, ◌%◌, ◌^◌, ◌≤◌, ◌<◌, ◌≡◌, ◌≢◌, refl, ap, sym, ◌∙◌, Bool, true, false, ◌&&◌,
  ◌||◌, Option, none, some, ◌==◌, if◌then◌else◌, Outcome, ok, panic, out_of_fuel, ◌>>=◌, arith,
  Bool-cases, inl, inr, ◌⊎◌, u32, bit_or, add32, ltb,
}
use mathlib.Core.Path.{subst}
use panda_os.Paging.Frames.{Frames, Page}
use panda_os.Paging.Tables.{
  Paging, Machine, Directory, empty_page, put_page, put_directory, put_table, alloc_page,
  clear_directory, copy_flags, clone_page, clone_pages, clone_table, clone_entry, clone_entries,
  clone_directory,
}
use panda_os.Paging.Tables.Ownership.{
  Owned, Owned-fewer, IsSound, Allocated, Ensures, Ensures-bind, Ensures-mono, alloc_page-Allocated,
  put_page-elsewhere, put_page-frame,
}
use panda_os.Paging.Tables.Clone.Table.{Supplied, Allocator}
use panda_os.Paging.Tables.Clone.Entries.{
  IsEntry, IsPartial, relinked, put_here, put_elsewhere, clone_entries-IsPartial,
}

-- The clone at `dir` of the directory at `src`.
pub record Cloned {World : Type 0} (Fresh Kept : ℕ → Type 0) (kernel src : ℕ) (s : Paging World)
    (dir : ℕ) (s' : Paging World) : Type 0 where
  pub sound : IsSound s'
  pub others : (d : ℕ) → Kept d → d ≢ dir → s'.directories d ≡ s.directories d
  pub entries :
      (i : ℕ)
      → i < 1024
      → IsEntry Fresh
          ((s.directories src).tables i)
          ((s.directories kernel).tables i)
          ((s'.directories dir).tables i)

-- A new directory is to be kept, and is not one of the two.
abbrev pub IsNew : (Kept : ℕ → Type 0) (kernel src dir : ℕ) → Type 0
IsNew Kept kernel src dir = Kept dir × (src ≢ dir) × (kernel ≢ dir)

module _ {World : Type 0} (machine : Machine World) (Fresh Kept : ℕ → Type 0)
    (Later : World → Type 0) (allocator : Allocator machine Fresh Kept Later) where
  -- Take pages that have their frames for themselves, and a call of `first_frame` that finds none, whose
  -- result is not defined, to return 0xffffffff. Let the allocator supply tables at the addresses that `Fresh`
  -- tells, whose 8196 bytes lie apart from the directories that `Kept` tells, among which are the kernel's,
  -- the source and the new one; and let its calls change none of these and leave every frame to one page.
  -- Then `clone_directory` ends. Unless it panics, all directories of `Kept` but the new one are as they
  -- were, and the new one has in each place nothing where the source has nothing, the table of the source
  -- where the kernel has it too, and otherwise a table that the allocator has supplied; and no frame stands in
  -- two pages.
  pub clone_directory-Cloned :
      (kernel src : ℕ) (s : Paging World)
      → machine.garbage ≡ 0xffff_ffff
      → Kept kernel
      → Kept src
      → Ensures
          (λ r. Supplied (IsNew Kept kernel src) Kept Later s r.0 r.2)
          (machine.kmalloc_ap 8196 s)
      → Ensures
          (λ r. Kept r.0 × Cloned Fresh Kept kernel src s r.0 r.1)
          (clone_directory machine kernel src s)
  unfolding clone_directory
  clone_directory-Cloned kernel src s returns_none kept_kernel kept_src room =
      Ensures-bind (λ r. Supplied (IsNew Kept kernel src) Kept Later s r.0 r.2)
        (λ r. Kept r.0 × Cloned Fresh Kept kernel src s r.0 r.1) (machine.kmalloc_ap 8196 s) _ room
        (λ (dir, physical, s₁) got.
          let (kept_dir, src_apart, kernel_apart) = got.address in
          let empty : Directory = record {
            tables = λ i. 0;
            tables_physical = λ i. 0;
            physical_address_of_tables_physical = (physical + 0x1000) % 2 ^ 32;
          } in
          let s₀ = record s₁ { directories = put_directory dir empty s₁.directories } in
          let from = λ (d : ℕ) (is_kept : Kept d) (ne : d ≢ dir).
            put_elsewhere dir d empty s₁.directories ne ∙ got.kept d is_kept in
          let start : IsPartial Fresh Kept Later kernel src dir 0 s₀ s₀ = record {
            sound = relinked _ got.sound;
            later = got.later;
            others = λ d is_kept ne. refl;
            done = λ j lt. absurd (omega arith);
            todo = λ j le. put_here dir empty j s₁.directories;
          } in
          Ensures-bind (IsPartial Fresh Kept Later kernel src dir (0 + 1024) s₀)
            (λ r. Kept r.0 × Cloned Fresh Kept kernel src s r.0 r.1)
            (clone_entries machine 1024 0 kernel src dir s₀) _
            (clone_entries-IsPartial machine returns_none Fresh Kept Later allocator kernel src dir
              src_apart kernel_apart kept_kernel kept_src kept_dir 1024 0 s₀ s₀ start)
            (λ s' p. (
              kept_dir,
              record {
                sound = p.sound;
                others = λ d is_kept ne. p.others d is_kept ne ∙ from d is_kept ne;
                entries = λ i lt.
                    subst
                      (λ d.
                        IsEntry Fresh (d.tables i) ((s.directories kernel).tables i)
                          ((s'.directories dir).tables i))
                      (from src kept_src src_apart)
                      (subst
                        (λ d.
                          IsEntry Fresh ((s₀.directories src).tables i) (d.tables i)
                            ((s'.directories dir).tables i))
                        (from kernel kept_kernel kernel_apart) (p.done i lt));
              },
            )))
