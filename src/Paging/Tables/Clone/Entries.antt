-- ===== src/Paging/Tables/Clone/Entries.antt =====
-- The loop of `clone_directory`.
use panda_os.Base.{
  ℕ, zero, suc, ◌+◌, ◌≤◌, ◌<◌, ◌≡◌, ◌≢◌, refl, ap, sym, ◌∙◌, true, false, ◌==◌, arith, Bool-cases,
  inl, inr, bit_or,
}
use mathlib.Core.Path.{subst}
use panda_os.Paging.Tables.{
  Paging, Machine, Directory, put_directory, put_table, clone_table, clone_entry, clone_entries,
}
use panda_os.Paging.Tables.Ownership.{IsSound, Ensures, Ensures-bind}
use panda_os.Paging.Tables.Clone.Table.{Supplied, Allocator, clone_table-Supplied}

pub put_here :
    (dir : ℕ) (d : Directory) (j : ℕ) (ds : ℕ → Directory)
    → (put_directory dir d ds dir).tables j ≡ d.tables j
unfolding put_directory
put_here dir d j ds = let here : (dir == dir) ≡ true = ground arith in rw here

pub put_elsewhere :
    (dir p : ℕ) (d : Directory) (ds : ℕ → Directory) → p ≢ dir → put_directory dir d ds p ≡ ds p
unfolding put_directory
put_elsewhere dir p d ds ne = let off : (p == dir) ≡ false = ground arith in rw off

placed :
    (i v physical : ℕ) (d : Directory) (j : ℕ)
    → (j == i) ≡ true
    → (put_table i v physical d).tables j ≡ v
unfolding put_table
placed i v physical d j here = rw here

untouched :
    (i v physical : ℕ) (d : Directory) (j : ℕ)
    → (j == i) ≡ false
    → (put_table i v physical d).tables j ≡ d.tables j
unfolding put_table
untouched i v physical d j off = rw off

-- Soundness does not look at the directories.
pub relinked :
    {World : Type 0} {s : Paging World} (ds : ℕ → Directory)
    → IsSound s
    → IsSound (record s { directories = ds })
relinked ds v = record { owned = v.owned; count = v.count }

module _ (Fresh : ℕ → Type 0) where
  -- What a clone holds in a place: nothing where the source has nothing, the kernel's table where the
  -- source has it too, and otherwise a table of its own.
  pub record IsEntry (source kernel clone : ℕ) : Type 0 where
    pub absent : source ≡ 0 → clone ≡ 0
    pub shared : source ≢ 0 → kernel ≡ source → clone ≡ source
    pub own : source ≢ 0 → kernel ≢ source → Fresh clone

  -- Clones of the places below i have been made, in the directory `dir` alone of those that are kept.
  pub record IsPartial {World : Type 0} (Kept : ℕ → Type 0) (Later : World → Type 0)
      (kernel src dir i : ℕ) (s₀ s : Paging World) : Type 0 where
    pub sound : IsSound s
    pub later : Later s.world
    pub others : (d : ℕ) → Kept d → d ≢ dir → s.directories d ≡ s₀.directories d
    pub done :
        (j : ℕ)
        → j < i
        → IsEntry
            ((s₀.directories src).tables j)
            ((s₀.directories kernel).tables j)
            ((s.directories dir).tables j)
    pub todo : (j : ℕ) → i ≤ j → (s.directories dir).tables j ≡ 0

module _ {World : Type 0} (machine : Machine World)
    (returns_none : machine.garbage ≡ 0xffff_ffff) where
  module _ (Fresh Kept : ℕ → Type 0) (Later : World → Type 0)
      (allocator : Allocator machine Fresh Kept Later) where
    module _ (kernel src dir : ℕ) (src_apart : src ≢ dir) (kernel_apart : kernel ≢ dir)
        (kept_kernel : Kept kernel) (kept_src : Kept src) (kept_dir : Kept dir) where
      -- One more table in place i.
      IsPartial-put :
          (i v physical : ℕ) (s₀ s s₁ s' : Paging World)
          → IsPartial Fresh Kept Later kernel src dir i s₀ s
          → ((d : ℕ) → Kept d → s₁.directories d ≡ s.directories d)
          → s'.directories
            ≡ put_directory dir (put_table i v physical (s₁.directories dir)) s₁.directories
          → IsSound s'
          → Later s'.world
          → IsEntry Fresh ((s₀.directories src).tables i) ((s₀.directories kernel).tables i) v
          → IsPartial Fresh Kept Later kernel src dir (i + 1) s₀ s'
      IsPartial-put i v physical s₀ s s₁ s' p same put sound later entry =
          let at = λ (j : ℕ).
            ap (λ (ds : ℕ → Directory). (ds dir).tables j) put ∙ put_here dir _ j s₁.directories in
          let in_dir = λ (j : ℕ). ap (λ (d : Directory). d.tables j) (same dir kept_dir) in
          record {
            sound = sound;
            later = later;
            others = λ d is_kept ne.
                ap (λ (ds : ℕ → Directory). ds d) put
                ∙ put_elsewhere dir d _ s₁.directories ne
                ∙ same d is_kept
                ∙ p.others d is_kept ne;
            done = λ j lt. elim (Bool-cases (j == i)) [
              | inl here ↦
                  let e : i ≡ j = ground arith in
                  let new : v ≡ (s'.directories dir).tables j =
                    sym (at j ∙ placed i v physical (s₁.directories dir) j here) in
                  subst
                    (λ k.
                      IsEntry Fresh ((s₀.directories src).tables k)
                        ((s₀.directories kernel).tables k) ((s'.directories dir).tables j))
                    e
                    (subst
                      (IsEntry Fresh ((s₀.directories src).tables i)
                        ((s₀.directories kernel).tables i))
                      new entry)
              | inr before ↦
                  let old : (s.directories dir).tables j ≡ (s'.directories dir).tables j =
                    sym (at j ∙ untouched i v physical (s₁.directories dir) j before ∙ in_dir j) in
                  subst
                    (IsEntry Fresh ((s₀.directories src).tables j)
                      ((s₀.directories kernel).tables j))
                    old (p.done j (ground arith))
            ];
            todo = λ j le.
                at j
                ∙ untouched i v physical (s₁.directories dir) j (ground arith)
                ∙ in_dir j
                ∙ p.todo j (omega arith);
          }

      IsPartial-skip :
          (i : ℕ) (s₀ s : Paging World)
          → IsPartial Fresh Kept Later kernel src dir i s₀ s
          → (s₀.directories src).tables i ≡ 0
          → IsPartial Fresh Kept Later kernel src dir (i + 1) s₀ s
      IsPartial-skip i s₀ s p empty = record {
        sound = p.sound;
        later = p.later;
        others = p.others;
        done = λ j lt. elim (Bool-cases (j == i)) [
          | inl here ↦
              let e : i ≡ j = ground arith in
              let empty' = ap (λ k. (s₀.directories src).tables k) (sym e) ∙ empty in
              record {
                absent = λ _. p.todo j (omega arith);
                shared = λ ne _. absurd (ne empty');
                own = λ ne _. absurd (ne empty');
              }
          | inr before ↦ p.done j (ground arith)
        ];
        todo = λ j le. p.todo j (omega arith);
      }

      clone_entry-IsPartial :
          (i : ℕ) (s₀ s : Paging World)
          → IsPartial Fresh Kept Later kernel src dir i s₀ s
          → Ensures
              (IsPartial Fresh Kept Later kernel src dir (i + 1) s₀)
              (clone_entry machine kernel src dir i s)
      unfolding clone_entry
      clone_entry-IsPartial i s₀ s p =
          let table = (s.directories src).tables i in
          let from_src = ap (λ (d : Directory). d.tables i) (p.others src kept_src src_apart) in
          let from_kernel =
            ap (λ (d : Directory). d.tables i) (p.others kernel kept_kernel kernel_apart) in
          elim (Bool-cases (table == 0)) [
            | inl none_there ↦ rw none_there (IsPartial-skip i s₀ s p (sym from_src ∙ ground arith))
            | inr some_there ↦ elim (Bool-cases ((s.directories kernel).tables i == table)) [
              | inl same ↦
                  rw (some_there, same)
                    (IsPartial-put i table ((s.directories src).tables_physical i) s₀ s s
                      (record s {
                        directories =
                            put_directory dir
                              (put_table i table ((s.directories src).tables_physical i)
                                (s.directories dir))
                              s.directories;
                      })
                      p (λ d is_kept. refl) refl (relinked _ p.sound) (p.later)
                      (record {
                        absent = λ e. from_src ∙ e;
                        shared = λ _ _. from_src;
                        own = λ _ ne.
                            let e : (s.directories kernel).tables i ≡ table = ground arith in
                            absurd (ne (sym from_kernel ∙ e ∙ from_src));
                      }))
              | inr apart ↦
                  rw (some_there, apart)
                    (Ensures-bind (λ r. Supplied Fresh Kept Later s r.0 r.2)
                      (IsPartial Fresh Kept Later kernel src dir (i + 1) s₀)
                      (clone_table machine table s) _
                      (clone_table-Supplied machine Fresh Kept Later allocator table s returns_none
                        (p.sound) (p.later))
                      (λ (new, physical, s') got.
                        IsPartial-put i new (bit_or physical 0x07) s₀ s s'
                          (record s' {
                            directories =
                                put_directory dir
                                  (put_table i new (bit_or physical 0x07) (s'.directories dir))
                                  s'.directories;
                          })
                          p (got.kept) refl (relinked _ got.sound) (got.later)
                          (record {
                            absent = λ e. absurd (ground (arith, from_src ∙ e));
                            shared = λ _ e. absurd (ground (arith, from_kernel ∙ e ∙ sym from_src));
                            own = λ _ _. got.address;
                          })))
            ]
          ]

      pub clone_entries-IsPartial :
          (left i : ℕ) (s₀ s : Paging World)
          → IsPartial Fresh Kept Later kernel src dir i s₀ s
          → Ensures
              (IsPartial Fresh Kept Later kernel src dir (i + left) s₀)
              (clone_entries machine left i kernel src dir s)
      unfolding clone_entries
      clone_entries-IsPartial zero i s₀ s p =
          let end : i ≡ i + 0 = omega arith in
          subst (λ k. IsPartial Fresh Kept Later kernel src dir k s₀ s) end p
      clone_entries-IsPartial (suc left) i s₀ s p =
          Ensures-bind (IsPartial Fresh Kept Later kernel src dir (i + 1) s₀)
            (IsPartial Fresh Kept Later kernel src dir (i + suc left) s₀)
            (clone_entry machine kernel src dir i s) _ (clone_entry-IsPartial i s₀ s p)
            (λ s₁ q.
              let more : i + 1 + left ≡ i + suc left = omega arith in
              subst
                (λ k.
                  Ensures (IsPartial Fresh Kept Later kernel src dir k s₀)
                    (clone_entries machine left (i + 1) kernel src dir s₁))
                more (clone_entries-IsPartial left (i + 1) s₀ s₁ q))
