-- ===== src/Paging/Tables/Lookup.antt =====
-- `get_page` finds pages.
use panda_os.Base.{
  ℕ, ◌/◌, ◌%◌, ◌≡◌, ◌≢◌, ◌↔◌, ap, Bool, true, false, some, ◌==◌, ok, arith, bit_or, Bool-cases, inl,
  inr,
}
use panda_os.Paging.Tables.{Paging, Machine, get_page, put_directory, put_table, clear_table}

module _ {World : Type 0} (machine : Machine World) (dir : ℕ) (s : Paging World) where
  -- Where a directory has tables for two addresses, no table twice, `get_page` finds the same page for
  -- both exactly when they lie in the same 4096 bytes, and changes nothing.
  pub get_page_same :
      (a b : ℕ) (make : Bool)
      → let table = (s.directories dir).tables in
        table (a / 0x1000 / 1024) ≢ 0
        → table (b / 0x1000 / 1024) ≢ 0
        → (table (a / 0x1000 / 1024) ≡ table (b / 0x1000 / 1024)
            → a / 0x1000 / 1024 ≡ b / 0x1000 / 1024)
        → (p : ℕ × ℕ) × (q : ℕ × ℕ) × (get_page machine a make dir s ≡ ok (some p, s))
          × (get_page machine b make dir s ≡ ok (some q, s))
          × ((p ≡ q) ↔ (a / 0x1000 ≡ b / 0x1000))
  unfolding get_page
  get_page_same a b make has_a has_b once =
      let table = (s.directories dir).tables in
      let ta : (table (a / 0x1000 / 1024) == 0) ≡ false = ground arith in
      let tb : (table (b / 0x1000 / 1024) == 0) ≡ false = ground arith in
      (
        (table (a / 0x1000 / 1024), a / 0x1000 % 1024),
        (table (b / 0x1000 / 1024), b / 0x1000 % 1024),
        rw ta,
        rw tb,
        (
          (λ e. omega (arith, once (ap (λ p. p.0) e), ap (λ p. p.1) e)),
          λ e. ap (λ n. (table (n / 1024), n % 1024)) e,
        ),
      )

  -- With `make`, `get_page` finds a page for any address as long as there is memory for a table; a
  -- second call then finds the same page, asked to make it or not, and changes nothing.
  pub get_page_again :
      (address at physical : ℕ) (s₁ : Paging World) (make : Bool)
      → machine.kmalloc_ap 0x1000 s ≡ ok (at, physical, s₁)
      → at ≢ 0
      → (p : ℕ × ℕ) × (s' : Paging World) × (get_page machine address true dir s ≡ ok (some p, s'))
        × (get_page machine address make dir s' ≡ ok (some p, s'))
  unfolding get_page put_directory put_table
  get_page_again address at physical s₁ make supplied some_table =
      let n = address / 0x1000 in
      let d = s.directories dir in
      let here : (dir == dir) ≡ true = ground arith in
      let place : (n / 1024 == n / 1024) ≡ true = ground arith in
      let found : (at == 0) ≡ false = ground arith in
      elim (Bool-cases (d.tables (n / 1024) == 0)) [
        | inr old ↦ ((d.tables (n / 1024), n % 1024), s, rw old, rw old)
        | inl new ↦ (
          (at, n % 1024),
          record s₁ {
            directories =
                put_directory dir
                  (put_table (n / 1024) at (bit_or physical 0x7) (s₁.directories dir))
                  s₁.directories;
            pages = clear_table at s₁.pages;
          },
          rw (new, supplied),
          rw (here, place, found),
        )
      ]
