-- ===== src/Paging/Tables.antt =====
-- memory/paging.c: page directories and their tables. A table is known by its address and holds its
-- 1024 pages, of 4 bytes each; so tables lie at multiples of 0x1000, as `kmalloc_ap` is asked to place
-- them. 0 is the null pointer.
pub mod Lookup
pub mod Ownership
pub mod Clone
mod Tests
use panda_os.Base.{
  ltb, leb, ℕ, zero, suc, ◌+◌, ◌*◌, ◌/◌, ◌%◌, Bool, true, false, ◌&&◌, ◌||◌, Option, none, some,
  bit_or, ◌==◌, if◌then◌else◌, u32, add32, Outcome, ok, ◌>>=◌,
}
use panda_os.Paging.Frames.{Frames, Page, alloc_frame}

-- `page_directory_t`.
pub record Directory : Type 0 where
  pub tables : ℕ → ℕ
  pub tables_physical : ℕ → ℕ
  pub physical_address_of_tables_physical : ℕ

-- The directories and the tables by address, the bit set of frames, and what the allocator keeps.
pub record Paging (World : Type 0) : Type 0 where
  pub directories : ℕ → Directory
  pub pages : (table index : ℕ) → Page
  pub frames : Frames
  pub world : World

-- What these functions need of memory/kheap.c, where a call that makes the heap grow changes pages and
-- frames too, of memory as it is seen with paging off (`copy_page_physical`, in assembly), and the value of
-- a call of `first_frame` that finds none.
pub record Machine (World : Type 0) : Type 0 where
  pub kmalloc_ap : (sz : ℕ) → Paging World → Outcome (ℕ × ℕ × Paging World)
  pub copy_page_physical : (src dest : ℕ) → World → World
  pub garbage : ℕ

abbrev pub empty_page : Page
empty_page = record {
  present = 0;
  rw = 0;
  user = 0;
  accessed = 0;
  dirty = 0;
  unused = 0;
  frame = 0;
}

unfoldable pub put_page : (table index : ℕ) → Page → (ℕ → ℕ → Page) → ℕ → ℕ → Page
put_page table index p pages t i = if t == table && i == index then p else pages t i

unfoldable pub put_directory : (dir : ℕ) → Directory → (ℕ → Directory) → ℕ → Directory
put_directory dir d directories p = if p == dir then d else directories p

-- `tables[i] = table; tables_physical[i] = physical;`
unfoldable pub put_table : (i table physical : ℕ) → Directory → Directory
put_table i table physical d = record d {
  tables = λ j. if j == i then table else d.tables j;
  tables_physical = λ j. if j == i then physical else d.tables_physical j;
}

-- `memset(table, 0, 0x1000)`
unfoldable pub clear_table : (table : ℕ) → (ℕ → ℕ → Page) → ℕ → ℕ → Page
clear_table table pages t i = if t == table then empty_page else pages t i

-- `memset(table, 0, sizeof(page_directory_t))`: 8196 bytes, which are the table, the 4096 bytes behind
-- it and one word more.
unfoldable pub clear_directory : (table : ℕ) → (ℕ → ℕ → Page) → ℕ → ℕ → Page
clear_directory table pages t i =
    if t == table || t == table + 0x1000 || (t == table + 0x2000 && i == 0)
    then empty_page
    else pages t i

-- `if (src->pages[i].present) table->pages[i].present = 1;` and the like.
abbrev pub raise : (flag old : ℕ) → ℕ
raise flag old = if flag == 0 then old else 1

unfoldable pub copy_flags : (src dest : Page) → Page
copy_flags src dest = record dest {
  present = raise src.present dest.present;
  rw = raise src.rw dest.rw;
  user = raise src.user dest.user;
  accessed = raise src.accessed dest.accessed;
  dirty = raise src.dirty dest.dirty;
}

-- Whether the word at an address is one of those 8196 bytes.
unfoldable pub is_cleared : (table address : ℕ) → Bool
is_cleared table address = leb table address && ltb address (table + 8196)

-- That `memset` on the directories: the 1024 addresses of tables at the start of a directory, the 1024
-- physical ones 4096 bytes behind it, and the word 8192 bytes behind it.
unfoldable pub clear_directories : (table : ℕ) → (ℕ → Directory) → ℕ → Directory
unfolding is_cleared
clear_directories table directories d =
    let old = directories d in
    record {
      tables = λ i. if ltb i 1024 && is_cleared table (d + 4 * i) then 0 else old.tables i;
      tables_physical = λ i.
          if ltb i 1024 && is_cleared table (d + 0x1000 + 4 * i) then 0 else old.tables_physical i;
      physical_address_of_tables_physical =
          if is_cleared table (d + 0x2000) then 0 else old.physical_address_of_tables_physical;
    }

module _ {World : Type 0} (machine : Machine World) where
  -- A page is given by its table and its index there; `none` is the null pointer.
  unfoldable pub get_page :
      (address : ℕ) (make : Bool) (dir : ℕ) → Paging World → Outcome (Option (ℕ × ℕ) × Paging World)
  get_page address make dir s =
      let page_index = address / 0x1000 in
      let table_index = page_index / 1024 in
      let table = (s.directories dir).tables table_index in
      let created = machine.kmalloc_ap 0x1000 s >>= λ (at, tmp, s'). ok (
        some (at, page_index % 1024),
        record s' {
          directories =
              put_directory dir (put_table table_index at (bit_or tmp 0x7) (s'.directories dir))
                s'.directories;
          pages = clear_table at s'.pages;
        },
      ) in
      if table == 0
      then (if make then created else ok (none, s))
      else ok (some (table, page_index % 1024), s)

  -- `alloc_frame` on the page at an index of a table.
  unfoldable pub alloc_page :
      (is_kernel is_writeable : Bool) (table index : ℕ) → Paging World → Outcome (Paging World)
  alloc_page is_kernel is_writeable table index s =
      alloc_frame machine.garbage is_kernel is_writeable (s.pages table index) s.frames
      >>= λ (p, f). ok (record s { pages = put_page table index p s.pages; frames = f })

  -- The loop of `clone_table` over the pages, `left` of them to go from index i.
  unfoldable pub clone_page : (src table i : ℕ) → Paging World → Outcome (Paging World)
  unfolding alloc_page copy_flags
  clone_page src table i s =
      let p = s.pages src i in
      let copied = alloc_page false false table i s >>= λ s₁.
      let q = copy_flags p (s₁.pages table i) in
      ok (record s₁ {
        pages = put_page table i q s₁.pages;
        world =
            machine.copy_page_physical (u32 (p.frame * 0x1000)) (u32 (q.frame * 0x1000)) s₁.world;
      }) in
      if p.frame == 0 then ok s else copied

  unfoldable pub clone_pages : (left i src table : ℕ) → Paging World → Outcome (Paging World)
  clone_pages zero i src table s = ok s
  clone_pages (suc left) i src table s =
      clone_page src table i s >>= clone_pages left (i + 1) src table

  -- The new table's address and its physical address.
  unfoldable pub clone_table : (src : ℕ) → Paging World → Outcome (ℕ × ℕ × Paging World)
  clone_table src s = machine.kmalloc_ap 0x1000 s >>= λ (table, physical, s₁).
      clone_pages 1024 0 src table (record s₁ {
        directories = clear_directories table s₁.directories;
        pages = clear_directory table s₁.pages;
      })
      >>= λ s'. ok (table, physical, s')

  -- One round of the loop of `clone_directory`.
  unfoldable pub clone_entry : (kernel src dir i : ℕ) → Paging World → Outcome (Paging World)
  clone_entry kernel src dir i s =
      let table = (s.directories src).tables i in
      let link = put_table i table ((s.directories src).tables_physical i) (s.directories dir) in
      let cloned = clone_table table s >>= λ (new, physical, s'). ok (record s' {
        directories =
            put_directory dir (put_table i new (bit_or physical 0x07) (s'.directories dir))
              s'.directories;
      }) in
      if table == 0
      then ok s
      else (if (s.directories kernel).tables i == table
          then ok (record s { directories = put_directory dir link s.directories })
          else cloned)

  unfoldable pub clone_entries : (left i kernel src dir : ℕ) → Paging World → Outcome (Paging World)
  clone_entries zero i kernel src dir s = ok s
  clone_entries (suc left) i kernel src dir s =
      clone_entry kernel src dir i s >>= clone_entries left (i + 1) kernel src dir

  -- `tables_physical` lies 4096 bytes behind the start of a directory.
  unfoldable pub clone_directory : (kernel src : ℕ) → Paging World → Outcome (ℕ × Paging World)
  clone_directory kernel src s = machine.kmalloc_ap 8196 s >>= λ (dir, physical, s₁).
      clone_entries 1024 0 kernel src dir (record s₁ {
        directories =
            put_directory dir
              (record {
                tables = λ i. 0;
                tables_physical = λ i. 0;
                physical_address_of_tables_physical = add32 physical 0x1000;
              })
              s₁.directories;
      })
      >>= λ s'. ok (dir, s')
