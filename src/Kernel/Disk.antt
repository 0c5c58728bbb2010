-- ===== src/Kernel/Disk.antt =====
-- Where memory is handed out once the ram disk has been found.
use panda_os.Base.{ℕ, ◌+◌, ◌%◌, ◌^◌, ◌<◌, ◌≡◌, Bool, true, List, ltb, ok, panic, arith}
use panda_os.Base.Memory.{Memory, load32}
use panda_os.Heap.Placement.{Early, early_run, demand, Ascending, Aligned, early_run-Ascending}
use panda_os.Kernel.{mods_count_of, mods_addr_of, create_filesystem}

-- Where the boot loader has passed a module, `create_filesystem` returns its start, and all requests
-- that the placement allocator serves from then on get regions behind its end, one after another.
pub create_filesystem-Ascending :
    (mboot_ptr : ℕ) (m : Memory) (e : Early) (requests : List (ℕ × Bool))
    → 0 < mods_count_of mboot_ptr m
    → let mods_addr = mods_addr_of mboot_ptr m in
      mods_addr + 4 < 2 ^ 32
      → load32 (mods_addr + 4) m + demand requests < 2 ^ 32
      → (e' : Early) × (create_filesystem mboot_ptr m e ≡ ok (load32 mods_addr m, e'))
        × Ascending (load32 (mods_addr + 4) m) (early_run requests e')
        × Aligned requests (early_run requests e')
unfolding create_filesystem
create_filesystem-Ascending mboot_ptr m e requests some_module flat fits =
    let passed : ltb 0 (mods_count_of mboot_ptr m) ≡ true = ground arith in
    let at : (mods_addr_of mboot_ptr m + 4) % 2 ^ 32 ≡ mods_addr_of mboot_ptr m + 4 = omega arith in
    let e' : Early = record { placement_address = load32 (mods_addr_of mboot_ptr m + 4) m } in
    let (ascending, aligned) = early_run-Ascending requests e' fits in
    (e', rw (passed, at), ascending, aligned)

-- Without a module the kernel stops.
pub create_filesystem_stops :
    (mboot_ptr : ℕ) (m : Memory) (e : Early)
    → mods_count_of mboot_ptr m ≡ 0
    → create_filesystem mboot_ptr m e ≡ panic
unfolding create_filesystem
create_filesystem_stops mboot_ptr m e none_there = rw none_there
