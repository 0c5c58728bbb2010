-- ===== src/Kernel.antt =====
-- kernel.c: finding the ram disk, and printing its files.
pub mod Disk
mod Tests
use panda_os.Base.{
  ℕ, zero, suc, ◌+◌, Bool, List, [], ◌∷◌, ltb, ◌==◌, if◌then◌else◌, add32, Outcome, ok, out_of_fuel,
  assert, ◌>>=◌, ◌>>◌,
}
use panda_os.Base.Text.{bytes}
use panda_os.Base.Memory.{Memory, load8, load32}
use panda_os.Monitor.{Monitor, monitor_put, monitor_write, monitor_write_sys}
use panda_os.Heap.Placement.{Early}
use panda_os.Files.{is_directory, read_fs, readdir_fs, finddir_fs}

-- The fields of `struct multiboot`, and the two words of the first module.
abbrev pub mods_count_of : (mboot_ptr : ℕ) → Memory → ℕ
mods_count_of mboot_ptr m = load32 (mboot_ptr + 20) m

abbrev pub mods_addr_of : (mboot_ptr : ℕ) → Memory → ℕ
mods_addr_of mboot_ptr m = load32 (mboot_ptr + 24) m

-- The location of the ram disk, and the placement allocator.
unfoldable pub create_filesystem : (mboot_ptr : ℕ) → Memory → Early → Outcome (ℕ × Early)
create_filesystem mboot_ptr m e =
    let mods_addr = mods_addr_of mboot_ptr m in
    assert (ltb 0 (mods_count_of mboot_ptr m))
    >> ok (load32 mods_addr m, record e { placement_address = load32 (add32 mods_addr 4) m })

-- The bytes of the string at an address, and the bytes of a buffer.
unfoldable pub text_at : (fuel p : ℕ) → Memory → Outcome (List ℕ)
text_at zero p m = out_of_fuel
text_at (suc fuel) p m =
    let rest = text_at fuel (p + 1) m >>= λ cs. ok (load8 p m ∷ cs) in
    if load8 p m == 0 then ok [] else rest

unfoldable pub buffer_at : (size buf : ℕ) → Memory → List ℕ
buffer_at zero buf m = []
buffer_at (suc size) buf m = load8 buf m ∷ buffer_at size (buf + 1) m

-- What the functions of the file system are, by address, and where the buffer lies on the stack.
pub record Calls : Type 0 where
  pub read : (function node offset size buffer : ℕ) → Memory → Outcome (ℕ × Memory)
  pub readdir : (function node argument : ℕ) → Memory → Outcome (ℕ × Memory)
  pub finddir : (function node argument : ℕ) → Memory → Outcome (ℕ × Memory)
  pub buf : ℕ

module _ (calls : Calls) (fuel fs_root : ℕ) where
  -- The branch for a directory, and the one for a file with its first 256 bytes.
  unfoldable pub print_node : (fsnode : ℕ) → Memory → Monitor → Outcome (Memory × Monitor)
  unfolding buffer_at
  print_node fsnode m s =
      let directory = ok (m, monitor_write_sys (bytes "\n\t(directory)\n") s) in
      let contents = read_fs calls.read fsnode 0 256 calls.buf m >>= λ (sz, m').
      let start = monitor_write_sys (bytes "\n\t contents: \"") s in
      ok (m', monitor_write_sys (bytes "\"\n") (monitor_write (buffer_at sz calls.buf m') start)) in
      if is_directory fsnode m then directory else contents

  -- The body of the loop for what `readdir_fs` has returned.
  unfoldable pub print_entry : (node : ℕ) → Memory → Monitor → Outcome (Memory × Monitor)
  unfolding text_at print_node
  print_entry node m s = text_at fuel node m >>= λ name.
      finddir_fs calls.finddir fs_root node m >>= λ (fsnode, m').
      print_node fsnode m' (monitor_write_sys name (monitor_write (bytes "Found file ") s))

  -- `while ((node = readdir_fs(fs_root, i)) != 0)`, by rounds.
  unfoldable pub print_entries : (rounds i : ℕ) → Memory → Monitor → Outcome (Memory × Monitor)
  unfolding print_entry
  print_entries zero i m s = out_of_fuel
  print_entries (suc rounds) i m s = readdir_fs calls.readdir fs_root i m >>= λ (node, m').
      let rest = print_entry node m' s >>= λ (m'', s'). print_entries rounds (add32 i 1) m'' s' in
      if node == 0 then ok (m', s) else rest

  unfoldable pub print_filesystem_contents :
      (rounds : ℕ) → Memory → Monitor → Outcome (Memory × Monitor)
  unfolding print_entries
  print_filesystem_contents rounds m s =
      let start = if fs_root == 0 then monitor_write (bytes "\nNo filesystem found\n") s else s in
      print_entries rounds 0 m start >>= λ (m', s'). ok (m', monitor_write (bytes "\n") s')
