-- ===== src/Files.antt =====
-- filesystem/fs.c: a node is a structure in memory, and its operations go through the function pointers
-- in it. `call` runs the function at an address, with the node and the other arguments.
use panda_os.Base.{ℕ, ◌+◌, Bool, ◌&&◌, not, ◌==◌, if◌then◌else◌, bit_and, Outcome, ok}
use panda_os.Base.Memory.{Memory, load32}

-- FS_FILE and FS_DIRECTORY.
abbrev pub fs_file : ℕ
fs_file = 1

abbrev pub fs_directory : ℕ
fs_directory = 2

-- `sizeof(fs_node_t)`, and the fields behind the 128 bytes of the name.
abbrev pub fs_node_size : ℕ
fs_node_size = 184

abbrev pub flags_of : (node : ℕ) → Memory → ℕ
flags_of node m = load32 (node + 140) m

abbrev pub inode_of : (node : ℕ) → Memory → ℕ
inode_of node m = load32 (node + 144) m

abbrev pub length_of : (node : ℕ) → Memory → ℕ
length_of node m = load32 (node + 148) m

abbrev pub read_of : (node : ℕ) → Memory → ℕ
read_of node m = load32 (node + 156) m

abbrev pub write_of : (node : ℕ) → Memory → ℕ
write_of node m = load32 (node + 160) m

abbrev pub open_of : (node : ℕ) → Memory → ℕ
open_of node m = load32 (node + 164) m

abbrev pub close_of : (node : ℕ) → Memory → ℕ
close_of node m = load32 (node + 168) m

abbrev pub readdir_of : (node : ℕ) → Memory → ℕ
readdir_of node m = load32 (node + 172) m

abbrev pub finddir_of : (node : ℕ) → Memory → ℕ
finddir_of node m = load32 (node + 176) m

-- `(node->flags&0x7) == FS_DIRECTORY`
abbrev pub is_directory : (node : ℕ) → Memory → Bool
is_directory node m = bit_and (flags_of node m) 0x7 == fs_directory

module _ (call : (function node offset size buffer : ℕ) → Memory → Outcome (ℕ × Memory)) where
  unfoldable pub read_fs : (node offset size buffer : ℕ) → Memory → Outcome (ℕ × Memory)
  read_fs node offset size buffer m =
      if not (read_of node m == 0)
      then call (read_of node m) node offset size buffer m
      else ok (0, m)

  unfoldable pub write_fs : (node offset size buffer : ℕ) → Memory → Outcome (ℕ × Memory)
  write_fs node offset size buffer m =
      if not (write_of node m == 0)
      then call (write_of node m) node offset size buffer m
      else ok (0, m)

-- The two arguments `read` and `write` of `open_fs` are not used.
module _ (call : (function node : ℕ) → Memory → Outcome Memory) where
  unfoldable pub open_fs : (node : ℕ) → Memory → Outcome Memory
  open_fs node m = if not (open_of node m == 0) then call (open_of node m) node m else ok m

  unfoldable pub close_fs : (node : ℕ) → Memory → Outcome Memory
  close_fs node m = if not (close_of node m == 0) then call (close_of node m) node m else ok m

-- The argument is an index or the address of a name, and the result an address.
module _ (call : (function node argument : ℕ) → Memory → Outcome (ℕ × Memory)) where
  unfoldable pub readdir_fs : (node index : ℕ) → Memory → Outcome (ℕ × Memory)
  readdir_fs node index m =
      if is_directory node m && not (readdir_of node m == 0)
      then call (readdir_of node m) node index m
      else ok (0, m)

  unfoldable pub finddir_fs : (node name : ℕ) → Memory → Outcome (ℕ × Memory)
  finddir_fs node name m =
      if is_directory node m && not (finddir_of node m == 0)
      then call (finddir_of node m) node name m
      else ok (0, m)
