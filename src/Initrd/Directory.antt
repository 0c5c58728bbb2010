-- ===== src/Initrd/Directory.antt =====
-- `initrd_readdir`, `initrd_finddir` and `initialise_initrd` of filesystem/initrd.c.
pub mod Copied
pub mod Find
pub mod Listing
use panda_os.Base.{
  ℕ, zero, suc, ◌+◌, ◌*◌, Bool, ◌&&◌, not, List, [], ◌∷◌, ltb, leb, ◌==◌, if◌then◌else◌, add32,
  sub32, Outcome, ok, out_of_fuel, ◌>>=◌,
}
use panda_os.Base.Memory.{Memory, load32, store8, store32}
use panda_os.Strings.{strcmp, strcpy, strlen}
use panda_os.Files.{fs_file, fs_directory, fs_node_size, inode_of}

-- The globals, with the address of the string literal "dev".
pub record Disk : Type 0 where
  pub initrd_root : ℕ
  pub initrd_dev : ℕ
  pub root_nodes : ℕ
  pub nroot_nodes : ℕ
  pub dirent : ℕ
  pub text_dev : ℕ

abbrev pub node_at : (root_nodes i : ℕ) → ℕ
node_at root_nodes i = root_nodes + fs_node_size * i

module _ (fuel : ℕ) (d : Disk) where
  -- `strcpy(dirent.name, name); dirent.name[length] = 0; dirent.ino = ino;`
  unfoldable pub put_dirent :
      (name : ℕ) (length : Memory → Outcome ℕ) (ino : Memory → ℕ) → Memory → Outcome (ℕ × Memory)
  put_dirent name length ino m = strcpy fuel d.dirent name m >>= λ m₁. length m₁ >>= λ n.
      let m₂ = store8 (d.dirent + n) 0 m₁ in ok (d.dirent, store32 (d.dirent + 128) (ino m₂) m₂)

  -- `index-1 >= nroot_nodes` compares a `size_t`, so that index 0 wraps.
  unfoldable pub initrd_readdir : (node index : ℕ) → Memory → Outcome (ℕ × Memory)
  unfolding put_dirent
  initrd_readdir node index m =
      let i = sub32 index 1 in
      let name = node_at d.root_nodes i in
      if node == d.initrd_root && index == 0
      then put_dirent d.text_dev (λ m₁. ok 3) (λ m₂. 0) m
      else (if leb d.nroot_nodes i
          then ok (0, m)
          else put_dirent name (strlen fuel name) (inode_of name) m)

  -- The loop over the nodes, `left` of them to go from node i.
  unfoldable pub find_node : (left i name : ℕ) → Memory → Outcome ℕ
  find_node zero i name m = ok 0
  find_node (suc left) i name m =
      let rest = find_node left (i + 1) name m in
      strcmp fuel name (node_at d.root_nodes i) m >>= λ r.
      if r == 0 then ok (node_at d.root_nodes i) else rest

  unfoldable pub initrd_finddir : (node name : ℕ) → Memory → Outcome ℕ
  unfolding find_node
  initrd_finddir node name m =
      let loop = find_node d.nroot_nodes 0 name m in
      if node == d.initrd_root
      then (strcmp fuel name d.text_dev m >>= λ r. if r == 0 then ok d.initrd_dev else loop)
      else loop
