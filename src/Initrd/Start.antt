-- ===== src/Initrd/Start.antt =====
-- `initialise_initrd` of filesystem/initrd.c, which makes a node for each file of the image.
pub mod Fields
pub mod File
use panda_os.Base.{
  ℕ, zero, suc, ◌+◌, ◌*◌, Bool, List, [], ◌∷◌, ltb, ◌==◌, if◌then◌else◌, add32, u32, Outcome, ok,
  panic, out_of_fuel, ◌>>=◌,
}
use panda_os.Base.Memory.{Memory, load32, store32}
use panda_os.Strings.{strcpy}
use panda_os.Files.{fs_file, fs_directory, fs_node_size, inode_of}
use panda_os.Initrd.{file_offset, file_length, initrd_read}
use panda_os.Initrd.Directory.{node_at}

-- Words stored at offsets of a structure, in turn.
unfoldable pub put_fields : (node : ℕ) → List (ℕ × ℕ) → Memory → Memory
put_fields node [] m = m
put_fields node ((offset, v) ∷ fields) m = put_fields node fields (store32 (node + offset) v m)

-- The addresses of the functions and of the literals "J" and "dev".
pub record Addresses : Type 0 where
  pub initrd_read : ℕ
  pub initrd_readdir : ℕ
  pub initrd_finddir : ℕ
  pub text_j : ℕ
  pub text_dev : ℕ

-- Length, inode, gid, uid and mask; flags; the pointers to functions; ptr and impl.
abbrev pub directory_fields : Addresses → List (ℕ × ℕ)
directory_fields a =
    (148, 0)
    ∷ (144, 0)
    ∷ (136, 0)
    ∷ (132, 0)
    ∷ (128, 0)
    ∷ (140, fs_directory)
    ∷ (156, 0)
    ∷ (160, 0)
    ∷ (164, 0)
    ∷ (168, 0)
    ∷ (172, a.initrd_readdir)
    ∷ (176, a.initrd_finddir)
    ∷ (180, 0)
    ∷ (152, 0)
    ∷ []

unfoldable pub directory_node : (fuel : ℕ) → Addresses → (text node : ℕ) → Memory → Outcome Memory
directory_node fuel a text node m =
    strcpy fuel node text m >>= λ m₁. ok (put_fields node (directory_fields a) m₁)

-- Length, inode, flags, the pointers to functions, and impl.
abbrev pub file_fields : Addresses → (length i : ℕ) → List (ℕ × ℕ)
file_fields a length i =
    (148, length)
    ∷ (144, i)
    ∷ (140, fs_file)
    ∷ (156, a.initrd_read)
    ∷ (160, 0)
    ∷ (172, 0)
    ∷ (176, 0)
    ∷ (164, 0)
    ∷ (168, 0)
    ∷ (152, 0)
    ∷ []

-- The body of the loop: `file_headers[i].offset += location`, and the node.
unfoldable pub file_node :
    (fuel : ℕ) → Addresses → (location file_headers node i : ℕ) → Memory → Outcome Memory
file_node fuel a location file_headers node i m =
    let header = file_headers + 76 * i in
    let m₁ = store32 (header + 68) (add32 (file_offset file_headers i m) location) m in
    strcpy fuel node (header + 1) m₁ >>= λ m₂.
    let m₃ = put_fields node ((136, 0) ∷ (132, 0) ∷ (128, 0) ∷ []) m₂ in
    ok (put_fields node (file_fields a (file_length file_headers i m₃) i) m₃)

-- `for (i = 0; i < initrd_header->nfiles; i++)`, where the header lies at `location`.
unfoldable pub file_nodes :
    (fuel rounds : ℕ)
    → Addresses
    → (location file_headers root_nodes i : ℕ) → Memory
    → Outcome Memory
unfolding file_node
file_nodes fuel zero a location file_headers root_nodes i m = out_of_fuel
file_nodes fuel (suc rounds) a location file_headers root_nodes i m =
    let rest =
      file_node fuel a location file_headers (node_at root_nodes i) i m
      >>= file_nodes fuel rounds a location file_headers root_nodes (i + 1) in
    if ltb i (load32 location m) then rest else ok m

-- What the globals are set to.
pub record Initrd : Type 0 where
  pub initrd_header : ℕ
  pub file_headers : ℕ
  pub initrd_root : ℕ
  pub initrd_dev : ℕ
  pub root_nodes : ℕ
  pub nroot_nodes : ℕ

-- `kmalloc` changes the memory and what else the heap keeps. The root is returned as `initrd_root`.
unfoldable pub initialise_initrd :
    {World : Type 0} (kmalloc : (sz : ℕ) → Memory → World → Outcome (ℕ × Memory × World)) (fuel : ℕ)
    → Addresses
    → (location : ℕ) → Memory
    → World
    → Outcome (Initrd × Memory × World)
unfolding directory_node file_nodes
initialise_initrd kmalloc fuel a location m w =
    let file_headers = add32 location 4 in
    kmalloc fs_node_size m w >>= λ (root, m₁, w₁). directory_node fuel a a.text_j root m₁ >>= λ m₂.
    kmalloc fs_node_size m₂ w₁ >>= λ (dev, m₃, w₂).
    directory_node fuel a a.text_dev dev m₃ >>= λ m₄.
    kmalloc (u32 (fs_node_size * load32 location m₄)) m₄ w₂ >>= λ (nodes, m₅, w₃).
    let nfiles = load32 location m₅ in
    file_nodes fuel (suc nfiles) a location file_headers nodes 0 m₅ >>= λ m₆. ok (
      record {
        initrd_header = location;
        file_headers = file_headers;
        initrd_root = root;
        initrd_dev = dev;
        root_nodes = nodes;
        nroot_nodes = nfiles;
      },
      m₆,
      w₃,
    )

-- A call of the function at an address, where only `initrd_read` can be called.
unfoldable pub call_initrd :
    Addresses → (file_headers function node offset size buffer : ℕ) → Memory → Outcome (ℕ × Memory)
call_initrd a file_headers function node offset size buffer m =
    if function == a.initrd_read
    then ok (initrd_read file_headers (inode_of node m) offset size buffer m)
    else panic
