-- ===== src/Initrd/Start/File.antt =====
-- The node of a file, and the operations of filesystem/fs.c on it.
use panda_os.Base.{
  ℕ, ◌+◌, ◌*◌, ◌%◌, ◌^◌, ◌≤◌, ◌<◌, ◌≡◌, ◌≢◌, refl, ◌∙◌, ap, ◌⊎◌, List, [], ◌∷◌, length, true, false,
  ◌==◌, add32, Outcome, ok, arith,
}
use panda_os.Base.Memory.{
  Memory, load8, store32, load8-store32-Apart, load32-store32_self, load32_same, load32-lt,
}
use panda_os.Mem.{memcpy}
use panda_os.Mem.Copy.{memcpy_up}
use panda_os.Strings.Holds.{Holds, Holds-same}
use panda_os.Strings.Copy.{strcpy-memcpy}
use panda_os.Files.{
  fs_file, flags_of, inode_of, length_of, read_of, write_of, read_fs, write_fs, readdir_fs,
  finddir_fs,
}
use panda_os.Initrd.{file_offset, file_length, initrd_read}
use panda_os.Initrd.Start.{Addresses, put_fields, file_fields, file_node, call_initrd}
use panda_os.Initrd.Start.Fields.{AreFields, put_fields-stored, put_fields-outside}

-- The node of file i, and its header, once the body of the loop has run.
pub record IsFile (a : Addresses) (location file_headers node i : ℕ) (m m' : Memory) : Type 0 where
  pub flags : flags_of node m' ≡ fs_file
  pub number : inode_of node m' ≡ i
  pub size : length_of node m' ≡ file_length file_headers i m
  pub reader : read_of node m' ≡ a.initrd_read
  pub no_writer : write_of node m' ≡ 0
  pub offset : file_offset file_headers i m' ≡ add32 (file_offset file_headers i m) location
  pub kept : file_length file_headers i m' ≡ file_length file_headers i m
  pub outside :
      (q : ℕ)
      → (q < node) ⊎ (node + 184 ≤ q)
      → (q < file_headers + 76 * i) ⊎ (file_headers + 76 * i + 76 ≤ q)
      → load8 q m' ≡ load8 q m

-- The image and a node that do not overlap.
abbrev pub AreApart : (header node : ℕ) → Type 0
AreApart header node = (header + 76 ≤ node) ⊎ (node + 184 ≤ header)

-- The fields that are stored before the length is read.
abbrev owners : List (ℕ × ℕ)
owners = (136, 0) ∷ (132, 0) ∷ (128, 0) ∷ []

owners-AreFields : AreFields owners
owners-AreFields = (
  refl,
  omega arith,
  omega arith,
  (refl, omega arith, omega arith, (refl, omega arith, omega arith, tt)),
)

file_fields-AreFields :
    (a : Addresses) (len i : ℕ)
    → len < 2 ^ 32
    → i < 2 ^ 32
    → a.initrd_read < 2 ^ 32
    → AreFields (file_fields a len i)
file_fields-AreFields a len i word number address = (
  refl,
  omega arith,
  word,
  (
    refl,
    omega arith,
    number,
    (
      refl,
      omega arith,
      omega arith,
      (
        refl,
        omega arith,
        address,
        (
          refl,
          omega arith,
          omega arith,
          (
            refl,
            omega arith,
            omega arith,
            (
              refl,
              omega arith,
              omega arith,
              (
                refl,
                omega arith,
                omega arith,
                (refl, omega arith, omega arith, (refl, omega arith, omega arith, tt)),
              ),
            ),
          ),
        ),
      ),
    ),
  ),
)

-- Where the file has a name that is not empty and fits its 64 bytes, the body of the loop returns. The node
-- is that of a file with its number, its length and `initrd_read`, and the header holds the offset from
-- the start of memory; nothing else changes.
pub file_node-IsFile :
    (fuel location file_headers node i c : ℕ) (cs : List ℕ) (a : Addresses) (m : Memory)
    → let header = file_headers + 76 * i in
      Holds (header + 1) (c ∷ cs) m
      → length (c ∷ cs) < 64
      → 64 ≤ fuel
      → AreApart header node
      → i < 2 ^ 32
      → a.initrd_read < 2 ^ 32
      → (m' : Memory) × (file_node fuel a location file_headers node i m ≡ ok m')
        × IsFile a location file_headers node i m m'
unfolding file_node
file_node-IsFile fuel location file_headers node i c cs a m held short enough apart small address =
    let header = file_headers + 76 * i in
    let n = length (c ∷ cs) in
    let start = add32 (file_offset file_headers i m) location in
    let m₁ = store32 (header + 68) start m in
    let outside₁ : (q : ℕ) → (q < header + 68) ⊎ (header + 72 ≤ q) → load8 q m₁ ≡ load8 q m =
      λ q out. load8-store32-Apart (header + 68) q start m (omega (arith, out)) in
    let held₁ = Holds-same (header + 1) (c ∷ cs) m m₁ (λ q ge le. outside₁ q (omega arith)) held in
    let m₂ = memcpy node (header + 1) n m₁ in
    let clear : (node ≤ header + 1) ⊎ (header + 1 + n ≤ node) = omega (arith, apart) in
    let outside₂ : (q : ℕ) → (q < node) ⊎ (node + 184 ≤ q) → load8 q m₂ ≡ load8 q m₁ =
      λ q out. memcpy_up node (header + 1) n m₁ q clear ∙ ground (arith, out) in
    let m₃ = put_fields node owners m₂ in
    let outside₃ : (q : ℕ) → (q < node) ⊎ (node + 184 ≤ q) → load8 q m₃ ≡ load8 q m₁ =
      λ q out. put_fields-outside node q owners m₂ owners-AreFields out ∙ outside₂ q out in
    let len = file_length file_headers i m₃ in
    let m₄ = put_fields node (file_fields a len i) m₃ in
    let are_fields = file_fields-AreFields a len i (load32-lt (header + 72) m₃) small address in
    let outside₄ : (q : ℕ) → (q < node) ⊎ (node + 184 ≤ q) → load8 q m₄ ≡ load8 q m₁ =
      λ q out. put_fields-outside node q (file_fields a len i) m₃ are_fields out ∙ outside₃ q out in
    let field =
      λ (o : ℕ) (al : o % 4 ≡ 0). put_fields-stored node o (file_fields a len i) m₃ al are_fields in
    let same_len : len ≡ file_length file_headers i m = load32_same (header + 72) m₃ m (λ k lt.
      outside₃ (header + 72 + k) (omega (arith, apart))
      ∙ outside₁ (header + 72 + k) (omega arith)) in
    (
      m₄,
      rw (strcpy-memcpy fuel node (header + 1) c cs m₁ held₁ (omega arith) (omega (arith, apart))),
      record {
        flags = field 140 refl;
        number = field 144 refl;
        size = field 148 refl ∙ same_len;
        reader = field 156 refl;
        no_writer = field 160 refl;
        offset =
            load32_same (header + 68) m₄ m₁
              (λ k lt. outside₄ (header + 68 + k) (omega (arith, apart)))
            ∙ load32-store32_self (header + 68) start m (omega arith);
        kept = load32_same (header + 72) m₄ m (λ k lt.
            outside₄ (header + 72 + k) (omega (arith, apart))
            ∙ outside₁ (header + 72 + k) (omega arith));
        outside = λ q out off. outside₄ q out ∙ outside₁ q (omega (arith, off));
      },
    )

-- On such a node reading goes to `initrd_read`, and nothing is written, listed or found.
pub IsFile-operations :
    {a : Addresses} {location file_headers node i : ℕ} {m m' : Memory}
    (call : (function node offset size buffer : ℕ) → Memory → Outcome (ℕ × Memory))
    (call_directory : (function node argument : ℕ) → Memory → Outcome (ℕ × Memory))
    (offset size buffer argument : ℕ)
    → IsFile a location file_headers node i m m'
    → a.initrd_read ≢ 0
    → (read_fs call node offset size buffer m' ≡ call a.initrd_read node offset size buffer m')
      × (write_fs call node offset size buffer m' ≡ ok (0, m'))
      × (readdir_fs call_directory node argument m' ≡ ok (0, m'))
      × (finddir_fs call_directory node argument m' ≡ ok (0, m'))
unfolding read_fs write_fs readdir_fs finddir_fs
IsFile-operations {a} call call_directory offset size buffer argument v some_address =
    let reads : (a.initrd_read == 0) ≡ false = ground arith in
    (rw (v.reader, reads), rw (v.no_writer), rw (v.flags), rw (v.flags))

-- Take a header whose name is not empty and shorter than its 64 bytes, and a node apart from it.
-- The body of the loop of `initialise_initrd` returns, and afterwards `read_fs` on the node is
-- `initrd_read` of file i, whose offset counts from the start of memory and whose length is as
-- before. `write_fs`, `readdir_fs` and `finddir_fs` do nothing on it.
pub file_node-read_fs :
    (fuel location file_headers node i c : ℕ) (cs : List ℕ) (a : Addresses) (m : Memory)
    (call_directory : (function node argument : ℕ) → Memory → Outcome (ℕ × Memory))
    (offset size buffer argument : ℕ)
    → let header = file_headers + 76 * i in
      Holds (header + 1) (c ∷ cs) m
      → length (c ∷ cs) < 64
      → 64 ≤ fuel
      → AreApart header node
      → i < 2 ^ 32
      → a.initrd_read < 2 ^ 32
      → a.initrd_read ≢ 0
      → (m' : Memory) × (file_node fuel a location file_headers node i m ≡ ok m')
        × (file_offset file_headers i m' ≡ add32 (file_offset file_headers i m) location)
        × (file_length file_headers i m' ≡ file_length file_headers i m)
        × (read_fs (call_initrd a file_headers) node offset size buffer m'
            ≡ ok (initrd_read file_headers i offset size buffer m'))
        × (write_fs (call_initrd a file_headers) node offset size buffer m' ≡ ok (0, m'))
        × (readdir_fs call_directory node argument m' ≡ ok (0, m'))
        × (finddir_fs call_directory node argument m' ≡ ok (0, m'))
unfolding call_initrd
file_node-read_fs fuel location file_headers node i c cs a m call_directory offset size buffer
      argument held short enough apart small address some_address =
    let (m', ran, v) =
      file_node-IsFile fuel location file_headers node i c cs a m held short enough apart small
        address in
    let (reads, writes, lists, finds) =
      IsFile-operations (call_initrd a file_headers) call_directory offset size buffer argument v
        some_address in
    let this : (a.initrd_read == a.initrd_read) ≡ true = ground arith in
    (
      m',
      ran,
      v.offset,
      v.kept,
      reads ∙ rw this (ap (λ n. ok (initrd_read file_headers n offset size buffer m')) (v.number)),
      writes,
      lists,
      finds,
    )
