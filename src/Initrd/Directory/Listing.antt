-- ===== src/Initrd/Directory/Listing.antt =====
-- `initrd_readdir`, and looking up what it lists.
use panda_os.Base.{
  ℕ, ◌+◌, ◌-◌, ◌*◌, ◌%◌, ◌^◌, ◌≤◌, ◌<◌, ◌≡◌, ◌≢◌, refl, ◌∙◌, ap, ◌⊎◌, List, [], ◌∷◌, length, true,
  false, ◌==◌, ◌&&◌, leb, ltb, Outcome, ok, arith, inl, inr,
}
use mathlib.Core.Path.{subst}
use panda_os.Base.Memory.{
  Memory, load8, load32, store8, store32, load8-store8_self, load8-store8-Apart,
  load8-store32-Apart, load32-store32_self, load32_same, load32-lt,
}
use panda_os.Mem.{memcpy}
use panda_os.Mem.Copy.{copied, memcpy_up}
use panda_os.Strings.{strlen}
use panda_os.Strings.Holds.{Holds, Holds-same}
use panda_os.Strings.Copy.{strcpy-memcpy}
use panda_os.Strings.Length.{strlen-length}
use panda_os.Files.{inode_of}
use panda_os.Initrd.Directory.{Disk, node_at, put_dirent, initrd_readdir, initrd_finddir}
use panda_os.Initrd.Directory.Copied.{Holds-moved}
use panda_os.Initrd.Directory.Find.{Named, initrd_finddir-IsFirst}

-- What a listing of the name `cs` with the number `ino` leaves in memory.
pub record Listed (dirent : ℕ) (cs : List ℕ) (ino : ℕ) (m m' : Memory) : Type 0 where
  pub name : Holds dirent cs m'
  pub number : load32 (dirent + 128) m' ≡ ino
  pub outside : (a : ℕ) → (a < dirent) ⊎ (dirent + 132 ≤ a) → load8 a m' ≡ load8 a m

-- `dirent` from a string elsewhere. The length is found and the number read once the bytes are there.
put_dirent-Listed :
    (fuel : ℕ) (d : Disk) (src c ino : ℕ) (cs : List ℕ) (len : Memory → Outcome ℕ)
    (number : Memory → ℕ) (m : Memory)
    → Holds src (c ∷ cs) m
    → length (c ∷ cs) < 128
    → 128 ≤ fuel
    → (d.dirent + 132 ≤ src) ⊎ (src + length (c ∷ cs) + 1 ≤ d.dirent)
    → ino < 2 ^ 32
    → ((m' : Memory) → Holds src (c ∷ cs) m' → len m' ≡ ok (length (c ∷ cs)))
    → ((m' : Memory)
        → ((a : ℕ) → (a < d.dirent) ⊎ (d.dirent + 132 ≤ a) → load8 a m' ≡ load8 a m)
        → number m' ≡ ino)
    → (m' : Memory) × (put_dirent fuel d src len number m ≡ ok (d.dirent, m'))
      × Listed d.dirent (c ∷ cs) ino m m'
unfolding put_dirent
put_dirent-Listed fuel d src c ino cs len number m h short enough apart small measured counted =
    let n = length (c ∷ cs) in
    let m₁ = memcpy d.dirent src n m in
    let clear : (d.dirent ≤ src) ⊎ (src + n ≤ d.dirent) = omega (arith, apart) in
    let bytes : (a : ℕ) → load8 a m₁ ≡ copied d.dirent src n m a =
      λ a. memcpy_up d.dirent src n m a clear in
    let outside₁ : (a : ℕ) → (a < d.dirent) ⊎ (d.dirent + 132 ≤ a) → load8 a m₁ ≡ load8 a m =
      λ a out. bytes a ∙ ground (arith, out) in
    let held₁ = Holds-same src (c ∷ cs) m m₁ (λ a ge le. outside₁ a (omega arith)) h in
    let m₂ = store8 (d.dirent + n) 0 m₁ in
    let outside₂ : (a : ℕ) → (a < d.dirent) ⊎ (d.dirent + 132 ≤ a) → load8 a m₂ ≡ load8 a m =
      λ a out. load8-store8-Apart (d.dirent + n) a 0 m₁ (omega arith) ∙ outside₁ a out in
    let ino₂ = counted m₂ outside₂ in
    let m₃ = store32 (d.dirent + 128) ino m₂ in
    let above : (a : ℕ) → a < d.dirent + 128 → load8 a m₃ ≡ load8 a m₂ =
      λ a lt. load8-store32-Apart (d.dirent + 128) a ino m₂ (omega arith) in
    (
      m₃,
      rw (
        strcpy-memcpy fuel d.dirent src c cs m h (omega arith) (omega arith),
        measured m₁ held₁,
        ino₂,
      ),
      record {
        name =
            Holds-moved src d.dirent (c ∷ cs) m m₃ h
              (λ k lt.
                above (d.dirent + k) (omega arith)
                ∙ load8-store8-Apart (d.dirent + n) (d.dirent + k) 0 m₁ (omega arith)
                ∙ bytes (d.dirent + k)
                ∙ (let there : src + (d.dirent + k - d.dirent) ≡ src + k = omega arith in
                    let within : (leb d.dirent (d.dirent + k) && ltb (d.dirent + k) (d.dirent + n))
                        ≡ true =
                      ground arith in
                    rw within (ap (λ a. load8 a m) there)))
              (above (d.dirent + n) (omega arith) ∙ load8-store8_self (d.dirent + n) 0 m₁);
        number = load32-store32_self (d.dirent + 128) ino m₂ small;
        outside =
            λ a out. load8-store32-Apart (d.dirent + 128) a ino m₂ (omega arith) ∙ outside₂ a out;
      },
    )

-- A directory of n nodes with short names, none of them empty, that `dirent` lies outside of.
pub record IsListable (fuel : ℕ) (d : Disk) (names : ℕ → List ℕ) (m : Memory) : Type 0 where
  pub named : Named d.root_nodes d.nroot_nodes names m
  pub short : (i : ℕ) → i < d.nroot_nodes → length (names i) < 128
  pub some_name : (i : ℕ) → i < d.nroot_nodes → 0 < length (names i)
  pub enough : 128 ≤ fuel
  pub apart : (d.dirent + 132 ≤ d.root_nodes) ⊎ (d.root_nodes + 184 * d.nroot_nodes ≤ d.dirent)
  pub small : d.nroot_nodes < 2 ^ 32 - 1

module _ (fuel : ℕ) (d : Disk) (names : ℕ → List ℕ) (m : Memory)
    (v : IsListable fuel d names m) where
  list_name :
      (i : ℕ) (cs : List ℕ)
      → i < d.nroot_nodes
      → names i ≡ cs
      → let name = node_at d.root_nodes i in
        (m' : Memory) × (put_dirent fuel d name (strlen fuel name) (inode_of name) m
          ≡ ok (d.dirent, m'))
        × Listed d.dirent cs (inode_of name m) m m'
  list_name i [] lt e = absurd (omega (arith, v.some_name i lt, ap length e))
  list_name i (c ∷ cs) lt e =
      let name = node_at d.root_nodes i in
      let held = subst (λ x. Holds name x m) e (v.named i lt) in
      let short = subst (λ x. length x < 128) e (v.short i lt) in
      put_dirent-Listed fuel d name c (inode_of name m) cs (strlen fuel name) (inode_of name) m held
        short v.enough (omega (arith, v.apart)) (load32-lt (name + 144) m)
        (λ m' h. strlen-length fuel name (c ∷ cs) m' h (omega (arith, v.enough)))
        (λ m' outside.
          load32_same (name + 144) m' m (λ k le. outside (name + 144 + k) (omega (arith, v.apart))))

  -- `initrd_readdir` at index i + 1 lists node i, by its name and its number.
  initrd_readdir-Listed :
      (node i : ℕ)
      → i < d.nroot_nodes
      → (m' : Memory) × (initrd_readdir fuel d node (i + 1) m ≡ ok (d.dirent, m'))
        × Listed d.dirent (names i) (inode_of (node_at d.root_nodes i) m) m m'
  unfolding initrd_readdir
  initrd_readdir-Listed node i lt =
      let (m', ran, listed) = list_name i (names i) lt refl in
      let index : (i + 1 + 2 ^ 32 - 1) % 2 ^ 32 ≡ i = omega (arith, v.small) in
      let later : (node == d.initrd_root && i + 1 == 0) ≡ false = ground arith in
      let within : leb d.nroot_nodes i ≡ false = ground arith in
      (m', rw (later, index, within) ran, listed)

  -- A directory that is listable, where no two nodes have the same name and none is called "dev", can be
  -- walked: what `initrd_readdir` lists at index i + 1 `initrd_finddir` finds again, and it is node i.

  pub readdir-finddir :
      (node i : ℕ) (dev : List ℕ)
      → ((j k : ℕ) → j < d.nroot_nodes → k < d.nroot_nodes → names j ≡ names k → j ≡ k)
      → ((j : ℕ) → j < d.nroot_nodes → names j ≢ dev)
      → Holds d.text_dev dev m
      → (d.dirent + 132 ≤ d.text_dev) ⊎ (d.text_dev + length dev + 1 ≤ d.dirent)
      → i < d.nroot_nodes
      → (m' : Memory) × (initrd_readdir fuel d node (i + 1) m ≡ ok (d.dirent, m'))
        × (load32 (d.dirent + 128) m' ≡ inode_of (node_at d.root_nodes i) m)
        × (initrd_finddir fuel d node d.dirent m' ≡ ok (node_at d.root_nodes i))
  readdir-finddir node i dev distinct no_dev text apart lt =
      let (m', ran, listed) = initrd_readdir-Listed node i lt in
      let named' : Named d.root_nodes d.nroot_nodes names m' = λ j le.
        Holds-same (node_at d.root_nodes j) (names j) m m'
          (λ a ge below. listed.outside a (omega (arith, v.apart, v.short j le))) (v.named j le) in
      let text' =
        Holds-same d.text_dev dev m m' (λ a ge below. listed.outside a (omega (arith, apart)))
          text in
      let (r, found, first) =
        initrd_finddir-IsFirst fuel d names d.dirent (names i) m' named' listed.name
          (omega (arith, v.enough, v.short i lt)) node dev text' (inr (no_dev i lt)) in
      let this : r ≡ node_at d.root_nodes i = elim first [
        | inl (k, below, same, _, at) ↦ at ∙ ap (node_at d.root_nodes) (distinct k i below lt same)
        | inr (nowhere, _) ↦ absurd (nowhere i lt refl)
      ] in
      (m', ran, listed.number, found ∙ ap ok this)
