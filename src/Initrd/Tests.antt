-- ===== src/Initrd/Tests.antt =====
-- A file of eight bytes at 200, and the theorems there.
use panda_os.Base.{ℕ, ◌+◌, ◌*◌, ◌≡◌, ◌≢◌, refl, ap, inl, inr, List, [], ◌∷◌, length, ok, arith}
use mathlib.Core.Path.{subst}
use panda_os.Strings.Holds.{Holds}
use panda_os.Files.{inode_of}
use panda_os.Initrd.Directory.{Disk, initrd_readdir, initrd_finddir}
use panda_os.Initrd.Directory.Listing.{IsListable, readdir-finddir}
use panda_os.Base.Memory.{Memory, load8, load32, store8, store32}
use panda_os.Initrd.{file_length, file_offset, initrd_read}
use panda_os.Initrd.Read.{initrd_read-copied}
use panda_os.Mem.{memcpy}

abbrev disk : Memory
disk = store8 206 0x51 (store8 205 0x50 (store32 72 8 (store32 68 200 (λ a. 0))))

-- Three bytes from offset 5 on.
three_bytes :
    let (n, m) = initrd_read 0 0 5 100 300 disk in
    (n ≡ 3) × (load8 300 m ≡ 0x50) × (load8 301 m ≡ 0x51)
unfolding initrd_read load32 store32 load8 store8 memcpy
three_bytes = (refl, refl, refl)

disk-length : file_length 0 0 disk ≡ 8
unfolding load32 store32 load8 store8
disk-length = refl

disk-offset : file_offset 0 0 disk ≡ 200
unfolding load32 store32 load8 store8
disk-offset = refl

initrd_read-copied_example :
    let (n, m') = initrd_read 0 0 5 100 300 disk in (n ≡ 3) × (load8 301 m' ≡ 0x51)
unfolding load32 store32 load8 store8
initrd_read-copied_example =
    initrd_read-copied 0 0 5 100 300 301 disk (omega arith) (omega arith) (omega arith)
      (inr (omega arith))

-- A directory of one file "a" at 1000, with `dirent` at 5000 and the literal "dev" at 6000.
abbrev shelf : Memory
shelf = store8 6002 b'v' (store8 6001 b'e' (store8 6000 b'd' (store8 1000 b'a' (λ a. 0))))

abbrev one_file : Disk
one_file = record {
  initrd_root = 2000;
  initrd_dev = 3000;
  root_nodes = 1000;
  nroot_nodes = 1;
  dirent = 5000;
  text_dev = 6000;
}

abbrev names : ℕ → List ℕ
names i = b'a' ∷ []

listable : IsListable 128 one_file names shelf
unfolding load8 store8
listable = record {
  named = λ i lt.
      let this : 0 ≡ i = omega arith in
      subst (λ k. Holds (1000 + 184 * k) (b'a' ∷ []) shelf) this (refl, omega arith, refl);
  short = λ i lt. omega arith;
  some_name = λ i lt. omega arith;
  enough = omega arith;
  apart = inr (omega arith);
  small = omega arith;
}

abbrev dev : List ℕ
dev = b'd' ∷ b'e' ∷ b'v' ∷ []

not_dev : names 0 ≢ dev
not_dev e = let same : length (names 0) ≡ length dev = ap length e in absurd (omega (arith, same))

readdir-finddir_example :
    (m' : Memory) × (initrd_readdir 128 one_file 2000 1 shelf ≡ ok (5000, m'))
    × (load32 5128 m' ≡ inode_of 1000 shelf)
    × (initrd_finddir 128 one_file 2000 5000 m' ≡ ok 1000)
unfolding load8 store8
readdir-finddir_example =
    readdir-finddir 128 one_file names shelf listable 2000 0 dev (λ j k jn kn _. omega arith)
      (λ j jn. not_dev) (refl, omega arith, (refl, omega arith, (refl, omega arith, refl)))
      (inl (omega arith)) (omega arith)
