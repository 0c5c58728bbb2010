-- ===== src/Image/Read.antt =====
-- What the kernel reads of a file that was put into the image.
use panda_os.Base.{
  ℕ, suc, ◌+◌, ◌-◌, ◌*◌, ◌^◌, ◌≤◌, ◌<◌, ◌≡◌, ◌≢◌, refl, ap, ◌∙◌, ◌⊎◌, Option, some, List, ◌∷◌,
  length, ltb, leb, ◌&&◌, true, false, ok, arith, ◌==◌,
}
use mathlib.Core.Path.{subst}
use panda_os.Base.Int.{pos}
use panda_os.Base.Memory.{Memory, load8, load32-lt}
use panda_os.Base.Bytes.{At, At-moved}
use panda_os.Mem.Copy.{copied}
use panda_os.Strings.Holds.{Holds}
use panda_os.Files.{read_fs}
use panda_os.Initrd.{initrd_read, file_offset, file_length}
use panda_os.Initrd.Read.{available, initrd_read-copied}
use panda_os.Initrd.Start.{Addresses, file_node, call_initrd}
use panda_os.Initrd.Start.File.{file_node-IsFile, IsFile-operations}
use panda_os.Image.{image, nheaders_of, first_offset}
use panda_os.Image.Fields.{IsStrcpy, AreFiles, total, total-le}
use panda_os.Image.Layout.{nheaders_of-lt, image-At}

-- A read of the whole of a file whose bytes are known.
initrd_read_whole :
    (file_headers i size buffer start : ℕ) (xs : List ℕ) (m : Memory)
    → file_offset file_headers i m ≡ start
    → file_length file_headers i m ≡ length xs
    → length xs ≤ size
    → size < 2 ^ 32
    → start < 2 ^ 32
    → (buffer ≤ start) ⊎ (start + length xs ≤ buffer)
    → At start xs m
    → let (n, m') = initrd_read file_headers i 0 size buffer m in (n ≡ length xs) × At buffer xs m'
initrd_read_whole file_headers i size buffer start xs m offset_eq length_eq enough small low apart
      at =
    let m' = (initrd_read file_headers i 0 size buffer m).1 in
    let read = λ (a : ℕ).
      initrd_read-copied file_headers i 0 size buffer a m (load32-lt (file_headers + 76 * i + 72) m)
        (omega arith) (omega (arith, offset_eq)) (omega (arith, apart, offset_eq, length_eq)) in
    let none_past : ltb (file_length file_headers i m) 0 ≡ false = ground arith in
    let all : available (file_length file_headers i m) 0 size ≡ length xs =
      ground (arith, length_eq) in
    let from : file_offset file_headers i m + 0 ≡ start = omega (arith, offset_eq) in
    (
      rw (none_past, all) at (read 0).0,
      At-moved start buffer xs m m' at (λ k lt.
          let got : load8 (buffer + k) m' ≡ copied buffer start (length xs) m (buffer + k) =
            rw (none_past, all, from) at (read (buffer + k)).1 in
          let back : buffer + k - buffer ≡ k = omega arith in
          let inside : (leb buffer (buffer + k) && ltb (buffer + k) (buffer + length xs)) ≡ true =
            ground arith in
          got ∙ rw (inside, back) refl),
    )

module _ (strcpy : (dest : ℕ) → List ℕ → Memory → Memory) (file : List ℕ → Option (List ℕ))
    (argv : ℕ → List ℕ) (headers : ℕ) (copies : IsStrcpy strcpy) (data_of : ℕ → List ℕ) where
  -- Take an image that was made of n files that are there, with names that are not empty and fit their
  -- 64 bytes, and that stands at an address, below 2 ^ 32 with all its bytes. With a node and a buffer apart
  -- from it, the pass of `initialise_initrd` over the header of file i returns, and then `read_fs` on
  -- that node, for a size that is large enough, returns the length of the file and leaves exactly its
  -- bytes in the buffer.
  pub image-read_fs :
      (argc n i location c : ℕ) (cs bytes : List ℕ) (m k : Memory) (a : Addresses)
      (fuel node size buffer : ℕ)
      → nheaders_of argc ≡ pos n
      → AreFiles file argv data_of 0 n
      → first_offset + total data_of n < 2 ^ 32
      → image strcpy file argv headers argc m ≡ some bytes
      → At location bytes k
      → i < n
      → argv (i * 2 + 2) ≡ c ∷ cs
      → location + first_offset + total data_of n < 2 ^ 32
      → (node + 184 ≤ location) ⊎ (location + first_offset + total data_of n ≤ node)
      → a.initrd_read ≢ 0
      → a.initrd_read < 2 ^ 32
      → 64 ≤ fuel
      → length (data_of i) ≤ size
      → size < 2 ^ 32
      → (buffer ≤ location + first_offset + total data_of i)
        ⊎ (location + first_offset + total data_of n ≤ buffer)
      → (m' : Memory) × (m'' : Memory) × (file_node fuel a location (location + 4) node i k ≡ ok m')
        × (read_fs (call_initrd a (location + 4)) node 0 size buffer m'
            ≡ ok (length (data_of i), m''))
        × At buffer (data_of i) m''
  unfolding call_initrd
  image-read_fs argc n i location c cs bytes m k a fuel node size buffer count files fits written at
        lt called flat apart some_address address enough room small clear =
      let (_, header, held) =
        image-At strcpy file argv headers copies data_of argc n i location bytes m k count files
          fits written at lt in
      let few = nheaders_of-lt argc n count in
      let short : length (c ∷ cs) < 64 =
        subst (λ x. length x < 64) called (files i (omega arith) lt).1.0 in
      let bound = total-le data_of (suc i) n (omega arith) in
      let (m', ran, v) =
        file_node-IsFile fuel location (location + 4) node i c cs a k
          (subst (λ x. Holds (location + 4 + 76 * i + 1) x k) called (header.name_held)) short
          enough (omega (arith, apart, few)) (omega arith) address in
      let (reads, _, _, _) =
        IsFile-operations (call_initrd a (location + 4)) (λ f x y z. ok (0, z)) 0 size buffer 0 v
          some_address in
      let start = location + first_offset + total data_of i in
      let len = length (data_of i) in
      let offset_eq : file_offset (location + 4) i m' ≡ start =
        v.offset ∙ omega (arith, header.offset_held, bound) in
      let length_eq : file_length (location + 4) i m' ≡ len = v.kept ∙ header.length_held in
      let held' : At start (data_of i) m' = At-moved start start (data_of i) k m' held (λ j below.
        v.outside (start + j) (omega (arith, apart, bound)) (omega (arith, few, bound))) in
      let (count_eq, got) =
        initrd_read_whole (location + 4) i size buffer start (data_of i) m' offset_eq length_eq room
          small (omega (arith, bound)) (omega (arith, bound, clear)) held' in
      let this : (a.initrd_read == a.initrd_read) ≡ true = ground arith in
      (
        m',
        (initrd_read (location + 4) i 0 size buffer m').1,
        ran,
        reads
            ∙ rw (this, v.number)
                (ap (λ x. ok (x, (initrd_read (location + 4) i 0 size buffer m').1)) count_eq),
        got,
      )
