-- ===== src/Image.antt =====
-- create_initrd.c: the host program that writes the image of the ram disk. The C library's `strcpy` and
-- the files are arguments: `file` gives the bytes of the file of a name, the same whenever it is opened,
-- and none where `fopen` fails. The headers lie in the memory of that program, not initialised.
pub mod Fields
pub mod Headers
pub mod Layout
pub mod Read
mod Tests
use panda_os.Base.{
  ℕ, zero, suc, ◌+◌, ◌-◌, ◌*◌, ◌/◌, ◌%◌, ◌^◌, Bool, Option, none, some, List, [], ◌∷◌, ◌++◌, length,
  take, ltb, if◌then◌else◌, add32, u32,
}
use panda_os.Base.Int.{ℤ, pos, negsuc}
use panda_os.Base.Memory.{Memory, load32, store8, store32}
use panda_os.Base.Bytes.{bytes_at}

-- `(argc-1)/2`, where `argc` is declared as a `char`, and the bit pattern of it.
unfoldable pub nheaders_of : (argc : ℕ) → ℤ
nheaders_of argc =
    let c = argc % 2 ^ 8 in if ltb c (2 ^ 7) then pos ((c - 1) / 2) else negsuc ((257 - c) / 2 - 1)

abbrev pub word_of : ℤ → ℕ
word_of (pos n) = u32 n
word_of (negsuc n) = 2 ^ 32 - 1 - n

-- The rounds of `for (i = 0; i < nheaders; i++)`.
abbrev pub rounds_of : ℤ → ℕ
rounds_of (pos n) = n
rounds_of (negsuc n) = 0

-- The bytes of an `int`, as `fwrite` writes them on the host.
abbrev pub int_bytes : ℕ → List ℕ
int_bytes w = (w % 2 ^ 8) ∷ (w / 2 ^ 8 % 2 ^ 8) ∷ (w / 2 ^ 16 % 2 ^ 8) ∷ (w / 2 ^ 24 % 2 ^ 8) ∷ []

-- `sizeof(struct initrd_header)`, and the offset of the first file: 64 headers and an `int`.
abbrev pub image_header_size : ℕ
image_header_size = 76

abbrev pub first_offset : ℕ
first_offset = image_header_size * 64 + 4

module _ (strcpy : (dest : ℕ) → List ℕ → Memory → Memory) (file : List ℕ → Option (List ℕ))
    (argv : ℕ → List ℕ) (headers : ℕ) where
  -- The header of file i for its bytes.
  unfoldable pub put_image_header : (i off : ℕ) → List ℕ → Memory → Memory
  put_image_header i off bytes m =
      let header = headers + image_header_size * i in
      let named = strcpy (header + 1) (argv (i * 2 + 2)) m in
      store8 header 0xbf
        (store32 (header + 72) (u32 (length bytes)) (store32 (header + 68) off named))

  -- The first loop, with the offset that it ends with; none is the return after "file not found".
  unfoldable pub put_headers : (left i off : ℕ) → Memory → Option (ℕ × Memory)
  unfolding put_image_header
  put_headers zero i off m = some (off, m)
  put_headers (suc left) i off m = elim (file (argv (i * 2 + 1))) [
    | none ↦ none
    | some bytes ↦
        put_headers left (i + 1) (add32 off (u32 (length bytes))) (put_image_header i off bytes m)
  ]

  -- The second loop: `length` bytes of each file again. The file is there, since it was before.
  unfoldable pub file_bytes : (left i : ℕ) → Memory → List ℕ
  file_bytes zero i m = []
  file_bytes (suc left) i m =
      let size = load32 (headers + image_header_size * i + 72) m in
      let bytes : List ℕ = elim (file (argv (i * 2 + 1))) [
        | none ↦ []
        | some bytes ↦ take size bytes
      ] in
      bytes ++ file_bytes left (i + 1) m

  -- What the image file holds, for the number of headers.
  unfoldable pub image_of : (nheaders : ℤ) → Memory → Option (List ℕ)
  unfolding put_headers file_bytes
  image_of nheaders m = elim (put_headers (rounds_of nheaders) 0 first_offset m) [
    | none ↦ none
    | some (off, m') ↦ some (
        int_bytes (word_of nheaders)
        ++ bytes_at (image_header_size * 64) headers m'
        ++ file_bytes (rounds_of nheaders) 0 m')
  ]

  -- The same when `main` returns 0.
  unfoldable pub image : (argc : ℕ) → Memory → Option (List ℕ)
  unfolding image_of
  image argc m = image_of (nheaders_of argc) m
