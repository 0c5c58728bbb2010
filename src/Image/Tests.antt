-- ===== src/Image/Tests.antt =====
-- An image of one file of three bytes, loaded at 10,000.
use panda_os.Base.{
  ℕ, ◌+◌, ◌-◌, ◌≡◌, refl, ◌%◌, ◌^◌, suc, inl, List, [], ◌∷◌, Option, none, some, length, get_or,
  leb, ltb, ◌&&◌, ◌==◌, if◌then◌else◌, ok, arith,
}
use mathlib.Core.Path.{ap, ◌∙◌, subst}
use panda_os.Base.Int.{pos, negsuc}
use panda_os.Base.Memory.{Memory, load8}
use panda_os.Base.Bytes.{At}
use panda_os.Files.{read_fs}
use panda_os.Initrd.Start.{Addresses, file_node, call_initrd}
use panda_os.Image.{image, nheaders_of}
use panda_os.Image.Fields.{IsStrcpy, AreFiles}
use panda_os.Image.Layout.{image-some}
use panda_os.Image.Read.{image-read_fs}

-- With three arguments there is one header; 255 of them are -1 as a `char`.
nheaders_test : (nheaders_of 3 ≡ pos 1) × (nheaders_of 255 ≡ negsuc 0) × (nheaders_of 256 ≡ pos 0)
unfolding nheaders_of
nheaders_test = (refl, refl, refl)

abbrev host_strcpy : (dest : ℕ) → List ℕ → Memory → Memory
host_strcpy dest cs m = λ q.
    if leb dest q && ltb q (dest + length cs)
    then get_or cs (q - dest) 0
    else (if q == dest + length cs then 0 else m q)

host_strcpy-IsStrcpy : IsStrcpy host_strcpy
unfolding load8
host_strcpy-IsStrcpy dest cs m q = ground arith

abbrev file : List ℕ → Option (List ℕ)
file name = some (0x50 ∷ 0x51 ∷ 0x52 ∷ [])

abbrev argv : ℕ → List ℕ
argv i = b'a' ∷ []

abbrev data_of : ℕ → List ℕ
data_of i = 0x50 ∷ 0x51 ∷ 0x52 ∷ []

there : AreFiles file argv data_of 0 1
there j ge lt = (refl, (omega arith, ((omega arith, omega arith), tt)))

-- What the program writes, from memory that is 0 everywhere.
abbrev bytes_of : Option (List ℕ) → List ℕ
bytes_of none = []
bytes_of (some xs) = xs

bytes_of-some : (o : Option (List ℕ)) (xs : List ℕ) → o ≡ some xs → o ≡ some (bytes_of o)
bytes_of-some o xs h = rw h refl

abbrev bytes : List ℕ
bytes = bytes_of (image host_strcpy file argv 0 3 (λ a. 0))

image_test : image host_strcpy file argv 0 3 (λ a. 0) ≡ some bytes
image_test =
    let (_, ran, _) =
      image-some host_strcpy file argv 0 host_strcpy-IsStrcpy data_of 3 1 (λ a. 0) (nheaders_test.0)
        there (omega arith) in
    bytes_of-some (image host_strcpy file argv 0 3 (λ a. 0)) _ ran

-- A memory that holds a list.
abbrev loaded : (location : ℕ) → List ℕ → Memory
loaded location xs = λ a. get_or xs (a - location) 0

loaded-At :
    (location n : ℕ) (xs : List ℕ) (m : Memory) → ((k : ℕ) → m (n + k) ≡ get_or xs k 0) → At n xs m
unfolding load8
loaded-At location n [] m h = tt
loaded-At location n (x ∷ xs) m h =
    let here : n + 0 ≡ n = omega arith in
    (
      ap (λ v. v % 2 ^ 8) (subst (λ a. m a ≡ x) here (h 0)),
      loaded-At location (n + 1) xs m
          (λ k. let next : n + 1 + k ≡ n + suc k = omega arith in ap m next ∙ h (suc k)),
    )

abbrev addresses : Addresses
addresses = record {
  initrd_read = 0x100;
  initrd_readdir = 0x200;
  initrd_finddir = 0x300;
  text_j = 0x400;
  text_dev = 6000;
}

image-read_fs_example :
    (m' : Memory) × (m'' : Memory) × (file_node 64 addresses 10_000 10_004 0 0 (loaded 10_000 bytes)
      ≡ ok m')
    × (read_fs (call_initrd addresses 10_004) 0 0 8 500 m' ≡ ok (3, m''))
    × At 500 (0x50 ∷ 0x51 ∷ 0x52 ∷ []) m''
image-read_fs_example =
    image-read_fs host_strcpy file argv 0 host_strcpy-IsStrcpy data_of 3 1 0 10_000 b'a' [] bytes
      (λ a. 0) (loaded 10_000 bytes) addresses 64 0 8 500 (nheaders_test.0) there (omega arith)
      image_test
      (loaded-At 10_000 10_000 bytes (loaded 10_000 bytes)
        (λ k. let back : 10_000 + k - 10_000 ≡ k = omega arith in ap (λ j. get_or bytes j 0) back))
      (omega arith) refl (omega arith) (inl (omega arith)) (omega arith) (omega arith) (omega arith)
      (omega arith) (omega arith) (inl (omega arith))
