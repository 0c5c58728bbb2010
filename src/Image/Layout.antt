-- ===== src/Image/Layout.antt =====
-- Where the image has its files.
use panda_os.Base.{
  ℕ, zero, suc, ◌+◌, ◌*◌, ◌%◌, ◌^◌, ◌≤◌, ◌<◌, ◌≡◌, refl, ap, sym, ◌∙◌, Option, some, List, [], ◌∷◌,
  ◌++◌, length, take, arith, Bool-cases, inl, inr, ◌==◌,
}
use mathlib.Core.Path.{subst}
use panda_os.Base.Int.{pos}
use panda_os.Base.Memory.{Memory, load8, load32}
use panda_os.Base.Bytes.{At, At-append, At-bytes_at, bytes_at, length-bytes_at, load32_moved}
use panda_os.Strings.Holds.{Holds}
use panda_os.Initrd.Directory.Copied.{Holds-moved}
use panda_os.Image.{image, image_of, nheaders_of, int_bytes, file_bytes, first_offset}
use panda_os.Image.Fields.{IsStrcpy, IsImageHeader, AreFiles, AreHeaders, total}
use panda_os.Image.Headers.{put_headers-AreHeaders}

-- As `argc` is a `char`, there are never more headers than the array has room for.
pub nheaders_of-lt : (argc n : ℕ) → nheaders_of argc ≡ pos n → n < 64
unfolding nheaders_of
nheaders_of-lt argc n h = ground (arith, h)

take-length : (xs : List ℕ) → take (length xs) xs ≡ xs
take-length [] = refl
take-length (x ∷ xs) = ap (λ r. x ∷ r) (take-length xs)

-- A name that is moved with the 64 bytes it stands in.
IsImageHeader-moved :
    (p q off len : ℕ) (name : List ℕ) (m m' : Memory)
    → length name < 64
    → ((k : ℕ) → k < 76 → load8 (q + k) m' ≡ load8 (p + k) m)
    → IsImageHeader p name off len m
    → IsImageHeader q name off len m'
IsImageHeader-moved p q off len name m m' short same h =
    let at : (o k : ℕ) → o + k < 76 → load8 (q + o + k) m' ≡ load8 (p + o + k) m = λ o k lt.
      let a : q + o + k ≡ q + (o + k) = omega arith in
      let b : p + (o + k) ≡ p + o + k = omega arith in
      ap (λ x. load8 x m') a ∙ same (o + k) lt ∙ ap (λ x. load8 x m) b in
    record {
      name_held =
          Holds-moved (p + 1) (q + 1) name m m' h.name_held (λ k lt. at 1 k (omega arith))
            (at 1 (length name) (omega arith) ∙ Holds-end (p + 1) name m h.name_held);
      offset_held =
          load32_moved (q + 68) (p + 68) m' m (λ k lt. at 68 k (omega arith)) ∙ h.offset_held;
      length_held =
          load32_moved (q + 72) (p + 72) m' m (λ k lt. at 72 k (omega arith)) ∙ h.length_held;
    }
  where
    Holds-end : (a : ℕ) (cs : List ℕ) (m : Memory) → Holds a cs m → load8 (a + length cs) m ≡ 0
    Holds-end a [] m h = let e : a + 0 ≡ a = omega arith in ap (λ x. load8 x m) e ∙ h
    Holds-end a (c ∷ cs) m h =
        let e : a + suc (length cs) ≡ a + 1 + length cs = omega arith in
        ap (λ x. load8 x m) e ∙ Holds-end (a + 1) cs m h.2

-- An `int` that stands in memory is read back.
load32-int_bytes : (a n : ℕ) (k : Memory) → n < 2 ^ 32 → At a (int_bytes n) k → load32 a k ≡ n
unfolding load32
load32-int_bytes a n k small (b₀, (b₁, (b₂, (b₃, _)))) =
    let two : a + 1 + 1 ≡ a + 2 = omega arith in
    let three : a + 1 + 1 + 1 ≡ a + 3 = omega arith in
    omega (arith, b₀, b₁, ap (λ x. load8 x k) (sym two) ∙ b₂, ap (λ x. load8 x k) (sym three) ∙ b₃)

module _ (strcpy : (dest : ℕ) → List ℕ → Memory → Memory) (file : List ℕ → Option (List ℕ))
    (argv : ℕ → List ℕ) (headers : ℕ) (copies : IsStrcpy strcpy) (data_of : ℕ → List ℕ) where
  -- The second loop writes each file where the first loop has said.
  file_bytes-At :
      (left i n j base : ℕ) (m k : Memory)
      → i + left ≡ n
      → AreFiles file argv data_of i n
      → AreHeaders argv headers data_of i n m
      → At (base + total data_of i) (file_bytes strcpy file argv headers left i m) k
      → i ≤ j
      → j < n
      → At (base + total data_of j) (data_of j) k
  unfolding file_bytes
  file_bytes-At zero i n j base m k sum files held at ge lt = absurd (omega arith)
  file_bytes-At (suc left) i n j base m k sum files held at ge lt =
      let there = (files i (omega arith) (omega arith)).0 in
      let size = (held i (omega arith) (omega arith)).length_held in
      let now : At (base + total data_of i)
          (data_of i ++ file_bytes strcpy file argv headers left (i + 1) m) k =
        rw (there, file_bytes, size, take-length (data_of i)) at at in
      let (front, back) = At-append (base + total data_of i) (data_of i) _ k now in
      let next : base + total data_of i + length (data_of i) ≡ base + total data_of (suc i) =
        omega arith in
      let one : i + 1 ≡ suc i = omega arith in
      let back' =
        subst (λ x. At x (file_bytes strcpy file argv headers left (i + 1) m) k) next back in
      elim (Bool-cases (j == i)) [
        | inl here ↦
            let e : i ≡ j = ground arith in
            subst (λ x. At (base + total data_of x) (data_of x) k) e front
        | inr later ↦
            file_bytes-At left (suc i) n j base m k (omega arith) (λ x below. files x (omega arith))
              (λ x below. held x (omega arith))
              (subst
                (λ x.
                  At (base + total data_of (suc i)) (file_bytes strcpy file argv headers left x m)
                    k)
                one back')
              (ground arith) lt
      ]

  -- The image of files that are there, with names that fit and less than 2 ^ 32 bytes in all, is written.
  pub image-some :
      (argc n : ℕ) (m : Memory)
      → nheaders_of argc ≡ pos n
      → AreFiles file argv data_of 0 n
      → first_offset + total data_of n < 2 ^ 32
      → (m' : Memory) × (image strcpy file argv headers argc m
          ≡ some (
              int_bytes n
              ++ bytes_at 4864 headers m'
              ++ file_bytes strcpy file argv headers n 0 m'))
        × AreHeaders argv headers data_of 0 n m'
  unfolding image image_of
  image-some argc n m count files fits =
      let (m', ran, held, _) =
        put_headers-AreHeaders strcpy file argv headers copies data_of n 0 n m (omega arith) files
          fits in
      let small = nheaders_of-lt argc n count in
      let whole : n % 2 ^ 32 ≡ n = omega arith in
      (
        m',
        ap (λ z. image_of strcpy file argv headers z m) count
            ∙ rw (ran, image_of)
                (ap
                  (λ w. some (
                    int_bytes w
                    ++ bytes_at 4864 headers m'
                    ++ file_bytes strcpy file argv headers n 0 m'))
                  whole),
        held,
      )

  -- Whatever of this image stands at an address tells where file i is: the count, its header, its bytes.
  pub image-At :
      (argc n i location : ℕ) (bytes : List ℕ) (m k : Memory)
      → nheaders_of argc ≡ pos n
      → AreFiles file argv data_of 0 n
      → first_offset + total data_of n < 2 ^ 32
      → image strcpy file argv headers argc m ≡ some bytes
      → At location bytes k
      → i < n
      → (load32 location k ≡ n)
        × IsImageHeader
            (location + 4 + 76 * i)
            (argv (i * 2 + 2))
            (first_offset + total data_of i)
            (length (data_of i))
            k
        × At (location + first_offset + total data_of i) (data_of i) k
  image-At argc n i location bytes m k count files fits written at lt =
      let (m', ran, held) = image-some argc n m count files fits in
      let small = nheaders_of-lt argc n count in
      let table = bytes_at 4864 headers m' in
      let tail = file_bytes strcpy file argv headers n 0 m' in
      let same : bytes ≡ int_bytes n ++ table ++ tail = cc (written, ran) in
      let at' : At location (int_bytes n ++ table ++ tail) k =
        subst (λ x. At location x k) same at in
      let (word, behind) = At-append location (int_bytes n) (table ++ tail) k at' in
      let (headers_at, files_at) = At-append (location + 4) table tail k behind in
      let base : location + 4 + length table ≡ location + first_offset + total data_of 0 =
        omega (arith, length-bytes_at 4864 headers m') in
      (
        load32-int_bytes location n k (omega arith) word,
        IsImageHeader-moved (headers + 76 * i) (location + 4 + 76 * i)
            (first_offset + total data_of i) (length (data_of i)) (argv (i * 2 + 2)) m' k
            (files i (omega arith) lt).1.0
            (λ o le.
              let a : location + 4 + 76 * i + o ≡ location + 4 + (76 * i + o) = omega arith in
              let b : headers + (76 * i + o) ≡ headers + 76 * i + o = omega arith in
              ap (λ x. load8 x k) a
              ∙ At-bytes_at 4864 (location + 4) headers (76 * i + o) k m' headers_at (omega arith)
              ∙ ap (λ x. load8 x m') b)
            (held i (omega arith) lt),
        file_bytes-At n 0 n i (location + first_offset) m' k (omega arith) files held
            (subst (λ x. At x tail k) base files_at) (omega arith) lt,
      )
