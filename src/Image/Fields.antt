-- ===== src/Image/Fields.antt =====
-- The fields of the headers, and what is asked of `strcpy` and of the files.
use panda_os.Base.{
  ℕ, zero, suc, ◌+◌, ◌-◌, ◌*◌, ◌%◌, ◌^◌, ◌≤◌, ◌<◌, ◌≡◌, ap, ◌∙◌, ◌&&◌, Option, some, List, [], ◌∷◌,
  length, get_or, All, leb, ltb, ◌==◌, if◌then◌else◌, arith, Bool-cases, inl, inr,
}
use panda_os.Base.Memory.{Memory, load8, load32, load32_same}
use panda_os.Strings.Holds.{Holds, Holds-same}
use panda_os.Image.{first_offset}

-- What the C library promises of `strcpy`: the bytes of the string, and a 0.
abbrev pub IsStrcpy : ((dest : ℕ) → List ℕ → Memory → Memory) → Type 0
IsStrcpy strcpy =
    (dest : ℕ) (cs : List ℕ) (m : Memory) (q : ℕ)
    → load8 q (strcpy dest cs m) ≡ (
        if leb dest q && ltb q (dest + length cs)
        then get_or cs (q - dest) 0 % 2 ^ 8
        else (if q == dest + length cs then 0 else load8 q m))

-- A name that fits the field of 64 bytes with its 0.
abbrev pub IsName : List ℕ → Type 0
IsName cs = (length cs < 64) × All (λ c. (0 < c) × (c < 2 ^ 8)) cs

pub record IsImageHeader (header : ℕ) (name : List ℕ) (off len : ℕ) (m : Memory) : Type 0 where
  pub name_held : Holds (header + 1) name m
  pub offset_held : load32 (header + 68) m ≡ off
  pub length_held : load32 (header + 72) m ≡ len

pub IsImageHeader-same :
    {header off len : ℕ} {name : List ℕ} (m m' : Memory)
    → length name < 64
    → ((q : ℕ) → header ≤ q → q < header + 76 → load8 q m' ≡ load8 q m)
    → IsImageHeader header name off len m
    → IsImageHeader header name off len m'
IsImageHeader-same {header} {off} {len} {name} m m' short same h = record {
  name_held =
      Holds-same (header + 1) name m m' (λ a ge le. same a (omega arith) (omega arith)) h.name_held;
  offset_held =
      load32_same (header + 68) m' m (λ k lt. same (header + 68 + k) (omega arith) (omega arith))
      ∙ h.offset_held;
  length_held =
      load32_same (header + 72) m' m (λ k lt. same (header + 72 + k) (omega arith) (omega arith))
      ∙ h.length_held;
}

pub Holds-of_bytes :
    (a : ℕ) (cs : List ℕ) (m : Memory)
    → All (λ c. (0 < c) × (c < 2 ^ 8)) cs
    → ((k : ℕ) → k < length cs → load8 (a + k) m ≡ get_or cs k 0 % 2 ^ 8)
    → load8 (a + length cs) m ≡ 0
    → Holds a cs m
Holds-of_bytes a [] m good bytes end =
    let here : a ≡ a + 0 = omega arith in ap (λ q. load8 q m) here ∙ end
Holds-of_bytes a (c ∷ cs) m good bytes end =
    let here : a ≡ a + 0 = omega arith in
    let last : a + 1 + length cs ≡ a + suc (length cs) = omega arith in
    let whole : c % 2 ^ 8 ≡ c = omega arith in
    (
      ap (λ q. load8 q m) here ∙ bytes 0 (omega arith) ∙ whole,
      good.0.0,
      Holds-of_bytes (a + 1) cs m good.1
          (λ k lt.
            let next : a + 1 + k ≡ a + suc k = omega arith in
            ap (λ q. load8 q m) next ∙ bytes (suc k) (omega arith))
          (ap (λ q. load8 q m) last ∙ end),
    )

-- The bytes of the files in front of file n.
abbrev pub total : (data_of : ℕ → List ℕ) (n : ℕ) → ℕ
total data_of zero = 0
total data_of (suc n) = total data_of n + length (data_of n)

pub total-le : (data_of : ℕ → List ℕ) (i n : ℕ) → i ≤ n → total data_of i ≤ total data_of n
total-le data_of i zero le = let e : i ≡ 0 = omega arith in rw e (omega arith)
total-le data_of i (suc n) le = elim (Bool-cases (i == suc n)) [
  | inl same ↦ let e : i ≡ suc n = ground arith in rw e (omega arith)
  | inr before ↦ omega (arith, total-le data_of i n (ground arith))
]

-- The files from i on are there, with names that fit.
abbrev pub AreFiles :
    (file : List ℕ → Option (List ℕ)) (argv data_of : ℕ → List ℕ) (i n : ℕ) → Type 0
AreFiles file argv data_of i n =
    (j : ℕ)
    → i ≤ j
    → j < n
    → (file (argv (j * 2 + 1)) ≡ some (data_of j)) × IsName (argv (j * 2 + 2))

-- The headers of the files from i on.
abbrev pub AreHeaders :
    (argv : ℕ → List ℕ) (headers : ℕ) (data_of : ℕ → List ℕ) (i n : ℕ) → Memory → Type 0
AreHeaders argv headers data_of i n m =
    (j : ℕ)
    → i ≤ j
    → j < n
    → IsImageHeader (headers + 76 * j) (argv (j * 2 + 2)) (first_offset + total data_of j)
        (length (data_of j)) m
