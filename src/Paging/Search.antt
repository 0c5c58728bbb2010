-- ===== src/Paging/Search.antt =====
-- The search of `first_frame` (memory/paging.c) through the bit set.
use panda_os.Base.{
  ℕ, zero, suc, ◌+◌, ◌-◌, ◌*◌, ◌/◌, ◌%◌, ◌^◌, ◌≤◌, ◌<◌, ◌≡◌, refl, ◌∙◌, Option, none, some, ◌==◌,
  ltb, arith, Bool-cases, inl, inr, bit_and,
}
use native.Mathlib.Nat.{one-le-pow}
use panda_os.Base.Bits.{bit, bit-le, bit-zero, bit_complement, bit_and-two_pow}
use panda_os.Paging.Frames.{Frames, first_bit, first_word, found_in, first_frame}
use panda_os.Paging.Bitmap.{used}

-- The answer of a search for the least place from `lo` up to `hi` where the digit d is 0.
abbrev pub Least : (d : ℕ → ℕ) (lo hi : ℕ) → Option ℕ → Type 0
Least d lo hi none = (f : ℕ) → lo ≤ f → f < hi → d f ≡ 1
Least d lo hi (some k) = (lo ≤ k) × (k < hi) × (d k ≡ 0) × ((f : ℕ) → lo ≤ f → f < k → d f ≡ 1)

-- A search goes on behind a stretch of ones.
Least-skip :
    (d : ℕ → ℕ) (lo mid hi : ℕ) (r : Option ℕ)
    → lo ≤ mid
    → ((f : ℕ) → lo ≤ f → f < mid → d f ≡ 1)
    → Least d mid hi r
    → Least d lo hi r
Least-skip d lo mid hi none le ones rest = λ f ge lt. elim (Bool-cases (ltb f mid)) [
  | inl t ↦ ones f ge (ground arith)
  | inr n ↦ rest f (ground arith) lt
]
Least-skip d lo mid hi (some k) le ones rest = (
  omega (arith, rest.0),
  rest.1,
  rest.2,
  λ f ge lt. elim (Bool-cases (ltb f mid)) [
    | inl t ↦ ones f ge (ground arith)
    | inr n ↦ rest.3 f (ground arith) lt
  ],
)

first_bit-Least : (left j word : ℕ) → j + left ≡ 32 → Least (bit word) j 32 (first_bit left j word)
unfolding first_bit
first_bit-Least zero j word e = λ f ge lt. absurd (omega arith)
first_bit-Least (suc left) j word e = elim (Bool-cases (bit_and word (2 ^ j) == 0)) [
  | inl z ↦ rw z (
    omega arith,
    omega arith,
    ground (arith, bit_and-two_pow j word, bit-le j word, one-le-pow j 2),
    λ f ge lt. absurd (omega arith),
  )
  | inr nz ↦
      let one : bit word j ≡ 1 = ground (arith, bit_and-two_pow j word, bit-le j word) in
      rw nz (
        Least-skip (bit word) j (j + 1) 32 (first_bit left (j + 1) word) (omega arith)
          (λ f ge lt. let same : f ≡ j = omega arith in rw same one)
          (first_bit-Least left (j + 1) word (omega arith)))
]

ones : (c : ℕ) → c < 32 → bit 0xffff_ffff c ≡ 1
ones c h = bit_complement c 32 0 h (omega arith) ∙ omega (arith, bit-zero c)

-- Within word i the digit of a frame is that of its offset.
word-digits : (s : Frames) (i f c : ℕ) → f ≡ i * 32 + c → c < 32 → used s f ≡ bit (s.frames i) c
word-digits s i f c e h =
    let idx : f / 32 ≡ i = omega arith in let off : f % 32 ≡ c = omega arith in rw (idx, off)

word_of-Least :
    (s : Frames) (i hi : ℕ) (r rest : Option ℕ)
    → i < hi
    → Least (bit (s.frames i)) 0 32 r
    → Least (used s) ((i + 1) * 32) (hi * 32) rest
    → Least (used s) (i * 32) (hi * 32) (found_in i r rest)
word_of-Least s i hi none rest lt found later =
    Least-skip (used s) (i * 32) ((i + 1) * 32) (hi * 32) rest (omega arith)
      (λ f ge below.
        word-digits s i f (f - i * 32) (omega arith) (omega arith)
        ∙ found (f - i * 32) (omega arith) (omega arith))
      later
word_of-Least s i hi (some k) rest lt found later =
    let low : k < 32 = found.1 in
    (
      omega arith,
      omega arith,
      word-digits s i (i * 32 + k) k refl low ∙ found.2,
      λ f ge below.
          word-digits s i f (f - i * 32) (omega arith) (omega arith)
          ∙ found.3 (f - i * 32) (omega arith) (omega arith),
    )

first_word-Least :
    (left i hi : ℕ) (s : Frames)
    → i + left ≡ hi
    → Least (used s) (i * 32) (hi * 32) (first_word left i s)
unfolding first_word
first_word-Least zero i hi s e = λ f ge lt. absurd (omega arith)
first_word-Least (suc left) i hi s e =
    let later = first_word-Least left (i + 1) hi s (omega arith) in
    elim (Bool-cases (s.frames i == 0xffff_ffff)) [
      | inl full ↦
          let all : s.frames i ≡ 0xffff_ffff = ground arith in
          rw full (
            word_of-Least s i hi none (first_word left (i + 1) s) (omega arith)
              (λ c ge lt. rw all (ones c lt)) later)
      | inr room ↦ rw room (
          word_of-Least s i hi (first_bit 32 0 (s.frames i)) (first_word left (i + 1) s)
            (omega arith) (first_bit-Least 32 0 (s.frames i) refl) later)
    ]

-- `first_frame` returns the lowest frame that is not in use, among those of the whole words of the bit
-- set. It comes to its end without a value only when all of these frames are in use.
pub first_frame-Least : (s : Frames) → Least (used s) 0 (s.frame_count / 32 * 32) (first_frame s)
unfolding first_frame
first_frame-Least s = first_word-Least (s.frame_count / 32) 0 (s.frame_count / 32) s (omega arith)
