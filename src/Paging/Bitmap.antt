-- ===== src/Paging/Bitmap.antt =====
-- The bit set as a set of frames.
use panda_os.Base.{
  ℕ, ◌-◌, ◌/◌, ◌%◌, ◌^◌, ◌≤◌, ◌<◌, ◌≡◌, ◌≢◌, ◌↔◌, false, ◌==◌, if◌then◌else◌, arith, Bool-cases,
  inl, inr,
}
use native.Mathlib.Nat.{pow-le-pow_right, one-le-pow}
use panda_os.Base.Bits.{
  bit, bit-le, bit-bit_or, bit-bit_and, bit-two_pow_self, bit-two_pow_ne, bit_complement,
  bit_and-two_pow,
}
use panda_os.Paging.Frames.{Frames, put_word, set_frame, clear_frame, test_frame}

-- Whether frame f is in use, as a digit.
abbrev pub used : Frames → ℕ → ℕ
used s f = bit (s.frames (f / 32)) (f % 32)

-- The words are 32 bits wide.
abbrev pub IsWords : Frames → Type 0
IsWords s = (i : ℕ) → s.frames i < 2 ^ 32

bit_flag : (a b : ℕ) → bit (2 ^ a) b ≡ (if b == a then 1 else 0)
bit_flag a b = elim (Bool-cases (b == a)) [
  | inl e ↦ let same : b ≡ a = ground arith in rw same (rw (bit-two_pow_self a) (ground arith))
  | inr ne ↦ rw ne (bit-two_pow_ne a b (ground arith))
]

two_pow_small : (a : ℕ) → a < 32 → 2 ^ a < 2 ^ 32
two_pow_small a h =
    let top : 2 ^ a ≤ 2 ^ 31 =
      pow-le-pow_right {n = 2} (omega arith) {i = a} {j = 31} (omega arith) in
    omega arith

-- `set_frame` puts the frame of an address into the set, and leaves every other frame as it was.
pub set_frame-used :
    (addr f : ℕ) (s : Frames)
    → used (set_frame addr s) f ≡ (if f == addr / 0x1000 then 1 else used s f)
unfolding set_frame put_word
set_frame-used addr f s =
    let k = addr / 0x1000 in
    elim (Bool-cases (f / 32 == k / 32)) [
      | inl e ↦
          let same : f / 32 ≡ k / 32 = ground arith in
          rw
            (
              e,
              bit-bit_or (f % 32) (s.frames (k / 32)) (2 ^ (k % 32)),
              bit_flag (k % 32) (f % 32),
              same,
            )
            (ground (arith, bit-le (f % 32) (s.frames (k / 32))))
      | inr ne ↦ let other : (f == k) ≡ false = ground arith in rw (ne, other)
    ]

-- `clear_frame` takes the frame of an address out of the set, and leaves every other as it was.
pub clear_frame-used :
    (addr f : ℕ) (s : Frames)
    → used (clear_frame addr s) f ≡ (if f == addr / 0x1000 then 0 else used s f)
unfolding clear_frame put_word
clear_frame-used addr f s =
    let k = addr / 0x1000 in
    elim (Bool-cases (f / 32 == k / 32)) [
      | inl e ↦
          let same : f / 32 ≡ k / 32 = ground arith in
          rw
            (
              e,
              bit-bit_and (f % 32) (s.frames (k / 32)) (2 ^ 32 - 1 - 2 ^ (k % 32)),
              bit_complement (f % 32) 32 (2 ^ (k % 32)) (omega arith)
                  (two_pow_small (k % 32) (omega arith)),
              bit_flag (k % 32) (f % 32),
              same,
            )
            (ground (arith, bit-le (f % 32) (s.frames (k / 32))))
      | inr ne ↦ let other : (f == k) ≡ false = ground arith in rw (ne, other)
    ]

-- `test_frame` is not 0 exactly when the frame of the address is in the set.
pub test_frame-used :
    (addr : ℕ) (s : Frames) → (test_frame addr s ≢ 0) ↔ (used s (addr / 0x1000) ≡ 1)
unfolding test_frame
test_frame-used addr s =
    let k = addr / 0x1000 in
    let b = bit (s.frames (k / 32)) (k % 32) in
    rw (bit_and-two_pow (k % 32) (s.frames (k / 32))) (
      λ h. grind (arith, bit-le (k % 32) (s.frames (k / 32))),
      λ h. rw h (ground (arith, one-le-pow (k % 32) 2)),
    )
