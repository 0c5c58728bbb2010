-- ===== src/Monitor/Dec.antt =====
-- `monitor_write_dec` of screen/monitor.c and decimal numerals.
use panda_os.Base.{
  ℕ, zero, suc, ◌+◌, ◌-◌, ◌*◌, ◌/◌, ◌%◌, ◌^◌, ◌≤◌, ◌<◌, ◌≡◌, ◌≢◌, refl, ap, ◌∙◌, List, [], ◌∷◌,
  ◌==◌, arith, Bool-cases, inl, inr, All, false, lt→ltb, le→ltb,
}
use native.Mathlib.Nat.{pow-suc}
use panda_os.Base.Int.{signed32}
use panda_os.Monitor.{Monitor, monitor_write, monitor_write_dec, dec_loop, turn, digits_of}

-- The number that a numeral stands for, after `acc`.
abbrev pub decimal : (acc : ℕ) → List ℕ → ℕ
decimal acc [] = acc
decimal acc (c ∷ cs) = decimal (acc * 10 + (c - b'0')) cs

abbrev pub IsDigit : ℕ → Type 0
IsDigit c = (b'0' ≤ c) × (c ≤ b'9')

-- A numeral: digits, at least one, and the first is not 0.
abbrev pub IsNumeral : List ℕ → Type 0
IsNumeral [] = ⊥
IsNumeral (c ∷ cs) = (b'1' ≤ c) × (c ≤ b'9') × All IsDigit cs

decimal-turn :
    (f n : ℕ) (ys : List ℕ) → n < 10 ^ f → decimal 0 (turn (dec_loop f n) ys) ≡ decimal n ys
unfolding dec_loop turn
decimal-turn zero n ys h = ap (λ t. decimal t ys) (omega arith)
decimal-turn (suc f) n ys h = elim (Bool-cases (n == 0)) [
  | inl z ↦ rw z (ap (λ t. decimal t ys) (ground arith))
  | inr nz ↦ rw nz (
      decimal-turn f (n / 10) ((b'0' + n % 10) ∷ ys) (omega (arith, pow-suc 10 f))
      ∙ ap (λ t. decimal t ys) (omega arith))
]

dec_loop-zero : (f n : ℕ) → n ≡ 0 → dec_loop f n ≡ []
unfolding dec_loop
dec_loop-zero zero n h = refl
dec_loop-zero (suc f) n h = ground arith

turn-IsNumeral :
    (f n : ℕ) (ys : List ℕ)
    → n < 10 ^ f
    → n ≢ 0
    → All IsDigit ys
    → IsNumeral (turn (dec_loop f n) ys)
unfolding dec_loop turn
turn-IsNumeral zero n ys h nz all = absurd (omega arith)
turn-IsNumeral (suc f) n ys h nz all =
    let go : (n == 0) ≡ false = ground arith in
    rw go (elim (Bool-cases (n / 10 == 0)) [
      | inl z ↦ rw (dec_loop-zero f (n / 10) (ground arith)) (ground arith, ground arith, all)
      | inr more ↦
          turn-IsNumeral f (n / 10) ((b'0' + n % 10) ∷ ys) (omega (arith, pow-suc 10 f))
            (ground arith) ((omega arith, omega arith), all)
    ])

digits_of-signed32 : (n : ℕ) → n < 2 ^ 31 → digits_of (signed32 n) ≡ dec_loop 10 n
unfolding digits_of
digits_of-signed32 n h = rw (lt→ltb n (2 ^ 31) h)

digits_of_negative : (n : ℕ) → 2 ^ 31 ≤ n → digits_of (signed32 n) ≡ []
unfolding digits_of
digits_of_negative n h = rw (le→ltb n (2 ^ 31) h)

-- For every number from 1 to 2 ^ 31 - 1 `monitor_write_dec` writes its decimal numeral: digits that
-- stand for the number, the first of them not 0.
pub monitor_write_dec-IsNumeral :
    (n : ℕ) (s : Monitor)
    → 0 < n
    → n < 2 ^ 31
    → (cs : List ℕ) × (monitor_write_dec n s ≡ monitor_write cs s)
      × (decimal 0 cs ≡ n)
      × IsNumeral cs
unfolding monitor_write_dec
monitor_write_dec-IsNumeral n s pos_n small = (
  turn (dec_loop 10 n) [],
  let go : (n == 0) ≡ false = ground arith in rw (go, digits_of-signed32 n small),
  decimal-turn 10 n [] (omega arith),
  turn-IsNumeral 10 n [] (omega arith) (omega arith) tt,
)

-- From 2 ^ 31 on the argument is negative as an `int32`, and nothing at all is written.
pub monitor_write_dec_negative :
    (n : ℕ) (s : Monitor) → 2 ^ 31 ≤ n → n < 2 ^ 32 → monitor_write_dec n s ≡ s
unfolding monitor_write_dec monitor_write turn
monitor_write_dec_negative n s big fits =
    let go : (n == 0) ≡ false = ground arith in rw (go, digits_of_negative n big)
