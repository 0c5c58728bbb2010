-- ===== src/Monitor/Hex.antt =====
-- `monitor_write_hex` of screen/monitor.c and hexadecimal numerals.
use panda_os.Base.{
  ℕ, zero, suc, ◌+◌, ◌*◌, ◌/◌, ◌%◌, ◌^◌, ◌<◌, ◌≡◌, refl, ap, ◌∙◌, sym, List, [], ◌∷◌, ◌++◌, map,
  ◌==◌, if◌then◌else◌, arith, Bool, Bool-cases, leb, ◌≤◌, ◌≢◌, ◌-◌, ◌⊎◌, inl, inr, All, true, false,
  ◌&&◌,
}
use native.Mathlib.Nat.{pow-suc, div-div-eq-div-mul}
use panda_os.Base.Bits.{bit_and_mask}
use panda_os.Monitor.{Monitor, monitor_put, monitor_write, monitor_write_hex, hex_char, hex_loop}

-- The number n without its last k hexadecimal digits.
abbrev upper : (k n : ℕ) → ℕ
upper k n = n / 2 ^ (4 * k)

upper-suc : (k n : ℕ) → upper (suc k) n ≡ upper k n / 16
upper-suc k n =
    let e : 4 * suc k ≡ suc (suc (suc (suc (4 * k)))) = omega arith in
    let p : 2 ^ (4 * suc k) ≡ 2 ^ (4 * k) * 16 =
      rw (e, pow-suc 2, pow-suc 2, pow-suc 2, pow-suc 2) (omega arith) in
    ap (λ t. n / t) p ∙ sym (div-div-eq-div-mul n (2 ^ (4 * k)) 16)

-- The digits that the loop writes, with `left` rounds to go.
nibbles : (left : ℕ) (skip : Bool) (n : ℕ) → List ℕ
nibbles zero skip n = []
nibbles (suc left) skip n =
    if upper (suc left) n % 16 == 0 && skip
    then nibbles left skip n
    else upper (suc left) n % 16 ∷ nibbles left false n

hex_loop-nibbles :
    (left : ℕ) (skip : Bool) (n : ℕ) (s : Monitor)
    → hex_loop left skip n s ≡ monitor_write (map hex_char (nibbles left skip n)) s
unfolding hex_loop nibbles monitor_write
hex_loop-nibbles zero skip n s = refl
hex_loop-nibbles (suc left) skip n s =
    rw (bit_and_mask 4 (upper (suc left) n))
      (elim (Bool-cases (upper (suc left) n % 16 == 0 && skip)) [
        | inl t ↦ rw t (hex_loop-nibbles left skip n s)
        | inr f ↦
            rw f
              (hex_loop-nibbles left false n (monitor_put (hex_char (upper (suc left) n % 16)) s))
      ])

-- The number that hexadecimal digits stand for, after `acc`.
abbrev pub hexadecimal : (acc : ℕ) → List ℕ → ℕ
hexadecimal acc [] = acc
hexadecimal acc (d ∷ ds) = hexadecimal (acc * 16 + d) ds

hexadecimal-append :
    (acc : ℕ) (ds : List ℕ) (d : ℕ) → hexadecimal acc (ds ++ d ∷ []) ≡ hexadecimal acc ds * 16 + d
hexadecimal-append acc [] d = refl
hexadecimal-append acc (x ∷ ds) d = hexadecimal-append (acc * 16 + x) ds d

-- Once a digit has been written, the rest follow.
nibbles-rest : (left n : ℕ) → hexadecimal (upper (suc left) n) (nibbles left false n) ≡ upper 1 n
unfolding nibbles
nibbles-rest zero n = refl
nibbles-rest (suc left) n = elim (Bool-cases (upper (suc left) n % 16 == 0)) [
  | inl z ↦ rw z (ap (λ t. hexadecimal t (nibbles left false n)) joined ∙ nibbles-rest left n)
  | inr d ↦ rw d (ap (λ t. hexadecimal t (nibbles left false n)) joined ∙ nibbles-rest left n)
]
  where
    joined : upper (suc (suc left)) n * 16 + upper (suc left) n % 16 ≡ upper (suc left) n
    joined = omega (arith, upper-suc (suc left) n)

-- Before that everything above is 0.
nibbles-first :
    (left n : ℕ) → upper (suc left) n ≡ 0 → hexadecimal 0 (nibbles left true n) ≡ upper 1 n
unfolding nibbles
nibbles-first zero n h = sym h
nibbles-first (suc left) n h = elim (Bool-cases (upper (suc left) n % 16 == 0)) [
  | inl z ↦ rw z (nibbles-first left n (ground (arith, upper-suc (suc left) n)))
  | inr d ↦ rw d (ap (λ t. hexadecimal t (nibbles left false n)) only ∙ nibbles-rest left n)
]
  where
    only : 0 * 16 + upper (suc left) n % 16 ≡ upper (suc left) n
    only = omega (arith, upper-suc (suc left) n)

nibbles-small : (left : ℕ) (skip : Bool) (n : ℕ) → All (λ d. d < 16) (nibbles left skip n)
unfolding nibbles
nibbles-small zero skip n = tt
nibbles-small (suc left) skip n = elim (Bool-cases (upper (suc left) n % 16 == 0 && skip)) [
  | inl t ↦ rw t (nibbles-small left skip n)
  | inr f ↦ rw f (omega arith, nibbles-small left false n)
]

-- A numeral: digits below 16, at least one, and the first is 0 only if it is the last.
abbrev IsDigits : List ℕ → Type 0
IsDigits [] = ⊥
IsDigits (d ∷ []) = d < 16
IsDigits (d ∷ e ∷ ds) = (0 < d) × (d < 16) × All (λ x. x < 16) (e ∷ ds)

All-append-last :
    (ds : List ℕ) (d : ℕ) → All (λ x. x < 16) ds → d < 16 → All (λ x. x < 16) (ds ++ d ∷ [])
All-append-last [] d all h = (h, tt)
All-append-last (x ∷ ds) d all h = (all.0, All-append-last ds d all.1 h)

leading :
    (d last : ℕ) (ds : List ℕ)
    → 0 < d
    → d < 16
    → All (λ x. x < 16) ds
    → last < 16
    → IsDigits ((d ∷ ds) ++ last ∷ [])
leading d last [] p h all l = (p, h, (l, tt))
leading d last (x ∷ ds) p h all l = (p, h, All-append-last (x ∷ ds) last all l)

nibbles-IsDigits : (left n last : ℕ) → last < 16 → IsDigits (nibbles left true n ++ last ∷ [])
unfolding nibbles
nibbles-IsDigits zero n last h = h
nibbles-IsDigits (suc left) n last h = elim (Bool-cases (upper (suc left) n % 16 == 0)) [
  | inl z ↦ rw z (nibbles-IsDigits left n last h)
  | inr d ↦ rw d (
      leading (upper (suc left) n % 16) last (nibbles left false n) (ground arith) (omega arith)
        (nibbles-small left false n) h)
]

write_last :
    (ds : List ℕ) (d : ℕ) (s : Monitor)
    → monitor_put (hex_char d) (monitor_write (map hex_char ds) s)
      ≡ monitor_write (map hex_char (ds ++ d ∷ [])) s
unfolding monitor_write
write_last [] d s = refl
write_last (x ∷ ds) d s = write_last ds d (monitor_put (hex_char x) s)

write_prefix :
    (rest : List ℕ) (s : Monitor)
    → monitor_write rest (monitor_write (b'0' ∷ b'x' ∷ []) s) ≡ monitor_write (b'0' ∷ b'x' ∷ rest) s
unfolding monitor_write
write_prefix rest s = refl

-- The value of a hexadecimal digit: 0 to 9 for the characters 0x30 to 0x39, 10 to 15 for 0x61 to 0x66.
abbrev pub digit_value : (c : ℕ) → ℕ
digit_value c = if leb c 0x39 then c - 0x30 else c - 0x61 + 10

-- The characters 0 to 9 and a to f.
abbrev pub IsHexDigit : (c : ℕ) → Type 0
IsHexDigit c = ((0x30 ≤ c) × (c ≤ 0x39)) ⊎ ((0x61 ≤ c) × (c ≤ 0x66))

-- A numeral: at least one digit, and the first is 0 only if it is the last.
abbrev pub IsHexNumeral : List ℕ → Type 0
IsHexNumeral [] = ⊥
IsHexNumeral (c ∷ []) = IsHexDigit c
IsHexNumeral (c ∷ e ∷ cs) = (c ≢ 0x30) × IsHexDigit c × All IsHexDigit (e ∷ cs)

hex_char-IsHexDigit : (d : ℕ) → d < 16 → IsHexDigit (hex_char d)
unfolding hex_char
hex_char-IsHexDigit d h = ground arith

digit_value-hex_char : (d : ℕ) → d < 16 → digit_value (hex_char d) ≡ d
unfolding hex_char
digit_value-hex_char d h = ground arith

hex_char-not_zero : (d : ℕ) → 0 < d → hex_char d ≢ 0x30
unfolding hex_char
hex_char-not_zero d h = ground arith

map-IsHexDigit : (ds : List ℕ) → All (λ d. d < 16) ds → All IsHexDigit (map hex_char ds)
map-IsHexDigit [] all = tt
map-IsHexDigit (d ∷ ds) all = (hex_char-IsHexDigit d all.0, map-IsHexDigit ds all.1)

map-digit_value : (ds : List ℕ) → All (λ d. d < 16) ds → map digit_value (map hex_char ds) ≡ ds
map-digit_value [] all = refl
map-digit_value (d ∷ ds) all = rw (digit_value-hex_char d all.0, map-digit_value ds all.1) refl

map-IsHexNumeral : (ds : List ℕ) → IsDigits ds → IsHexNumeral (map hex_char ds)
map-IsHexNumeral [] num = num
map-IsHexNumeral (d ∷ []) num = hex_char-IsHexDigit d num
map-IsHexNumeral (d ∷ e ∷ ds) (positive, small, all) =
    (hex_char-not_zero d positive, hex_char-IsHexDigit d small, map-IsHexDigit (e ∷ ds) all)

-- `monitor_write_hex` writes `0x` and characters from 0 to 9 and a to f that are the hexadecimal numeral
-- of its argument, for every 32-bit value: read as digits they stand for the number, with no 0 in front
-- unless the number is 0.
pub monitor_write_hex-IsHexNumeral :
    (n : ℕ) (s : Monitor)
    → n < 2 ^ 32
    → (cs : List ℕ) × (monitor_write_hex n s ≡ monitor_write (b'0' ∷ b'x' ∷ cs) s)
      × (hexadecimal 0 (map digit_value cs) ≡ n)
      × IsHexNumeral cs
unfolding monitor_write_hex
monitor_write_hex-IsHexNumeral n s h = (
  map hex_char digits,
  ap (λ t. monitor_put (hex_char t) (hex_loop 7 true n start)) (bit_and_mask 4 n)
      ∙ ap (monitor_put (hex_char (n % 16))) (hex_loop-nibbles 7 true n start)
      ∙ write_last (nibbles 7 true n) (n % 16) start
      ∙ write_prefix (map hex_char digits) s,
  ap (hexadecimal 0) (
        map-digit_value digits
          (All-append-last (nibbles 7 true n) (n % 16) (nibbles-small 7 true n) (omega arith)))
      ∙ hexadecimal-append 0 (nibbles 7 true n) (n % 16)
      ∙ omega (arith, nibbles-first 7 n (omega arith)),
  map-IsHexNumeral digits (nibbles-IsDigits 7 n (n % 16) (omega arith)),
)
  where
    start : Monitor
    start = monitor_write (b'0' ∷ b'x' ∷ []) s

    digits : List ℕ
    digits = nibbles 7 true n ++ n % 16 ∷ []
