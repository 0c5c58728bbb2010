-- ===== src/Base/Bits.antt =====
-- The binary digits of a number, and what the bitwise operations do to them. The native operations
-- mean `bitwise`, a recursion on digits with fuel; the step lemmas drop the fuel.
use Prim.Native.Nat.{
  ℕ, zero, suc, ◌+◌, ◌-◌, ◌*◌, ◌/◌, ◌%◌, ◌^◌, ◌≤◌, ◌<◌, min, max, digits, bitwise, bit_and, bit_or,
  bit_and-bitwise, bit_or-bitwise,
}
use native.Mathlib.Nat.{pow-suc, one-le-pow, div-div-eq-div-mul}
use mathlib.Core.Path.{◌≡◌, refl, ap, sym, ◌∙◌}
use mathlib.Core.Logic.{◌≢◌}
use native.Mathlib.Omega.{arith}

module _ (z : ℕ → ℕ) (f : ℕ → ℕ → ℕ) where
  -- Once the fuel reaches the number, another unit of it changes nothing, and so does any more.
  one_more : (fuel x y : ℕ) → x ≤ fuel → digits z f (suc fuel) x y ≡ digits z f fuel x y
  one_more zero zero y h = refl
  one_more zero (suc x) y h = absurd (omega arith)
  one_more (suc fuel) zero y h = refl
  one_more (suc fuel) (suc x) y h =
      ap (λ (d : ℕ). d * 2 + f (suc x % 2) (y % 2))
        (one_more fuel (suc x / 2) (y / 2) (omega arith))

  halved : (slack fuel x y : ℕ) → fuel ≡ slack + x → digits z f fuel x y ≡ bitwise z f x y
  halved zero fuel x y h = let all : fuel ≡ x = omega arith in ap (λ k. digits z f k x y) all
  halved (suc slack) fuel x y h =
      let spent : fuel ≡ suc (slack + x) = omega arith in
      ap (λ k. digits z f k x y) spent
      ∙ one_more (slack + x) x y (omega arith)
      ∙ halved slack (slack + x) x y refl

  -- The lowest digits apart from the others, provided that `z` is such an operation too.
  bitwise_step :
      ((y : ℕ) → z y ≡ z (y / 2) * 2 + f 0 (y % 2))
      → (x y : ℕ) → bitwise z f x y ≡ bitwise z f (x / 2) (y / 2) * 2 + f (x % 2) (y % 2)
  bitwise_step even zero y = even y
  bitwise_step even (suc x) y =
      ap (λ (d : ℕ). d * 2 + f (suc x % 2) (y % 2))
        (halved (x - suc x / 2) x (suc x / 2) (y / 2) (omega arith))

pub bit_and_step : (x y : ℕ) → bit_and x y ≡ bit_and (x / 2) (y / 2) * 2 + min (x % 2) (y % 2)
bit_and_step x y =
    let spread = bitwise_step (λ _. 0) min (λ y. omega arith) x y in
    omega (arith, bit_and-bitwise x y, bit_and-bitwise (x / 2) (y / 2), spread)

pub bit_or_step : (x y : ℕ) → bit_or x y ≡ bit_or (x / 2) (y / 2) * 2 + max (x % 2) (y % 2)
bit_or_step x y =
    let spread = bitwise_step (λ y. y) max (λ y. omega arith) x y in
    omega (arith, bit_or-bitwise x y, bit_or-bitwise (x / 2) (y / 2), spread)

-- Digit k of a number.
abbrev pub bit : ℕ → ℕ → ℕ
bit w zero = w % 2
bit w (suc k) = bit (w / 2) k

pub bit-le : (k w : ℕ) → bit w k ≤ 1
bit-le zero w = omega arith
bit-le (suc k) w = bit-le k (w / 2)

pub bit-bit_or : (k a b : ℕ) → bit (bit_or a b) k ≡ max (bit a k) (bit b k)
bit-bit_or zero a b = omega (arith, bit_or_step a b)
bit-bit_or (suc k) a b =
    let half : bit_or a b / 2 ≡ bit_or (a / 2) (b / 2) = omega (arith, bit_or_step a b) in
    rw half (bit-bit_or k (a / 2) (b / 2))

pub bit-bit_and : (k a b : ℕ) → bit (bit_and a b) k ≡ min (bit a k) (bit b k)
bit-bit_and zero a b = omega (arith, bit_and_step a b)
bit-bit_and (suc k) a b =
    let half : bit_and a b / 2 ≡ bit_and (a / 2) (b / 2) = omega (arith, bit_and_step a b) in
    rw half (bit-bit_and k (a / 2) (b / 2))

pub bit-zero : (k : ℕ) → bit 0 k ≡ 0
bit-zero zero = refl
bit-zero (suc k) = bit-zero k

-- `1 << k` has digit k alone.
pub bit-two_pow_self : (k : ℕ) → bit (2 ^ k) k ≡ 1
bit-two_pow_self zero = refl
bit-two_pow_self (suc k) =
    let half : 2 ^ suc k / 2 ≡ 2 ^ k = omega (arith, pow-suc 2 k) in rw half (bit-two_pow_self k)

pub bit-two_pow_ne : (k j : ℕ) → k ≢ j → bit (2 ^ k) j ≡ 0
bit-two_pow_ne zero zero h = absurd (h refl)
bit-two_pow_ne zero (suc j) h = bit-zero j
bit-two_pow_ne (suc k) zero h = omega (arith, pow-suc 2 k)
bit-two_pow_ne (suc k) (suc j) h =
    let half : 2 ^ suc k / 2 ≡ 2 ^ k = omega (arith, pow-suc 2 k) in
    rw half (bit-two_pow_ne k j (λ e. h (ap suc e)))

-- The complement at width n: `~x` of a number below `2 ^ n`.
pub bit_complement : (k n x : ℕ) → k < n → x < 2 ^ n → bit (2 ^ n - 1 - x) k ≡ 1 - bit x k
bit_complement k zero x h fits = absurd (omega arith)
bit_complement zero (suc n) x h fits = omega (arith, pow-suc 2 n, one-le-pow n 2)
bit_complement (suc k) (suc n) x h fits =
    let half : (2 ^ suc n - 1 - x) / 2 ≡ 2 ^ n - 1 - x / 2 =
      omega (arith, pow-suc 2 n, one-le-pow n 2) in
    rw half (bit_complement k n (x / 2) (omega arith) (omega (arith, pow-suc 2 n)))

and_nothing : (fuel x : ℕ) → digits (λ _. 0) min fuel x 0 ≡ 0
and_nothing zero x = refl
and_nothing (suc fuel) zero = refl
and_nothing (suc fuel) (suc x) = omega (arith, and_nothing fuel (suc x / 2))

pub bit_and-zero : (x : ℕ) → bit_and x 0 ≡ 0
bit_and-zero x = bit_and-bitwise x 0 ∙ and_nothing x x

or_nothing : (fuel x : ℕ) → x ≤ fuel → digits (λ y. y) max fuel x 0 ≡ x
or_nothing zero zero h = refl
or_nothing (suc fuel) zero h = refl
or_nothing zero (suc x) h = absurd (omega arith)
or_nothing (suc fuel) (suc x) h = omega (arith, or_nothing fuel (suc x / 2) (omega arith))

pub bit_or-zero : (x : ℕ) → bit_or x 0 ≡ x
bit_or-zero x = bit_or-bitwise x 0 ∙ or_nothing x x (omega arith)

-- `w & (1 << k)` is not 0 exactly when digit k of w is set.
pub bit_and-two_pow : (k w : ℕ) → bit_and w (2 ^ k) ≡ bit w k * 2 ^ k
bit_and-two_pow zero w = omega (arith, bit_and_step w 1, bit_and-zero (w / 2))
bit_and-two_pow (suc k) w =
    let half : 2 ^ suc k / 2 ≡ 2 ^ k = omega (arith, pow-suc 2 k) in
    omega (
      arith,
      bit_and_step w (2 ^ suc k),
      pow-suc 2 k,
      bit_and-two_pow k (w / 2),
      ap (λ t. bit_and (w / 2) t) half,
      ap (λ (t : ℕ). bit (w / 2) k * t) (pow-suc 2 k),
    )

double_mul : (q k : ℕ) → q * 2 ^ suc k ≡ 2 * (q * 2 ^ k)
double_mul q k = let twice = pow-suc 2 k in ap (λ (p : ℕ). q * p) twice ∙ omega arith

-- A number of k digits below a multiple of `2 ^ k`: `|` puts the two together, and the mask of k ones
-- takes the lower one back out.
fields :
    (k high low : ℕ)
    → low < 2 ^ k
    → (bit_or (high * 2 ^ k) low ≡ high * 2 ^ k + low)
      × (bit_and (high * 2 ^ k + low) (2 ^ k - 1) ≡ low)
fields zero high low h =
    let none : low ≡ 0 = omega arith in
    let whole : high * 2 ^ 0 ≡ high = omega arith in
    rw (none, whole) (bit_or-zero high ∙ omega arith, bit_and-zero (high + 0))
fields (suc k) high low h =
    let (joined, masked) = fields k high (low / 2) (omega (arith, pow-suc 2 k)) in
    let twice = double_mul high k in
    let ones = pow-suc 2 k in
    (
      ground (arith, bit_or_step (high * 2 ^ suc k) low, twice, joined),
      ground (arith, bit_and_step (high * 2 ^ suc k + low) (2 ^ suc k - 1), twice, ones, masked),
    )

-- `(q << k) | r` is a sum when `r` fits k digits.
pub bit_or_fields : (k q r : ℕ) → r < 2 ^ k → bit_or (q * 2 ^ k) r ≡ q * 2 ^ k + r
bit_or_fields k q r fits = (fields k q r fits).0

-- A mask of k low ones is the remainder by `2 ^ k`.
pub bit_and_mask : (k a : ℕ) → bit_and a (2 ^ k - 1) ≡ a % 2 ^ k
bit_and_mask k a =
    let split : a / 2 ^ k * 2 ^ k + a % 2 ^ k ≡ a = ground (arith, one-le-pow k 2) in
    let kept = (fields k (a / 2 ^ k) (a % 2 ^ k) (ground (arith, one-le-pow k 2))).1 in
    ap (λ t. bit_and t (2 ^ k - 1)) (sym split) ∙ kept

-- A word of n digits is determined by them; a bitwise operation stays within the width.
pub bit_ext : (n a b : ℕ) → a < 2 ^ n → b < 2 ^ n → ((k : ℕ) → k < n → bit a k ≡ bit b k) → a ≡ b
bit_ext zero a b p q h = omega arith
bit_ext (suc n) a b p q h = omega (
  arith,
  h 0 (omega arith),
  bit_ext n (a / 2) (b / 2) (omega (arith, pow-suc 2 n)) (omega (arith, pow-suc 2 n))
      (λ k lt. h (suc k) (omega arith)),
)

pub bit_or-lt : (n a b : ℕ) → a < 2 ^ n → b < 2 ^ n → bit_or a b < 2 ^ n
bit_or-lt zero a b p q =
    let ea : a ≡ 0 = omega arith in let eb : b ≡ 0 = omega arith in rw (ea, eb) (omega arith)
bit_or-lt (suc n) a b p q = omega (
  arith,
  bit_or_step a b,
  pow-suc 2 n,
  bit_or-lt n (a / 2) (b / 2) (omega (arith, pow-suc 2 n)) (omega (arith, pow-suc 2 n)),
)

pub bit_and-lt : (n a b : ℕ) → a < 2 ^ n → bit_and a b < 2 ^ n
bit_and-lt zero a b p = let ea : a ≡ 0 = omega arith in rw (ea, bit_and-bitwise) (omega arith)
bit_and-lt (suc n) a b p = omega (
  arith,
  bit_and_step a b,
  pow-suc 2 n,
  bit_and-lt n (a / 2) (b / 2) (omega (arith, pow-suc 2 n)),
)

pub bit_or_comm : (n a b : ℕ) → a < 2 ^ n → b < 2 ^ n → bit_or a b ≡ bit_or b a
bit_or_comm n a b p q =
    bit_ext n (bit_or a b) (bit_or b a) (bit_or-lt n a b p q) (bit_or-lt n b a q p)
      (λ k h. omega (arith, bit-bit_or k a b, bit-bit_or k b a))

-- A mask whose low k digits are 0 takes the digits above.
pub bit_and_high : (k a m : ℕ) → bit_and a (m * 2 ^ k) ≡ bit_and (a / 2 ^ k) m * 2 ^ k
bit_and_high zero a m =
    let e : m * 2 ^ 0 ≡ m = omega arith in
    let d : a / 2 ^ 0 ≡ a = omega arith in rw (e, d) (omega arith)
bit_and_high (suc k) a m =
    let even : m * 2 ^ suc k ≡ 2 * (m * 2 ^ k) = double_mul m k in
    let half : m * 2 ^ suc k / 2 ≡ m * 2 ^ k = omega (arith, even) in
    let split : a / 2 / 2 ^ k ≡ a / 2 ^ suc k =
      div-div-eq-div-mul a 2 (2 ^ k) ∙ ap (λ t. a / t) (omega (arith, pow-suc 2 k)) in
    omega (
      arith,
      bit_and_step a (m * 2 ^ suc k),
      even,
      ap (λ t. bit_and (a / 2) t) half,
      bit_and_high k (a / 2) m,
      ap (λ t. bit_and t m * 2 ^ k) split,
      double_mul (bit_and (a / 2 ^ suc k) m) k,
    )

-- `n & 0xfffff000` of a 32-bit number is the page boundary at or below it.
pub bit_and_page : (n : ℕ) → n < 2 ^ 32 → bit_and n 0xffff_f000 ≡ n / 2 ^ 12 * 2 ^ 12
bit_and_page n h = bit_and_high 12 n 0xf_ffff ∙ omega (arith, bit_and_mask 20 (n / 2 ^ 12))
