-- ===== src/Initrd/Directory/Copied.antt =====
-- A string that has been copied.
use panda_os.Base.{ℕ, suc, ◌+◌, ◌<◌, ◌≡◌, ◌∙◌, ap, List, [], ◌∷◌, length, arith}
use panda_os.Base.Memory.{Memory, load8}
use panda_os.Strings.Holds.{Holds}

-- The bytes of a string elsewhere, with a 0 behind them, are that string.
pub Holds-moved :
    (src dest : ℕ) (cs : List ℕ) (m m' : Memory)
    → Holds src cs m
    → ((k : ℕ) → k < length cs → load8 (dest + k) m' ≡ load8 (src + k) m)
    → load8 (dest + length cs) m' ≡ 0
    → Holds dest cs m'
Holds-moved src dest [] m m' h bytes end =
    let here : dest ≡ dest + 0 = omega arith in ap (λ a. load8 a m') here ∙ end
Holds-moved src dest (c ∷ cs) m m' h bytes end =
    let here : dest ≡ dest + 0 = omega arith in
    let there : src + 0 ≡ src = omega arith in
    let last : dest + 1 + length cs ≡ dest + suc (length cs) = omega arith in
    (
      ap (λ a. load8 a m') here ∙ bytes 0 (omega arith) ∙ ap (λ a. load8 a m) there ∙ h.0,
      h.1,
      Holds-moved (src + 1) (dest + 1) cs m m' h.2
          (λ k lt.
            let a : dest + 1 + k ≡ dest + suc k = omega arith in
            let b : src + suc k ≡ src + 1 + k = omega arith in
            ap (λ x. load8 x m') a ∙ bytes (suc k) (omega arith) ∙ ap (λ x. load8 x m) b)
          (ap (λ a. load8 a m') last ∙ end),
    )
