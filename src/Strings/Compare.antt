-- ===== src/Strings/Compare.antt =====
-- `strcmp` of utils/string.c, and the equality of strings.
use panda_os.Base.{
  ℕ, zero, suc, ◌+◌, ◌<◌, ◌≡◌, refl, ◌↔◌, List, [], ◌∷◌, length, ◌==◌, ok, arith, Bool-cases, inl,
  inr,
}
use mathlib.Core.Path.{subst}
use mathlib.Core.Logic.{◌≢◌}
use panda_os.Base.Memory.{Memory}
use panda_os.Strings.{compare_from, compared, strcmp}
use panda_os.Strings.Holds.{Holds}

next : (p i : ℕ) → p + i + 1 ≡ p + (i + 1)
next p i = omega arith

compare_from-eq :
    (fuel str1 str2 i : ℕ) (xs ys : List ℕ) (m : Memory)
    → Holds (str1 + i) xs m
    → Holds (str2 + i) ys m
    → length xs < fuel
    → (r : ℕ) × (compare_from fuel str1 str2 i m ≡ ok r) × ((r ≡ 0) ↔ (xs ≡ ys))
unfolding compare_from compared
compare_from-eq zero str1 str2 i xs ys m h k lt = absurd (omega arith)
compare_from-eq (suc fuel) str1 str2 i [] [] m h k lt = (0, ground arith, ((λ _. refl), λ _. refl))
compare_from-eq (suc fuel) str1 str2 i [] (y ∷ ys) m h k lt =
    (1, ground arith, ((λ e. absurd (omega (arith, e))), λ e. cc))
compare_from-eq (suc fuel) str1 str2 i (x ∷ xs) [] m h k lt =
    (1, ground arith, ((λ e. absurd (omega (arith, e))), λ e. cc))
compare_from-eq (suc fuel) str1 str2 i (x ∷ xs) (y ∷ ys) m h k lt =
    let h' = subst (λ a. Holds a xs m) (next str1 i) h.2 in
    let k' = subst (λ a. Holds a ys m) (next str2 i) k.2 in
    let (r, ran, iff) = compare_from-eq fuel str1 str2 (i + 1) xs ys m h' k' (omega arith) in
    elim (Bool-cases (x == y)) [
      | inl t ↦
          let e : x ≡ y = ground arith in (r, ground arith, ((λ z. cc (iff.0 z)), λ z. iff.1 (cc)))
      | inr f ↦
          let e : x ≢ y = ground arith in
          (1, ground arith, ((λ z. absurd (omega (arith, z))), λ z. absurd (e (cc))))
    ]

-- `strcmp` returns 0 exactly when the two strings are equal, and otherwise 1.
pub strcmp-eq :
    (fuel str1 str2 : ℕ) (xs ys : List ℕ) (m : Memory)
    → Holds str1 xs m
    → Holds str2 ys m
    → length xs < fuel
    → (r : ℕ) × (strcmp fuel str1 str2 m ≡ ok r) × ((r ≡ 0) ↔ (xs ≡ ys))
unfolding strcmp
strcmp-eq fuel str1 str2 xs ys m h k lt =
    let start : (p : ℕ) → p ≡ p + 0 = λ p. omega arith in
    compare_from-eq fuel str1 str2 0 xs ys m (subst (λ a. Holds a xs m) (start str1) h)
      (subst (λ a. Holds a ys m) (start str2) k) lt
