-- ===== src/Strings/Tests.antt =====
-- Strings in memory, and the theorems there.
use panda_os.Base.{ℕ, ◌≡◌, ◌↔◌, refl, List, [], ◌∷◌, ok, arith}
use panda_os.Base.Memory.{Memory, load8, store8}
use panda_os.Strings.{strcmp}
use panda_os.Strings.Holds.{Holds}
use panda_os.Strings.Compare.{strcmp-eq}

-- "dev" at 10 and "dex" at 20, in a memory that is otherwise full of 1s.
abbrev text : Memory
text = store8 23 0 (
    store8 22 b'x' (
      store8 21 b'e'
        (store8 20 b'd' (store8 13 0 (store8 12 b'v' (store8 11 b'e' (store8 10 b'd' (λ a. 1))))))))

abbrev dev : List ℕ
dev = b'd' ∷ b'e' ∷ b'v' ∷ []

abbrev dex : List ℕ
dex = b'd' ∷ b'e' ∷ b'x' ∷ []

dev_held : Holds 10 dev text
unfolding load8 store8
dev_held = (refl, omega arith, (refl, omega arith, (refl, omega arith, refl)))

dex_held : Holds 20 dex text
unfolding load8 store8
dex_held = (refl, omega arith, (refl, omega arith, (refl, omega arith, refl)))

compare_run : strcmp 10 10 20 text ≡ ok 1
unfolding strcmp load8 store8
compare_run = refl

strcmp-eq_example : (r : ℕ) × (strcmp 10 10 20 text ≡ ok r) × ((r ≡ 0) ↔ (dev ≡ dex))
strcmp-eq_example = strcmp-eq 10 10 20 dev dex text dev_held dex_held (omega arith)
