-- ===== src/Initrd/Start/Fields.antt =====
-- Reading the fields of a structure that have been stored.
use panda_os.Base.{
  ℕ, ◌+◌, ◌%◌, ◌^◌, ◌≤◌, ◌<◌, ◌≡◌, refl, ◌∙◌, ap, ◌⊎◌, List, [], ◌∷◌, ◌==◌, if◌then◌else◌, arith,
  Bool-cases, inl, inr,
}
use panda_os.Base.Memory.{
  Memory, load8, load32, store32, load32-store32_self, load32-store32-Apart, load8-store32-Apart,
}
use panda_os.Initrd.Start.{put_fields}

-- The value stored last at an offset, or the old one.
abbrev pub stored : (offset old : ℕ) → List (ℕ × ℕ) → ℕ
stored offset old [] = old
stored offset old ((o, v) ∷ fields) = stored offset (if o == offset then v else old) fields

-- Word-sized values at offsets below 184 that are multiples of 4.
abbrev pub AreFields : List (ℕ × ℕ) → Type 0
AreFields [] = Unit {0}
AreFields ((o, v) ∷ fields) = (o % 4 ≡ 0) × (o + 4 ≤ 184) × (v < 2 ^ 32) × AreFields fields

pub put_fields-stored :
    (node offset : ℕ) (fields : List (ℕ × ℕ)) (m : Memory)
    → offset % 4 ≡ 0
    → AreFields fields
    → load32 (node + offset) (put_fields node fields m)
      ≡ stored offset (load32 (node + offset) m) fields
unfolding put_fields
put_fields-stored node offset [] m al h = refl
put_fields-stored node offset ((o, v) ∷ fields) m al h =
    put_fields-stored node offset fields (store32 (node + o) v m) al h.3
    ∙ ap (λ x. stored offset x fields)
        (elim (Bool-cases (o == offset)) [
          | inl here ↦
              let same : node + offset ≡ node + o = ground arith in
              rw here (
                ap (λ a. load32 a (store32 (node + o) v m)) same
                ∙ load32-store32_self (node + o) v m h.2)
          | inr other ↦
              rw other (load32-store32-Apart (node + o) (node + offset) v m (ground (arith, h.0)))
        ])

-- Nothing outside the structure changes.
pub put_fields-outside :
    (node q : ℕ) (fields : List (ℕ × ℕ)) (m : Memory)
    → AreFields fields
    → (q < node) ⊎ (node + 184 ≤ q)
    → load8 q (put_fields node fields m) ≡ load8 q m
unfolding put_fields
put_fields-outside node q [] m h out = refl
put_fields-outside node q ((o, v) ∷ fields) m h out =
    put_fields-outside node q fields (store32 (node + o) v m) h.3 out
    ∙ load8-store32-Apart (node + o) q v m (omega (arith, h.1))
