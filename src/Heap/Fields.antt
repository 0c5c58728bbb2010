-- ===== src/Heap/Fields.antt =====
-- Reading back the fields of headers and footers.
use panda_os.Base.{ℕ, ◌+◌, ◌^◌, ◌≤◌, ◌<◌, ◌≡◌, ◌∙◌, arith}
use panda_os.Base.Memory.{
  Memory, load8, store8, store32, Apart, load32-store32_self, load32-store32-Apart,
  load32-store8-Apart, load8-store32-Apart, load8-store8-Apart, load8-store8_self, load32_same,
}
use panda_os.Heap.Layout.{
  heap_magic, magic_of, is_hole_of, size_of, header_of, put_header, put_footer, set_size, set_hole,
}

-- A header as the heap writes it.
pub record IsHeader (p is_hole size : ℕ) (m : Memory) : Type 0 where
  pub magic_eq : magic_of p m ≡ heap_magic
  pub hole_eq : is_hole_of p m ≡ is_hole
  pub size_eq : size_of p m ≡ size

pub record IsFooter (p header : ℕ) (m : Memory) : Type 0 where
  pub magic_eq : magic_of p m ≡ heap_magic
  pub header_eq : header_of p m ≡ header

module _ (p : ℕ) (m : Memory) where
  pub put_header-IsHeader :
      (is_hole size : ℕ)
      → is_hole < 2 ^ 8
      → size < 2 ^ 32
      → IsHeader p is_hole size (put_header p is_hole size m)
  unfolding put_header
  put_header-IsHeader is_hole size h k =
      let m₁ = store32 p heap_magic m in
      let m₂ = store8 (p + 4) is_hole m₁ in
      record {
        magic_eq =
            load32-store32-Apart (p + 8) p size m₂ (omega arith)
            ∙ load32-store8-Apart (p + 4) p is_hole m₁ (omega arith)
            ∙ load32-store32_self p heap_magic m (omega arith);
        hole_eq = omega (
          arith,
          load8-store32-Apart (p + 8) (p + 4) size m₂ (omega arith),
          load8-store8_self (p + 4) is_hole m₁,
        );
        size_eq = load32-store32_self (p + 8) size m₂ k;
      }

  pub put_footer-IsFooter :
      (header : ℕ) → header < 2 ^ 32 → IsFooter p header (put_footer p header m)
  unfolding put_footer
  put_footer-IsFooter header h = record {
    magic_eq =
        load32-store32-Apart (p + 4) p header (store32 p heap_magic m) (omega arith)
        ∙ load32-store32_self p heap_magic m (omega arith);
    header_eq = load32-store32_self (p + 4) header (store32 p heap_magic m) h;
  }

  -- Nothing else is written.
  pub put_header-frame :
      (is_hole size q : ℕ) → Apart p 12 q 1 → load8 q (put_header p is_hole size m) ≡ load8 q m
  unfolding put_header
  put_header-frame is_hole size q out =
      let m₁ = store32 p heap_magic m in
      let m₂ = store8 (p + 4) is_hole m₁ in
      load8-store32-Apart (p + 8) q size m₂ (omega arith)
      ∙ load8-store8-Apart (p + 4) q is_hole m₁ (omega arith)
      ∙ load8-store32-Apart p q heap_magic m (omega arith)

  pub put_footer-frame :
      (header q : ℕ) → Apart p 8 q 1 → load8 q (put_footer p header m) ≡ load8 q m
  unfolding put_footer
  put_footer-frame header q out =
      load8-store32-Apart (p + 4) q header (store32 p heap_magic m) (omega arith)
      ∙ load8-store32-Apart p q heap_magic m (omega arith)

-- A header or a footer survives any change that leaves its bytes alone.
pub IsHeader-same :
    {p is_hole size : ℕ} {m : Memory} (m' : Memory)
    → IsHeader p is_hole size m
    → ((q : ℕ) → p ≤ q → q < p + 12 → load8 q m' ≡ load8 q m)
    → IsHeader p is_hole size m'
IsHeader-same {p} {m} m' h same = record {
  magic_eq = load32_same p m' m (λ i lt. same (p + i) (omega arith) (omega arith)) ∙ h.magic_eq;
  hole_eq = same (p + 4) (omega arith) (omega arith) ∙ h.hole_eq;
  size_eq =
      load32_same (p + 8) m' m (λ i lt. same (p + 8 + i) (omega arith) (omega arith)) ∙ h.size_eq;
}

pub IsFooter-same :
    {p header : ℕ} {m : Memory} (m' : Memory)
    → IsFooter p header m
    → ((q : ℕ) → p ≤ q → q < p + 8 → load8 q m' ≡ load8 q m)
    → IsFooter p header m'
IsFooter-same {p} {m} m' h same = record {
  magic_eq = load32_same p m' m (λ i lt. same (p + i) (omega arith) (omega arith)) ∙ h.magic_eq;
  header_eq =
      load32_same (p + 4) m' m (λ i lt. same (p + 4 + i) (omega arith) (omega arith)) ∙ h.header_eq;
}

-- Writing one field of a header.
module _ (p : ℕ) (m : Memory) where
  pub set_size-frame : (size q : ℕ) → Apart (p + 8) 4 q 1 → load8 q (set_size p size m) ≡ load8 q m
  unfolding set_size
  set_size-frame size q out = load8-store32-Apart (p + 8) q size m out

  pub set_size-IsHeader :
      (is_hole n size : ℕ)
      → size < 2 ^ 32
      → IsHeader p is_hole n m
      → IsHeader p is_hole size (set_size p size m)
  unfolding set_size
  set_size-IsHeader is_hole n size small h = record {
    magic_eq = load32-store32-Apart (p + 8) p size m (omega arith) ∙ h.magic_eq;
    hole_eq = load8-store32-Apart (p + 8) (p + 4) size m (omega arith) ∙ h.hole_eq;
    size_eq = load32-store32_self (p + 8) size m small;
  }

  pub set_hole-frame : (q : ℕ) → Apart (p + 4) 1 q 1 → load8 q (set_hole p m) ≡ load8 q m
  unfolding set_hole
  set_hole-frame q out = load8-store8-Apart (p + 4) q 1 m out

  pub set_hole-IsHeader : (is_hole n : ℕ) → IsHeader p is_hole n m → IsHeader p 1 n (set_hole p m)
  unfolding set_hole
  set_hole-IsHeader is_hole n h = record {
    magic_eq = load32-store8-Apart (p + 4) p 1 m (omega arith) ∙ h.magic_eq;
    hole_eq = omega (arith, load8-store8_self (p + 4) 1 m);
    size_eq = load32-store8-Apart (p + 4) (p + 8) 1 m (omega arith) ∙ h.size_eq;
  }
