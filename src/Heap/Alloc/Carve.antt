-- ===== src/Heap/Alloc/Carve.antt =====
-- A block at the front of a hole: its size (`carve`), and the memory once it and the rest of the hole
-- have their headers and footers.
use panda_os.Base.{ℕ, ◌+◌, ◌-◌, ◌^◌, ◌≤◌, ◌<◌, ◌≡◌, ◌∙◌, arith, ◌⊎◌}
use panda_os.Base.Memory.{Memory, load8}
use panda_os.Heap.Layout.{put_header, put_footer}
use panda_os.Heap.Fields.{
  IsHeader, IsFooter, put_header-IsHeader, put_footer-IsFooter, put_header-frame, put_footer-frame,
  IsHeader-same, IsFooter-same,
}
use panda_os.Heap.Alloc.{carve}

-- A block of n bytes at p, in a hole of h bytes.
pub record Carved (size n h : ℕ) : Type 0 where
  pub data_size : n ≡ size + 20
  pub inside : n ≤ h
  pub rest : (n ≡ h) ⊎ (n + 20 ≤ h)

-- `carve` keeps the block inside the hole, and leaves either no rest or room for a hole.
pub carve-Carved :
    (size h : ℕ)
    → size + 20 ≤ h
    → h < 2 ^ 32
    → let (size', n) = carve size (size + 20) h in Carved size' n h × (size ≤ size')
unfolding carve
carve-Carved size h fits small = ground arith

-- The memory once the block and the rest of the hole have their headers and footers.
abbrev pub carved_mem : (p n h : ℕ) → Memory → Memory
carved_mem p n h m =
    put_footer (p + h - 8) (p + n)
      (put_header (p + n) 1 (h - n) (put_footer (p + n - 8) p (put_header p 0 n m)))

abbrev pub block_mem : (p n : ℕ) → Memory → Memory
block_mem p n m = put_footer (p + n - 8) p (put_header p 0 n m)

module _ (p n : ℕ) (m : Memory) (room : 20 ≤ n) (fit : p + n < 2 ^ 32) where
  pub block_mem-frame : (q : ℕ) → (q < p) ⊎ (p + n ≤ q) → load8 q (block_mem p n m) ≡ load8 q m
  block_mem-frame q out =
      put_footer-frame (p + n - 8) (put_header p 0 n m) p q (omega arith)
      ∙ put_header-frame p m 0 n q (omega arith)

  pub block_mem-IsHeader : IsHeader p 0 n (block_mem p n m)
  block_mem-IsHeader =
      IsHeader-same (block_mem p n m) (put_header-IsHeader p m 0 n (omega arith) (omega arith))
        (λ q ge lt. put_footer-frame (p + n - 8) (put_header p 0 n m) p q (omega arith))

  pub block_mem-IsFooter : IsFooter (p + n - 8) p (block_mem p n m)
  block_mem-IsFooter = put_footer-IsFooter (p + n - 8) (put_header p 0 n m) p (omega arith)

module _ (p n h : ℕ) (m : Memory) (room : 20 ≤ n) (rest : n + 20 ≤ h) (fit : p + h < 2 ^ 32) where
  pub carved_mem-behind :
      (q : ℕ) → q < p + n → load8 q (carved_mem p n h m) ≡ load8 q (block_mem p n m)
  carved_mem-behind q lt =
      put_footer-frame (p + h - 8) (put_header (p + n) 1 (h - n) (block_mem p n m)) (p + n) q
        (omega arith)
      ∙ put_header-frame (p + n) (block_mem p n m) 1 (h - n) q (omega arith)

  pub carved_mem-frame : (q : ℕ) → (q < p) ⊎ (p + h ≤ q) → load8 q (carved_mem p n h m) ≡ load8 q m
  carved_mem-frame q out =
      put_footer-frame (p + h - 8) (put_header (p + n) 1 (h - n) (block_mem p n m)) (p + n) q
        (omega arith)
      ∙ put_header-frame (p + n) (block_mem p n m) 1 (h - n) q (omega arith)
      ∙ block_mem-frame p n m room (omega arith) q (omega arith)

  pub carved_mem-rest :
      IsHeader (p + n) 1 (h - n) (carved_mem p n h m)
      × IsFooter (p + h - 8) (p + n) (carved_mem p n h m)
  carved_mem-rest =
      let m' = put_header (p + n) 1 (h - n) (block_mem p n m) in
      (
        IsHeader-same (carved_mem p n h m)
            (put_header-IsHeader (p + n) (block_mem p n m) 1 (h - n) (omega arith) (omega arith))
            (λ q ge lt. put_footer-frame (p + h - 8) m' (p + n) q (omega arith)),
        put_footer-IsFooter (p + h - 8) m' (p + n) (omega arith),
      )

  pub carved_mem-block :
      IsHeader p 0 n (carved_mem p n h m) × IsFooter (p + n - 8) p (carved_mem p n h m)
  carved_mem-block = (
    IsHeader-same (carved_mem p n h m) (block_mem-IsHeader p n m room (omega arith))
        (λ q ge lt. carved_mem-behind q (omega arith)),
    IsFooter-same (carved_mem p n h m) (block_mem-IsFooter p n m room (omega arith))
        (λ q ge lt. carved_mem-behind q (omega arith)),
  )
