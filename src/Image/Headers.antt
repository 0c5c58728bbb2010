-- ===== src/Image/Headers.antt =====
-- The headers that the first loop fills in.
use panda_os.Base.{
  ℕ, zero, suc, ◌+◌, ◌-◌, ◌*◌, ◌%◌, ◌^◌, ◌≤◌, ◌<◌, ◌≡◌, refl, ap, ◌∙◌, ◌⊎◌, true, ◌&&◌, Option,
  some, List, length, get_or, leb, ltb, ◌==◌, add32, u32, arith, Bool-cases, inl, inr,
}
use mathlib.Core.Path.{subst}
use panda_os.Base.Memory.{
  Memory, load8, store8, store32, load8-store8-Apart, load8-store32-Apart, load32-store32_self,
  load32-store32-Apart, load32-store8-Apart,
}
use panda_os.Strings.Holds.{Holds, Holds-same}
use panda_os.Image.{put_image_header, put_headers, first_offset}
use panda_os.Image.Fields.{
  IsStrcpy, IsName, IsImageHeader, IsImageHeader-same, Holds-of_bytes, total, total-le, AreFiles,
  AreHeaders,
}

module _ (strcpy : (dest : ℕ) → List ℕ → Memory → Memory) (file : List ℕ → Option (List ℕ))
    (argv : ℕ → List ℕ) (headers : ℕ) (copies : IsStrcpy strcpy) where
  strcpy-Holds :
      (dest : ℕ) (cs : List ℕ) (m : Memory) → IsName cs → Holds dest cs (strcpy dest cs m)
  strcpy-Holds dest cs m good =
      Holds-of_bytes dest cs (strcpy dest cs m) good.1
        (λ k lt.
          let inside : (leb dest (dest + k) && ltb (dest + k) (dest + length cs)) ≡ true =
            ground arith in
          let back : dest + k - dest ≡ k = omega arith in
          copies dest cs m (dest + k) ∙ rw inside (ap (λ t. get_or cs t 0 % 2 ^ 8) back))
        (ground (arith, copies dest cs m (dest + length cs)))

  put_image_header-outside :
      (i off q : ℕ) (bytes : List ℕ) (m : Memory)
      → IsName (argv (i * 2 + 2))
      → (q < headers + 76 * i) ⊎ (headers + 76 * i + 76 ≤ q)
      → load8 q (put_image_header strcpy file argv headers i off bytes m) ≡ load8 q m
  unfolding put_image_header
  put_image_header-outside i off q bytes m good out =
      let header = headers + 76 * i in
      let named = strcpy (header + 1) (argv (i * 2 + 2)) m in
      let m₁ = store32 (header + 68) off named in
      let m₂ = store32 (header + 72) (u32 (length bytes)) m₁ in
      load8-store8-Apart header q 0xbf m₂ (omega (arith, out))
      ∙ load8-store32-Apart (header + 72) q (u32 (length bytes)) m₁ (omega (arith, out))
      ∙ load8-store32-Apart (header + 68) q off named (omega (arith, out))
      ∙ copies (header + 1) (argv (i * 2 + 2)) m q
      ∙ ground (arith, out, good.0)

  put_image_header-IsImageHeader :
      (i off : ℕ) (bytes : List ℕ) (m : Memory)
      → IsName (argv (i * 2 + 2))
      → off < 2 ^ 32
      → length bytes < 2 ^ 32
      → IsImageHeader
          (headers + 76 * i)
          (argv (i * 2 + 2))
          off
          (length bytes)
          (put_image_header strcpy file argv headers i off bytes m)
  unfolding put_image_header
  put_image_header-IsImageHeader i off bytes m good small fits =
      let header = headers + 76 * i in
      let named = strcpy (header + 1) (argv (i * 2 + 2)) m in
      let m₁ = store32 (header + 68) off named in
      let len = u32 (length bytes) in
      let m₂ = store32 (header + 72) len m₁ in
      let whole : len ≡ length bytes = omega arith in
      record {
        name_held =
            Holds-same (header + 1) (argv (i * 2 + 2)) named (store8 header 0xbf m₂)
              (λ a ge le.
                load8-store8-Apart header a 0xbf m₂ (omega arith)
                ∙ load8-store32-Apart (header + 72) a len m₁ (omega (arith, good.0))
                ∙ load8-store32-Apart (header + 68) a off named (omega (arith, good.0)))
              (strcpy-Holds (header + 1) (argv (i * 2 + 2)) m good);
        offset_held =
            load32-store8-Apart header (header + 68) 0xbf m₂ (omega arith)
            ∙ load32-store32-Apart (header + 72) (header + 68) len m₁ (omega arith)
            ∙ load32-store32_self (header + 68) off named small;
        length_held =
            load32-store8-Apart header (header + 72) 0xbf m₂ (omega arith)
            ∙ load32-store32_self (header + 72) len m₁ (omega arith)
            ∙ whole;
      }

  put_headers-some :
      (left i off : ℕ) (bytes : List ℕ) (m : Memory)
      → file (argv (i * 2 + 1)) ≡ some bytes
      → put_headers strcpy file argv headers (suc left) i off m
        ≡ put_headers strcpy file argv headers left
            (i + 1)
            (add32 off (u32 (length bytes)))
            (put_image_header strcpy file argv headers i off bytes m)
  unfolding put_headers
  put_headers-some left i off bytes m there = rw (there, put_headers)

  -- The first loop gives each file its header, and the offset behind the files in front of it.
  pub put_headers-AreHeaders :
      (data_of : ℕ → List ℕ) (left i n : ℕ) (m : Memory)
      → i + left ≡ n
      → AreFiles file argv data_of i n
      → first_offset + total data_of n < 2 ^ 32
      → (m' : Memory) × (put_headers strcpy file argv headers left i
            (first_offset + total data_of i)
            m
          ≡ some (first_offset + total data_of n, m'))
        × AreHeaders argv headers data_of i n m'
        × ((q : ℕ) → q < headers + 76 * i → load8 q m' ≡ load8 q m)
  unfolding put_headers
  put_headers-AreHeaders data_of zero i n m sum files fits =
      let all : i ≡ n = omega arith in
      (
        m,
        ap (λ k. some (first_offset + total data_of k, m)) all,
        (λ j ge lt. absurd (omega arith)),
        λ q lt. refl,
      )
  put_headers-AreHeaders data_of (suc left) i n m sum files fits =
      let (there, good) = files i (omega arith) (omega arith) in
      let off = first_offset + total data_of i in
      let bound : total data_of (suc i) ≤ total data_of n =
        total-le data_of (suc i) n (omega arith) in
      let len = length (data_of i) in
      let m₁ = put_image_header strcpy file argv headers i off (data_of i) m in
      let (m', ran, held, below) =
        put_headers-AreHeaders data_of left (suc i) n m₁ (omega arith)
          (λ j ge lt. files j (omega arith) lt) fits in
      let next : (off + len % 2 ^ 32) % 2 ^ 32 ≡ first_offset + total data_of (suc i) =
        omega (arith, bound) in
      let one : i + 1 ≡ suc i = omega arith in
      let first =
        IsImageHeader-same m₁ m' good.0 (λ q ge lt. below q (omega arith))
          (put_image_header-IsImageHeader i off (data_of i) m good (omega (arith, bound))
            (omega (arith, bound))) in
      (
        m',
        put_headers-some left i off (data_of i) m there
            ∙ ap (λ o. put_headers strcpy file argv headers left (i + 1) o m₁) next
            ∙ ap
                (λ k.
                  put_headers strcpy file argv headers left k (first_offset + total data_of (suc i))
                    m₁)
                one
            ∙ ran,
        (λ j ge lt. elim (Bool-cases (j == i)) [
          | inl here ↦
              let e : i ≡ j = ground arith in
              subst
                (λ k.
                  IsImageHeader (headers + 76 * k) (argv (k * 2 + 2))
                    (first_offset + total data_of k) (length (data_of k)) m')
                e first
          | inr later ↦ held j (ground arith) lt
        ]),
        λ q lt.
            below q (omega arith)
            ∙ put_image_header-outside i off q (data_of i) m good (omega arith),
      )
