-- ===== src/Paging/Owned.antt =====
-- Giving a frame to a page and taking it back.
use panda_os.Base.{
  ℕ, ◌*◌, ◌/◌, ◌%◌, ◌^◌, ◌≤◌, ◌<◌, ◌≡◌, ◌≢◌, refl, ap, ◌∙◌, Bool, false, none, some, ◌==◌,
  if◌then◌else◌, arith, u32, ok, panic, ◌⊎◌, inl, inr, Bool-cases, Option-cases,
}
use panda_os.Paging.Frames.{Frames, Page, flag, set_frame, first_frame, alloc_frame, free_frame}
use panda_os.Paging.Bitmap.{used, set_frame-used, clear_frame-used}
use panda_os.Paging.Search.{Least, first_frame-Least}

-- The page and the bit set after `alloc_frame` has given the page frame k.
pub record Backed (is_kernel is_writeable : Bool) (k : ℕ) (page page' : Page) (s s' : Frames)
    : Type 0 where
  pub frame : page'.frame ≡ k
  pub present : page'.present ≡ 1
  pub rw_flag : page'.rw ≡ flag is_writeable
  pub user_flag : page'.user ≡ (if is_kernel then 0 else 1)
  pub kept :
      (page'.accessed ≡ page.accessed) × (page'.dirty ≡ page.dirty) × (page'.unused ≡ page.unused)
  pub count : s'.frame_count ≡ s.frame_count
  pub in_use : (f : ℕ) → used s' f ≡ (if f == k then 1 else used s f)
  pub was_free : used s k ≡ 0
  pub lowest : (f : ℕ) → f < k → used s f ≡ 1

-- A page without a frame gets the lowest free frame, with its flags; that frame is then in use, and no
-- other frame changes. (Memory has at most 2 ^ 20 frames; a page whose frame is not 0 is left alone.)
pub alloc_frame-Backed :
    (garbage k : ℕ) (is_kernel is_writeable : Bool) (page : Page) (s : Frames)
    → page.frame ≡ 0
    → s.frame_count ≤ 2 ^ 20
    → first_frame s ≡ some k
    → (page' : Page) × (s' : Frames) × (alloc_frame garbage is_kernel is_writeable page s
        ≡ ok (page', s'))
      × Backed is_kernel is_writeable k page page' s s'
unfolding alloc_frame set_frame
alloc_frame-Backed garbage k is_kernel is_writeable page s empty small found =
    let least : Least (used s) 0 (s.frame_count / 32 * 32) (some k) =
      rw found at (first_frame-Least s) in
    let bound : k < 2 ^ 20 = omega (arith, least.1) in
    let no_panic : (k == 0xffff_ffff) ≡ false = ground arith in
    let address : k * 0x1000 % 2 ^ 32 / 0x1000 ≡ k = omega arith in
    (
      record page {
        present = 1;
        rw = flag is_writeable;
        user = if is_kernel then 0 else 1;
        frame = k % 2 ^ 20;
      },
      set_frame (u32 (k * 0x1000)) s,
      rw (empty, found, no_panic),
      record {
        frame = omega arith;
        present = refl;
        rw_flag = refl;
        user_flag = refl;
        kept = (refl, refl, refl);
        count = refl;
        in_use = λ f.
            set_frame-used (k * 0x1000 % 2 ^ 32) f s
            ∙ ap (λ t. if f == t then 1 else used s f) address;
        was_free = least.2;
        lowest = λ f lt. least.3 f (omega arith) lt;
      },
    )

-- When a search without success is seen as 0xffffffff, `alloc_frame` panics, leaves a page that has a
-- frame alone, or gives a page the lowest free frame.
pub alloc_frame_cases :
    (garbage : ℕ) (is_kernel is_writeable : Bool) (page : Page) (s : Frames)
    → garbage ≡ 0xffff_ffff
    → s.frame_count ≤ 2 ^ 20
    → let r = alloc_frame garbage is_kernel is_writeable page s in
      (r ≡ panic)
      ⊎ (((page.frame ≢ 0) × (r ≡ ok (page, s)))
          ⊎ ((k : ℕ) × (page' : Page) × (s' : Frames) × (page.frame ≡ 0)
              × (r ≡ ok (page', s'))
              × Backed is_kernel is_writeable k page page' s s'))
unfolding alloc_frame
alloc_frame_cases garbage is_kernel is_writeable page s none_seen small =
    elim (Bool-cases (page.frame == 0)) [
      | inr has ↦ inr (inl (ground arith, rw has))
      | inl empty ↦
          let e : page.frame ≡ 0 = ground arith in
          elim (Option-cases (first_frame s)) [
            | inl full ↦ inl (rw (empty, full, none_seen))
            | inr (k, found) ↦
                let (page', s', ran, b) =
                  alloc_frame-Backed garbage k is_kernel is_writeable page s e small found in
                inr (inr (k, page', s', e, ran, b))
          ]
    ]

-- When every frame is in use the panic for that case is reached only if the caller happens to see
-- 0xffffffff; any other value is taken for a frame and given to the page.
pub alloc_frame_exhausted :
    (garbage : ℕ) (is_kernel is_writeable : Bool) (page : Page) (s : Frames)
    → page.frame ≡ 0
    → first_frame s ≡ none
    → garbage ≢ 0xffff_ffff
    → (page' : Page) × (s' : Frames) × (alloc_frame garbage is_kernel is_writeable page s
        ≡ ok (page', s'))
      × (page'.frame ≡ garbage % 2 ^ 20)
unfolding alloc_frame
alloc_frame_exhausted garbage is_kernel is_writeable page s empty full other =
    let no_panic : (garbage == 0xffff_ffff) ≡ false = ground arith in
    (
      record page {
        present = 1;
        rw = flag is_writeable;
        user = if is_kernel then 0 else 1;
        frame = garbage % 2 ^ 20;
      },
      set_frame (u32 (garbage * 0x1000)) s,
      rw (empty, full, no_panic),
      refl,
    )

-- `free_frame` takes the frame off the page, but leaves it in use: what it frees is the frame whose
-- number is a 4096th of the page's. All other frames are as before.
pub free_frame_leaks :
    (page : Page) (s : Frames)
    → page.frame ≢ 0
    → let (page', s') = free_frame page s in
      (page'.frame ≡ 0)
      × (used s' page.frame ≡ used s page.frame)
      × ((f : ℕ) → used s' f ≡ (if f == page.frame / 0x1000 then 0 else used s f))
unfolding free_frame
free_frame_leaks page s held =
    let has : (page.frame == 0) ≡ false = ground arith in
    let other : (page.frame == page.frame / 0x1000) ≡ false = ground arith in
    rw has (
      refl,
      clear_frame-used page.frame page.frame s ∙ ap (λ b. if b then 0 else used s page.frame) other,
      λ f. clear_frame-used page.frame f s,
    )
