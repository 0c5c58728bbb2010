-- ===== src/Paging/Tables/Ownership.antt =====
-- No frame is given to two pages.
use panda_os.Base.{
  ℕ, ◌^◌, ◌≤◌, ◌≡◌, ◌≢◌, refl, ap, sym, ◌∙◌, Bool, false, ◌&&◌, ◌==◌, if◌then◌else◌, Outcome, ok,
  panic, out_of_fuel, ◌>>=◌, arith, Bool-cases, inl, inr, ◌⊎◌,
}
use panda_os.Paging.Frames.{Frames, Page}
use panda_os.Paging.Bitmap.{used}
use panda_os.Paging.Owned.{alloc_frame_cases}
use panda_os.Paging.Tables.{Paging, Machine, put_page, alloc_page}

-- Each page that has a frame other than 0 has it for itself, and that frame is in use.
pub record Owned (pages : ℕ → ℕ → Page) (f : Frames) : Type 0 where
  pub in_use : (t i : ℕ) → (pages t i).frame ≢ 0 → used f (pages t i).frame ≡ 1
  pub alone :
      (t i u j : ℕ)
      → (pages t i).frame ≢ 0
      → (pages t i).frame ≡ (pages u j).frame
      → (t ≡ u) × (i ≡ j)

-- Taking frames off pages keeps that.
pub Owned-fewer :
    (pages pages' : ℕ → ℕ → Page) (f : Frames)
    → ((t i : ℕ) → (pages' t i).frame ≢ 0 → (pages' t i).frame ≡ (pages t i).frame)
    → Owned pages f
    → Owned pages' f
Owned-fewer pages pages' f same o = record {
  in_use = λ t i ne. ap (used f) (same t i ne) ∙ o.in_use t i (λ e. ne (same t i ne ∙ e));
  alone = λ t i u j ne e.
      let ne' : (pages' u j).frame ≢ 0 = λ z. ne (e ∙ z) in
      o.alone t i u j (λ z. ne (same t i ne ∙ z)) (sym (same t i ne) ∙ e ∙ same u j ne');
}

put_page_cases :
    (t i : ℕ) (p : Page) (pages : ℕ → ℕ → Page) (u j : ℕ)
    → ((u ≡ t) × (i ≡ j) × (put_page t i p pages u j ≡ p)) ⊎ (put_page t i p pages u j ≡ pages u j)
unfolding put_page
put_page_cases t i p pages u j = elim (Bool-cases (u == t && j == i)) [
  | inl here ↦ inl (ground arith, ground arith, rw here)
  | inr other ↦ inr (rw other)
]

-- So does giving a free frame to a page that has none.
pub Owned-put_page :
    (t i k : ℕ) (p : Page) (pages : ℕ → ℕ → Page) (f f' : Frames)
    → (pages t i).frame ≡ 0
    → p.frame ≡ k
    → used f k ≡ 0
    → ((g : ℕ) → used f' g ≡ (if g == k then 1 else used f g))
    → Owned pages f
    → Owned (put_page t i p pages) f'
Owned-put_page t i k p pages f f' empty got free marks o = record {
  in_use = λ u j ne. elim (put_page_cases t i p pages u j) [
    | inl (_, _, e) ↦
        let at : (put_page t i p pages u j).frame ≡ k = ap (λ (q : Page). q.frame) e ∙ got in
        ap (used f') at ∙ marks k ∙ ground arith
    | inr e ↦
        let old = ap (λ (q : Page). q.frame) e in
        let held = o.in_use u j (λ z. ne (old ∙ z)) in
        ap (used f') old ∙ marks (pages u j).frame ∙ ground (arith, held)
  ];
  alone = λ u j v l ne e.
      let taken = λ (w m : ℕ) (there : (pages w m).frame ≡ k) (some_frame : k ≢ 0).
        ap (used f) (sym there) ∙ o.in_use w m (λ z. some_frame (sym there ∙ z)) in
      elim (put_page_cases t i p pages u j) [
        | inl (ut, ji, a) ↦ elim (put_page_cases t i p pages v l) [
          | inl (vt, li, b) ↦ (ut ∙ sym vt, sym ji ∙ li)
          | inr b ↦
              let mine = ap (λ (q : Page). q.frame) a ∙ got in
              let there = sym (ap (λ (q : Page). q.frame) b) ∙ sym e ∙ mine in
              absurd (omega (arith, free, taken v l there (λ z. ne (mine ∙ z))))
        ]
        | inr a ↦ elim (put_page_cases t i p pages v l) [
          | inl (vt, li, b) ↦
              let mine = ap (λ (q : Page). q.frame) b ∙ got in
              let there = sym (ap (λ (q : Page). q.frame) a) ∙ e ∙ mine in
              absurd (omega (arith, free, taken u j there (λ z. ne (e ∙ mine ∙ z))))
          | inr b ↦
              let a' = ap (λ (q : Page). q.frame) a in
              o.alone u j v l (λ z. ne (a' ∙ z)) (sym a' ∙ e ∙ ap (λ (q : Page). q.frame) b)
        ]
      ];
}

-- What holds of the result of a call, which may panic but comes to an end.
abbrev pub Ensures {ℓ} : {A : Type ℓ} (P : A → Type 0) → Outcome A → Type 0
Ensures P (ok a) = P a
Ensures P panic = Unit
Ensures P out_of_fuel = ⊥

pub Ensures-mono {ℓ} :
    {A : Type ℓ} (P Q : A → Type 0) (m : Outcome A)
    → ((a : A) → P a → Q a)
    → Ensures P m
    → Ensures Q m
Ensures-mono P Q (ok a) k h = k a h
Ensures-mono P Q panic k h = tt
Ensures-mono P Q out_of_fuel k h = h

pub Ensures-bind {ℓ κ} :
    {A : Type ℓ} {B : Type κ} (P : A → Type 0) (Q : B → Type 0) (m : Outcome A) (g : A → Outcome B)
    → Ensures P m
    → ((a : A) → P a → Ensures Q (g a))
    → Ensures Q (m >>= g)
Ensures-bind P Q (ok a) g h k = k a h
Ensures-bind P Q panic g h k = tt
Ensures-bind P Q out_of_fuel g h k = h

-- A bit set of at most 2 ^ 20 frames, and pages that have their frames for themselves.
pub record IsSound {World : Type 0} (s : Paging World) : Type 0 where
  pub owned : Owned s.pages s.frames
  pub count : s.frames.frame_count ≤ 2 ^ 20

-- A change of one table that keeps soundness.
pub record Allocated {World : Type 0} (t : ℕ) (s s' : Paging World) : Type 0 where
  pub sound : IsSound s'
  pub elsewhere : (u j : ℕ) → u ≢ t → s'.pages u j ≡ s.pages u j
  pub directories : s'.directories ≡ s.directories
  pub world_same : s'.world ≡ s.world

put_page_self :
    (t i u j : ℕ) (pages : ℕ → ℕ → Page) → put_page t i (pages t i) pages u j ≡ pages u j
unfolding put_page
put_page_self t i u j pages = elim (Bool-cases (u == t && j == i)) [
  | inl here ↦
      let a : u ≡ t = ground arith in
      let b : j ≡ i = ground arith in rw here (ap (λ x. pages x i) (sym a) ∙ ap (pages u) (sym b))
  | inr other ↦ rw other
]

-- A page that keeps its frame changes no frame.
pub put_page-frame :
    (t i : ℕ) (p : Page) (pages : ℕ → ℕ → Page)
    → p.frame ≡ (pages t i).frame
    → (u j : ℕ) → (put_page t i p pages u j).frame ≡ (pages u j).frame
put_page-frame t i p pages same u j = elim (put_page_cases t i p pages u j) [
  | inl (a, b, e) ↦
      ap (λ (q : Page). q.frame) e
      ∙ same
      ∙ ap (λ x. (pages x i).frame) (sym a)
      ∙ ap (λ x. (pages u x).frame) b
  | inr e ↦ ap (λ (q : Page). q.frame) e
]

pub put_page-elsewhere :
    (t i : ℕ) (p : Page) (pages : ℕ → ℕ → Page) (u j : ℕ)
    → u ≢ t
    → put_page t i p pages u j ≡ pages u j
unfolding put_page
put_page-elsewhere t i p pages u j ne = let off : (u == t) ≡ false = ground arith in rw off

module _ {World : Type 0} (machine : Machine World)
    (returns_none : machine.garbage ≡ 0xffff_ffff) where
  -- `alloc_frame` on a page of a table keeps that, or panics; no other table changes.
  pub alloc_page-Allocated :
      (is_kernel is_writeable : Bool) (t i : ℕ) (s : Paging World)
      → IsSound s
      → Ensures (Allocated t s) (alloc_page machine is_kernel is_writeable t i s)
  unfolding alloc_page
  alloc_page-Allocated is_kernel is_writeable t i s v =
      elim (alloc_frame_cases machine.garbage is_kernel is_writeable (s.pages t i) s.frames
        returns_none v.count) [
          | inl stop ↦ rw stop tt
          | inr (inl (has, ran)) ↦ rw ran (record {
            sound = record {
              owned =
                  Owned-fewer s.pages (put_page t i (s.pages t i) s.pages) s.frames
                    (λ u j _. ap (λ (q : Page). q.frame) (put_page_self t i u j s.pages)) v.owned;
              count = v.count;
            };
            elsewhere = λ u j ne. put_page_self t i u j s.pages;
            directories = refl;
            world_same = refl;
          })
          | inr (inr (k, p, f, empty, ran, b)) ↦ rw ran (record {
            sound = record {
              owned =
                  Owned-put_page t i k p s.pages s.frames f empty b.frame b.was_free b.in_use
                    v.owned;
              count = rw (b.count) (v.count);
            };
            elsewhere = λ u j ne. put_page-elsewhere t i p s.pages u j ne;
            directories = refl;
            world_same = refl;
          })
        ]
