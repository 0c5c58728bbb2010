-- ===== src/Paging/Tables/Tests.antt =====
-- A directory at 0x100 with one table, at 0x5000, whose page 3 has frame 3.
use panda_os.Base.{
  ◌<◌, ℕ, ◌+◌, ◌*◌, ◌/◌, ◌≤◌, ◌≡◌, ◌≢◌, ◌↔◌, refl, ap, sym, ◌∙◌, false, some, ◌==◌, ◌&&◌,
  if◌then◌else◌, ok, arith, Bool-cases, inl, inr,
}
use panda_os.Paging.Bitmap.{used}
use panda_os.Paging.Tables.{Paging, Machine, empty_page, get_page, clone_page, clone_directory}
use panda_os.Paging.Tables.Lookup.{get_page_same}
use panda_os.Paging.Tables.Ownership.{IsSound, Ensures}
use panda_os.Paging.Tables.Clone.{Cloned, clone_directory-Cloned}
use panda_os.Paging.Tables.Clone.Table.{Allocator, clone_page-open}

-- Tables at page boundaries from 0x100000 on, by a count of those handed out.
abbrev machine : Machine ℕ
machine = record {
  kmalloc_ap = λ sz s. ok (
    0x10_0000 + s.world * 0x3000,
    0x10_0000 + s.world * 0x3000,
    record s { world = s.world + 1 },
  );
  copy_page_physical = λ src dest w. w;
  garbage = 0xffff_ffff;
}

abbrev one_page : Paging ℕ
one_page = record {
  directories = λ d. record {
    tables = λ i. if d == 0x100 && i == 0 then 0x5000 else 0;
    tables_physical = λ i. 0;
    physical_address_of_tables_physical = 0;
  };
  pages = λ t i.
      if t == 0x5000 && i == 3 then record empty_page { frame = 3; present = 1 } else empty_page;
  frames = record { frames = λ i. if i == 0 then 8 else 0; frame_count = 4096 };
  world = 0;
}

-- That is the only page with a frame.
only :
    (t i : ℕ)
    → (one_page.pages t i).frame ≢ 0
    → (t ≡ 0x5000) × (i ≡ 3) × ((one_page.pages t i).frame ≡ 3)
only t i ne = elim (Bool-cases (t == 0x5000 && i == 3)) [
  | inl here ↦ (ground arith, ground arith, rw here refl)
  | inr off ↦ absurd (ne (rw off refl))
]

sound : IsSound one_page
sound = record {
  owned = record {
    in_use = λ t i ne. let (_, _, three) = only t i ne in ap (used one_page.frames) three;
    alone = λ t i u j ne e.
        let (ta, ib, _) = only t i ne in
        let (uc, jd, _) = only u j (λ z. ne (e ∙ z)) in (ta ∙ sym uc, ib ∙ sym jd);
  };
  count = omega arith;
}

get_page_same_example :
    (p : ℕ × ℕ) × (q : ℕ × ℕ) × (get_page machine 0x3004 false 0x100 one_page
      ≡ ok (some p, one_page))
    × (get_page machine 0x3fff false 0x100 one_page ≡ ok (some q, one_page))
    × ((p ≡ q) ↔ (0x3004 / 0x1000 ≡ 0x3fff / 0x1000))
get_page_same_example =
    get_page_same machine 0x100 one_page 0x3004 0x3fff false (omega arith) (omega arith) (λ _. refl)

clone_page-open_example :
    Ensures
      (λ s'. let p = s'.pages 0x6000 3 in (p.present ≡ 1) × (p.user ≡ 1) × (p.rw ≡ 0))
      (clone_page machine 0x5000 0x6000 3 one_page)
clone_page-open_example =
    clone_page-open machine 0x5000 0x6000 3 one_page refl sound (omega arith) refl

-- From the second call on it supplies tables from 0x103000 on, which leave the directories below alone.
allocator : Allocator machine (λ t. 0x10_3000 ≤ t) (λ d. d ≤ 0x10_0000) (λ w. 0 < w)
allocator = record {
  supplies = λ s v later. record {
    address = omega arith;
    sound = record { owned = v.owned; count = v.count };
    kept = λ d is_kept. refl;
    later = omega arith;
  };
  copies = λ src dest w later. later;
  apart = λ table d fresh is_kept. inr (omega arith);
}

-- With an empty directory of the kernel at 0x200.
clone_directory-Cloned_example :
    Ensures
      (λ r.
        (r.0 ≤ 0x10_0000)
        × Cloned (λ t. 0x10_3000 ≤ t) (λ d. d ≤ 0x10_0000) 0x200 0x100 one_page r.0 r.1)
      (clone_directory machine 0x200 0x100 one_page)
clone_directory-Cloned_example =
    clone_directory-Cloned machine (λ t. 0x10_3000 ≤ t) (λ d. d ≤ 0x10_0000) (λ w. 0 < w) allocator
      0x200 0x100 one_page refl (omega arith) (omega arith)
      (record {
        address = (omega arith, omega arith, omega arith);
        sound = record { owned = sound.owned; count = sound.count };
        kept = λ d is_kept. refl;
        later = omega arith;
      })
