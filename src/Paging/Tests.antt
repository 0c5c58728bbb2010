-- ===== src/Paging/Tests.antt =====
-- The frame functions where frames 0 to 32 are in use.
use panda_os.Base.{ℕ, ◌≡◌, refl, true, false, none, some, arith, ok, ◌==◌, if◌then◌else◌}
use panda_os.Paging.Frames.{
  Frames, Page, first_frame, first_word, first_bit, alloc_frame, free_frame,
}
use panda_os.Paging.Bitmap.{used}
use panda_os.Paging.Owned.{Backed, alloc_frame-Backed, free_frame_leaks}

abbrev low_used : Frames
low_used = record {
  frames = λ i. if i == 0 then 0xffff_ffff else (if i == 1 then 1 else 0);
  frame_count = 4096;
}

abbrev all_used : Frames
all_used = record { frames = λ i. 0xffff_ffff; frame_count = 64 }

abbrev empty_page : Page
empty_page = record {
  present = 0;
  rw = 0;
  user = 0;
  accessed = 0;
  dirty = 0;
  unused = 0;
  frame = 0;
}

first_free : first_frame low_used ≡ some 33
unfolding first_frame first_word first_bit
first_free = refl

none_free : first_frame all_used ≡ none
unfolding first_frame first_word first_bit
none_free = refl

alloc_frame-Backed_example :
    (page' : Page) × (s' : Frames) × (alloc_frame 0 false true empty_page low_used ≡ ok (page', s'))
    × Backed false true 33 empty_page page' low_used s'
alloc_frame-Backed_example =
    alloc_frame-Backed 0 33 false true empty_page low_used refl (omega arith) first_free

free_frame_leaks_example :
    let page = record empty_page { frame = 5 } in
    let (page', s') = free_frame page low_used in
    (page'.frame ≡ 0)
    × (used s' 5 ≡ 1)
    × ((f : ℕ) → used s' f ≡ (if f == 0 then 0 else used low_used f))
free_frame_leaks_example = free_frame_leaks (record empty_page { frame = 5 }) low_used (omega arith)
