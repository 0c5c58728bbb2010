-- ===== src/Paging/Start/Tests.antt =====
-- An empty directory at 0x200000, with the placement address behind it.
use panda_os.Base.{[], ℕ, ◌+◌, ◌*◌, ◌≤◌, ◌≡◌, refl, ok, arith}
use panda_os.Heap.Placement.{Early}
use panda_os.Paging.Tables.{Paging, empty_page}
use panda_os.Base.Bits.{bit}
use panda_os.Interrupts
use panda_os.Heap.Alloc.Create.{IsFirst}
use panda_os.Paging.Start.{Started, initialise_paging}
use panda_os.Paging.Start.Kheap.{IsStarted}
use panda_os.Paging.Start.Complete.{initialise_paging-IsStarted}

abbrev nothing_mapped : Paging Early
nothing_mapped = record {
  directories = λ d. record {
    tables = λ i. 0;
    tables_physical = λ i. 0;
    physical_address_of_tables_physical = 0x20_1000;
  };
  pages = λ t i. empty_page;
  frames = record { frames = λ i. 0; frame_count = 0x1000 };
  world = record { placement_address = 0x20_3000 };
}

abbrev idle : Interrupts.Machine ℕ
idle = record {
  interrupt_handlers = λ i. 0;
  monitor = record {
    video = λ i. i;
    cursor_x = 0;
    cursor_y = 0;
    background_color = 0;
    foreground_color = 15;
    ports = [];
  };
  world = 0;
}

initialise_paging-IsStarted_example :
    (n : ℕ) × (t : Started ℕ) × (initialise_paging 4097 0
        (λ i. 0)
        0x10_2000
        0x11
        idle
        (λ a. 0)
        nothing_mapped
      ≡ ok t)
    × (0x20_3200 ≤ t.current_directory)
    × IsStarted t.current_directory n 256 t.kheap.world
    × (t.kheap.world.world.placement_address + 0xfe0 ≤ n * 0x1000)
    × (t.interrupts.interrupt_handlers 14 ≡ 0x10_2000)
    × (t.cr3 ≡ (t.kheap.world.directories t.current_directory).physical_address_of_tables_physical)
    × (bit t.cr0 31 ≡ 1)
    × IsFirst t.kheap
initialise_paging-IsStarted_example =
    initialise_paging-IsStarted 0 (λ i. 0) 0x10_2000 0x11 idle (λ a. 0) nothing_mapped (λ i. refl)
      (omega arith) (omega arith)
