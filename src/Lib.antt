-- ===== src/Lib.antt =====
-- Panda OS, a small 32-bit x86 kernel in C, and what is verified of it.
--
-- The kernel writes text to an 80 x 25 screen, reads the keyboard on interrupts, hands out physical
-- frames to pages and gives out memory from a heap, which keeps its holes in an array that is ordered
-- by size. Paths are those of the repository. The parts and their files:
--
-- * Mem (src/utils/mem.c): `memcpy`, `memset`, `memmove` and `memcmp`. Memory is a function from
--   addresses to bytes (Base/Memory); words are little-endian, at any address.
-- * OrderedArray (src/utils/ordered_array.c): the array of pointers, with its entries in memory. The
--   heap keeps its index in one, with a predicate that reads the sizes in the headers of the holes.
-- * Heap (src/memory/kheap.c). Heap/Layout has the headers and footers at their offsets, Heap/Pages
--   `expand` and `contract`, Heap/Alloc `create_heap`, `find_smallest_hole` and `alloc`, Heap/Free
--   `free` by its joins and its end, Heap/Placement `kmalloc_int` before and after the heap exists, and
--   Heap/Order is about the order of the index. `alloc` and `free` are cut into one definition for each
--   of their stages, composed in the order of the source. The pages behind the heap come from an
--   argument, `Pager`, which stands for `get_page` with `alloc_frame` and `free_frame`; backing a page may
--   change the heap too, since `get_page` can ask it for a table.
-- * Paging (src/memory/paging.c): the bit set of frames, and `alloc_frame` and `free_frame`
--   (Paging/Frames); page directories and tables, `get_page` and `clone_directory` (Paging/Tables); and
--   `initialise_paging`, `switch_page_directory` and `page_fault` (Paging/Start). Directories and tables
--   are stores by address, and a table has its pages by index. Their memory comes from an argument, a
--   call of which may change the whole state of paging; Paging/Start fills it with the placement allocator.
--   `clone_table` clears 8196 bytes of a table that has 4096, which the model does to the tables and the
--   directories that lie there.
-- * Tasks (src/process/task.c): the queue as a store of `task_t` by address, `switch_task` as a step
--   whose result tells where the processor jumps, `fork` in its two halves around `read_eip`,
--   with `clone_directory` and `kmalloc` called where the source calls them, and
--   `move_stack` (Tasks/Stack) on the memory.
-- * Interrupts (src/interrupts/isr.c): the table of handlers by address, `isr_handler` and `irq_handler`,
--   with the call of a function at an address as an argument.
-- * Timer (src/drivers/timer/timer.c): the tick, and the set-up of the timer chip.
-- * Strings (src/utils/string.c): `strlen`, `strcmp` and `strcpy` on the memory.
-- * Monitor (src/screen/monitor.c): the frame buffer as a function from cells to 16-bit values, the
--   cursor and the colours, and the bytes sent to ports as a log.
-- * Keyboard (src/drivers/keyboard): the modifier flags, the key tables, and the interrupt handler,
--   which writes to the monitor; Keyboard/Driver registers it with Interrupts.
-- * DescriptorTables (src/descriptor_tables/descriptor_tables.c): the tables of segments and interrupt
--   gates as functions from the entry number, and the bytes that set up the interrupt controllers.
-- * Files (src/filesystem/fs.c) and Initrd (src/filesystem/initrd.c): nodes as structures in memory, and
--   the operations that go through their function pointers; reading a file of the initial ram disk,
--   listing and finding files (Initrd/Directory), and making the nodes (Initrd/Start). The call of a
--   function at an address is an argument.
-- * Image (create_initrd.c): the host program that writes the image of the ram disk, as the bytes of that
--   image for its arguments. `strcpy` and the files are arguments. Image/Read follows a file from there
--   through the start of the ram disk to `read_fs`.
-- * Kernel (src/kernel.c): finding the ram disk, and printing its files.
-- * Panic (src/utils/panic.c): what is printed when the kernel stops.
--
-- Integers are natural numbers with the wrap-around of their width written out. A function that
-- can stop the machine (ASSERT, PANIC) returns an `Outcome`, with `panic` for the stop. Loops
-- recur on the rounds that are left, which the source bounds by a size or a length. Where it does
-- not, a fuel stands in: the loops of `expand` and `contract`, which move by a page, have a round
-- for each page of the size and two more; `alloc` has its calls of itself, each of which has grown
-- the heap, and one of them is enough where the last hole ends with the heap; and a decimal number has ten digits, as many as a number below 2 ^ 31 can need. The
-- loops over a string have a round for each of its bytes and one more, the loop over the files of
-- the image one for each file and one more, the search for the last task one for each task, those
-- of `move_stack` one for each page or word of the stack and two more, and the identity mapping
-- one for each of the 4096 frames and one more.
--
-- Not modelled: `strcat`, whose loop has undefined behaviour; the order of the calls in `kernel_main`, and
-- the tests of src/kernel.c that nothing calls; what create_initrd.c prints; and assembly, whose effect on registers is an argument or a result of the
-- functions around it. `char` is signed, as it is for this target. Pointers do not wrap inside the area
-- that a routine of Mem works on.
pub mod Base
pub mod DescriptorTables
pub mod Files
pub mod Heap
pub mod Image
pub mod Initrd
pub mod Interrupts
pub mod Kernel
pub mod Keyboard
pub mod Mem
pub mod Monitor
pub mod OrderedArray
pub mod Paging
pub mod Panic
pub mod Strings
pub mod Tasks
pub mod Timer
