-- ===== src/Heap.antt =====
-- memory/kheap.c: the kernel heap. Each block lies between a header (12 bytes: magic, is_hole, size)
-- and a footer (8 bytes: magic, header); an ordered array holds the holes by size. All of these are
-- read and written in the address space of Base.Memory.
pub mod Layout
pub mod Fields
pub mod Order
pub mod Pages
pub mod Alloc
pub mod Free
pub mod Placement
mod Tests
