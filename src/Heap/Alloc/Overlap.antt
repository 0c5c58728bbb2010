-- ===== src/Heap/Alloc/Overlap.antt =====
-- `grow` where the last hole does not end with the heap (memory/kheap.c).
