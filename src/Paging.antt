-- ===== src/Paging.antt =====
-- memory/paging.c: the physical frames and the pages that they back.
pub mod Frames
pub mod Bitmap
pub mod Search
pub mod Owned
pub mod Tables
pub mod Start
mod Tests
