-- ===== src/Alloc.antt =====
-- The allocator of HW4/malloc_2.cpp: a list of blocks, searched for the first that fits.
mod Memory
mod FirstFit
pub mod Blocks
pub mod Headers
pub mod Laid
pub mod Moved
mod Tests
unfoldable pub use Memory.*
unfoldable pub use FirstFit.*
