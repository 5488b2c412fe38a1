-- ===== src/Merging.antt =====
-- The allocator of HW4/malloc_3.cpp: free blocks are split when they are reused, and merged with free
-- neighbours.
mod Nodes
mod Calls
pub mod Whole
pub mod Joined
pub mod Freed
pub mod Taken
pub mod Grown
pub mod Supplied
pub mod Overrun
mod Tests
unfoldable pub use Nodes.*
unfoldable pub use Calls.*
