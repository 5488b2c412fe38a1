-- ===== src/Queue.antt =====
-- The queue between the game and its threads, HW3/PCQueue.hpp.
pub mod Monitor
pub mod Threads
pub mod Popped
pub mod Reached
pub mod Kept
mod Tests
