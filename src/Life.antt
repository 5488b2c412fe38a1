-- ===== src/Life.antt =====
-- The game of life with threads: HW3/Life_Thread.cpp, HW3/Game.cpp and HW3/Job.cpp.
mod Cells
mod Plan
mod Crew
pub mod Manned
pub mod Filled
pub mod Split
pub mod Finished
pub mod Ended
pub mod Evolved
pub mod Band
mod Tests
pub mod Neighbours
unfoldable pub use Cells.*
unfoldable pub use Plan.*
unfoldable pub use Crew.*
