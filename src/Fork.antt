-- ===== src/Fork.antt =====
-- Making a process, in HW2/kernel/fork.c (HW1/kernel/fork.c has the same code but for the lines on short
-- tasks and on the restrictions): `get_pid`, and `do_fork`.
mod Pids
mod Making
pub mod Passed
pub mod Unused
pub mod Shared
pub mod Forked
mod Tests
unfoldable pub use Pids.*
unfoldable pub use Making.*
