-- ===== src/Restrict.antt =====
-- The first exercise: a process carries a list of restricted system calls, and a log of the calls
-- that were refused. HW1/kernel/restrict.c, HW1/arch/i386/kernel/hw1_syscalls.c and the fields that
-- HW1/include/linux/sched.h adds to `task_struct`.
mod Task
mod Check
mod Calls
pub mod Ring
pub mod Checked
pub mod Reported
pub mod Recent
pub mod Installed
mod Tests
unfoldable pub use Task.*
unfoldable pub use Check.*
unfoldable pub use Calls.*
