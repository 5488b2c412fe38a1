-- ===== src/Sched.antt =====
-- The second exercise: the O(1) scheduler with the policy SCHED_SHORT. HW2/kernel/sched.c with the
-- fields and constants of HW2/include/linux/sched.h, for one processor (no CONFIG_SMP).
pub mod Task
pub mod Queue
pub mod Consistent
pub mod Invariant
pub mod Priority
pub mod Preserved
pub mod Ticked
pub mod Woken
pub mod Picked
pub mod Permitted
pub mod Placed
pub mod Reniced
pub mod Sample
mod Tests
pub mod Wake
pub mod Tick
mod Pick
mod Nice
pub mod Policies
mod Queries
mod Setprio
pub mod Yield
pub mod Inserted
pub mod Yielded
pub mod Waiting
pub mod Awake
unfoldable pub use Task.*
unfoldable pub use Queue.*
unfoldable pub use Wake.*
unfoldable pub use Tick.*
unfoldable pub use Pick.*
unfoldable pub use Nice.*
unfoldable pub use Policies.*
unfoldable pub use Queries.*
unfoldable pub use Setprio.*
unfoldable pub use Yield.*
unfoldable pub use Waiting.*
