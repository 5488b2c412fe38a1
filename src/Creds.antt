-- ===== src/Creds.antt =====
-- The identity of a process: the calls of HW2/kernel/sys.c that change its user and group numbers.
mod Ids
mod Group
mod User
mod Member
pub mod Unprivileged
pub mod Dropped
pub mod Membership
mod Tests
unfoldable pub use Ids.*
unfoldable pub use Group.*
unfoldable pub use User.*
unfoldable pub use Member.*
