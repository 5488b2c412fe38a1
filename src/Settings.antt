-- ===== src/Settings.antt =====
-- The host and domain name, and the settings of a process, in HW2/kernel/sys.c.
mod Host
mod Process
pub mod Named
pub mod Switched
mod Tests
unfoldable pub use Host.*
unfoldable pub use Process.*
