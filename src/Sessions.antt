-- ===== src/Sessions.antt =====
-- Process groups, sessions and resource limits: `sys_setpgid`, `sys_getpgid`, `sys_getpgrp`,
-- `sys_getsid`, `sys_setsid` and the limits' calls of HW2/kernel/sys.c.
mod Groups
mod Limits
pub mod Led
mod Tests
unfoldable pub use Groups.*
unfoldable pub use Limits.*
