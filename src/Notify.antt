-- ===== src/Notify.antt =====
-- Notifier chains of HW2/kernel/sys.c: `notifier_chain_register`, `notifier_chain_unregister` and
-- `notifier_call_chain`.
mod Chain
pub mod Ordered
mod Tests
unfoldable pub use Chain.*
