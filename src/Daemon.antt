-- ===== src/Daemon.antt =====
-- internal/daemon: the supervisor of the daemons of daemons.ini. A daemon is a record, its manager a
-- map from names to daemons; what the operating system answers is an argument of each operation.
-- Each locked section is one function; the locks themselves are not modelled.
pub mod Types
pub mod Backoff
pub mod Lifecycle
pub mod Manager
pub mod Config
pub mod Reload
pub mod Watch
mod Tests
