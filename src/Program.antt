-- ===== src/Program.antt =====
-- internal/program: the user programs of the autostart directories. What the operating system answers is
-- an argument of each operation; each locked section is one function and locks are not modelled.
pub mod Types
pub mod Resolve
pub mod Lifecycle
pub mod Manager
pub mod Config
pub mod Autostart
mod Tests
