-- ===== src/SessionWm.antt =====
-- internal/sessionwm: the supervisor of the session's compositor or window manager. What the operating
-- system answers is an argument of each operation; each locked section is one function.
pub mod Config
pub mod Lifecycle
mod Tests
