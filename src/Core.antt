-- ===== src/Core.antt =====
-- src/core: the concurrency primitives and the session clock.
pub mod Spsc
pub mod Session
pub mod SessionClock
