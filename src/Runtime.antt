-- ===== src/Runtime.antt =====
-- The process and its timers, game-server/platform/runtime.
pub mod Deadlines
pub mod Process
mod Tests
