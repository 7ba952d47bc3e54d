-- ===== src/GameFlow.antt =====
-- Rooms at work, game-server/modules/game-flow.
pub mod Routes
mod Tests
