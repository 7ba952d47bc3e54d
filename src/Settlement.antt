-- ===== src/Settlement.antt =====
-- The settlement of finished battles, game-server/modules/settlement.
pub mod Capacity
mod Tests
