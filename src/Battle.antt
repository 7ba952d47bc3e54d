-- ===== src/Battle.antt =====
-- The rules of a battle, game-server/modules/battle.
pub mod AttackResults
pub mod LootResults
pub mod Drops
pub mod Time
pub mod Motion
pub mod Combat
pub mod Result
pub mod Instance
mod Tests
