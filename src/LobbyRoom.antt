-- ===== src/LobbyRoom.antt =====
-- Rooms of the lobby, game-server/modules/lobby-room.
pub mod Text
pub mod Room
mod Tests
