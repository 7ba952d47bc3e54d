-- ===== src/Rudp.antt =====
-- The reliable datagram transport, game-server/platform/transport-rudp.
pub mod Sequence
pub mod Peer
pub mod Rtt
pub mod Queue
pub mod Bindings
pub mod Header
mod Tests
