-- ===== src/Protocol/Player.antt =====
-- common/protocol/protocol_player.hpp
pub mod Defs
pub mod Message
pub mod RoundTrip
