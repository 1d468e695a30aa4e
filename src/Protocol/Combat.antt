-- ===== src/Protocol/Combat.antt =====
-- common/protocol/protocol_combat.hpp
pub mod Defs
pub mod Message
pub mod RoundTrip
