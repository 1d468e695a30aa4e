-- ===== src/Protocol/Guild.antt =====
-- common/protocol/protocol_guild.hpp
pub mod Defs
pub mod Message
pub mod RoundTrip
