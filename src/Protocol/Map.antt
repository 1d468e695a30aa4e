-- ===== src/Protocol/Map.antt =====
-- common/protocol/protocol_map.hpp
pub mod Defs
pub mod Message
pub mod RoundTrip
