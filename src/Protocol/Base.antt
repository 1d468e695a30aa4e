-- ===== src/Protocol/Base.antt =====
-- common/protocol/protocol_base.hpp
pub mod Defs
pub mod Message
pub mod RoundTrip
