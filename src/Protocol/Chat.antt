-- ===== src/Protocol/Chat.antt =====
-- common/protocol/protocol_chat.hpp
pub mod Defs
pub mod Message
pub mod RoundTrip
