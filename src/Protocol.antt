-- ===== src/Protocol.antt =====
-- common/protocol: the payloads of the frames, a module for each header of the directory.
pub mod Base
pub mod Chat
pub mod Player
pub mod Combat
pub mod Map
pub mod Guild
pub mod GuildInfo
pub mod Requests
pub mod Lists
pub mod Messages
