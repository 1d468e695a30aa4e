-- ===== src/Game.antt =====
-- server/game: the game server behind the network.
pub mod World
pub mod Net
pub mod Guilds
pub mod Threads
pub mod Combat
pub mod Players
pub mod Server
pub mod Maps
pub mod Floats
pub mod Ai
pub mod Persistence
pub mod Movement
