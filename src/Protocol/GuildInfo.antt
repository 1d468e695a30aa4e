-- ===== src/Protocol/GuildInfo.antt =====
-- guild_info_res and guild_member_info of common/protocol/protocol_guild.hpp.
pub mod Defs
