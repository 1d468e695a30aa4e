-- ===== src/Protocol/Guild/Message.antt =====
-- One message of common/protocol/protocol_guild.hpp: its struct, its serialize() and the parse() that its kind
-- selects.
use ecs_asio_server.Common.{ℕ, List}
use ecs_asio_server.Wire.{Parser, map_parser, IsU32, IsText}
use ecs_asio_server.Protocol.Guild.Defs.{
  GuildCreateReq, serialize_guild_create_req, parse_guild_create_req, GuildCreateRes,
  serialize_guild_create_res, parse_guild_create_res, GuildJoinReq, serialize_guild_join_req,
  parse_guild_join_req, GuildJoinRes, serialize_guild_join_res, parse_guild_join_res, GuildLeaveReq,
  serialize_guild_leave_req, parse_guild_leave_req, GuildLeaveRes, serialize_guild_leave_res,
  parse_guild_leave_res, GuildInfoReq, serialize_guild_info_req, parse_guild_info_req,
  GuildMemberListReq, serialize_guild_member_list_req, parse_guild_member_list_req,
}

pub data GuildKind : Type 0 where
  guild_create_req guild_create_res guild_join_req guild_join_res guild_leave_req guild_leave_res
        guild_info_req guild_member_list_req :
      GuildKind

pub data GuildMessage : Type 0 where
  guild_create_req : GuildCreateReq → GuildMessage
  guild_create_res : GuildCreateRes → GuildMessage
  guild_join_req : GuildJoinReq → GuildMessage
  guild_join_res : GuildJoinRes → GuildMessage
  guild_leave_req : GuildLeaveReq → GuildMessage
  guild_leave_res : GuildLeaveRes → GuildMessage
  guild_info_req : GuildInfoReq → GuildMessage
  guild_member_list_req : GuildMemberListReq → GuildMessage

unfoldable pub kind : GuildMessage → GuildKind
kind (GuildMessage.guild_create_req m) = GuildKind.guild_create_req
kind (GuildMessage.guild_create_res m) = GuildKind.guild_create_res
kind (GuildMessage.guild_join_req m) = GuildKind.guild_join_req
kind (GuildMessage.guild_join_res m) = GuildKind.guild_join_res
kind (GuildMessage.guild_leave_req m) = GuildKind.guild_leave_req
kind (GuildMessage.guild_leave_res m) = GuildKind.guild_leave_res
kind (GuildMessage.guild_info_req m) = GuildKind.guild_info_req
kind (GuildMessage.guild_member_list_req m) = GuildKind.guild_member_list_req

unfoldable pub serialize : GuildMessage → List ℕ
serialize (GuildMessage.guild_create_req m) = serialize_guild_create_req m
serialize (GuildMessage.guild_create_res m) = serialize_guild_create_res m
serialize (GuildMessage.guild_join_req m) = serialize_guild_join_req m
serialize (GuildMessage.guild_join_res m) = serialize_guild_join_res m
serialize (GuildMessage.guild_leave_req m) = serialize_guild_leave_req m
serialize (GuildMessage.guild_leave_res m) = serialize_guild_leave_res m
serialize (GuildMessage.guild_info_req m) = serialize_guild_info_req m
serialize (GuildMessage.guild_member_list_req m) = serialize_guild_member_list_req m

unfoldable pub parse : GuildKind → Parser GuildMessage
parse GuildKind.guild_create_req = map_parser GuildMessage.guild_create_req parse_guild_create_req
parse GuildKind.guild_create_res = map_parser GuildMessage.guild_create_res parse_guild_create_res
parse GuildKind.guild_join_req = map_parser GuildMessage.guild_join_req parse_guild_join_req
parse GuildKind.guild_join_res = map_parser GuildMessage.guild_join_res parse_guild_join_res
parse GuildKind.guild_leave_req = map_parser GuildMessage.guild_leave_req parse_guild_leave_req
parse GuildKind.guild_leave_res = map_parser GuildMessage.guild_leave_res parse_guild_leave_res
parse GuildKind.guild_info_req = map_parser GuildMessage.guild_info_req parse_guild_info_req
parse GuildKind.guild_member_list_req =
    map_parser GuildMessage.guild_member_list_req parse_guild_member_list_req

-- The values that the fields of the struct can hold: 32 bits in a number, a length of 32 bits in a text.
abbrev pub Fits : GuildMessage → Type 0
Fits (GuildMessage.guild_create_req m) =
    IsText m.guild_name × IsText m.guild_description × IsU32 m.max_members
Fits (GuildMessage.guild_create_res m) = IsText m.message × IsU32 m.guild_id
Fits (GuildMessage.guild_join_req m) = IsU32 m.guild_id × IsText m.application_message
Fits (GuildMessage.guild_join_res m) = IsText m.message × IsU32 m.application_id
Fits (GuildMessage.guild_leave_req m) = IsU32 m.guild_id × IsText m.reason
Fits (GuildMessage.guild_leave_res m) = IsText m.message
Fits (GuildMessage.guild_info_req m) = IsU32 m.guild_id
Fits (GuildMessage.guild_member_list_req m) = IsU32 m.guild_id × IsU32 m.page × IsU32 m.page_size
