-- ===== src/Protocol/Requests.antt =====
-- The requests of the protocol: what clients send and the server parses. The server handles
-- login_req, player_move_req, attack_req, map_enter_req, guild_create_req and guild_join_req; the
-- other request structs of common/protocol are here too.
use ecs_asio_server.Common.{List, ℕ, ◌≢◌, arith}
use ecs_asio_server.Wire.{Parser, fault, Stays, checked_reads}
use ecs_asio_server.Protocol.Base.Defs.{EchoReq, parse_echo_req, LoginReq, parse_login_req}
use ecs_asio_server.Protocol.Chat.Defs.{
  ChatReq, parse_chat_req, ChatFilterReq, parse_chat_filter_req,
}
use ecs_asio_server.Protocol.Player.Defs.{
  PlayerMoveReq, parse_player_move_req, PlayerInfoReq, parse_player_info_req,
}
use ecs_asio_server.Protocol.Combat.Defs.{
  AttackReq, parse_attack_req, SkillUseReq, parse_skill_use_req,
}
use ecs_asio_server.Protocol.Map.Defs.{
  MapEnterReq, parse_map_enter_req, MapLeaveReq, parse_map_leave_req, MapInfoReq,
  parse_map_info_req,
}
use ecs_asio_server.Protocol.Guild.Defs.{
  GuildCreateReq, parse_guild_create_req, GuildJoinReq, parse_guild_join_req, GuildLeaveReq,
  parse_guild_leave_req, GuildInfoReq, parse_guild_info_req, GuildMemberListReq,
  parse_guild_member_list_req,
}

pub data RequestKind : Type 0 where
  echo login chat chat_filter player_move player_info attack skill_use map_enter map_leave map_info
        guild_create guild_join guild_leave guild_info guild_member_list :
      RequestKind

abbrev pub Request : RequestKind → Type 0
Request echo = EchoReq
Request login = LoginReq
Request chat = ChatReq
Request chat_filter = ChatFilterReq
Request player_move = PlayerMoveReq
Request player_info = PlayerInfoReq
Request attack = AttackReq
Request skill_use = SkillUseReq
Request map_enter = MapEnterReq
Request map_leave = MapLeaveReq
Request map_info = MapInfoReq
Request guild_create = GuildCreateReq
Request guild_join = GuildJoinReq
Request guild_leave = GuildLeaveReq
Request guild_info = GuildInfoReq
Request guild_member_list = GuildMemberListReq

unfoldable pub parse_request : (k : RequestKind) → Parser (Request k)
parse_request echo = parse_echo_req
parse_request login = parse_login_req
parse_request chat = parse_chat_req
parse_request chat_filter = parse_chat_filter_req
parse_request player_move = parse_player_move_req
parse_request player_info = parse_player_info_req
parse_request attack = parse_attack_req
parse_request skill_use = parse_skill_use_req
parse_request map_enter = parse_map_enter_req
parse_request map_leave = parse_map_leave_req
parse_request map_info = parse_map_info_req
parse_request guild_create = parse_guild_create_req
parse_request guild_join = parse_guild_join_req
parse_request guild_leave = parse_guild_leave_req
parse_request guild_info = parse_guild_info_req
parse_request guild_member_list = parse_guild_member_list_req

parse_request-Stays : (k : RequestKind) → Stays 0 (parse_request k)
unfolding parse_request parse_echo_req parse_login_req parse_chat_req parse_chat_filter_req
    parse_player_move_req parse_player_info_req parse_attack_req parse_skill_use_req
    parse_map_enter_req parse_map_leave_req parse_map_info_req parse_guild_create_req
    parse_guild_join_req parse_guild_leave_req parse_guild_info_req parse_guild_member_list_req
parse_request-Stays echo = search checked_reads depth 20
parse_request-Stays login = search checked_reads depth 20
parse_request-Stays chat = search checked_reads depth 20
parse_request-Stays chat_filter = search checked_reads depth 20
parse_request-Stays player_move = search checked_reads depth 20
parse_request-Stays player_info = search checked_reads depth 20
parse_request-Stays attack = search checked_reads depth 20
parse_request-Stays skill_use = search checked_reads depth 20
parse_request-Stays map_enter = search checked_reads depth 20
parse_request-Stays map_leave = search checked_reads depth 20
parse_request-Stays map_info = search checked_reads depth 20
parse_request-Stays guild_create = search checked_reads depth 20
parse_request-Stays guild_join = search checked_reads depth 20
parse_request-Stays guild_leave = search checked_reads depth 20
parse_request-Stays guild_info = search checked_reads depth 20
parse_request-Stays guild_member_list = search checked_reads depth 20

-- The parser of a request never reads past the end of the payload, whatever bytes a client sends.
pub parse_request-ne-fault : (k : RequestKind) (s : List ℕ) → parse_request k s ≢ fault
parse_request-ne-fault k s = (parse_request-Stays k).stays s (omega arith)
