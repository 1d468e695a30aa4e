-- ===== src/Protocol/Guild/RoundTrip.antt =====
-- The messages of common/protocol/protocol_guild.hpp as Message gathers them: serialized and parsed.
use ecs_asio_server.Common.{ℕ, List, ◌++◌, ◌≡◌, ◌≤◌, length}
use ecs_asio_server.Wire.{ok, IsU32, IsText, sizes, run_parser, need_front, ◌>>=◌, map_parser, ◌>>◌}
use ecs_asio_server.Protocol.Guild.Defs.{
  GuildCreateReq, serialize_guild_create_req, parse_guild_create_req, GuildCreateRes,
  serialize_guild_create_res, parse_guild_create_res, GuildJoinReq, serialize_guild_join_req,
  parse_guild_join_req, GuildJoinRes, serialize_guild_join_res, parse_guild_join_res, GuildLeaveReq,
  serialize_guild_leave_req, parse_guild_leave_req, GuildLeaveRes, serialize_guild_leave_res,
  parse_guild_leave_res, GuildInfoReq, serialize_guild_info_req, parse_guild_info_req,
  GuildMemberListReq, serialize_guild_member_list_req, parse_guild_member_list_req,
}
use ecs_asio_server.Protocol.Guild.Message.{GuildMessage, Fits, kind, serialize, parse}

parse-serialize_guild_create_req :
    (m : GuildCreateReq) (rest : List ℕ)
    → IsText m.guild_name × IsText m.guild_description × IsU32 m.max_members
    → parse_guild_create_req (serialize_guild_create_req m ++ rest) ≡ ok m rest
unfolding parse_guild_create_req serialize_guild_create_req
parse-serialize_guild_create_req m rest h = simp (run_parser, h.0, h.1, h.2)

parse-serialize_guild_create_res :
    (m : GuildCreateRes) (rest : List ℕ)
    → IsText m.message × IsU32 m.guild_id
    → parse_guild_create_res (serialize_guild_create_res m ++ rest) ≡ ok m rest
unfolding parse_guild_create_res serialize_guild_create_res
parse-serialize_guild_create_res m rest h = simp (run_parser, h.0, h.1)

parse-serialize_guild_join_req :
    (m : GuildJoinReq) (rest : List ℕ)
    → IsU32 m.guild_id × IsText m.application_message
    → parse_guild_join_req (serialize_guild_join_req m ++ rest) ≡ ok m rest
unfolding parse_guild_join_req serialize_guild_join_req
parse-serialize_guild_join_req m rest h = simp (run_parser, h.0, h.1)

parse-serialize_guild_join_res :
    (m : GuildJoinRes) (rest : List ℕ)
    → IsText m.message × IsU32 m.application_id
    → parse_guild_join_res (serialize_guild_join_res m ++ rest) ≡ ok m rest
unfolding parse_guild_join_res serialize_guild_join_res
parse-serialize_guild_join_res m rest h = simp (run_parser, h.0, h.1)

parse-serialize_guild_leave_req :
    (m : GuildLeaveReq) (rest : List ℕ)
    → IsU32 m.guild_id × IsText m.reason
    → parse_guild_leave_req (serialize_guild_leave_req m ++ rest) ≡ ok m rest
unfolding parse_guild_leave_req serialize_guild_leave_req
parse-serialize_guild_leave_req m rest h = simp (run_parser, h.0, h.1)

parse-serialize_guild_leave_res :
    (m : GuildLeaveRes) (rest : List ℕ)
    → IsText m.message
    → parse_guild_leave_res (serialize_guild_leave_res m ++ rest) ≡ ok m rest
unfolding parse_guild_leave_res serialize_guild_leave_res
parse-serialize_guild_leave_res m rest h = simp (run_parser, h)

parse-serialize_guild_info_req :
    (m : GuildInfoReq) (rest : List ℕ)
    → IsU32 m.guild_id
    → parse_guild_info_req (serialize_guild_info_req m ++ rest) ≡ ok m rest
unfolding parse_guild_info_req serialize_guild_info_req
parse-serialize_guild_info_req m rest h = simp (run_parser, h)

guild_member_list_req_size :
    (m : GuildMemberListReq) → 12 ≤ length (serialize_guild_member_list_req m)
unfolding serialize_guild_member_list_req
guild_member_list_req_size m = omega sizes

parse-serialize_guild_member_list_req :
    (m : GuildMemberListReq) (rest : List ℕ)
    → IsU32 m.guild_id × IsU32 m.page × IsU32 m.page_size
    → parse_guild_member_list_req (serialize_guild_member_list_req m ++ rest) ≡ ok m rest
unfolding parse_guild_member_list_req
parse-serialize_guild_member_list_req m rest h =
    rw
      (
        need_front 12 (serialize_guild_member_list_req m) (guild_member_list_req_size m),
        ◌>>=◌,
        ◌>>◌,
      )
      (unfold serialize_guild_member_list_req in simp (run_parser, h.0, h.1, h.2))

-- Every message of protocol_guild.hpp whose fields fit is read back from what it is serialized to, whatever
-- bytes follow it, and those bytes are left.
pub parse-serialize_guild :
    (m : GuildMessage) (rest : List ℕ) → Fits m → parse (kind m) (serialize m ++ rest) ≡ ok m rest
unfolding parse kind serialize map_parser
parse-serialize_guild (GuildMessage.guild_create_req m) rest h =
    rw (◌>>=◌, parse-serialize_guild_create_req m rest h)
parse-serialize_guild (GuildMessage.guild_create_res m) rest h =
    rw (◌>>=◌, parse-serialize_guild_create_res m rest h)
parse-serialize_guild (GuildMessage.guild_join_req m) rest h =
    rw (◌>>=◌, parse-serialize_guild_join_req m rest h)
parse-serialize_guild (GuildMessage.guild_join_res m) rest h =
    rw (◌>>=◌, parse-serialize_guild_join_res m rest h)
parse-serialize_guild (GuildMessage.guild_leave_req m) rest h =
    rw (◌>>=◌, parse-serialize_guild_leave_req m rest h)
parse-serialize_guild (GuildMessage.guild_leave_res m) rest h =
    rw (◌>>=◌, parse-serialize_guild_leave_res m rest h)
parse-serialize_guild (GuildMessage.guild_info_req m) rest h =
    rw (◌>>=◌, parse-serialize_guild_info_req m rest h)
parse-serialize_guild (GuildMessage.guild_member_list_req m) rest h =
    rw (◌>>=◌, parse-serialize_guild_member_list_req m rest h)
