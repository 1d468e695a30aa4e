-- ===== src/Protocol/Base/RoundTrip.antt =====
-- The messages of common/protocol/protocol_base.hpp as Message gathers them: serialized and parsed.
use ecs_asio_server.Common.{ℕ, List, ◌++◌, ◌≡◌}
use ecs_asio_server.Wire.{ok, IsU32, IsText, run_parser, ◌>>=◌, map_parser}
use ecs_asio_server.Protocol.Base.Defs.{
  EchoReq, serialize_echo_req, parse_echo_req, EchoRes, serialize_echo_res, parse_echo_res,
  LoginReq, serialize_login_req, parse_login_req, LoginRes, serialize_login_res, parse_login_res,
}
use ecs_asio_server.Protocol.Base.Message.{BaseMessage, Fits, kind, serialize, parse}

parse-serialize_echo_req :
    (m : EchoReq) (rest : List ℕ)
    → IsText m.text
    → parse_echo_req (serialize_echo_req m ++ rest) ≡ ok m rest
unfolding parse_echo_req serialize_echo_req
parse-serialize_echo_req m rest h = simp (run_parser, h)

parse-serialize_echo_res :
    (m : EchoRes) (rest : List ℕ)
    → IsText m.text
    → parse_echo_res (serialize_echo_res m ++ rest) ≡ ok m rest
unfolding parse_echo_res serialize_echo_res
parse-serialize_echo_res m rest h = simp (run_parser, h)

parse-serialize_login_req :
    (m : LoginReq) (rest : List ℕ)
    → IsText m.player_name × IsText m.session_token
    → parse_login_req (serialize_login_req m ++ rest) ≡ ok m rest
unfolding parse_login_req serialize_login_req
parse-serialize_login_req m rest h = simp (run_parser, h.0, h.1)

parse-serialize_login_res :
    (m : LoginRes) (rest : List ℕ)
    → IsText m.message × IsU32 m.player_id × IsU32 m.map_id
    → parse_login_res (serialize_login_res m ++ rest) ≡ ok m rest
unfolding parse_login_res serialize_login_res
parse-serialize_login_res m rest h = simp (run_parser, h.0, h.1, h.2)

-- Every message of protocol_base.hpp whose fields fit is read back from what it is serialized to, whatever
-- bytes follow it, and those bytes are left.
pub parse-serialize_base :
    (m : BaseMessage) (rest : List ℕ) → Fits m → parse (kind m) (serialize m ++ rest) ≡ ok m rest
unfolding parse kind serialize map_parser
parse-serialize_base (BaseMessage.echo_req m) rest h = rw (◌>>=◌, parse-serialize_echo_req m rest h)
parse-serialize_base (BaseMessage.echo_res m) rest h = rw (◌>>=◌, parse-serialize_echo_res m rest h)
parse-serialize_base (BaseMessage.login_req m) rest h =
    rw (◌>>=◌, parse-serialize_login_req m rest h)
parse-serialize_base (BaseMessage.login_res m) rest h =
    rw (◌>>=◌, parse-serialize_login_res m rest h)
