-- ===== src/Protocol/Base/Message.antt =====
-- One message of common/protocol/protocol_base.hpp: its struct, its serialize() and the parse() that its kind
-- selects.
use ecs_asio_server.Common.{ℕ, List}
use ecs_asio_server.Wire.{Parser, map_parser, IsU32, IsText}
use ecs_asio_server.Protocol.Base.Defs.{
  EchoReq, serialize_echo_req, parse_echo_req, EchoRes, serialize_echo_res, parse_echo_res,
  LoginReq, serialize_login_req, parse_login_req, LoginRes, serialize_login_res, parse_login_res,
}

pub data BaseKind : Type 0 where
  echo_req echo_res login_req login_res : BaseKind

pub data BaseMessage : Type 0 where
  echo_req : EchoReq → BaseMessage
  echo_res : EchoRes → BaseMessage
  login_req : LoginReq → BaseMessage
  login_res : LoginRes → BaseMessage

unfoldable pub kind : BaseMessage → BaseKind
kind (BaseMessage.echo_req m) = BaseKind.echo_req
kind (BaseMessage.echo_res m) = BaseKind.echo_res
kind (BaseMessage.login_req m) = BaseKind.login_req
kind (BaseMessage.login_res m) = BaseKind.login_res

unfoldable pub serialize : BaseMessage → List ℕ
serialize (BaseMessage.echo_req m) = serialize_echo_req m
serialize (BaseMessage.echo_res m) = serialize_echo_res m
serialize (BaseMessage.login_req m) = serialize_login_req m
serialize (BaseMessage.login_res m) = serialize_login_res m

unfoldable pub parse : BaseKind → Parser BaseMessage
parse BaseKind.echo_req = map_parser BaseMessage.echo_req parse_echo_req
parse BaseKind.echo_res = map_parser BaseMessage.echo_res parse_echo_res
parse BaseKind.login_req = map_parser BaseMessage.login_req parse_login_req
parse BaseKind.login_res = map_parser BaseMessage.login_res parse_login_res

-- The values that the fields of the struct can hold: 32 bits in a number, a length of 32 bits in a text.
abbrev pub Fits : BaseMessage → Type 0
Fits (BaseMessage.echo_req m) = IsText m.text
Fits (BaseMessage.echo_res m) = IsText m.text
Fits (BaseMessage.login_req m) = IsText m.player_name × IsText m.session_token
Fits (BaseMessage.login_res m) = IsText m.message × IsU32 m.player_id × IsU32 m.map_id
