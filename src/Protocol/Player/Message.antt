-- ===== src/Protocol/Player/Message.antt =====
-- One message of common/protocol/protocol_player.hpp: its struct, its serialize() and the parse() that its kind
-- selects.
use ecs_asio_server.Common.{ℕ, List}
use ecs_asio_server.Wire.{Parser, map_parser, IsU32, IsText}
use ecs_asio_server.Protocol.Player.Defs.{
  PlayerMoveReq, serialize_player_move_req, parse_player_move_req, PlayerMoveRes,
  serialize_player_move_res, parse_player_move_res, PlayerInfoReq, serialize_player_info_req,
  parse_player_info_req, PlayerInfoRes, serialize_player_info_res, parse_player_info_res,
  PlayerStatusUpdate, serialize_player_status_update, parse_player_status_update,
}

pub data PlayerKind : Type 0 where
  player_move_req player_move_res player_info_req player_info_res player_status_update : PlayerKind

pub data PlayerMessage : Type 0 where
  player_move_req : PlayerMoveReq → PlayerMessage
  player_move_res : PlayerMoveRes → PlayerMessage
  player_info_req : PlayerInfoReq → PlayerMessage
  player_info_res : PlayerInfoRes → PlayerMessage
  player_status_update : PlayerStatusUpdate → PlayerMessage

unfoldable pub kind : PlayerMessage → PlayerKind
kind (PlayerMessage.player_move_req m) = PlayerKind.player_move_req
kind (PlayerMessage.player_move_res m) = PlayerKind.player_move_res
kind (PlayerMessage.player_info_req m) = PlayerKind.player_info_req
kind (PlayerMessage.player_info_res m) = PlayerKind.player_info_res
kind (PlayerMessage.player_status_update m) = PlayerKind.player_status_update

unfoldable pub serialize : PlayerMessage → List ℕ
serialize (PlayerMessage.player_move_req m) = serialize_player_move_req m
serialize (PlayerMessage.player_move_res m) = serialize_player_move_res m
serialize (PlayerMessage.player_info_req m) = serialize_player_info_req m
serialize (PlayerMessage.player_info_res m) = serialize_player_info_res m
serialize (PlayerMessage.player_status_update m) = serialize_player_status_update m

unfoldable pub parse : PlayerKind → Parser PlayerMessage
parse PlayerKind.player_move_req = map_parser PlayerMessage.player_move_req parse_player_move_req
parse PlayerKind.player_move_res = map_parser PlayerMessage.player_move_res parse_player_move_res
parse PlayerKind.player_info_req = map_parser PlayerMessage.player_info_req parse_player_info_req
parse PlayerKind.player_info_res = map_parser PlayerMessage.player_info_res parse_player_info_res
parse PlayerKind.player_status_update =
    map_parser PlayerMessage.player_status_update parse_player_status_update

-- The values that the fields of the struct can hold: 32 bits in a number, a length of 32 bits in a text.
abbrev pub Fits : PlayerMessage → Type 0
Fits (PlayerMessage.player_move_req m) =
    IsU32 m.x × IsU32 m.y × IsU32 m.z × IsU32 m.rotation × IsU32 m.timestamp
Fits (PlayerMessage.player_move_res m) =
    IsU32 m.player_id × IsU32 m.x × IsU32 m.y × IsU32 m.z × IsU32 m.rotation × IsU32 m.timestamp
Fits (PlayerMessage.player_info_req m) = IsU32 m.player_id
Fits (PlayerMessage.player_info_res m) =
    IsU32 m.player_id
    × IsText m.player_name
    × IsU32 m.level
    × IsU32 m.experience
    × IsU32 m.x
    × IsU32 m.y
    × IsU32 m.z
    × IsU32 m.rotation
    × IsU32 m.map_id
Fits (PlayerMessage.player_status_update m) = IsU32 m.player_id × IsU32 m.status × IsU32 m.timestamp
