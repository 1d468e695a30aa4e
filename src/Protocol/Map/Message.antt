-- ===== src/Protocol/Map/Message.antt =====
-- One message of common/protocol/protocol_map.hpp: its struct, its serialize() and the parse() that its kind
-- selects.
use ecs_asio_server.Common.{ℕ, List}
use ecs_asio_server.Wire.{Parser, map_parser, IsU32, IsText}
use ecs_asio_server.Protocol.Map.Defs.{
  MapEnterReq, serialize_map_enter_req, parse_map_enter_req, MapEnterRes, serialize_map_enter_res,
  parse_map_enter_res, MapLeaveReq, serialize_map_leave_req, parse_map_leave_req, MapLeaveRes,
  serialize_map_leave_res, parse_map_leave_res, MapObjectInfo, serialize_map_object_info,
  parse_map_object_info, MapInfoReq, serialize_map_info_req, parse_map_info_req, MapInfoRes,
  serialize_map_info_res, parse_map_info_res,
}

pub data MapKind : Type 0 where
  map_enter_req map_enter_res map_leave_req map_leave_res map_object_info map_info_req
        map_info_res :
      MapKind

pub data MapMessage : Type 0 where
  map_enter_req : MapEnterReq → MapMessage
  map_enter_res : MapEnterRes → MapMessage
  map_leave_req : MapLeaveReq → MapMessage
  map_leave_res : MapLeaveRes → MapMessage
  map_object_info : MapObjectInfo → MapMessage
  map_info_req : MapInfoReq → MapMessage
  map_info_res : MapInfoRes → MapMessage

unfoldable pub kind : MapMessage → MapKind
kind (MapMessage.map_enter_req m) = MapKind.map_enter_req
kind (MapMessage.map_enter_res m) = MapKind.map_enter_res
kind (MapMessage.map_leave_req m) = MapKind.map_leave_req
kind (MapMessage.map_leave_res m) = MapKind.map_leave_res
kind (MapMessage.map_object_info m) = MapKind.map_object_info
kind (MapMessage.map_info_req m) = MapKind.map_info_req
kind (MapMessage.map_info_res m) = MapKind.map_info_res

unfoldable pub serialize : MapMessage → List ℕ
serialize (MapMessage.map_enter_req m) = serialize_map_enter_req m
serialize (MapMessage.map_enter_res m) = serialize_map_enter_res m
serialize (MapMessage.map_leave_req m) = serialize_map_leave_req m
serialize (MapMessage.map_leave_res m) = serialize_map_leave_res m
serialize (MapMessage.map_object_info m) = serialize_map_object_info m
serialize (MapMessage.map_info_req m) = serialize_map_info_req m
serialize (MapMessage.map_info_res m) = serialize_map_info_res m

unfoldable pub parse : MapKind → Parser MapMessage
parse MapKind.map_enter_req = map_parser MapMessage.map_enter_req parse_map_enter_req
parse MapKind.map_enter_res = map_parser MapMessage.map_enter_res parse_map_enter_res
parse MapKind.map_leave_req = map_parser MapMessage.map_leave_req parse_map_leave_req
parse MapKind.map_leave_res = map_parser MapMessage.map_leave_res parse_map_leave_res
parse MapKind.map_object_info = map_parser MapMessage.map_object_info parse_map_object_info
parse MapKind.map_info_req = map_parser MapMessage.map_info_req parse_map_info_req
parse MapKind.map_info_res = map_parser MapMessage.map_info_res parse_map_info_res

-- The values that the fields of the struct can hold: 32 bits in a number, a length of 32 bits in a text.
abbrev pub Fits : MapMessage → Type 0
Fits (MapMessage.map_enter_req m) =
    IsU32 m.map_id × IsU32 m.x × IsU32 m.y × IsU32 m.z × IsU32 m.timestamp
Fits (MapMessage.map_enter_res m) =
    IsText m.message
    × IsU32 m.map_id
    × IsText m.map_name
    × IsU32 m.x
    × IsU32 m.y
    × IsU32 m.z
    × IsU32 m.player_count
Fits (MapMessage.map_leave_req m) = IsU32 m.map_id × IsU32 m.timestamp
Fits (MapMessage.map_leave_res m) = IsText m.message × IsU32 m.map_id
Fits (MapMessage.map_object_info m) =
    IsU32 m.object_id
    × IsText m.object_name
    × IsU32 m.x
    × IsU32 m.y
    × IsU32 m.z
    × IsU32 m.rotation
    × IsU32 m.level
    × IsU32 m.hp
    × IsU32 m.max_hp
Fits (MapMessage.map_info_req m) = IsU32 m.map_id
Fits (MapMessage.map_info_res m) =
    IsU32 m.map_id
    × IsText m.map_name
    × IsText m.map_description
    × IsU32 m.map_width
    × IsU32 m.map_height
    × IsU32 m.max_players
    × IsU32 m.current_players
    × IsU32 m.required_level
