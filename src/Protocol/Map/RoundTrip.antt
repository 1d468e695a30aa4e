-- ===== src/Protocol/Map/RoundTrip.antt =====
-- The messages of common/protocol/protocol_map.hpp as Message gathers them: serialized and parsed.
use ecs_asio_server.Common.{ℕ, List, ◌++◌, ◌≡◌, ◌≤◌, length}
use ecs_asio_server.Wire.{ok, IsU32, IsText, sizes, run_parser, need_front, ◌>>=◌, map_parser, ◌>>◌}
use ecs_asio_server.Protocol.Map.Defs.{
  MapEnterReq, serialize_map_enter_req, parse_map_enter_req, MapEnterRes, serialize_map_enter_res,
  parse_map_enter_res, MapLeaveReq, serialize_map_leave_req, parse_map_leave_req, MapLeaveRes,
  serialize_map_leave_res, parse_map_leave_res, MapObjectInfo, serialize_map_object_info,
  parse_map_object_info, MapInfoReq, serialize_map_info_req, parse_map_info_req, MapInfoRes,
  serialize_map_info_res, parse_map_info_res,
}
use ecs_asio_server.Protocol.Map.Message.{MapMessage, Fits, kind, serialize, parse}

map_enter_req_size : (m : MapEnterReq) → 20 ≤ length (serialize_map_enter_req m)
unfolding serialize_map_enter_req
map_enter_req_size m = omega sizes

parse-serialize_map_enter_req :
    (m : MapEnterReq) (rest : List ℕ)
    → IsU32 m.map_id × IsU32 m.x × IsU32 m.y × IsU32 m.z × IsU32 m.timestamp
    → parse_map_enter_req (serialize_map_enter_req m ++ rest) ≡ ok m rest
unfolding parse_map_enter_req
parse-serialize_map_enter_req m rest h =
    rw (need_front 20 (serialize_map_enter_req m) (map_enter_req_size m), ◌>>=◌, ◌>>◌)
      (unfold serialize_map_enter_req in simp (run_parser, h.0, h.1, h.2, h.3, h.4))

map_enter_res_size : (m : MapEnterRes) → 20 ≤ length (serialize_map_enter_res m)
unfolding serialize_map_enter_res
map_enter_res_size m = omega sizes

parse-serialize_map_enter_res :
    (m : MapEnterRes) (rest : List ℕ)
    → IsText m.message
      × IsU32 m.map_id
      × IsText m.map_name
      × IsU32 m.x
      × IsU32 m.y
      × IsU32 m.z
      × IsU32 m.player_count
    → parse_map_enter_res (serialize_map_enter_res m ++ rest) ≡ ok m rest
unfolding parse_map_enter_res
parse-serialize_map_enter_res m rest h =
    rw (need_front 20 (serialize_map_enter_res m) (map_enter_res_size m), ◌>>=◌, ◌>>◌)
      (unfold serialize_map_enter_res in simp (run_parser, h.0, h.1, h.2, h.3, h.4, h.5, h.6))

parse-serialize_map_leave_req :
    (m : MapLeaveReq) (rest : List ℕ)
    → IsU32 m.map_id × IsU32 m.timestamp
    → parse_map_leave_req (serialize_map_leave_req m ++ rest) ≡ ok m rest
unfolding parse_map_leave_req serialize_map_leave_req
parse-serialize_map_leave_req m rest h = simp (run_parser, h.0, h.1)

map_leave_res_size : (m : MapLeaveRes) → 8 ≤ length (serialize_map_leave_res m)
unfolding serialize_map_leave_res
map_leave_res_size m = omega sizes

parse-serialize_map_leave_res :
    (m : MapLeaveRes) (rest : List ℕ)
    → IsText m.message × IsU32 m.map_id
    → parse_map_leave_res (serialize_map_leave_res m ++ rest) ≡ ok m rest
unfolding parse_map_leave_res
parse-serialize_map_leave_res m rest h =
    rw (need_front 8 (serialize_map_leave_res m) (map_leave_res_size m), ◌>>=◌, ◌>>◌)
      (unfold serialize_map_leave_res in simp (run_parser, h.0, h.1))

map_object_info_size : (m : MapObjectInfo) → 28 ≤ length (serialize_map_object_info m)
unfolding serialize_map_object_info
map_object_info_size m = omega sizes

pub parse-serialize_map_object_info :
    (m : MapObjectInfo) (rest : List ℕ)
    → IsU32 m.object_id
      × IsText m.object_name
      × IsU32 m.x
      × IsU32 m.y
      × IsU32 m.z
      × IsU32 m.rotation
      × IsU32 m.level
      × IsU32 m.hp
      × IsU32 m.max_hp
    → parse_map_object_info (serialize_map_object_info m ++ rest) ≡ ok m rest
unfolding parse_map_object_info
parse-serialize_map_object_info m rest h =
    rw (need_front 28 (serialize_map_object_info m) (map_object_info_size m), ◌>>=◌, ◌>>◌)
      (unfold serialize_map_object_info in
        simp (run_parser, h.0, h.1, h.2, h.3, h.4, h.5, h.6, h.7, h.8))

parse-serialize_map_info_req :
    (m : MapInfoReq) (rest : List ℕ)
    → IsU32 m.map_id
    → parse_map_info_req (serialize_map_info_req m ++ rest) ≡ ok m rest
unfolding parse_map_info_req serialize_map_info_req
parse-serialize_map_info_req m rest h = simp (run_parser, h)

map_info_res_size : (m : MapInfoRes) → 24 ≤ length (serialize_map_info_res m)
unfolding serialize_map_info_res
map_info_res_size m = omega sizes

parse-serialize_map_info_res :
    (m : MapInfoRes) (rest : List ℕ)
    → IsU32 m.map_id
      × IsText m.map_name
      × IsText m.map_description
      × IsU32 m.map_width
      × IsU32 m.map_height
      × IsU32 m.max_players
      × IsU32 m.current_players
      × IsU32 m.required_level
    → parse_map_info_res (serialize_map_info_res m ++ rest) ≡ ok m rest
unfolding parse_map_info_res
parse-serialize_map_info_res m rest h =
    rw (need_front 24 (serialize_map_info_res m) (map_info_res_size m), ◌>>=◌, ◌>>◌)
      (unfold serialize_map_info_res in simp (run_parser, h.0, h.1, h.2, h.3, h.4, h.5, h.6, h.7))

-- Every message of protocol_map.hpp whose fields fit is read back from what it is serialized to, whatever
-- bytes follow it, and those bytes are left.
pub parse-serialize_map :
    (m : MapMessage) (rest : List ℕ) → Fits m → parse (kind m) (serialize m ++ rest) ≡ ok m rest
unfolding parse kind serialize map_parser
parse-serialize_map (MapMessage.map_enter_req m) rest h =
    rw (◌>>=◌, parse-serialize_map_enter_req m rest h)
parse-serialize_map (MapMessage.map_enter_res m) rest h =
    rw (◌>>=◌, parse-serialize_map_enter_res m rest h)
parse-serialize_map (MapMessage.map_leave_req m) rest h =
    rw (◌>>=◌, parse-serialize_map_leave_req m rest h)
parse-serialize_map (MapMessage.map_leave_res m) rest h =
    rw (◌>>=◌, parse-serialize_map_leave_res m rest h)
parse-serialize_map (MapMessage.map_object_info m) rest h =
    rw (◌>>=◌, parse-serialize_map_object_info m rest h)
parse-serialize_map (MapMessage.map_info_req m) rest h =
    rw (◌>>=◌, parse-serialize_map_info_req m rest h)
parse-serialize_map (MapMessage.map_info_res m) rest h =
    rw (◌>>=◌, parse-serialize_map_info_res m rest h)
